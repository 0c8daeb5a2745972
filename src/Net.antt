-- ===== src/Net.antt =====
-- net/: the pool of connections to a node.
pub mod ConnectionPool
pub mod PoolInvariant
pub mod PoolRun
pub mod PoolQueues
pub mod PoolRound
