-- ===== src/Commands.antt =====
-- commands/: the wire's type codes and the commands of the client.
pub mod ParticleType
pub mod FieldType
pub mod Sizes
pub mod Fields
pub mod Header
pub mod Requests
pub mod Scan
pub mod Batch
pub mod Query
pub mod Operate
pub mod Timeout
pub mod SingleCommand
pub mod Retried
pub mod Reached
pub mod Built
