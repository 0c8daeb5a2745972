-- ===== src/Commands/Built.antt =====
-- commands/buffer.rs: the commands on one record against the wire format.
pub mod Passes
pub mod Frames
pub mod Layout
pub mod Flags
pub mod Flagged
pub mod Estimated
pub mod Written
pub mod Operations
pub mod Headers
pub mod Heads
pub mod Messages
pub mod Reading
pub mod OperationWritten
pub mod Attributes
pub mod Collected
pub mod Operated
pub mod Filtered
pub mod Scanned
pub mod BatchHeaders
pub mod BatchLayout
pub mod BatchRows
pub mod BatchSize
pub mod Batched
pub mod QueryLayout
pub mod QueryEstimated
pub mod QueryWritten
pub mod Queried
