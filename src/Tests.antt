-- ===== src/Tests.antt =====
-- Runs of the theorems on concrete inputs. The crates that the client calls are given by concrete
-- functions here.
mod Crates
mod Packing
mod Sending
mod Operating
mod Pooling
mod Filtering
mod Refusing
mod Retrying
mod Scanning
mod Batching
mod Querying
