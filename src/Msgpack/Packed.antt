-- ===== src/Msgpack/Packed.antt =====
-- msgpack/encoder.rs against the reference: what each packer counts and writes.
pub mod Words
pub mod Integers
pub mod Values
pub mod Refused
pub mod Cdt
