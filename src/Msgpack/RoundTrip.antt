-- ===== src/Msgpack/RoundTrip.antt =====
-- msgpack/decoder.rs on what msgpack/encoder.rs wrote.
pub mod Words
pub mod Integers
pub mod Heads
pub mod Values
pub mod Whole
