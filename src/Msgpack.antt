-- ===== src/Msgpack.antt =====
-- msgpack/: the encoder and the decoder of list and map values.
pub mod Pack
pub mod Encoder
pub mod Decoder
pub mod Cdt
pub mod Format
pub mod Canonical
pub mod RoundTrip
pub mod Packed
