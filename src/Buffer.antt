-- ===== src/Buffer.antt =====
-- commands/buffer.rs: the data buffer, its sizing, and the writes and reads at its offset.
-- `byteorder::NetworkEndian` and `LittleEndian` are a third-party crate: `Endian`.
pub mod Endian
pub mod Sizing
pub mod Writes
pub mod Reads
pub mod Building
pub mod Parsing
pub mod Rewound
pub mod Sealed
pub mod Bounded
use aerospike_client_rust.Base.{ℕ, suc, ◌+◌, ◌≤◌, List, length, overwrite, ltb, leb, if◌then◌else◌}
use aerospike_client_rust.Outcome.{State, Outcome, ok, panic}

-- Of the vector's capacity only its length is kept: shrinking moves no byte.
pub record Buffer : Type 0 where
  pub data_buffer : List ℕ
  pub data_offset : ℕ
  pub reclaim_threshold : ℕ

abbrev pub M : Type 0 → Type 0
M A = State Buffer A

-- There is room for `n` bytes at the offset.
abbrev pub Fits : Buffer → ℕ → Type 0
Fits b n = b.data_offset + n ≤ length b.data_buffer

-- The bytes `bs` written at the offset, and the offset moved behind them.
unfoldable pub append : Buffer → List ℕ → Buffer
append b bs = record b {
  data_buffer = overwrite b.data_buffer b.data_offset bs;
  data_offset = b.data_offset + length bs;
}
