-- ===== src/Buffer/Sizing.antt =====
-- commands/buffer.rs: a new buffer, the offset's resets, the resizing between the two passes of a
-- command, and `end`, which writes the size of the message into its first eight bytes.
use aerospike_client_rust.Base.{
  ℕ, ◌+◌, ◌-◌, ◌*◌, ◌%◌, ◌^◌, List, [], ◌++◌, length, take, replicate, ltb, if◌then◌else◌, bit_or,
  as_signed,
}
use aerospike_client_rust.Outcome.{ok, err, panic, pure, ◌>>◌, invalid_buffer_size}
use aerospike_client_rust.Buffer.{Buffer, M}
use aerospike_client_rust.Buffer.Endian.{Endian}
use aerospike_client_rust.Buffer.Writes.{write_i64}

abbrev pub msg_total_header_size : ℕ
msg_total_header_size = 30

abbrev pub max_buffer_size : ℕ
max_buffer_size = 1024 * 1024 + 8

abbrev pub cl_msg_version : ℕ
cl_msg_version = 2

abbrev pub as_msg_type : ℕ
as_msg_type = 3

unfoldable pub new : ℕ → Buffer
new reclaim_threshold = record {
  data_buffer = [];
  data_offset = 0;
  reclaim_threshold = reclaim_threshold;
}

unfoldable pub begin : M (Unit {0})
begin b = ok (tt, record b { data_offset = msg_total_header_size })

-- `Vec::resize(size, 0)`.
abbrev pub resize : ℕ → List ℕ → List ℕ
resize size d = take size d ++ replicate (size - length d) 0

unfoldable pub resize_buffer : ℕ → M (Unit {0})
resize_buffer size b =
    if ltb max_buffer_size size
    then err (invalid_buffer_size size)
    else ok (tt, record b { data_buffer = resize size b.data_buffer })

unfoldable pub size_buffer : M (Unit {0})
size_buffer b = resize_buffer b.data_offset b

unfoldable pub reset_offset : M (Unit {0})
reset_offset b = ok (tt, record b { data_offset = 0 })

-- `(data_offset - 8) as i64 | (version << 56) | (type << 48)`, as a pattern of 64 bits.
unfoldable pub size_word : ℕ → ℕ
size_word data_offset =
    bit_or (bit_or ((data_offset - 8) % 2 ^ 64) (cl_msg_version * 2 ^ 56)) (as_msg_type * 2 ^ 48)

module _ ⦃endian : Endian⦄ where
  unfoldable pub end : M (Unit {0})
  end b =
      if ltb b.data_offset 8
      then panic
      else (do reset_offset; write_i64 (as_signed (2 ^ 63) (size_word b.data_offset)); pure tt) b
