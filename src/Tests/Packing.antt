-- ===== src/Tests/Packing.antt =====
-- Packing and unpacking of concrete values, and the sizes of concrete buffers.
use aerospike_client_rust.Base.{
  ◌≤◌, ◌≡◌, refl, true, List, [], ◌∷◌, some, length, replicate, pos, negsuc, arith,
}
use aerospike_client_rust.Outcome.{ok}
use aerospike_client_rust.Buffer.{Buffer, Fits, append}
use aerospike_client_rust.Buffer.Sizing.{end}
use aerospike_client_rust.Buffer.Reads.{is_utf8, utf8_from, utf8_lead, read_msg_size}
use aerospike_client_rust.Buffer.Parsing.{Reads}
use aerospike_client_rust.Buffer.Rewound.{rewind}
use aerospike_client_rust.Buffer.Sealed.{read_msg_size-end}
use aerospike_client_rust.Value.{
  FloatValue, Value, Values, Entries, no_values, values, no_entries, entry, length_values,
  length_entries,
}
use aerospike_client_rust.Value.Convert.{is_hashable}
use aerospike_client_rust.Value.Wire.{
  payload, type_of, estimate_size, particle_type, write_to, IsStorable, write_to-estimate_size,
}
use aerospike_client_rust.Operations.{CdtContext, CdtArgument, CdtOperation, pack_cdt_op}
use aerospike_client_rust.Msgpack.Pack.{Packs}
use aerospike_client_rust.Msgpack.Encoder.{pack_value}
use aerospike_client_rust.Msgpack.Decoder.{unpack_value, unpack_value_list, unpack_value_map}
use aerospike_client_rust.Msgpack.Cdt.{run_encoder}
use aerospike_client_rust.Msgpack.Format.{
  encode, encode_int, encode_float, encode_bytes, encode_uint, header, IsPackable,
}
use aerospike_client_rust.Msgpack.Canonical.{canonical, IsSendable, nesting}
use aerospike_client_rust.Msgpack.Packed.Values.{pack_value-Packs}
use aerospike_client_rust.Msgpack.Packed.Cdt.{
  encode_op, ArgsPackable, ContextsPackable, run_encoder-Packs,
}
use aerospike_client_rust.Msgpack.RoundTrip.Values.{unpack_value-Reads}
use aerospike_client_rust.Msgpack.RoundTrip.Whole.{
  unpack_value_list-pack_value, unpack_value_map-pack_value,
}
use aerospike_client_rust.Tests.Crates.{by_division}

abbrev pub room : Buffer
room = record { data_buffer = replicate 64 7; data_offset = 3; reclaim_threshold = 0 }

-- [-33, "hé", [true, nil], 2.0]
abbrev some_values : Values
some_values = values (Value.int (negsuc 32)) (
    values (Value.string (104 ∷ 0xc3 ∷ 0xa9 ∷ [])) (
      values (Value.list (values (Value.bool true) (values Value.nil no_values)))
        (values (Value.float (FloatValue.f64 0x4000_0000_0000_0000)) no_values)))

-- {"k": 300, 7: [1]}
abbrev some_entries : Entries
some_entries =
    entry (Value.string (107 ∷ [])) (Value.int (pos 300))
      (entry (Value.uint 7) (Value.list (values (Value.int (pos 1)) no_values)) no_entries)

some_values-IsSendable : IsSendable (Value.list some_values)
unfolding IsSendable length_values is_utf8 utf8_from utf8_lead
some_values-IsSendable = (
  omega arith,
  (omega arith, ((refl, omega arith), ((omega arith, (tt, (tt, tt))), (omega arith, tt)))),
)

some_values-Fits : Fits room (length (encode (Value.list some_values)))
unfolding encode encode_int encode_float encode_bytes header length_values
some_values-Fits = omega arith

unpack_value_list-pack_value_example :
    (b' : Buffer) × (pack_value (Value.list some_values) (some room)
      ≡ ok (length (encode (Value.list some_values)), some b'))
    × (unpack_value_list (rewind b' 3) ≡ ok (canonical (Value.list some_values), b'))
unpack_value_list-pack_value_example =
    unpack_value_list-pack_value some_values room some_values-IsSendable some_values-Fits

some_entries-IsSendable : IsSendable (Value.hash_map some_entries)
unfolding IsSendable length_entries length_values is_utf8 utf8_from utf8_lead is_hashable
some_entries-IsSendable = (
  omega arith,
  (
    (refl, omega arith),
    refl,
    omega arith,
    (omega arith, refl, (omega arith, (omega arith, tt)), tt),
  ),
)

some_entries-Fits : Fits room (length (encode (Value.hash_map some_entries)))
unfolding encode encode_int encode_uint encode_bytes header length_values length_entries
some_entries-Fits = omega arith

unpack_value_map-pack_value_example :
    (b' : Buffer) × (pack_value (Value.hash_map some_entries) (some room)
      ≡ ok (length (encode (Value.hash_map some_entries)), some b'))
    × (unpack_value_map (rewind b' 3) ≡ ok (canonical (Value.hash_map some_entries), b'))
unpack_value_map-pack_value_example =
    unpack_value_map-pack_value some_entries room some_entries-IsSendable some_entries-Fits

some_entries-IsPackable : IsPackable (Value.hash_map some_entries)
unfolding IsPackable
some_entries-IsPackable = (tt, tt, (tt, (tt, tt), tt))

pack_value-Packs_example :
    Packs (pack_value (Value.hash_map some_entries)) (encode (Value.hash_map some_entries))
pack_value-Packs_example = pack_value-Packs (Value.hash_map some_entries) some_entries-IsPackable

some_values-nesting : nesting (Value.list some_values) ≤ 3
unfolding nesting
some_values-nesting = omega arith

unpack_value-Reads_example :
    Reads (unpack_value 3) (canonical (Value.list some_values)) (encode (Value.list some_values))
unpack_value-Reads_example =
    unpack_value-Reads (Value.list some_values) 3 some_values-IsSendable some_values-nesting

-- list.increment(3, 10) within the list at index 1
abbrev pub some_operation : CdtOperation
some_operation = record {
  op = 8;
  encoder = pack_cdt_op;
  args = CdtArgument.int (pos 3) ∷ CdtArgument.value (Value.int (pos 10)) ∷ [];
}

abbrev pub some_context : List CdtContext
some_context = record { id = 0x10; flags = 0; value = Value.int (pos 1) } ∷ []

some_operation-ArgsPackable : ArgsPackable some_operation.args
unfolding IsPackable
some_operation-ArgsPackable = (tt, (tt, tt))

some_context-ContextsPackable : ContextsPackable some_context
unfolding IsPackable
some_context-ContextsPackable = (tt, tt)

run_encoder-Packs_example :
    Packs
      (run_encoder pack_cdt_op some_operation some_context)
      (encode_op pack_cdt_op some_operation some_context)
run_encoder-Packs_example =
    run_encoder-Packs pack_cdt_op some_operation some_context some_operation-ArgsPackable
      some_context-ContextsPackable

read_msg_size-end_example :
    (c : Buffer) × (end (record room { data_offset = 40 }) ≡ ok (tt, c))
    × (read_msg_size (some 0) c ≡ ok (32, c))
read_msg_size-end_example =
    read_msg_size-end (record room { data_offset = 40 }) (omega arith) (omega arith) (omega arith)

some_values-IsStorable : IsStorable (Value.list some_values)
unfolding IsStorable IsPackable
some_values-IsStorable = (tt, (tt, ((tt, (tt, tt)), (tt, tt))))

some_payload-Fits : Fits room (length (payload (Value.list some_values)))
unfolding payload
some_payload-Fits = some_values-Fits

write_to-estimate_size_example :
    (estimate_size (Value.list some_values) ≡ ok (length (payload (Value.list some_values))))
    × (particle_type (Value.list some_values) ≡ ok (type_of (Value.list some_values)))
    × (write_to (Value.list some_values) room
        ≡ ok (
          length (payload (Value.list some_values)),
          append room (payload (Value.list some_values)),
        ))
write_to-estimate_size_example =
    write_to-estimate_size (Value.list some_values) room some_values-IsStorable some_payload-Fits
