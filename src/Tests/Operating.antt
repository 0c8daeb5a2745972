-- ===== src/Tests/Operating.antt =====
-- A list of operations on a concrete key, and values read back from bins.
use aerospike_client_rust.Base.{ℕ, ◌+◌, ◌≡◌, refl, false, List, [], ◌∷◌, ◌++◌, length, pos, arith}
use aerospike_client_rust.Outcome.{ok}
use aerospike_client_rust.Buffer.{Buffer, Fits}
use aerospike_client_rust.Buffer.Reads.{is_utf8, utf8_from, utf8_lead}
use aerospike_client_rust.Buffer.Rewound.{rewind}
use aerospike_client_rust.Value.{Value}
use aerospike_client_rust.Value.Wire.{payload, type_of, write_to, IsStorable}
use aerospike_client_rust.Value.Particle.{bytes_to_particle}
use aerospike_client_rust.Value.Restored.{restored, bytes_to_particle-write_to}
use aerospike_client_rust.Msgpack.Canonical.{IsSendable}
use aerospike_client_rust.Msgpack.Format.{IsPackable}
use aerospike_client_rust.Operations.{OperationType}
use aerospike_client_rust.Operations.Whole.{
  ExpressionEncoder, OperationData, OperationBin, Operation,
}
use aerospike_client_rust.Commands.ParticleType
use aerospike_client_rust.Commands.Operate.{set_operate}
use aerospike_client_rust.Commands.Built.Attributes.{
  read_bits, operate_bits, any_writes, any_answers, only_reads, answers, reads_all, reads_header,
}
use aerospike_client_rust.Commands.Built.Frames.{built}
use aerospike_client_rust.Commands.Built.Layout.{
  IsKey, key_count, filter_count, key_fields, filter_field,
}
use aerospike_client_rust.Commands.Built.Operations.{all_operations, IsCarried, AreCarried}
use aerospike_client_rust.Commands.Built.Operated.{operate_head, sends_key, set_operate-Builds}
use aerospike_client_rust.Tests.Crates.{by_division, texts}
use aerospike_client_rust.Tests.Packing.{room, some_operation, some_context}
use aerospike_client_rust.Tests.Sending.{
  a_buffer, a_key, a_filter, write_policy, a_key-IsKey, a_filter-IsFilter,
}

-- Add 2 to the bin "n", change a list within the bin "l", evaluate an expression, read all bins.
abbrev some_operations : List (Operation (List ℕ))
some_operations =
    record {
      op = OperationType.incr;
      ctx = [];
      bin = OperationBin.name (110 ∷ []);
      op_data = OperationData.value (Value.int (pos 2));
    }
    ∷ record {
      op = OperationType.cdt_write;
      ctx = some_context;
      bin = OperationBin.name (108 ∷ []);
      op_data = OperationData.cdt_list_op some_operation;
    }
    ∷ record {
      op = OperationType.exp_read;
      ctx = [];
      bin = OperationBin.name (101 ∷ []);
      op_data =
          OperationData.exp_op
            (record { encoder = ExpressionEncoder.pack_read_exp; policy = pos 0; exp = 102 ∷ [] });
    }
    ∷ record {
      op = OperationType.read;
      ctx = [];
      bin = OperationBin.all;
      op_data = OperationData.none;
    }
    ∷ []

some_operations-AreCarried : AreCarried some_operations
unfolding AreCarried IsCarried IsStorable IsPackable
some_operations-AreCarried = (tt, (((tt, (tt, tt)), (tt, tt)), (tt, (tt, tt))))

some_reads : read_bits some_operations ≡ 3
unfolding read_bits only_reads reads_all reads_header
some_reads = refl

a_key-IsKey_operate : IsKey a_key (sends_key write_policy (operate_bits false some_operations))
unfolding operate_bits any_writes any_answers only_reads answers
a_key-IsKey_operate = a_key-IsKey

set_operate-Builds_example :
    set_operate write_policy a_key some_operations a_buffer
    ≡ built a_buffer
        (operate_head write_policy
          (read_bits some_operations)
          (operate_bits false some_operations)
          (key_count a_key (sends_key write_policy (operate_bits false some_operations))
            + filter_count a_filter)
          4)
        (key_fields a_key (sends_key write_policy (operate_bits false some_operations))
          ++ (filter_field a_filter ++ all_operations some_operations))
set_operate-Builds_example =
    set_operate-Builds write_policy a_key some_operations a_key-IsKey_operate a_filter-IsFilter
      some_operations-AreCarried a_buffer

abbrev a_text : Value
a_text = Value.string (104 ∷ 0xc3 ∷ 0xa9 ∷ [])

a_text-IsSendable : IsSendable a_text
unfolding IsSendable is_utf8 utf8_from utf8_lead
a_text-IsSendable = (refl, omega arith)

a_text-IsStorable : IsStorable a_text
unfolding IsStorable
a_text-IsStorable = tt

a_text-Fits : Fits room (length (payload a_text))
unfolding payload
a_text-Fits = omega arith

bytes_to_particle-write_to_example :
    (b' : Buffer) × (write_to a_text room ≡ ok (length (payload a_text), b'))
    × (bytes_to_particle
          (ParticleType.code (type_of a_text))
          (length (payload a_text))
          (rewind b' 3)
        ≡ ok (restored a_text, b'))
bytes_to_particle-write_to_example =
    bytes_to_particle-write_to a_text room a_text-IsStorable a_text-IsSendable a_text-Fits
