-- ===== src/Commands/Built/Filtered.antt =====
-- commands/buffer.rs with operations/ and expressions/: `set_operate` on what the builders of
-- operations and of filter expressions return.
use aerospike_client_rust.Base.{◌+◌, ◌%◌, ◌^◌, ◌≡◌, Option, none, some, List, ◌++◌, length}
use aerospike_client_rust.Buffer.{Buffer}
use aerospike_client_rust.Buffer.Endian.{Endian}
use aerospike_client_rust.Value.Display.{Formatting}
use aerospike_client_rust.Key.{Key}
use aerospike_client_rust.Policy.{WritePolicy}
use aerospike_client_rust.Operations.Whole.{Operation}
use aerospike_client_rust.Operations.Built.Whole.{AreBuilt, built-AreCarried}
use aerospike_client_rust.Expressions.Filter.{FilterExpression}
use aerospike_client_rust.Expressions.Filters.{filters}
use aerospike_client_rust.Expressions.Made.Whole.{IsMade, made-IsExpression}
use aerospike_client_rust.Commands.Operate.{set_operate}
use aerospike_client_rust.Commands.Built.Frames.{built}
use aerospike_client_rust.Commands.Built.Layout.{
  IsKey, IsFilter, key_count, filter_count, key_fields, filter_field,
}
use aerospike_client_rust.Commands.Built.Attributes.{read_bits, operate_bits}
use aerospike_client_rust.Commands.Built.Operations.{all_operations}
use aerospike_client_rust.Commands.Built.Operated.{operate_head, sends_key, set_operate-Builds}

unfoldable pub HasMadeFilter : Option FilterExpression → Type 0
HasMadeFilter none = Unit {0}
HasMadeFilter (some e) = IsMade e

module _ ⦃endian : Endian⦄ ⦃formatting : Formatting⦄ where
  made-IsFilter : (filter : Option FilterExpression) → HasMadeFilter filter → IsFilter filter
  unfolding HasMadeFilter IsFilter
  made-IsFilter none h = tt
  made-IsFilter (some e) h = made-IsExpression h

  -- `set_operate` on operations and a filter that the builders of the modules return, for a key
  -- with a digest of twenty bytes whose user key is storable if it is sent: whatever the buffer
  -- held, it then holds the message with the attributes collected from the operations, the fields
  -- of the key and of the filter, which is its tree, and every operation in order, if that is not
  -- longer than the largest buffer, and else the error says its size.
  pub set_operate-built :
      (policy : WritePolicy FilterExpression) (key : Key) (ops : List (Operation FilterExpression))
      → IsKey key (sends_key policy (operate_bits policy.respond_per_each_op ops))
      → HasMadeFilter policy.filter_expression
      → AreBuilt ops
      → (b : Buffer)
      → set_operate policy key ops b
        ≡ built b
            (operate_head policy
              (read_bits ops)
              (operate_bits policy.respond_per_each_op ops)
              (key_count key (sends_key policy (operate_bits policy.respond_per_each_op ops))
                + filter_count policy.filter_expression)
              (length ops % 2 ^ 16))
            (key_fields key (sends_key policy (operate_bits policy.respond_per_each_op ops))
              ++ (filter_field policy.filter_expression ++ all_operations ops))
  set_operate-built policy key ops hk hf ho b =
      set_operate-Builds policy key ops hk (made-IsFilter policy.filter_expression hf)
        (built-AreCarried ops ho) b
