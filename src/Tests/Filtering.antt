-- ===== src/Tests/Filtering.antt =====
-- Filter expressions and operations that builders return, packed and sent.
use aerospike_client_rust.Base.{◌+◌, ◌≡◌, refl, true, false, Option, some, List, [], ◌∷◌, ◌++◌, pos}
use aerospike_client_rust.Value.{Value}
use aerospike_client_rust.Value.Wire.{IsStorable}
use aerospike_client_rust.Value.Display.{Formatting, as_string}
use aerospike_client_rust.Msgpack.Pack.{Packs}
use aerospike_client_rust.Msgpack.Format.{IsPackable, encode, encode_int, header}
use aerospike_client_rust.Operations.{CdtContext}
use aerospike_client_rust.Operations.Contexts.{ctx_map_key}
use aerospike_client_rust.Operations.ListTypes.{ListOrderType, ListWriteFlags}
use aerospike_client_rust.Operations.Lists
use aerospike_client_rust.Operations.Exp
use aerospike_client_rust.Operations.Exp.{ExpReadFlags}
use aerospike_client_rust.Operations.Whole.{Operation}
use aerospike_client_rust.Operations.Built.ListWrites.{IsListWrite}
use aerospike_client_rust.Operations.Built.Whole.{IsBuilt, AreBuilt, IsRightBuilt, built-IsRight}
use aerospike_client_rust.Policy.{
  WritePolicy, Priority, ConsistencyLevel, RecordExistsAction, GenerationPolicy, CommitLevel,
  Expiration,
}
use aerospike_client_rust.Expressions.ExpOp
use aerospike_client_rust.Expressions.ExpType
use aerospike_client_rust.Expressions.ExpType.{ExpType}
use aerospike_client_rust.Expressions.Filter.{FilterExpression, exp_list, new}
use aerospike_client_rust.Expressions.Filters.{filters}
use aerospike_client_rust.Expressions.Packing.{pack}
use aerospike_client_rust.Expressions.Tree.{
  flatten, flatten_each, trees, command_tree, given, each_tree, first_trees, append_nodes,
  length_nodes,
}
use aerospike_client_rust.Expressions.Values
use aerospike_client_rust.Expressions.Operators
use aerospike_client_rust.Expressions.ListQueries
use aerospike_client_rust.Expressions.WellFormed.{
  IsGiven, IsPackableValue, HasShape, IsCommand, IsExpression, IsDefinition, IsFirst,
  AreExpressions, IsScope,
}
use aerospike_client_rust.Expressions.Packed.{pack-IsExpression}
use aerospike_client_rust.Expressions.Made.ListReads.{IsListQuery}
use aerospike_client_rust.Expressions.Made.Whole
use aerospike_client_rust.Expressions.Made.Whole.{IsMade}
use aerospike_client_rust.Commands.Operate.{set_operate}
use aerospike_client_rust.Commands.Built.Attributes.{
  read_bits, operate_bits, any_writes, any_answers, only_reads, answers,
}
use aerospike_client_rust.Commands.Built.Frames.{built}
use aerospike_client_rust.Commands.Built.Layout.{
  key_count, filter_count, key_fields, filter_field, IsKey, IsUserKey,
}
use aerospike_client_rust.Commands.Built.Operations.{all_operations}
use aerospike_client_rust.Commands.Built.Operated.{operate_head, sends_key}
use aerospike_client_rust.Commands.Built.Filtered.{HasMadeFilter, set_operate-built}
use aerospike_client_rust.Tests.Crates.{by_division}
use aerospike_client_rust.Tests.Sending.{a_buffer, a_key}

-- Floats, lists and maps are not printed in these tests.
instance abbrev by_nothing : Formatting
by_nothing = record { display_float = λ f. []; debug_list = λ vs. []; debug_map = λ es. [] }

-- let x = bin "n" in x > 5, with x defined once
abbrev a_scope : FilterExpression
a_scope = Operators.exp_let (
    exp_list (
      Operators.def (120 ∷ []) (Values.int_bin (110 ∷ []))
      ∷ Operators.gt (Operators.var (120 ∷ [])) (Values.int_val (pos 5))
      ∷ []))

a_scope-IsExpression : IsExpression a_scope
unfolding Operators.exp_let Operators.def Operators.gt Operators.var Values.int_bin Values.int_val
    new exp_list IsExpression IsDefinition IsFirst IsScope AreExpressions HasShape IsCommand IsGiven
    IsPackableValue IsPackable
a_scope-IsExpression = ((tt, tt), (tt, (tt, tt)))

-- The scope is an array of four: its code, the name, the definition and the comparison.
a_scope_bytes :
    flatten_each (trees a_scope)
    ≡ 0x94 ∷ 125 ∷ 0xa1 ∷ 120 ∷ 0x93 ∷ 81 ∷ 2 ∷ 0xa1 ∷ 110 ∷ 0x93 ∷ 3 ∷ 0x92 ∷ 124 ∷ 0xa1 ∷ 120 ∷ 5
      ∷ []
unfolding Operators.exp_let Operators.def Operators.gt Operators.var Values.int_bin Values.int_val
    new exp_list trees flatten flatten_each command_tree given each_tree first_trees append_nodes
    length_nodes as_string encode encode_int header ExpOp.code ExpType.code
a_scope_bytes = refl

pack-IsExpression_example : Packs (pack a_scope) (flatten_each (trees a_scope))
pack-IsExpression_example = pack-IsExpression a_scope a_scope-IsExpression

abbrev in_map : List CdtContext
in_map = ctx_map_key (Value.string (107 ∷ [])) ∷ []

abbrev a_query : FilterExpression
a_query = ListQueries.size (Values.list_bin (108 ∷ [])) in_map

a_query-IsMade : IsMade a_query
unfolding Values.list_bin ListQueries.size new IsExpression IsCommand IsGiven IsPackable ctx_map_key
a_query-IsMade = IsMade.list_query a_query (IsListQuery.size _ in_map (tt, tt) (tt, tt))

abbrev an_append : Operation FilterExpression
an_append =
    Lists.append (record { attributes = ListOrderType.ordered; flags = ListWriteFlags.add_unique })
      (108 ∷ []) (Value.int (pos 7))

an_append-IsBuilt : IsBuilt an_append
unfolding IsPackable
an_append-IsBuilt = IsBuilt.list_write an_append (IsListWrite.append _ _ _ tt)

built-IsRight_example : IsRightBuilt an_append an_append-IsBuilt
built-IsRight_example = built-IsRight an_append an_append-IsBuilt

abbrev built_operations : List (Operation FilterExpression)
built_operations = an_append ∷ Exp.read_exp (101 ∷ []) a_scope ExpReadFlags.default ∷ []

built_operations-AreBuilt : AreBuilt built_operations
unfolding AreBuilt
built_operations-AreBuilt = (
  an_append-IsBuilt,
  (IsBuilt.read_exp (101 ∷ []) a_scope ExpReadFlags.default a_scope-IsExpression, tt),
)

abbrev filtered_policy : WritePolicy FilterExpression
filtered_policy = record {
  base_policy = record {
    priority = Priority.default;
    consistency_level = ConsistencyLevel.consistency_one;
    timeout = Option.none;
    max_retries = some 2;
    sleep_between_retries = Option.none;
    filter_expression = Option.none;
  };
  record_exists_action = RecordExistsAction.update;
  generation_policy = GenerationPolicy.none;
  commit_level = CommitLevel.commit_all;
  generation = 0;
  expiration = Expiration.namespace_default;
  send_key = true;
  respond_per_each_op = false;
  durable_delete = false;
  filter_expression = some a_query;
}

filtered-IsKey : IsKey a_key (sends_key filtered_policy (operate_bits false built_operations))
unfolding operate_bits any_writes any_answers only_reads answers IsKey IsUserKey IsStorable
    Lists.append Exp.read_exp
filtered-IsKey = (refl, tt)

a_query-HasMadeFilter : HasMadeFilter (some a_query)
unfolding HasMadeFilter
a_query-HasMadeFilter = a_query-IsMade

set_operate-built_example :
    set_operate filtered_policy a_key built_operations a_buffer
    ≡ built a_buffer
        (operate_head filtered_policy
          (read_bits built_operations)
          (operate_bits false built_operations)
          (key_count a_key (sends_key filtered_policy (operate_bits false built_operations))
            + filter_count (some a_query))
          2)
        (key_fields a_key (sends_key filtered_policy (operate_bits false built_operations))
          ++ (filter_field (some a_query) ++ all_operations built_operations))
set_operate-built_example =
    set_operate-built filtered_policy a_key built_operations filtered-IsKey a_query-HasMadeFilter
      built_operations-AreBuilt a_buffer
