-- ===== src/Operations/CdtBuilder.antt =====
-- operations/: the shape that the builders of collection operations share, an `Operation` over a
-- `CdtOperation` with the encoder of its family on a named bin.
use aerospike_client_rust.Base.{ℕ, Bool, true, false, if◌then◌else◌, List, [], ◌∷◌}
use aerospike_client_rust.Value.{Value, Values, no_values, values, is_nil}
use aerospike_client_rust.Operations.{
  CdtContext, CdtArgument, CdtOperation, OperationEncoder, OperationType,
}
use aerospike_client_rust.Operations.Whole.{Operation, OperationData, OperationBin}

abbrev on_bin :
    {F : Type 0}
    → (CdtOperation → OperationData F)
    → OperationEncoder
    → OperationType
    → List CdtContext
    → List ℕ
    → ℕ
    → List CdtArgument
    → Operation F
on_bin wrap encoder type ctx bin op args = record {
  op = type;
  ctx = ctx;
  bin = OperationBin.name bin;
  op_data = wrap (record { op = op; encoder = encoder; args = args });
}

abbrev pub list_operation :
    {F : Type 0} → OperationType → List CdtContext → List ℕ → ℕ → List CdtArgument → Operation F
list_operation = on_bin OperationData.cdt_list_op OperationEncoder.pack_cdt_op

abbrev pub map_operation :
    {F : Type 0} → OperationType → List CdtContext → List ℕ → ℕ → List CdtArgument → Operation F
map_operation = on_bin OperationData.cdt_map_op OperationEncoder.pack_cdt_op

abbrev pub bit_operation :
    {F : Type 0} → OperationType → List CdtContext → List ℕ → ℕ → List CdtArgument → Operation F
bit_operation = on_bin OperationData.cdt_bit_op OperationEncoder.pack_cdt_bit_op

abbrev pub hll_operation :
    {F : Type 0} → OperationType → List CdtContext → List ℕ → ℕ → List CdtArgument → Operation F
hll_operation = on_bin OperationData.hll_op OperationEncoder.pack_hll_op

-- `if !value.is_nil() { args.push(CdtArgument::Value(value)) }`
unfoldable pub unless_nil : Value → List CdtArgument
unless_nil v = if is_nil v then [] else CdtArgument.value v ∷ []

unfoldable pub is_empty_values : Values → Bool
is_empty_values no_values = true
is_empty_values (values v vs) = false
