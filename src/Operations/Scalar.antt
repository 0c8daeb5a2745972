-- ===== src/Operations/Scalar.antt =====
-- operations/scalar.rs: the operations on whole bins.
use aerospike_client_rust.Base.{ℕ, List}
use aerospike_client_rust.Operations.{OperationType}
use aerospike_client_rust.Operations.Whole.{Operation, OperationData, OperationBin}
use aerospike_client_rust.Operations.Contexts.{default_ctx}
use aerospike_client_rust.Commands.Sizes.{Bin}

unfoldable pub get : {F : Type 0} → Operation F
get = record {
  op = OperationType.read;
  ctx = default_ctx;
  bin = OperationBin.all;
  op_data = OperationData.none;
}

unfoldable pub get_header : {F : Type 0} → Operation F
get_header = record {
  op = OperationType.read;
  ctx = default_ctx;
  bin = OperationBin.none;
  op_data = OperationData.none;
}

unfoldable pub get_bin : {F : Type 0} → List ℕ → Operation F
get_bin bin_name = record {
  op = OperationType.read;
  ctx = default_ctx;
  bin = OperationBin.name bin_name;
  op_data = OperationData.none;
}

unfoldable pub put : {F : Type 0} → Bin → Operation F
put bin = record {
  op = OperationType.write;
  ctx = default_ctx;
  bin = OperationBin.name bin.name;
  op_data = OperationData.value bin.value;
}

unfoldable pub append : {F : Type 0} → Bin → Operation F
append bin = record {
  op = OperationType.append;
  ctx = default_ctx;
  bin = OperationBin.name bin.name;
  op_data = OperationData.value bin.value;
}

unfoldable pub prepend : {F : Type 0} → Bin → Operation F
prepend bin = record {
  op = OperationType.prepend;
  ctx = default_ctx;
  bin = OperationBin.name bin.name;
  op_data = OperationData.value bin.value;
}

unfoldable pub add : {F : Type 0} → Bin → Operation F
add bin = record {
  op = OperationType.incr;
  ctx = default_ctx;
  bin = OperationBin.name bin.name;
  op_data = OperationData.value bin.value;
}

unfoldable pub touch : {F : Type 0} → Operation F
touch = record {
  op = OperationType.touch;
  ctx = default_ctx;
  bin = OperationBin.none;
  op_data = OperationData.none;
}

unfoldable pub delete : {F : Type 0} → Operation F
delete = record {
  op = OperationType.delete;
  ctx = default_ctx;
  bin = OperationBin.none;
  op_data = OperationData.none;
}
