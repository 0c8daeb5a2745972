-- ===== src/Operations/Exp.antt =====
-- operations/exp.rs: the operations on expressions.
use aerospike_client_rust.Base.{ℕ, List, [], pos}
use aerospike_client_rust.Operations.{OperationType}
use aerospike_client_rust.Operations.Whole.{
  ExpressionEncoder, Operation, OperationData, OperationBin,
}

pub data ExpWriteFlags : Type 0 where
  default create_only update_only allow_delete policy_no_fail eval_no_fail : ExpWriteFlags

unfoldable pub exp_write_code : ExpWriteFlags → ℕ
exp_write_code default = 0
exp_write_code create_only = 1
exp_write_code update_only = 2
exp_write_code allow_delete = 4
exp_write_code policy_no_fail = 8
exp_write_code eval_no_fail = 16

pub data ExpReadFlags : Type 0 where
  default eval_no_fail : ExpReadFlags

unfoldable pub exp_read_code : ExpReadFlags → ℕ
exp_read_code default = 0
exp_read_code eval_no_fail = 16

unfoldable pub write_exp : {F : Type 0} → List ℕ → F → ExpWriteFlags → Operation F
write_exp bin exp flags = record {
  op = OperationType.exp_write;
  ctx = [];
  bin = OperationBin.name bin;
  op_data = OperationData.exp_op (record {
    encoder = ExpressionEncoder.pack_write_exp;
    policy = pos (exp_write_code flags);
    exp = exp;
  });
}

unfoldable pub read_exp : {F : Type 0} → List ℕ → F → ExpReadFlags → Operation F
read_exp name exp flags = record {
  op = OperationType.exp_read;
  ctx = [];
  bin = OperationBin.name name;
  op_data = OperationData.exp_op (record {
    encoder = ExpressionEncoder.pack_read_exp;
    policy = pos (exp_read_code flags);
    exp = exp;
  });
}
