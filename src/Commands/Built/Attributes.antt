-- ===== src/Commands/Built/Attributes.antt =====
-- The attributes of a list of operations, as the wire format has them: a bit for each thing that
-- some operation of the list asks for. The loop of `set_operate` collects these.
use aerospike_client_rust.Base.{ℕ, ◌+◌, Bool, true, false, not, ◌||◌, List, [], ◌∷◌, if◌then◌else◌}
use aerospike_client_rust.Operations.{OperationType}
use aerospike_client_rust.Operations.Whole.{Operation, OperationBin, OperationData}

-- What an operation asks for.
unfoldable pub only_reads : OperationType → Bool
only_reads OperationType.read = true
only_reads OperationType.cdt_read = true
only_reads OperationType.exp_read = true
only_reads OperationType.bit_read = true
only_reads OperationType.hll_read = true
only_reads _ = false

unfoldable pub reads_all : OperationType → OperationBin → Bool
reads_all OperationType.read OperationBin.all = true
reads_all _ _ = false

unfoldable pub reads_header : OperationType → OperationBin → Bool
reads_header OperationType.read OperationBin.none = true
reads_header _ _ = false

-- Maps, bits, HLL values and expressions answer each operation.
unfoldable pub answers : {F : Type 0} → OperationData F → Bool
answers (OperationData.cdt_map_op cdt_op) = true
answers (OperationData.cdt_bit_op cdt_op) = true
answers (OperationData.hll_op cdt_op) = true
answers (OperationData.exp_op e) = true
answers _ = false

abbrev pub any : {A : Type 0} → (A → Bool) → List A → Bool
any p [] = false
any p (x ∷ xs) = p x || any p xs

-- A number by its bits.
abbrev pub read_number : Bool → Bool → Bool → ℕ
read_number reads all header =
    (if reads then 1 else 0) + (if all then 2 else 0) + (if header then 32 else 0)

abbrev pub write_number : Bool → Bool → ℕ
write_number writes responds = (if writes then 1 else 0) + (if responds then 128 else 0)

module _ {F : Type 0} where
  unfoldable pub any_writes : List (Operation F) → Bool
  any_writes ops = any (λ op. not (only_reads op.op)) ops

  unfoldable pub any_answers : Bool → List (Operation F) → Bool
  any_answers per_each_op ops = any (λ op. per_each_op || answers op.op_data) ops

  -- The attributes for reading: some operation reads, asks for all bins, asks for no bins.
  unfoldable pub read_bits : List (Operation F) → ℕ
  read_bits ops =
      read_number (any (λ op. only_reads op.op) ops) (any (λ op. reads_all op.op op.bin) ops)
        (any (λ op. reads_header op.op op.bin) ops)

  -- Those for writing: some operation writes, each is to be answered.
  unfoldable pub operate_bits : Bool → List (Operation F) → ℕ
  operate_bits per_each_op ops = write_number (any_writes ops) (any_answers per_each_op ops)
