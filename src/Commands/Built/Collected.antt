-- ===== src/Commands/Built/Collected.antt =====
-- commands/buffer.rs: the attributes that the loop of `set_operate` collects are those of the list.
use aerospike_client_rust.Base.{
  ℕ, ◌%◌, ◌<◌, ◌≡◌, refl, ap, ◌∙◌, Bool, true, false, not, ◌&&◌, ◌||◌, ◌==◌, ==_iff, and_parts,
  List, [], ◌∷◌, if◌then◌else◌, bit_or, arith,
}
use aerospike_client_rust.Operations.{OperationType}
use aerospike_client_rust.Operations.Whole.{Operation, OperationBin, OperationData}
use aerospike_client_rust.Commands.Operate.{
  read_of_bin, read_step, write_step, each_op, respond_step,
}
use aerospike_client_rust.Commands.Built.Attributes.{
  only_reads, reads_all, reads_header, answers, any, read_number, write_number, any_writes,
  any_answers, read_bits, operate_bits,
}

-- Two functions of three truth values agree if they do at each of the eight.
by_bits :
    (f g : Bool → Bool → Bool → ℕ)
    → ((f true true true == g true true true)
        && (f true true false == g true true false)
        && (f true false true == g true false true)
        && (f true false false == g true false false)
        && (f false true true == g false true true)
        && (f false true false == g false true false)
        && (f false false true == g false false true)
        && (f false false false == g false false false))
      ≡ true
    → (a b c : Bool) → f a b c ≡ g a b c
by_bits f g h a b c =
    let (h7, e8) = and_parts _ _ h in
    let (h6, e7) = and_parts _ _ h7 in
    let (h5, e6) = and_parts _ _ h6 in
    let (h4, e5) = and_parts _ _ h5 in
    let (h3, e4) = and_parts _ _ h4 in
    let (h2, e3) = and_parts _ _ h3 in
    let (e1, e2) = and_parts _ _ h2 in
    case_of a b c ((==_iff _ _).0 e1) ((==_iff _ _).0 e2) ((==_iff _ _).0 e3) ((==_iff _ _).0 e4)
      ((==_iff _ _).0 e5) ((==_iff _ _).0 e6) ((==_iff _ _).0 e7) ((==_iff _ _).0 e8)
  where
    case_of :
        (a b c : Bool)
        → f true true true ≡ g true true true
        → f true true false ≡ g true true false
        → f true false true ≡ g true false true
        → f true false false ≡ g true false false
        → f false true true ≡ g false true true
        → f false true false ≡ g false true false
        → f false false true ≡ g false false true
        → f false false false ≡ g false false false
        → f a b c ≡ g a b c
    case_of true true true e1 e2 e3 e4 e5 e6 e7 e8 = e1
    case_of true true false e1 e2 e3 e4 e5 e6 e7 e8 = e2
    case_of true false true e1 e2 e3 e4 e5 e6 e7 e8 = e3
    case_of true false false e1 e2 e3 e4 e5 e6 e7 e8 = e4
    case_of false true true e1 e2 e3 e4 e5 e6 e7 e8 = e5
    case_of false true false e1 e2 e3 e4 e5 e6 e7 e8 = e6
    case_of false false true e1 e2 e3 e4 e5 e6 e7 e8 = e7
    case_of false false false e1 e2 e3 e4 e5 e6 e7 e8 = e8

-- One bit more.
or_reads : (r a h : Bool) → bit_or (read_number r a h) 1 ≡ read_number true a h
or_reads = by_bits _ _ refl

or_all : (r a h : Bool) → bit_or (read_number r a h) 3 ≡ read_number true true h
or_all = by_bits _ _ refl

or_header : (r a h : Bool) → bit_or (read_number r a h) 33 ≡ read_number true a true
or_header = by_bits _ _ refl

read_step-number :
    (type : OperationType) (bin : OperationBin) (r a h : Bool)
    → read_step type bin (read_number r a h)
      ≡ read_number (only_reads type || r) (reads_all type bin || a) (reads_header type bin || h)
unfolding read_step read_of_bin only_reads reads_all reads_header
read_step-number OperationType.read OperationBin.none r a h = or_header r a h
read_step-number OperationType.read OperationBin.all r a h = or_all r a h
read_step-number OperationType.read (OperationBin.name bin) r a h = or_reads r a h
read_step-number OperationType.cdt_read bin r a h = or_reads r a h
read_step-number OperationType.bit_read bin r a h = or_reads r a h
read_step-number OperationType.hll_read bin r a h = or_reads r a h
read_step-number OperationType.exp_read bin r a h = or_reads r a h
read_step-number OperationType.write bin r a h = refl
read_step-number OperationType.cdt_write bin r a h = refl
read_step-number OperationType.incr bin r a h = refl
read_step-number OperationType.exp_write bin r a h = refl
read_step-number OperationType.append bin r a h = refl
read_step-number OperationType.prepend bin r a h = refl
read_step-number OperationType.touch bin r a h = refl
read_step-number OperationType.bit_write bin r a h = refl
read_step-number OperationType.delete bin r a h = refl
read_step-number OperationType.hll_write bin r a h = refl

or_writes : (w p : Bool) → bit_or (write_number w p) 1 ≡ write_number true p
or_writes w p =
    by_bits (λ a b c. bit_or (write_number a b) 1) (λ a b c. write_number true b) refl w p true

or_responds : (w p : Bool) → bit_or (write_number w p) 128 ≡ write_number w true
or_responds w p =
    by_bits (λ a b c. bit_or (write_number a b) 128) (λ a b c. write_number a true) refl w p true

write_step-number :
    (type : OperationType) (w p : Bool)
    → write_step type (write_number w p) ≡ write_number (not (only_reads type) || w) p
unfolding write_step only_reads
write_step-number OperationType.read w p = refl
write_step-number OperationType.cdt_read w p = refl
write_step-number OperationType.bit_read w p = refl
write_step-number OperationType.hll_read w p = refl
write_step-number OperationType.exp_read w p = refl
write_step-number OperationType.write w p = or_writes w p
write_step-number OperationType.cdt_write w p = or_writes w p
write_step-number OperationType.incr w p = or_writes w p
write_step-number OperationType.exp_write w p = or_writes w p
write_step-number OperationType.append w p = or_writes w p
write_step-number OperationType.prepend w p = or_writes w p
write_step-number OperationType.touch w p = or_writes w p
write_step-number OperationType.bit_write w p = or_writes w p
write_step-number OperationType.delete w p = or_writes w p
write_step-number OperationType.hll_write w p = or_writes w p

respond_if :
    (c w p : Bool)
    → (if c then bit_or (write_number w p) 128 else write_number w p) ≡ write_number w (c || p)
respond_if true w p = or_responds w p
respond_if false w p = refl

or_next : (x y z : Bool) → (y || (x || z)) ≡ ((x || y) || z)
or_next true true z = refl
or_next true false z = refl
or_next false true z = refl
or_next false false z = refl

or_false : (x : Bool) → (x || false) ≡ x
or_false true = refl
or_false false = refl

module _ {F : Type 0} where
  each_op-answers : (what : OperationData F) → each_op what ≡ answers what
  unfolding each_op answers
  each_op-answers OperationData.none = refl
  each_op-answers (OperationData.value v) = refl
  each_op-answers (OperationData.cdt_list_op c) = refl
  each_op-answers (OperationData.cdt_map_op c) = refl
  each_op-answers (OperationData.cdt_bit_op c) = refl
  each_op-answers (OperationData.hll_op c) = refl
  each_op-answers (OperationData.exp_op e) = refl

  respond_step-number :
      (per_each_op : Bool) (what : OperationData F) (w p : Bool)
      → respond_step per_each_op what (write_number w p)
        ≡ write_number w ((per_each_op || answers what) || p)
  unfolding respond_step
  respond_step-number per_each_op what w p =
      ap (λ c. if per_each_op || c then bit_or (write_number w p) 128 else write_number w p)
        (each_op-answers what)
      ∙ respond_if (per_each_op || answers what) w p

  -- The loop, from the attributes collected before it.
  unfoldable pub reads_of : List (Operation F) → ℕ → ℕ
  reads_of [] read_attr = read_attr
  reads_of (op ∷ ops) read_attr = reads_of ops (read_step op.op op.bin read_attr)

  unfoldable pub writes_of : Bool → List (Operation F) → ℕ → ℕ
  writes_of per_each_op [] write_attr = write_attr
  writes_of per_each_op (op ∷ ops) write_attr =
      writes_of per_each_op ops (respond_step per_each_op op.op_data (write_step op.op write_attr))

  reads_of-number :
      (ops : List (Operation F)) (r a h : Bool)
      → reads_of ops (read_number r a h)
        ≡ read_number
            (any (λ op. only_reads op.op) ops || r)
            (any (λ op. reads_all op.op op.bin) ops || a)
            (any (λ op. reads_header op.op op.bin) ops || h)
  unfolding reads_of
  reads_of-number [] r a h = refl
  reads_of-number (op ∷ ops) r a h =
      let p : Bool = any (λ o. only_reads o.op) ops in
      let q : Bool = any (λ o. reads_all o.op o.bin) ops in
      let s : Bool = any (λ o. reads_header o.op o.bin) ops in
      let x : Bool = only_reads op.op in
      let y : Bool = reads_all op.op op.bin in
      let z : Bool = reads_header op.op op.bin in
      ap (reads_of ops) (read_step-number op.op op.bin r a h)
      ∙ reads_of-number ops (x || r) (y || a) (z || h)
      ∙ (λ i. read_number (or_next x p r i) (or_next y q a i) (or_next z s h i))

  writes_of-number :
      (per_each_op : Bool) (ops : List (Operation F)) (w p : Bool)
      → writes_of per_each_op ops (write_number w p)
        ≡ write_number
            (any (λ op. not (only_reads op.op)) ops || w)
            (any (λ op. per_each_op || answers op.op_data) ops || p)
  unfolding writes_of
  writes_of-number per_each_op [] w p = refl
  writes_of-number per_each_op (op ∷ ops) w p =
      let u : Bool = any (λ o. not (only_reads o.op)) ops in
      let v : Bool = any (λ o. per_each_op || answers o.op_data) ops in
      let x : Bool = not (only_reads op.op) in
      let y : Bool = per_each_op || answers op.op_data in
      ap (λ n. writes_of per_each_op ops (respond_step per_each_op op.op_data n))
        (write_step-number op.op w p)
      ∙ ap (writes_of per_each_op ops) (respond_step-number per_each_op op.op_data (x || w) p)
      ∙ writes_of-number per_each_op ops (x || w) (y || p)
      ∙ (λ i. write_number (or_next x u w i) (or_next y v p i))

  pub reads_of-bits : (ops : List (Operation F)) → reads_of ops 0 ≡ read_bits ops
  unfolding read_bits
  reads_of-bits ops = reads_of-number ops false false false ∙ (λ i.
      read_number (or_false (any (λ op. only_reads op.op) ops) i)
        (or_false (any (λ op. reads_all op.op op.bin) ops) i)
        (or_false (any (λ op. reads_header op.op op.bin) ops) i))

  pub writes_of-bits :
      (per_each_op : Bool) (ops : List (Operation F))
      → writes_of per_each_op ops 0 ≡ operate_bits per_each_op ops
  unfolding operate_bits any_writes any_answers
  writes_of-bits per_each_op ops = writes_of-number per_each_op ops false false ∙ (λ i.
      write_number (or_false (any (λ op. not (only_reads op.op)) ops) i)
        (or_false (any (λ op. per_each_op || answers op.op_data) ops) i))

-- The attributes for reading take six bits, and those for writing the first and the last of eight.
pub read_number-room : (r a h : Bool) → read_number r a h < 64
read_number-room true true true = omega arith
read_number-room true true false = omega arith
read_number-room true false true = omega arith
read_number-room true false false = omega arith
read_number-room false true true = omega arith
read_number-room false true false = omega arith
read_number-room false false true = omega arith
read_number-room false false false = omega arith

pub write_number-room : (w p : Bool) → (write_number w p < 256) × (write_number w p % 128 < 4)
write_number-room true true = (omega arith, omega arith)
write_number-room true false = (omega arith, omega arith)
write_number-room false true = (omega arith, omega arith)
write_number-room false false = (omega arith, omega arith)
