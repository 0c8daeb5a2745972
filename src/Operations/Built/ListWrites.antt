-- ===== src/Operations/Built/ListWrites.antt =====
-- The operations that operations/lists.rs builds to write, each with what it needs of its arguments.
use aerospike_client_rust.Base.{◌≡◌, refl, ℕ, ℤ, Bool, List}
use mathlib.Core.Path.{subst}
use aerospike_client_rust.Outcome.{ok}
use aerospike_client_rust.Buffer.Endian.{Endian}
use aerospike_client_rust.Value.{Value, Values}
use aerospike_client_rust.Msgpack.Format.{IsPackable, ArePackable}
use aerospike_client_rust.Msgpack.Packed.Cdt.{ContextsPackable}
use aerospike_client_rust.Operations.{CdtContext}
use aerospike_client_rust.Operations.ListTypes.{
  ListOrderType, ListReturnType, ListSortFlags, ListPolicy, list_op_code,
}
use aerospike_client_rust.Operations.Lists
use aerospike_client_rust.Operations.Whole.{Operation}
use aerospike_client_rust.Expressions.{Expressions}
use aerospike_client_rust.Commands.Built.Operations.{IsCarried}
use aerospike_client_rust.Operations.Built.Shape.{IsRight, IsRightType, guarded}

pub data IsListWrite (F : Type 0) : Operation F → Type 0 where
  create :
      (bin : List ℕ) (list_order : ListOrderType) (pad : Bool)
      → IsListWrite F (Lists.create bin list_order pad)
  set_order :
      (bin : List ℕ) (list_order : ListOrderType) (ctx : List CdtContext)
      → ContextsPackable ctx
      → IsListWrite F (Lists.set_order bin list_order ctx)
  append :
      (policy : ListPolicy) (bin : List ℕ) (value : Value)
      → IsPackable value
      → IsListWrite F (Lists.append policy bin value)
  append_items :
      (policy : ListPolicy) (bin : List ℕ) (vals : Values)
      → (op : Operation F) → ArePackable vals
      → Lists.append_items policy bin vals ≡ ok op
      → IsListWrite F op
  insert :
      (policy : ListPolicy) (bin : List ℕ) (index : ℤ) (value : Value)
      → IsPackable value
      → IsListWrite F (Lists.insert policy bin index value)
  insert_items :
      (policy : ListPolicy) (bin : List ℕ) (index : ℤ) (vals : Values)
      → (op : Operation F) → ArePackable vals
      → Lists.insert_items policy bin index vals ≡ ok op
      → IsListWrite F op
  pop : (bin : List ℕ) (index : ℤ) → IsListWrite F (Lists.pop bin index)
  pop_range : (bin : List ℕ) (index count : ℤ) → IsListWrite F (Lists.pop_range bin index count)
  pop_range_from : (bin : List ℕ) (index : ℤ) → IsListWrite F (Lists.pop_range_from bin index)
  remove : (bin : List ℕ) (index : ℤ) → IsListWrite F (Lists.remove bin index)
  remove_range :
      (bin : List ℕ) (index count : ℤ) → IsListWrite F (Lists.remove_range bin index count)
  remove_range_from : (bin : List ℕ) (index : ℤ) → IsListWrite F (Lists.remove_range_from bin index)
  remove_by_value :
      (bin : List ℕ) (value : Value) (return_type : ListReturnType)
      → IsPackable value
      → IsListWrite F (Lists.remove_by_value bin value return_type)
  remove_by_value_list :
      (bin : List ℕ) (vals : Values) (return_type : ListReturnType)
      → ArePackable vals
      → IsListWrite F (Lists.remove_by_value_list bin vals return_type)
  remove_by_value_range :
      (bin : List ℕ) (return_type : ListReturnType) (begin end : Value)
      → IsPackable begin
      → IsPackable end
      → IsListWrite F (Lists.remove_by_value_range bin return_type begin end)
  remove_by_value_relative_rank_range :
      (bin : List ℕ) (return_type : ListReturnType) (value : Value) (rank : ℤ)
      → IsPackable value
      → IsListWrite F (Lists.remove_by_value_relative_rank_range bin return_type value rank)
  remove_by_value_relative_rank_range_count :
      (bin : List ℕ) (return_type : ListReturnType) (value : Value) (rank count : ℤ)
      → IsPackable value
      → IsListWrite F
          (Lists.remove_by_value_relative_rank_range_count bin return_type value rank count)
  remove_by_index :
      (bin : List ℕ) (index : ℤ) (return_type : ListReturnType)
      → IsListWrite F (Lists.remove_by_index bin index return_type)
  remove_by_index_range :
      (bin : List ℕ) (index : ℤ) (return_type : ListReturnType)
      → IsListWrite F (Lists.remove_by_index_range bin index return_type)
  remove_by_index_range_count :
      (bin : List ℕ) (index count : ℤ) (return_type : ListReturnType)
      → IsListWrite F (Lists.remove_by_index_range_count bin index count return_type)
  remove_by_rank :
      (bin : List ℕ) (rank : ℤ) (return_type : ListReturnType)
      → IsListWrite F (Lists.remove_by_rank bin rank return_type)
  remove_by_rank_range :
      (bin : List ℕ) (rank : ℤ) (return_type : ListReturnType)
      → IsListWrite F (Lists.remove_by_rank_range bin rank return_type)
  remove_by_rank_range_count :
      (bin : List ℕ) (rank count : ℤ) (return_type : ListReturnType)
      → IsListWrite F (Lists.remove_by_rank_range_count bin rank count return_type)
  set :
      (bin : List ℕ) (index : ℤ) (value : Value)
      → (op : Operation F) → IsPackable value
      → Lists.set bin index value ≡ ok op
      → IsListWrite F op
  trim : (bin : List ℕ) (index count : ℤ) → IsListWrite F (Lists.trim bin index count)
  clear : (bin : List ℕ) → IsListWrite F (Lists.clear bin)
  increment :
      (policy : ListPolicy) (bin : List ℕ) (index value : ℤ)
      → IsListWrite F (Lists.increment policy bin index value)
  sort : (bin : List ℕ) (sort_flags : ListSortFlags) → IsListWrite F (Lists.sort bin sort_flags)

module _ ⦃endian : Endian⦄ ⦃exprs : Expressions⦄ where
  open exprs use {FilterExpression}

  pub list_write-IsRight :
      (op : Operation FilterExpression) → IsListWrite FilterExpression op → IsRight op
  unfolding Lists.create Lists.set_order Lists.append Lists.append_items Lists.insert
      Lists.insert_items Lists.pop Lists.pop_range Lists.pop_range_from Lists.remove
      Lists.remove_range Lists.remove_range_from Lists.remove_by_value Lists.remove_by_value_list
      Lists.remove_by_value_range Lists.remove_by_value_relative_rank_range
      Lists.remove_by_value_relative_rank_range_count Lists.remove_by_index
      Lists.remove_by_index_range Lists.remove_by_index_range_count Lists.remove_by_rank
      Lists.remove_by_rank_range Lists.remove_by_rank_range_count Lists.set Lists.trim Lists.clear
      Lists.increment Lists.sort IsRight IsCarried IsRightType list_op_code
  list_write-IsRight _ (IsListWrite.create _ _ _) = (((tt, (tt, tt)), tt), refl)
  list_write-IsRight _ (IsListWrite.set_order _ _ _ h0) = (((tt, tt), h0), refl)
  list_write-IsRight _ (IsListWrite.append _ _ _ h0) = (((h0, (tt, (tt, tt))), tt), refl)
  list_write-IsRight _ (IsListWrite.append_items _ _ _ _ h0 e) =
      subst IsRight (guarded _ e) (((h0, (tt, (tt, tt))), tt), refl)
  list_write-IsRight _ (IsListWrite.insert _ _ _ _ h0) = (((tt, (h0, (tt, tt))), tt), refl)
  list_write-IsRight _ (IsListWrite.insert_items _ _ _ _ _ h0 e) =
      subst IsRight (guarded _ e) (((tt, (h0, (tt, tt))), tt), refl)
  list_write-IsRight _ (IsListWrite.pop _ _) = (((tt, tt), tt), refl)
  list_write-IsRight _ (IsListWrite.pop_range _ _ _) = (((tt, (tt, tt)), tt), refl)
  list_write-IsRight _ (IsListWrite.pop_range_from _ _) = (((tt, tt), tt), refl)
  list_write-IsRight _ (IsListWrite.remove _ _) = (((tt, tt), tt), refl)
  list_write-IsRight _ (IsListWrite.remove_range _ _ _) = (((tt, (tt, tt)), tt), refl)
  list_write-IsRight _ (IsListWrite.remove_range_from _ _) = (((tt, tt), tt), refl)
  list_write-IsRight _ (IsListWrite.remove_by_value _ _ _ h0) = (((tt, (h0, tt)), tt), refl)
  list_write-IsRight _ (IsListWrite.remove_by_value_list _ _ _ h0) = (((tt, (h0, tt)), tt), refl)
  list_write-IsRight _ (IsListWrite.remove_by_value_range _ _ _ _ h0 h1) =
      (((tt, (h0, (h1, tt))), tt), refl)
  list_write-IsRight _ (IsListWrite.remove_by_value_relative_rank_range _ _ _ _ h0) =
      (((tt, (h0, (tt, tt))), tt), refl)
  list_write-IsRight _ (IsListWrite.remove_by_value_relative_rank_range_count _ _ _ _ _ h0) =
      (((tt, (h0, (tt, (tt, tt)))), tt), refl)
  list_write-IsRight _ (IsListWrite.remove_by_index _ _ _) = (((tt, (tt, tt)), tt), refl)
  list_write-IsRight _ (IsListWrite.remove_by_index_range _ _ _) = (((tt, (tt, tt)), tt), refl)
  list_write-IsRight _ (IsListWrite.remove_by_index_range_count _ _ _ _) =
      (((tt, (tt, (tt, tt))), tt), refl)
  list_write-IsRight _ (IsListWrite.remove_by_rank _ _ _) = (((tt, (tt, tt)), tt), refl)
  list_write-IsRight _ (IsListWrite.remove_by_rank_range _ _ _) = (((tt, (tt, tt)), tt), refl)
  list_write-IsRight _ (IsListWrite.remove_by_rank_range_count _ _ _ _) =
      (((tt, (tt, (tt, tt))), tt), refl)
  list_write-IsRight _ (IsListWrite.set _ _ _ _ h0 e) =
      subst IsRight (guarded _ e) (((tt, (h0, tt)), tt), refl)
  list_write-IsRight _ (IsListWrite.trim _ _ _) = (((tt, (tt, tt)), tt), refl)
  list_write-IsRight _ (IsListWrite.clear _) = ((tt, tt), refl)
  list_write-IsRight _ (IsListWrite.increment _ _ _ _) = (((tt, (tt, (tt, tt))), tt), refl)
  list_write-IsRight _ (IsListWrite.sort _ _) = (((tt, tt), tt), refl)
