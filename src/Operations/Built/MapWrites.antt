-- ===== src/Operations/Built/MapWrites.antt =====
-- The operations that operations/maps.rs builds to write, each with what it needs of its arguments.
use aerospike_client_rust.Base.{refl, ℕ, ℤ, true, false, List}
use aerospike_client_rust.Buffer.Endian.{Endian}
use aerospike_client_rust.Value.{Value, Values, Entries}
use aerospike_client_rust.Msgpack.Format.{IsPackable, ArePackable, EntriesPackable}
use aerospike_client_rust.Operations.CdtBuilder.{unless_nil}
use aerospike_client_rust.Operations.MapTypes.{MapOrder, MapReturnType, MapPolicy, map_op_code}
use aerospike_client_rust.Operations.Maps
use aerospike_client_rust.Operations.Whole.{Operation}
use aerospike_client_rust.Expressions.{Expressions}
use aerospike_client_rust.Commands.Built.Operations.{IsCarried}
use aerospike_client_rust.Operations.Built.Shape.{
  IsRight, IsRightType, packable-append, unless_nil-IsPackable, order-IsPackable, write_op-IsWrite,
}

pub data IsMapWrite (F : Type 0) : Operation F → Type 0 where
  set_order : (bin : List ℕ) (map_order : MapOrder) → IsMapWrite F (Maps.set_order bin map_order)
  put :
      (policy : MapPolicy) (bin : List ℕ) (key val : Value)
      → IsPackable key
      → IsPackable val
      → IsMapWrite F (Maps.put policy bin key val)
  put_items :
      (policy : MapPolicy) (bin : List ℕ) (items : Entries)
      → EntriesPackable items
      → IsMapWrite F (Maps.put_items policy bin items)
  increment_value :
      (policy : MapPolicy) (bin : List ℕ) (key incr : Value)
      → IsPackable key
      → IsPackable incr
      → IsMapWrite F (Maps.increment_value policy bin key incr)
  decrement_value :
      (policy : MapPolicy) (bin : List ℕ) (key decr : Value)
      → IsPackable key
      → IsPackable decr
      → IsMapWrite F (Maps.decrement_value policy bin key decr)
  clear : (bin : List ℕ) → IsMapWrite F (Maps.clear bin)
  remove_by_key :
      (bin : List ℕ) (key : Value) (return_type : MapReturnType)
      → IsPackable key
      → IsMapWrite F (Maps.remove_by_key bin key return_type)
  remove_by_key_list :
      (bin : List ℕ) (keys : Values) (return_type : MapReturnType)
      → ArePackable keys
      → IsMapWrite F (Maps.remove_by_key_list bin keys return_type)
  remove_by_key_range :
      (bin : List ℕ) (begin end : Value) (return_type : MapReturnType)
      → IsPackable begin
      → IsPackable end
      → IsMapWrite F (Maps.remove_by_key_range bin begin end return_type)
  remove_by_value :
      (bin : List ℕ) (value : Value) (return_type : MapReturnType)
      → IsPackable value
      → IsMapWrite F (Maps.remove_by_value bin value return_type)
  remove_by_value_list :
      (bin : List ℕ) (vals : Values) (return_type : MapReturnType)
      → ArePackable vals
      → IsMapWrite F (Maps.remove_by_value_list bin vals return_type)
  remove_by_value_range :
      (bin : List ℕ) (begin end : Value) (return_type : MapReturnType)
      → IsPackable begin
      → IsPackable end
      → IsMapWrite F (Maps.remove_by_value_range bin begin end return_type)
  remove_by_index :
      (bin : List ℕ) (index : ℤ) (return_type : MapReturnType)
      → IsMapWrite F (Maps.remove_by_index bin index return_type)
  remove_by_index_range :
      (bin : List ℕ) (index count : ℤ) (return_type : MapReturnType)
      → IsMapWrite F (Maps.remove_by_index_range bin index count return_type)
  remove_by_index_range_from :
      (bin : List ℕ) (index : ℤ) (return_type : MapReturnType)
      → IsMapWrite F (Maps.remove_by_index_range_from bin index return_type)
  remove_by_rank :
      (bin : List ℕ) (rank : ℤ) (return_type : MapReturnType)
      → IsMapWrite F (Maps.remove_by_rank bin rank return_type)
  remove_by_rank_range :
      (bin : List ℕ) (rank count : ℤ) (return_type : MapReturnType)
      → IsMapWrite F (Maps.remove_by_rank_range bin rank count return_type)
  remove_by_rank_range_from :
      (bin : List ℕ) (rank : ℤ) (return_type : MapReturnType)
      → IsMapWrite F (Maps.remove_by_rank_range_from bin rank return_type)
  remove_by_key_relative_index_range :
      (bin : List ℕ) (key : Value) (index : ℤ) (return_type : MapReturnType)
      → IsPackable key
      → IsMapWrite F (Maps.remove_by_key_relative_index_range bin key index return_type)
  remove_by_key_relative_index_range_count :
      (bin : List ℕ) (key : Value) (index count : ℤ) (return_type : MapReturnType)
      → IsPackable key
      → IsMapWrite F (Maps.remove_by_key_relative_index_range_count bin key index count return_type)
  remove_by_value_relative_rank_range :
      (bin : List ℕ) (value : Value) (rank : ℤ) (return_type : MapReturnType)
      → IsPackable value
      → IsMapWrite F (Maps.remove_by_value_relative_rank_range bin value rank return_type)
  remove_by_value_relative_rank_range_count :
      (bin : List ℕ) (value : Value) (rank count : ℤ) (return_type : MapReturnType)
      → IsPackable value
      → IsMapWrite F
          (Maps.remove_by_value_relative_rank_range_count bin value rank count return_type)

module _ ⦃endian : Endian⦄ ⦃exprs : Expressions⦄ where
  open exprs use {FilterExpression}

  pub map_write-IsRight :
      (op : Operation FilterExpression) → IsMapWrite FilterExpression op → IsRight op
  unfolding Maps.set_order Maps.put Maps.put_items Maps.increment_value Maps.decrement_value
      Maps.clear Maps.remove_by_key Maps.remove_by_key_list Maps.remove_by_key_range
      Maps.remove_by_value Maps.remove_by_value_list Maps.remove_by_value_range Maps.remove_by_index
      Maps.remove_by_index_range Maps.remove_by_index_range_from Maps.remove_by_rank
      Maps.remove_by_rank_range Maps.remove_by_rank_range_from
      Maps.remove_by_key_relative_index_range Maps.remove_by_key_relative_index_range_count
      Maps.remove_by_value_relative_rank_range Maps.remove_by_value_relative_rank_range_count
      IsRight IsCarried IsRightType map_op_code
  map_write-IsRight _ (IsMapWrite.set_order _ _) = (((tt, tt), tt), refl)
  map_write-IsRight _ (IsMapWrite.put _ _ _ _ h0 h1) = (
    ((h0, packable-append (unless_nil _) _ (unless_nil-IsPackable _ h1) (order-IsPackable _)), tt),
    write_op-IsWrite _ false,
  )
  map_write-IsRight _ (IsMapWrite.put_items _ _ _ h0) =
      (((h0, order-IsPackable _), tt), write_op-IsWrite _ true)
  map_write-IsRight _ (IsMapWrite.increment_value _ _ _ _ h0 h1) = (
    ((h0, packable-append (unless_nil _) _ (unless_nil-IsPackable _ h1) (order-IsPackable _)), tt),
    refl,
  )
  map_write-IsRight _ (IsMapWrite.decrement_value _ _ _ _ h0 h1) = (
    ((h0, packable-append (unless_nil _) _ (unless_nil-IsPackable _ h1) (order-IsPackable _)), tt),
    refl,
  )
  map_write-IsRight _ (IsMapWrite.clear _) = ((tt, tt), refl)
  map_write-IsRight _ (IsMapWrite.remove_by_key _ _ _ h0) = (((tt, (h0, tt)), tt), refl)
  map_write-IsRight _ (IsMapWrite.remove_by_key_list _ _ _ h0) = (((tt, (h0, tt)), tt), refl)
  map_write-IsRight _ (IsMapWrite.remove_by_key_range _ _ _ _ h0 h1) =
      (((tt, (h0, unless_nil-IsPackable _ h1)), tt), refl)
  map_write-IsRight _ (IsMapWrite.remove_by_value _ _ _ h0) = (((tt, (h0, tt)), tt), refl)
  map_write-IsRight _ (IsMapWrite.remove_by_value_list _ _ _ h0) = (((tt, (h0, tt)), tt), refl)
  map_write-IsRight _ (IsMapWrite.remove_by_value_range _ _ _ _ h0 h1) =
      (((tt, (h0, unless_nil-IsPackable _ h1)), tt), refl)
  map_write-IsRight _ (IsMapWrite.remove_by_index _ _ _) = (((tt, (tt, tt)), tt), refl)
  map_write-IsRight _ (IsMapWrite.remove_by_index_range _ _ _ _) =
      (((tt, (tt, (tt, tt))), tt), refl)
  map_write-IsRight _ (IsMapWrite.remove_by_index_range_from _ _ _) = (((tt, (tt, tt)), tt), refl)
  map_write-IsRight _ (IsMapWrite.remove_by_rank _ _ _) = (((tt, (tt, tt)), tt), refl)
  map_write-IsRight _ (IsMapWrite.remove_by_rank_range _ _ _ _) = (((tt, (tt, (tt, tt))), tt), refl)
  map_write-IsRight _ (IsMapWrite.remove_by_rank_range_from _ _ _) = (((tt, (tt, tt)), tt), refl)
  map_write-IsRight _ (IsMapWrite.remove_by_key_relative_index_range _ _ _ _ h0) =
      (((tt, (h0, (tt, tt))), tt), refl)
  map_write-IsRight _ (IsMapWrite.remove_by_key_relative_index_range_count _ _ _ _ _ h0) =
      (((tt, (h0, (tt, (tt, tt)))), tt), refl)
  map_write-IsRight _ (IsMapWrite.remove_by_value_relative_rank_range _ _ _ _ h0) =
      (((tt, (h0, (tt, tt))), tt), refl)
  map_write-IsRight _ (IsMapWrite.remove_by_value_relative_rank_range_count _ _ _ _ _ h0) =
      (((tt, (h0, (tt, (tt, tt)))), tt), refl)
