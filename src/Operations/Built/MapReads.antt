-- ===== src/Operations/Built/MapReads.antt =====
-- The operations that operations/maps.rs builds to read, each with what it needs of its arguments.
use aerospike_client_rust.Base.{refl, ℕ, ℤ, List}
use aerospike_client_rust.Buffer.Endian.{Endian}
use aerospike_client_rust.Value.{Value, Values}
use aerospike_client_rust.Msgpack.Format.{IsPackable, ArePackable}
use aerospike_client_rust.Operations.MapTypes.{MapReturnType, map_op_code}
use aerospike_client_rust.Operations.MapQueries
use aerospike_client_rust.Operations.Whole.{Operation}
use aerospike_client_rust.Expressions.{Expressions}
use aerospike_client_rust.Commands.Built.Operations.{IsCarried}
use aerospike_client_rust.Operations.Built.Shape.{IsRight, IsRightType, unless_nil-IsPackable}

pub data IsMapQuery (F : Type 0) : Operation F → Type 0 where
  size : (bin : List ℕ) → IsMapQuery F (MapQueries.size bin)
  get_by_key :
      (bin : List ℕ) (key : Value) (return_type : MapReturnType)
      → IsPackable key
      → IsMapQuery F (MapQueries.get_by_key bin key return_type)
  get_by_key_range :
      (bin : List ℕ) (begin end : Value) (return_type : MapReturnType)
      → IsPackable begin
      → IsPackable end
      → IsMapQuery F (MapQueries.get_by_key_range bin begin end return_type)
  get_by_value :
      (bin : List ℕ) (value : Value) (return_type : MapReturnType)
      → IsPackable value
      → IsMapQuery F (MapQueries.get_by_value bin value return_type)
  get_by_value_range :
      (bin : List ℕ) (begin end : Value) (return_type : MapReturnType)
      → IsPackable begin
      → IsPackable end
      → IsMapQuery F (MapQueries.get_by_value_range bin begin end return_type)
  get_by_index :
      (bin : List ℕ) (index : ℤ) (return_type : MapReturnType)
      → IsMapQuery F (MapQueries.get_by_index bin index return_type)
  get_by_index_range :
      (bin : List ℕ) (index count : ℤ) (return_type : MapReturnType)
      → IsMapQuery F (MapQueries.get_by_index_range bin index count return_type)
  get_by_index_range_from :
      (bin : List ℕ) (index : ℤ) (return_type : MapReturnType)
      → IsMapQuery F (MapQueries.get_by_index_range_from bin index return_type)
  get_by_rank :
      (bin : List ℕ) (rank : ℤ) (return_type : MapReturnType)
      → IsMapQuery F (MapQueries.get_by_rank bin rank return_type)
  get_by_rank_range :
      (bin : List ℕ) (rank count : ℤ) (return_type : MapReturnType)
      → IsMapQuery F (MapQueries.get_by_rank_range bin rank count return_type)
  get_by_rank_range_from :
      (bin : List ℕ) (rank : ℤ) (return_type : MapReturnType)
      → IsMapQuery F (MapQueries.get_by_rank_range_from bin rank return_type)
  get_by_key_list :
      (bin : List ℕ) (keys : Values) (return_type : MapReturnType)
      → ArePackable keys
      → IsMapQuery F (MapQueries.get_by_key_list bin keys return_type)
  get_by_value_list :
      (bin : List ℕ) (vals : Values) (return_type : MapReturnType)
      → ArePackable vals
      → IsMapQuery F (MapQueries.get_by_value_list bin vals return_type)
  get_by_key_relative_index_range :
      (bin : List ℕ) (key : Value) (index : ℤ) (return_type : MapReturnType)
      → IsPackable key
      → IsMapQuery F (MapQueries.get_by_key_relative_index_range bin key index return_type)
  get_by_key_relative_index_range_count :
      (bin : List ℕ) (key : Value) (index count : ℤ) (return_type : MapReturnType)
      → IsPackable key
      → IsMapQuery F
          (MapQueries.get_by_key_relative_index_range_count bin key index count return_type)
  get_by_value_relative_rank_range :
      (bin : List ℕ) (value : Value) (rank : ℤ) (return_type : MapReturnType)
      → IsPackable value
      → IsMapQuery F (MapQueries.get_by_value_relative_rank_range bin value rank return_type)
  get_by_value_relative_rank_range_count :
      (bin : List ℕ) (value : Value) (rank count : ℤ) (return_type : MapReturnType)
      → IsPackable value
      → IsMapQuery F
          (MapQueries.get_by_value_relative_rank_range_count bin value rank count return_type)

module _ ⦃endian : Endian⦄ ⦃exprs : Expressions⦄ where
  open exprs use {FilterExpression}

  pub map_query-IsRight :
      (op : Operation FilterExpression) → IsMapQuery FilterExpression op → IsRight op
  unfolding MapQueries.size MapQueries.get_by_key MapQueries.get_by_key_range
      MapQueries.get_by_value MapQueries.get_by_value_range MapQueries.get_by_index
      MapQueries.get_by_index_range MapQueries.get_by_index_range_from MapQueries.get_by_rank
      MapQueries.get_by_rank_range MapQueries.get_by_rank_range_from MapQueries.get_by_key_list
      MapQueries.get_by_value_list MapQueries.get_by_key_relative_index_range
      MapQueries.get_by_key_relative_index_range_count MapQueries.get_by_value_relative_rank_range
      MapQueries.get_by_value_relative_rank_range_count IsRight IsCarried IsRightType map_op_code
  map_query-IsRight _ (IsMapQuery.size _) = ((tt, tt), refl)
  map_query-IsRight _ (IsMapQuery.get_by_key _ _ _ h0) = (((tt, (h0, tt)), tt), refl)
  map_query-IsRight _ (IsMapQuery.get_by_key_range _ _ _ _ h0 h1) =
      (((tt, (h0, unless_nil-IsPackable _ h1)), tt), refl)
  map_query-IsRight _ (IsMapQuery.get_by_value _ _ _ h0) = (((tt, (h0, tt)), tt), refl)
  map_query-IsRight _ (IsMapQuery.get_by_value_range _ _ _ _ h0 h1) =
      (((tt, (h0, unless_nil-IsPackable _ h1)), tt), refl)
  map_query-IsRight _ (IsMapQuery.get_by_index _ _ _) = (((tt, (tt, tt)), tt), refl)
  map_query-IsRight _ (IsMapQuery.get_by_index_range _ _ _ _) = (((tt, (tt, (tt, tt))), tt), refl)
  map_query-IsRight _ (IsMapQuery.get_by_index_range_from _ _ _) = (((tt, (tt, tt)), tt), refl)
  map_query-IsRight _ (IsMapQuery.get_by_rank _ _ _) = (((tt, (tt, tt)), tt), refl)
  map_query-IsRight _ (IsMapQuery.get_by_rank_range _ _ _ _) = (((tt, (tt, (tt, tt))), tt), refl)
  map_query-IsRight _ (IsMapQuery.get_by_rank_range_from _ _ _) = (((tt, (tt, tt)), tt), refl)
  map_query-IsRight _ (IsMapQuery.get_by_key_list _ _ _ h0) = (((tt, (h0, tt)), tt), refl)
  map_query-IsRight _ (IsMapQuery.get_by_value_list _ _ _ h0) = (((tt, (h0, tt)), tt), refl)
  map_query-IsRight _ (IsMapQuery.get_by_key_relative_index_range _ _ _ _ h0) =
      (((tt, (h0, (tt, tt))), tt), refl)
  map_query-IsRight _ (IsMapQuery.get_by_key_relative_index_range_count _ _ _ _ _ h0) =
      (((tt, (h0, (tt, (tt, tt)))), tt), refl)
  map_query-IsRight _ (IsMapQuery.get_by_value_relative_rank_range _ _ _ _ h0) =
      (((tt, (h0, (tt, tt))), tt), refl)
  map_query-IsRight _ (IsMapQuery.get_by_value_relative_rank_range_count _ _ _ _ _ h0) =
      (((tt, (h0, (tt, (tt, tt)))), tt), refl)
