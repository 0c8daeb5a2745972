-- ===== src/Operations/Built/ListReads.antt =====
-- The operations that operations/lists.rs builds to read, each with what it needs of its arguments.
use aerospike_client_rust.Base.{refl, ℕ, ℤ, List}
use aerospike_client_rust.Buffer.Endian.{Endian}
use aerospike_client_rust.Value.{Value, Values}
use aerospike_client_rust.Msgpack.Format.{IsPackable, ArePackable}
use aerospike_client_rust.Operations.ListTypes.{ListReturnType, list_op_code}
use aerospike_client_rust.Operations.ListQueries
use aerospike_client_rust.Operations.Whole.{Operation}
use aerospike_client_rust.Expressions.{Expressions}
use aerospike_client_rust.Commands.Built.Operations.{IsCarried}
use aerospike_client_rust.Operations.Built.Shape.{IsRight, IsRightType}

pub data IsListQuery (F : Type 0) : Operation F → Type 0 where
  size : (bin : List ℕ) → IsListQuery F (ListQueries.size bin)
  get : (bin : List ℕ) (index : ℤ) → IsListQuery F (ListQueries.get bin index)
  get_range :
      (bin : List ℕ) (index count : ℤ) → IsListQuery F (ListQueries.get_range bin index count)
  get_range_from : (bin : List ℕ) (index : ℤ) → IsListQuery F (ListQueries.get_range_from bin index)
  get_by_value :
      (bin : List ℕ) (value : Value) (return_type : ListReturnType)
      → IsPackable value
      → IsListQuery F (ListQueries.get_by_value bin value return_type)
  get_by_value_list :
      (bin : List ℕ) (vals : Values) (return_type : ListReturnType)
      → ArePackable vals
      → IsListQuery F (ListQueries.get_by_value_list bin vals return_type)
  get_by_value_range :
      (bin : List ℕ) (begin end : Value) (return_type : ListReturnType)
      → IsPackable begin
      → IsPackable end
      → IsListQuery F (ListQueries.get_by_value_range bin begin end return_type)
  get_by_index :
      (bin : List ℕ) (index : ℤ) (return_type : ListReturnType)
      → IsListQuery F (ListQueries.get_by_index bin index return_type)
  get_by_index_range :
      (bin : List ℕ) (index : ℤ) (return_type : ListReturnType)
      → IsListQuery F (ListQueries.get_by_index_range bin index return_type)
  get_by_index_range_count :
      (bin : List ℕ) (index count : ℤ) (return_type : ListReturnType)
      → IsListQuery F (ListQueries.get_by_index_range_count bin index count return_type)
  get_by_rank :
      (bin : List ℕ) (rank : ℤ) (return_type : ListReturnType)
      → IsListQuery F (ListQueries.get_by_rank bin rank return_type)
  get_by_rank_range :
      (bin : List ℕ) (rank : ℤ) (return_type : ListReturnType)
      → IsListQuery F (ListQueries.get_by_rank_range bin rank return_type)
  get_by_rank_range_count :
      (bin : List ℕ) (rank count : ℤ) (return_type : ListReturnType)
      → IsListQuery F (ListQueries.get_by_rank_range_count bin rank count return_type)
  get_by_value_relative_rank_range :
      (bin : List ℕ) (value : Value) (rank : ℤ) (return_type : ListReturnType)
      → IsPackable value
      → IsListQuery F (ListQueries.get_by_value_relative_rank_range bin value rank return_type)
  get_by_value_relative_rank_range_count :
      (bin : List ℕ) (value : Value) (rank count : ℤ) (return_type : ListReturnType)
      → IsPackable value
      → IsListQuery F
          (ListQueries.get_by_value_relative_rank_range_count bin value rank count return_type)

module _ ⦃endian : Endian⦄ ⦃exprs : Expressions⦄ where
  open exprs use {FilterExpression}

  pub list_query-IsRight :
      (op : Operation FilterExpression) → IsListQuery FilterExpression op → IsRight op
  unfolding ListQueries.size ListQueries.get ListQueries.get_range ListQueries.get_range_from
      ListQueries.get_by_value ListQueries.get_by_value_list ListQueries.get_by_value_range
      ListQueries.get_by_index ListQueries.get_by_index_range ListQueries.get_by_index_range_count
      ListQueries.get_by_rank ListQueries.get_by_rank_range ListQueries.get_by_rank_range_count
      ListQueries.get_by_value_relative_rank_range
      ListQueries.get_by_value_relative_rank_range_count IsRight IsCarried IsRightType list_op_code
  list_query-IsRight _ (IsListQuery.size _) = ((tt, tt), refl)
  list_query-IsRight _ (IsListQuery.get _ _) = (((tt, tt), tt), refl)
  list_query-IsRight _ (IsListQuery.get_range _ _ _) = (((tt, (tt, tt)), tt), refl)
  list_query-IsRight _ (IsListQuery.get_range_from _ _) = (((tt, tt), tt), refl)
  list_query-IsRight _ (IsListQuery.get_by_value _ _ _ h0) = (((tt, (h0, tt)), tt), refl)
  list_query-IsRight _ (IsListQuery.get_by_value_list _ _ _ h0) = (((tt, (h0, tt)), tt), refl)
  list_query-IsRight _ (IsListQuery.get_by_value_range _ _ _ _ h0 h1) =
      (((tt, (h0, (h1, tt))), tt), refl)
  list_query-IsRight _ (IsListQuery.get_by_index _ _ _) = (((tt, (tt, tt)), tt), refl)
  list_query-IsRight _ (IsListQuery.get_by_index_range _ _ _) = (((tt, (tt, tt)), tt), refl)
  list_query-IsRight _ (IsListQuery.get_by_index_range_count _ _ _ _) =
      (((tt, (tt, (tt, tt))), tt), refl)
  list_query-IsRight _ (IsListQuery.get_by_rank _ _ _) = (((tt, (tt, tt)), tt), refl)
  list_query-IsRight _ (IsListQuery.get_by_rank_range _ _ _) = (((tt, (tt, tt)), tt), refl)
  list_query-IsRight _ (IsListQuery.get_by_rank_range_count _ _ _ _) =
      (((tt, (tt, (tt, tt))), tt), refl)
  list_query-IsRight _ (IsListQuery.get_by_value_relative_rank_range _ _ _ _ h0) =
      (((tt, (h0, (tt, tt))), tt), refl)
  list_query-IsRight _ (IsListQuery.get_by_value_relative_rank_range_count _ _ _ _ _ h0) =
      (((tt, (h0, (tt, (tt, tt)))), tt), refl)
