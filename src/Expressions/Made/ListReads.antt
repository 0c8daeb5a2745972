-- ===== src/Expressions/Made/ListReads.antt =====
-- expressions/lists.rs: what the builders of expressions that read return.
use aerospike_client_rust.Base.{refl, Option, List}
use aerospike_client_rust.Msgpack.Packed.Cdt.{ContextsPackable}
use aerospike_client_rust.Operations.{CdtContext}
use aerospike_client_rust.Operations.ListTypes.{ListReturnType, list_op_code}
use aerospike_client_rust.Expressions.ExpType.{ExpType}
use aerospike_client_rust.Expressions.Filter.{FilterExpression, argument_list, new}
use aerospike_client_rust.Expressions.Values
use aerospike_client_rust.Expressions.ListQueries
use aerospike_client_rust.Expressions.Calls.{int_argument, add_list_read, add_list_write}
use aerospike_client_rust.Expressions.WellFormed.{
  IsCommand, IsGiven, AreArguments, IsBin, IsExpression, IsPackableValue, HasNoContext,
  HasOneContext, EachIsArgument,
}
use aerospike_client_rust.Msgpack.Format.{IsPackable}
use aerospike_client_rust.Expressions.Made.Shape.{
  IsRightList, list_reads, IsOptional, first_code, one_context, or_nil-IsExpression,
  optional-EachIsArgument, optional-HasNoContext, IsRightCall, flags_for,
}
use aerospike_client_rust.Expressions.Calls.{modify, call}

pub data IsListQuery : FilterExpression → Type 0 where
  size :
      (bin : FilterExpression) (ctx : List CdtContext)
      → IsExpression bin
      → ContextsPackable ctx
      → IsListQuery (ListQueries.size bin ctx)
  get_by_value :
      (return_type : ListReturnType) (value bin : FilterExpression) (ctx : List CdtContext)
      → IsExpression value
      → IsExpression bin
      → ContextsPackable ctx
      → IsListQuery (ListQueries.get_by_value return_type value bin ctx)
  get_by_value_range :
      (return_type : ListReturnType) (value_begin value_end : Option FilterExpression)
      (bin : FilterExpression) (ctx : List CdtContext)
      → IsOptional value_begin
      → IsOptional value_end
      → IsExpression bin
      → ContextsPackable ctx
      → IsListQuery (ListQueries.get_by_value_range return_type value_begin value_end bin ctx)
  get_by_value_list :
      (return_type : ListReturnType) (vals bin : FilterExpression) (ctx : List CdtContext)
      → IsExpression vals
      → IsExpression bin
      → ContextsPackable ctx
      → IsListQuery (ListQueries.get_by_value_list return_type vals bin ctx)
  get_by_value_relative_rank_range :
      (return_type : ListReturnType) (value rank bin : FilterExpression) (ctx : List CdtContext)
      → IsExpression value
      → IsExpression rank
      → IsExpression bin
      → ContextsPackable ctx
      → IsListQuery (ListQueries.get_by_value_relative_rank_range return_type value rank bin ctx)
  get_by_value_relative_rank_range_count :
      (return_type : ListReturnType) (value rank count bin : FilterExpression)
      (ctx : List CdtContext)
      → IsExpression value
      → IsExpression rank
      → IsExpression count
      → IsExpression bin
      → ContextsPackable ctx
      → IsListQuery
          (ListQueries.get_by_value_relative_rank_range_count return_type value rank count bin ctx)
  get_by_index :
      (return_type : ListReturnType) (value_type : ExpType) (index bin : FilterExpression)
      (ctx : List CdtContext)
      → IsExpression index
      → IsExpression bin
      → ContextsPackable ctx
      → IsListQuery (ListQueries.get_by_index return_type value_type index bin ctx)
  get_by_index_range :
      (return_type : ListReturnType) (index bin : FilterExpression) (ctx : List CdtContext)
      → IsExpression index
      → IsExpression bin
      → ContextsPackable ctx
      → IsListQuery (ListQueries.get_by_index_range return_type index bin ctx)
  get_by_index_range_count :
      (return_type : ListReturnType) (index count bin : FilterExpression) (ctx : List CdtContext)
      → IsExpression index
      → IsExpression count
      → IsExpression bin
      → ContextsPackable ctx
      → IsListQuery (ListQueries.get_by_index_range_count return_type index count bin ctx)
  get_by_rank :
      (return_type : ListReturnType) (value_type : ExpType) (rank bin : FilterExpression)
      (ctx : List CdtContext)
      → IsExpression rank
      → IsExpression bin
      → ContextsPackable ctx
      → IsListQuery (ListQueries.get_by_rank return_type value_type rank bin ctx)
  get_by_rank_range :
      (return_type : ListReturnType) (rank bin : FilterExpression) (ctx : List CdtContext)
      → IsExpression rank
      → IsExpression bin
      → ContextsPackable ctx
      → IsListQuery (ListQueries.get_by_rank_range return_type rank bin ctx)
  get_by_rank_range_count :
      (return_type : ListReturnType) (rank count bin : FilterExpression) (ctx : List CdtContext)
      → IsExpression rank
      → IsExpression count
      → IsExpression bin
      → ContextsPackable ctx
      → IsListQuery (ListQueries.get_by_rank_range_count return_type rank count bin ctx)

pub list_query-IsRight : (e : FilterExpression) → IsListQuery e → IsRightList e
unfolding ListQueries.size ListQueries.get_by_value ListQueries.get_by_value_range
    ListQueries.get_by_value_list ListQueries.get_by_value_relative_rank_range
    ListQueries.get_by_value_relative_rank_range_count ListQueries.get_by_index
    ListQueries.get_by_index_range ListQueries.get_by_index_range_count ListQueries.get_by_rank
    ListQueries.get_by_rank_range ListQueries.get_by_rank_range_count IsRightCall flags_for modify
    call IsCommand IsGiven AreArguments IsBin argument_list int_argument add_list_read
    add_list_write first_code HasNoContext HasOneContext EachIsArgument IsExpression IsPackable
    IsPackableValue Values.int_val Values.nil new list_reads list_op_code
list_query-IsRight _ (IsListQuery.size _ _ h0 h1) =
    ((tt, tt, (one_context _ _ h1 tt, (tt, tt)), h0), refl)
list_query-IsRight _ (IsListQuery.get_by_value _ _ _ _ h0 h1 h2) =
    ((tt, tt, (one_context _ _ h2 tt, (tt, (tt, (h0, tt)))), h1), refl)
list_query-IsRight _ (IsListQuery.get_by_value_range _ _ _ _ _ h0 h1 h2 h3) = (
  (
    tt,
    tt,
    (
      one_context _ _ h3 (optional-HasNoContext _),
      (tt, (tt, (or_nil-IsExpression _ h0, optional-EachIsArgument _ h1))),
    ),
    h2,
  ),
  refl,
)
list_query-IsRight _ (IsListQuery.get_by_value_list _ _ _ _ h0 h1 h2) =
    ((tt, tt, (one_context _ _ h2 tt, (tt, (tt, (h0, tt)))), h1), refl)
list_query-IsRight _ (IsListQuery.get_by_value_relative_rank_range _ _ _ _ _ h0 h1 h2 h3) =
    ((tt, tt, (one_context _ _ h3 tt, (tt, (tt, (h0, (h1, tt))))), h2), refl)
list_query-IsRight _
      (IsListQuery.get_by_value_relative_rank_range_count _ _ _ _ _ _ h0 h1 h2 h3 h4) =
    ((tt, tt, (one_context _ _ h4 tt, (tt, (tt, (h0, (h1, (h2, tt)))))), h3), refl)
list_query-IsRight _ (IsListQuery.get_by_index _ _ _ _ _ h0 h1 h2) =
    ((tt, tt, (one_context _ _ h2 tt, (tt, (tt, (h0, tt)))), h1), refl)
list_query-IsRight _ (IsListQuery.get_by_index_range _ _ _ _ h0 h1 h2) =
    ((tt, tt, (one_context _ _ h2 tt, (tt, (tt, (h0, tt)))), h1), refl)
list_query-IsRight _ (IsListQuery.get_by_index_range_count _ _ _ _ _ h0 h1 h2 h3) =
    ((tt, tt, (one_context _ _ h3 tt, (tt, (tt, (h0, (h1, tt))))), h2), refl)
list_query-IsRight _ (IsListQuery.get_by_rank _ _ _ _ _ h0 h1 h2) =
    ((tt, tt, (one_context _ _ h2 tt, (tt, (tt, (h0, tt)))), h1), refl)
list_query-IsRight _ (IsListQuery.get_by_rank_range _ _ _ _ h0 h1 h2) =
    ((tt, tt, (one_context _ _ h2 tt, (tt, (tt, (h0, tt)))), h1), refl)
list_query-IsRight _ (IsListQuery.get_by_rank_range_count _ _ _ _ _ h0 h1 h2 h3) =
    ((tt, tt, (one_context _ _ h3 tt, (tt, (tt, (h0, (h1, tt))))), h2), refl)
