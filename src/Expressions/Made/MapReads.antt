-- ===== src/Expressions/Made/MapReads.antt =====
-- expressions/maps.rs: what the builders of expressions that read return.
use aerospike_client_rust.Base.{refl, Option, List}
use aerospike_client_rust.Msgpack.Packed.Cdt.{ContextsPackable}
use aerospike_client_rust.Operations.{CdtContext}
use aerospike_client_rust.Operations.MapTypes.{MapReturnType, map_op_code}
use aerospike_client_rust.Expressions.ExpType.{ExpType}
use aerospike_client_rust.Expressions.Filter.{FilterExpression, argument_list, new}
use aerospike_client_rust.Expressions.Values
use aerospike_client_rust.Expressions.MapQueries
use aerospike_client_rust.Expressions.Calls.{int_argument, add_map_read, add_map_write}
use aerospike_client_rust.Expressions.WellFormed.{
  IsCommand, IsGiven, AreArguments, IsBin, IsExpression, IsPackableValue, HasNoContext,
  HasOneContext, EachIsArgument,
}
use aerospike_client_rust.Msgpack.Format.{IsPackable}
use aerospike_client_rust.Expressions.Made.Shape.{
  IsRightMap, map_reads, IsOptional, first_code, one_context, or_nil-IsExpression,
  optional-EachIsArgument, optional-HasNoContext, IsRightCall, flags_for,
}
use aerospike_client_rust.Expressions.Calls.{modify, call}

pub data IsMapQuery : FilterExpression → Type 0 where
  size :
      (bin : FilterExpression) (ctx : List CdtContext)
      → IsExpression bin
      → ContextsPackable ctx
      → IsMapQuery (MapQueries.size bin ctx)
  get_by_key :
      (return_type : MapReturnType) (value_type : ExpType) (key bin : FilterExpression)
      (ctx : List CdtContext)
      → IsExpression key
      → IsExpression bin
      → ContextsPackable ctx
      → IsMapQuery (MapQueries.get_by_key return_type value_type key bin ctx)
  get_by_key_range :
      (return_type : MapReturnType) (key_begin key_end : Option FilterExpression)
      (bin : FilterExpression) (ctx : List CdtContext)
      → IsOptional key_begin
      → IsOptional key_end
      → IsExpression bin
      → ContextsPackable ctx
      → IsMapQuery (MapQueries.get_by_key_range return_type key_begin key_end bin ctx)
  get_by_key_list :
      (return_type : MapReturnType) (keys bin : FilterExpression) (ctx : List CdtContext)
      → IsExpression keys
      → IsExpression bin
      → ContextsPackable ctx
      → IsMapQuery (MapQueries.get_by_key_list return_type keys bin ctx)
  get_by_key_relative_index_range :
      (return_type : MapReturnType) (key index bin : FilterExpression) (ctx : List CdtContext)
      → IsExpression key
      → IsExpression index
      → IsExpression bin
      → ContextsPackable ctx
      → IsMapQuery (MapQueries.get_by_key_relative_index_range return_type key index bin ctx)
  get_by_key_relative_index_range_count :
      (return_type : MapReturnType) (key index count bin : FilterExpression) (ctx : List CdtContext)
      → IsExpression key
      → IsExpression index
      → IsExpression count
      → IsExpression bin
      → ContextsPackable ctx
      → IsMapQuery
          (MapQueries.get_by_key_relative_index_range_count return_type key index count bin ctx)
  get_by_value :
      (return_type : MapReturnType) (value bin : FilterExpression) (ctx : List CdtContext)
      → IsExpression value
      → IsExpression bin
      → ContextsPackable ctx
      → IsMapQuery (MapQueries.get_by_value return_type value bin ctx)
  get_by_value_range :
      (return_type : MapReturnType) (value_begin value_end : Option FilterExpression)
      (bin : FilterExpression) (ctx : List CdtContext)
      → IsOptional value_begin
      → IsOptional value_end
      → IsExpression bin
      → ContextsPackable ctx
      → IsMapQuery (MapQueries.get_by_value_range return_type value_begin value_end bin ctx)
  get_by_value_list :
      (return_type : MapReturnType) (vals bin : FilterExpression) (ctx : List CdtContext)
      → IsExpression vals
      → IsExpression bin
      → ContextsPackable ctx
      → IsMapQuery (MapQueries.get_by_value_list return_type vals bin ctx)
  get_by_value_relative_rank_range :
      (return_type : MapReturnType) (value rank bin : FilterExpression) (ctx : List CdtContext)
      → IsExpression value
      → IsExpression rank
      → IsExpression bin
      → ContextsPackable ctx
      → IsMapQuery (MapQueries.get_by_value_relative_rank_range return_type value rank bin ctx)
  get_by_value_relative_rank_range_count :
      (return_type : MapReturnType) (value rank count bin : FilterExpression)
      (ctx : List CdtContext)
      → IsExpression value
      → IsExpression rank
      → IsExpression count
      → IsExpression bin
      → ContextsPackable ctx
      → IsMapQuery
          (MapQueries.get_by_value_relative_rank_range_count return_type value rank count bin ctx)
  get_by_index :
      (return_type : MapReturnType) (value_type : ExpType) (index bin : FilterExpression)
      (ctx : List CdtContext)
      → IsExpression index
      → IsExpression bin
      → ContextsPackable ctx
      → IsMapQuery (MapQueries.get_by_index return_type value_type index bin ctx)
  get_by_index_range :
      (return_type : MapReturnType) (index bin : FilterExpression) (ctx : List CdtContext)
      → IsExpression index
      → IsExpression bin
      → ContextsPackable ctx
      → IsMapQuery (MapQueries.get_by_index_range return_type index bin ctx)
  get_by_index_range_count :
      (return_type : MapReturnType) (index count bin : FilterExpression) (ctx : List CdtContext)
      → IsExpression index
      → IsExpression count
      → IsExpression bin
      → ContextsPackable ctx
      → IsMapQuery (MapQueries.get_by_index_range_count return_type index count bin ctx)
  get_by_rank :
      (return_type : MapReturnType) (value_type : ExpType) (rank bin : FilterExpression)
      (ctx : List CdtContext)
      → IsExpression rank
      → IsExpression bin
      → ContextsPackable ctx
      → IsMapQuery (MapQueries.get_by_rank return_type value_type rank bin ctx)
  get_by_rank_range :
      (return_type : MapReturnType) (rank bin : FilterExpression) (ctx : List CdtContext)
      → IsExpression rank
      → IsExpression bin
      → ContextsPackable ctx
      → IsMapQuery (MapQueries.get_by_rank_range return_type rank bin ctx)
  get_by_rank_range_count :
      (return_type : MapReturnType) (rank count bin : FilterExpression) (ctx : List CdtContext)
      → IsExpression rank
      → IsExpression count
      → IsExpression bin
      → ContextsPackable ctx
      → IsMapQuery (MapQueries.get_by_rank_range_count return_type rank count bin ctx)

pub map_query-IsRight : (e : FilterExpression) → IsMapQuery e → IsRightMap e
unfolding MapQueries.size MapQueries.get_by_key MapQueries.get_by_key_range
    MapQueries.get_by_key_list MapQueries.get_by_key_relative_index_range
    MapQueries.get_by_key_relative_index_range_count MapQueries.get_by_value
    MapQueries.get_by_value_range MapQueries.get_by_value_list
    MapQueries.get_by_value_relative_rank_range MapQueries.get_by_value_relative_rank_range_count
    MapQueries.get_by_index MapQueries.get_by_index_range MapQueries.get_by_index_range_count
    MapQueries.get_by_rank MapQueries.get_by_rank_range MapQueries.get_by_rank_range_count
    IsRightCall flags_for modify call IsCommand IsGiven AreArguments IsBin argument_list
    int_argument add_map_read add_map_write first_code HasNoContext HasOneContext EachIsArgument
    IsExpression IsPackable IsPackableValue Values.int_val Values.nil new map_reads map_op_code
map_query-IsRight _ (IsMapQuery.size _ _ h0 h1) =
    ((tt, tt, (one_context _ _ h1 tt, (tt, tt)), h0), refl)
map_query-IsRight _ (IsMapQuery.get_by_key _ _ _ _ _ h0 h1 h2) =
    ((tt, tt, (one_context _ _ h2 tt, (tt, (tt, (h0, tt)))), h1), refl)
map_query-IsRight _ (IsMapQuery.get_by_key_range _ _ _ _ _ h0 h1 h2 h3) = (
  (
    tt,
    tt,
    (
      one_context _ _ h3 (optional-HasNoContext _),
      (tt, (tt, (or_nil-IsExpression _ h0, optional-EachIsArgument _ h1))),
    ),
    h2,
  ),
  refl,
)
map_query-IsRight _ (IsMapQuery.get_by_key_list _ _ _ _ h0 h1 h2) =
    ((tt, tt, (one_context _ _ h2 tt, (tt, (tt, (h0, tt)))), h1), refl)
map_query-IsRight _ (IsMapQuery.get_by_key_relative_index_range _ _ _ _ _ h0 h1 h2 h3) =
    ((tt, tt, (one_context _ _ h3 tt, (tt, (tt, (h0, (h1, tt))))), h2), refl)
map_query-IsRight _ (IsMapQuery.get_by_key_relative_index_range_count _ _ _ _ _ _ h0 h1 h2 h3 h4) =
    ((tt, tt, (one_context _ _ h4 tt, (tt, (tt, (h0, (h1, (h2, tt)))))), h3), refl)
map_query-IsRight _ (IsMapQuery.get_by_value _ _ _ _ h0 h1 h2) =
    ((tt, tt, (one_context _ _ h2 tt, (tt, (tt, (h0, tt)))), h1), refl)
map_query-IsRight _ (IsMapQuery.get_by_value_range _ _ _ _ _ h0 h1 h2 h3) = (
  (
    tt,
    tt,
    (
      one_context _ _ h3 (optional-HasNoContext _),
      (tt, (tt, (or_nil-IsExpression _ h0, optional-EachIsArgument _ h1))),
    ),
    h2,
  ),
  refl,
)
map_query-IsRight _ (IsMapQuery.get_by_value_list _ _ _ _ h0 h1 h2) =
    ((tt, tt, (one_context _ _ h2 tt, (tt, (tt, (h0, tt)))), h1), refl)
map_query-IsRight _ (IsMapQuery.get_by_value_relative_rank_range _ _ _ _ _ h0 h1 h2 h3) =
    ((tt, tt, (one_context _ _ h3 tt, (tt, (tt, (h0, (h1, tt))))), h2), refl)
map_query-IsRight _ (IsMapQuery.get_by_value_relative_rank_range_count _ _ _ _ _ _ h0 h1 h2 h3 h4) =
    ((tt, tt, (one_context _ _ h4 tt, (tt, (tt, (h0, (h1, (h2, tt)))))), h3), refl)
map_query-IsRight _ (IsMapQuery.get_by_index _ _ _ _ _ h0 h1 h2) =
    ((tt, tt, (one_context _ _ h2 tt, (tt, (tt, (h0, tt)))), h1), refl)
map_query-IsRight _ (IsMapQuery.get_by_index_range _ _ _ _ h0 h1 h2) =
    ((tt, tt, (one_context _ _ h2 tt, (tt, (tt, (h0, tt)))), h1), refl)
map_query-IsRight _ (IsMapQuery.get_by_index_range_count _ _ _ _ _ h0 h1 h2 h3) =
    ((tt, tt, (one_context _ _ h3 tt, (tt, (tt, (h0, (h1, tt))))), h2), refl)
map_query-IsRight _ (IsMapQuery.get_by_rank _ _ _ _ _ h0 h1 h2) =
    ((tt, tt, (one_context _ _ h2 tt, (tt, (tt, (h0, tt)))), h1), refl)
map_query-IsRight _ (IsMapQuery.get_by_rank_range _ _ _ _ h0 h1 h2) =
    ((tt, tt, (one_context _ _ h2 tt, (tt, (tt, (h0, tt)))), h1), refl)
map_query-IsRight _ (IsMapQuery.get_by_rank_range_count _ _ _ _ _ h0 h1 h2 h3) =
    ((tt, tt, (one_context _ _ h3 tt, (tt, (tt, (h0, (h1, tt))))), h2), refl)
