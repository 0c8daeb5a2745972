-- ===== src/Expressions/Made/MapWrites.antt =====
-- expressions/maps.rs: what the builders of expressions that modify return.
use aerospike_client_rust.Base.{refl, Option, List}
use aerospike_client_rust.Msgpack.Packed.Cdt.{ContextsPackable}
use aerospike_client_rust.Operations.{CdtContext}
use aerospike_client_rust.Operations.MapTypes.{MapPolicy, map_op_code}
use aerospike_client_rust.Expressions.Filter.{FilterExpression, argument_list, new}
use aerospike_client_rust.Expressions.Values
use aerospike_client_rust.Expressions.Maps
use aerospike_client_rust.Expressions.Calls.{int_argument, add_map_read, add_map_write}
use aerospike_client_rust.Expressions.WellFormed.{
  IsCommand, IsGiven, AreArguments, IsBin, IsExpression, IsPackableValue, HasNoContext,
  HasOneContext, EachIsArgument,
}
use aerospike_client_rust.Msgpack.Format.{IsPackable}
use aerospike_client_rust.Expressions.Made.Shape.{
  IsRightMap, map_reads, IsOptional, first_code, one_context, or_nil-IsExpression,
  optional-EachIsArgument, optional-HasNoContext, IsRightCall, flags_for,
}
use aerospike_client_rust.Expressions.Made.Puts.{put-IsRight, put_items-IsRight}
use aerospike_client_rust.Expressions.Calls.{modify, call}

pub data IsMapWrite : FilterExpression → Type 0 where
  put :
      (policy : MapPolicy) (key value bin : FilterExpression) (ctx : List CdtContext)
      → IsExpression key
      → IsExpression value
      → IsExpression bin
      → ContextsPackable ctx
      → IsMapWrite (Maps.put policy key value bin ctx)
  put_items :
      (policy : MapPolicy) (map bin : FilterExpression) (ctx : List CdtContext)
      → IsExpression map
      → IsExpression bin
      → ContextsPackable ctx
      → IsMapWrite (Maps.put_items policy map bin ctx)
  increment :
      (policy : MapPolicy) (key incr bin : FilterExpression) (ctx : List CdtContext)
      → IsExpression key
      → IsExpression incr
      → IsExpression bin
      → ContextsPackable ctx
      → IsMapWrite (Maps.increment policy key incr bin ctx)
  clear :
      (bin : FilterExpression) (ctx : List CdtContext)
      → IsExpression bin
      → ContextsPackable ctx
      → IsMapWrite (Maps.clear bin ctx)
  remove_by_key :
      (key bin : FilterExpression) (ctx : List CdtContext)
      → IsExpression key
      → IsExpression bin
      → ContextsPackable ctx
      → IsMapWrite (Maps.remove_by_key key bin ctx)
  remove_by_key_list :
      (keys bin : FilterExpression) (ctx : List CdtContext)
      → IsExpression keys
      → IsExpression bin
      → ContextsPackable ctx
      → IsMapWrite (Maps.remove_by_key_list keys bin ctx)
  remove_by_key_range :
      (key_begin key_end : Option FilterExpression) (bin : FilterExpression) (ctx : List CdtContext)
      → IsOptional key_begin
      → IsOptional key_end
      → IsExpression bin
      → ContextsPackable ctx
      → IsMapWrite (Maps.remove_by_key_range key_begin key_end bin ctx)
  remove_by_key_relative_index_range :
      (key index bin : FilterExpression) (ctx : List CdtContext)
      → IsExpression key
      → IsExpression index
      → IsExpression bin
      → ContextsPackable ctx
      → IsMapWrite (Maps.remove_by_key_relative_index_range key index bin ctx)
  remove_by_key_relative_index_range_count :
      (key index count bin : FilterExpression) (ctx : List CdtContext)
      → IsExpression key
      → IsExpression index
      → IsExpression count
      → IsExpression bin
      → ContextsPackable ctx
      → IsMapWrite (Maps.remove_by_key_relative_index_range_count key index count bin ctx)
  remove_by_value :
      (value bin : FilterExpression) (ctx : List CdtContext)
      → IsExpression value
      → IsExpression bin
      → ContextsPackable ctx
      → IsMapWrite (Maps.remove_by_value value bin ctx)
  remove_by_value_list :
      (vals bin : FilterExpression) (ctx : List CdtContext)
      → IsExpression vals
      → IsExpression bin
      → ContextsPackable ctx
      → IsMapWrite (Maps.remove_by_value_list vals bin ctx)
  remove_by_value_range :
      (value_begin value_end : Option FilterExpression) (bin : FilterExpression)
      (ctx : List CdtContext)
      → IsOptional value_begin
      → IsOptional value_end
      → IsExpression bin
      → ContextsPackable ctx
      → IsMapWrite (Maps.remove_by_value_range value_begin value_end bin ctx)
  remove_by_value_relative_rank_range :
      (value rank bin : FilterExpression) (ctx : List CdtContext)
      → IsExpression value
      → IsExpression rank
      → IsExpression bin
      → ContextsPackable ctx
      → IsMapWrite (Maps.remove_by_value_relative_rank_range value rank bin ctx)
  remove_by_value_relative_rank_range_count :
      (value rank count bin : FilterExpression) (ctx : List CdtContext)
      → IsExpression value
      → IsExpression rank
      → IsExpression count
      → IsExpression bin
      → ContextsPackable ctx
      → IsMapWrite (Maps.remove_by_value_relative_rank_range_count value rank count bin ctx)
  remove_by_index :
      (index bin : FilterExpression) (ctx : List CdtContext)
      → IsExpression index
      → IsExpression bin
      → ContextsPackable ctx
      → IsMapWrite (Maps.remove_by_index index bin ctx)
  remove_by_index_range :
      (index bin : FilterExpression) (ctx : List CdtContext)
      → IsExpression index
      → IsExpression bin
      → ContextsPackable ctx
      → IsMapWrite (Maps.remove_by_index_range index bin ctx)
  remove_by_index_range_count :
      (index count bin : FilterExpression) (ctx : List CdtContext)
      → IsExpression index
      → IsExpression count
      → IsExpression bin
      → ContextsPackable ctx
      → IsMapWrite (Maps.remove_by_index_range_count index count bin ctx)
  remove_by_rank :
      (rank bin : FilterExpression) (ctx : List CdtContext)
      → IsExpression rank
      → IsExpression bin
      → ContextsPackable ctx
      → IsMapWrite (Maps.remove_by_rank rank bin ctx)
  remove_by_rank_range :
      (rank bin : FilterExpression) (ctx : List CdtContext)
      → IsExpression rank
      → IsExpression bin
      → ContextsPackable ctx
      → IsMapWrite (Maps.remove_by_rank_range rank bin ctx)
  remove_by_rank_range_count :
      (rank count bin : FilterExpression) (ctx : List CdtContext)
      → IsExpression rank
      → IsExpression count
      → IsExpression bin
      → ContextsPackable ctx
      → IsMapWrite (Maps.remove_by_rank_range_count rank count bin ctx)

pub map_write-IsRight : (e : FilterExpression) → IsMapWrite e → IsRightMap e
unfolding Maps.put Maps.put_items Maps.increment Maps.clear Maps.remove_by_key
    Maps.remove_by_key_list Maps.remove_by_key_range Maps.remove_by_key_relative_index_range
    Maps.remove_by_key_relative_index_range_count Maps.remove_by_value Maps.remove_by_value_list
    Maps.remove_by_value_range Maps.remove_by_value_relative_rank_range
    Maps.remove_by_value_relative_rank_range_count Maps.remove_by_index Maps.remove_by_index_range
    Maps.remove_by_index_range_count Maps.remove_by_rank Maps.remove_by_rank_range
    Maps.remove_by_rank_range_count IsRightCall flags_for modify call IsCommand IsGiven AreArguments
    IsBin argument_list int_argument add_map_read add_map_write first_code HasNoContext
    HasOneContext EachIsArgument IsExpression IsPackable IsPackableValue Values.int_val Values.nil
    new map_reads map_op_code
map_write-IsRight _ (IsMapWrite.put policy key value bin ctx h0 h1 h2 h3) =
    put-IsRight policy key value bin ctx h0 h1 h2 h3
map_write-IsRight _ (IsMapWrite.put_items policy map bin ctx h0 h1 h2) =
    put_items-IsRight policy map bin ctx h0 h1 h2
map_write-IsRight _ (IsMapWrite.increment _ _ _ _ _ h0 h1 h2 h3) =
    ((tt, tt, (one_context _ _ h3 tt, (tt, (h0, (h1, (tt, tt))))), h2), refl)
map_write-IsRight _ (IsMapWrite.clear _ _ h0 h1) =
    ((tt, tt, (one_context _ _ h1 tt, (tt, tt)), h0), refl)
map_write-IsRight _ (IsMapWrite.remove_by_key _ _ _ h0 h1 h2) =
    ((tt, tt, (one_context _ _ h2 tt, (tt, (tt, (h0, tt)))), h1), refl)
map_write-IsRight _ (IsMapWrite.remove_by_key_list _ _ _ h0 h1 h2) =
    ((tt, tt, (one_context _ _ h2 tt, (tt, (tt, (h0, tt)))), h1), refl)
map_write-IsRight _ (IsMapWrite.remove_by_key_range _ _ _ _ h0 h1 h2 h3) = (
  (
    tt,
    tt,
    (
      one_context _ _ h3 (optional-HasNoContext _),
      (tt, (tt, (or_nil-IsExpression _ h0, optional-EachIsArgument _ h1))),
    ),
    h2,
  ),
  refl,
)
map_write-IsRight _ (IsMapWrite.remove_by_key_relative_index_range _ _ _ _ h0 h1 h2 h3) =
    ((tt, tt, (one_context _ _ h3 tt, (tt, (tt, (h0, (h1, tt))))), h2), refl)
map_write-IsRight _ (IsMapWrite.remove_by_key_relative_index_range_count _ _ _ _ _ h0 h1 h2 h3 h4) =
    ((tt, tt, (one_context _ _ h4 tt, (tt, (tt, (h0, (h1, (h2, tt)))))), h3), refl)
map_write-IsRight _ (IsMapWrite.remove_by_value _ _ _ h0 h1 h2) =
    ((tt, tt, (one_context _ _ h2 tt, (tt, (tt, (h0, tt)))), h1), refl)
map_write-IsRight _ (IsMapWrite.remove_by_value_list _ _ _ h0 h1 h2) =
    ((tt, tt, (one_context _ _ h2 tt, (tt, (tt, (h0, tt)))), h1), refl)
map_write-IsRight _ (IsMapWrite.remove_by_value_range _ _ _ _ h0 h1 h2 h3) = (
  (
    tt,
    tt,
    (
      one_context _ _ h3 (optional-HasNoContext _),
      (tt, (tt, (or_nil-IsExpression _ h0, optional-EachIsArgument _ h1))),
    ),
    h2,
  ),
  refl,
)
map_write-IsRight _ (IsMapWrite.remove_by_value_relative_rank_range _ _ _ _ h0 h1 h2 h3) =
    ((tt, tt, (one_context _ _ h3 tt, (tt, (tt, (h0, (h1, tt))))), h2), refl)
map_write-IsRight _
      (IsMapWrite.remove_by_value_relative_rank_range_count _ _ _ _ _ h0 h1 h2 h3 h4) =
    ((tt, tt, (one_context _ _ h4 tt, (tt, (tt, (h0, (h1, (h2, tt)))))), h3), refl)
map_write-IsRight _ (IsMapWrite.remove_by_index _ _ _ h0 h1 h2) =
    ((tt, tt, (one_context _ _ h2 tt, (tt, (tt, (h0, tt)))), h1), refl)
map_write-IsRight _ (IsMapWrite.remove_by_index_range _ _ _ h0 h1 h2) =
    ((tt, tt, (one_context _ _ h2 tt, (tt, (tt, (h0, tt)))), h1), refl)
map_write-IsRight _ (IsMapWrite.remove_by_index_range_count _ _ _ _ h0 h1 h2 h3) =
    ((tt, tt, (one_context _ _ h3 tt, (tt, (tt, (h0, (h1, tt))))), h2), refl)
map_write-IsRight _ (IsMapWrite.remove_by_rank _ _ _ h0 h1 h2) =
    ((tt, tt, (one_context _ _ h2 tt, (tt, (tt, (h0, tt)))), h1), refl)
map_write-IsRight _ (IsMapWrite.remove_by_rank_range _ _ _ h0 h1 h2) =
    ((tt, tt, (one_context _ _ h2 tt, (tt, (tt, (h0, tt)))), h1), refl)
map_write-IsRight _ (IsMapWrite.remove_by_rank_range_count _ _ _ _ h0 h1 h2 h3) =
    ((tt, tt, (one_context _ _ h3 tt, (tt, (tt, (h0, (h1, tt))))), h2), refl)
