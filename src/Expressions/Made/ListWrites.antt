-- ===== src/Expressions/Made/ListWrites.antt =====
-- expressions/lists.rs: what the builders of expressions that modify return.
use aerospike_client_rust.Base.{refl, Option, List}
use aerospike_client_rust.Msgpack.Packed.Cdt.{ContextsPackable}
use aerospike_client_rust.Operations.{CdtContext}
use aerospike_client_rust.Operations.ListTypes.{ListPolicy, ListSortFlags, list_op_code}
use aerospike_client_rust.Expressions.Filter.{FilterExpression, argument_list, new}
use aerospike_client_rust.Expressions.Values
use aerospike_client_rust.Expressions.Lists
use aerospike_client_rust.Expressions.Calls.{int_argument, add_list_read, add_list_write}
use aerospike_client_rust.Expressions.WellFormed.{
  IsCommand, IsGiven, AreArguments, IsBin, IsExpression, IsPackableValue, HasNoContext,
  HasOneContext, EachIsArgument,
}
use aerospike_client_rust.Msgpack.Format.{IsPackable}
use aerospike_client_rust.Expressions.Made.Shape.{
  IsRightList, list_reads, IsOptional, first_code, one_context, or_nil-IsExpression,
  optional-EachIsArgument, optional-HasNoContext, IsRightCall, flags_for,
}
use aerospike_client_rust.Expressions.Calls.{modify, call}

pub data IsListWrite : FilterExpression → Type 0 where
  append :
      (policy : ListPolicy) (value bin : FilterExpression) (ctx : List CdtContext)
      → IsExpression value
      → IsExpression bin
      → ContextsPackable ctx
      → IsListWrite (Lists.append policy value bin ctx)
  append_items :
      (policy : ListPolicy) (list bin : FilterExpression) (ctx : List CdtContext)
      → IsExpression list
      → IsExpression bin
      → ContextsPackable ctx
      → IsListWrite (Lists.append_items policy list bin ctx)
  insert :
      (policy : ListPolicy) (index value bin : FilterExpression) (ctx : List CdtContext)
      → IsExpression index
      → IsExpression value
      → IsExpression bin
      → ContextsPackable ctx
      → IsListWrite (Lists.insert policy index value bin ctx)
  insert_items :
      (policy : ListPolicy) (index list bin : FilterExpression) (ctx : List CdtContext)
      → IsExpression index
      → IsExpression list
      → IsExpression bin
      → ContextsPackable ctx
      → IsListWrite (Lists.insert_items policy index list bin ctx)
  increment :
      (policy : ListPolicy) (index value bin : FilterExpression) (ctx : List CdtContext)
      → IsExpression index
      → IsExpression value
      → IsExpression bin
      → ContextsPackable ctx
      → IsListWrite (Lists.increment policy index value bin ctx)
  set :
      (policy : ListPolicy) (index value bin : FilterExpression) (ctx : List CdtContext)
      → IsExpression index
      → IsExpression value
      → IsExpression bin
      → ContextsPackable ctx
      → IsListWrite (Lists.set policy index value bin ctx)
  clear :
      (bin : FilterExpression) (ctx : List CdtContext)
      → IsExpression bin
      → ContextsPackable ctx
      → IsListWrite (Lists.clear bin ctx)
  sort :
      (sort_flags : ListSortFlags) (bin : FilterExpression) (ctx : List CdtContext)
      → IsExpression bin
      → ContextsPackable ctx
      → IsListWrite (Lists.sort sort_flags bin ctx)
  remove_by_value :
      (value bin : FilterExpression) (ctx : List CdtContext)
      → IsExpression value
      → IsExpression bin
      → ContextsPackable ctx
      → IsListWrite (Lists.remove_by_value value bin ctx)
  remove_by_value_list :
      (vals bin : FilterExpression) (ctx : List CdtContext)
      → IsExpression vals
      → IsExpression bin
      → ContextsPackable ctx
      → IsListWrite (Lists.remove_by_value_list vals bin ctx)
  remove_by_value_range :
      (value_begin value_end : Option FilterExpression) (bin : FilterExpression)
      (ctx : List CdtContext)
      → IsOptional value_begin
      → IsOptional value_end
      → IsExpression bin
      → ContextsPackable ctx
      → IsListWrite (Lists.remove_by_value_range value_begin value_end bin ctx)
  remove_by_value_relative_rank_range :
      (value rank bin : FilterExpression) (ctx : List CdtContext)
      → IsExpression value
      → IsExpression rank
      → IsExpression bin
      → ContextsPackable ctx
      → IsListWrite (Lists.remove_by_value_relative_rank_range value rank bin ctx)
  remove_by_value_relative_rank_range_count :
      (value rank count bin : FilterExpression) (ctx : List CdtContext)
      → IsExpression value
      → IsExpression rank
      → IsExpression count
      → IsExpression bin
      → ContextsPackable ctx
      → IsListWrite (Lists.remove_by_value_relative_rank_range_count value rank count bin ctx)
  remove_by_index :
      (index bin : FilterExpression) (ctx : List CdtContext)
      → IsExpression index
      → IsExpression bin
      → ContextsPackable ctx
      → IsListWrite (Lists.remove_by_index index bin ctx)
  remove_by_index_range :
      (index bin : FilterExpression) (ctx : List CdtContext)
      → IsExpression index
      → IsExpression bin
      → ContextsPackable ctx
      → IsListWrite (Lists.remove_by_index_range index bin ctx)
  remove_by_index_range_count :
      (index count bin : FilterExpression) (ctx : List CdtContext)
      → IsExpression index
      → IsExpression count
      → IsExpression bin
      → ContextsPackable ctx
      → IsListWrite (Lists.remove_by_index_range_count index count bin ctx)
  remove_by_rank :
      (rank bin : FilterExpression) (ctx : List CdtContext)
      → IsExpression rank
      → IsExpression bin
      → ContextsPackable ctx
      → IsListWrite (Lists.remove_by_rank rank bin ctx)
  remove_by_rank_range :
      (rank bin : FilterExpression) (ctx : List CdtContext)
      → IsExpression rank
      → IsExpression bin
      → ContextsPackable ctx
      → IsListWrite (Lists.remove_by_rank_range rank bin ctx)
  remove_by_rank_range_count :
      (rank count bin : FilterExpression) (ctx : List CdtContext)
      → IsExpression rank
      → IsExpression count
      → IsExpression bin
      → ContextsPackable ctx
      → IsListWrite (Lists.remove_by_rank_range_count rank count bin ctx)

pub list_write-IsRight : (e : FilterExpression) → IsListWrite e → IsRightList e
unfolding Lists.append Lists.append_items Lists.insert Lists.insert_items Lists.increment Lists.set
    Lists.clear Lists.sort Lists.remove_by_value Lists.remove_by_value_list
    Lists.remove_by_value_range Lists.remove_by_value_relative_rank_range
    Lists.remove_by_value_relative_rank_range_count Lists.remove_by_index
    Lists.remove_by_index_range Lists.remove_by_index_range_count Lists.remove_by_rank
    Lists.remove_by_rank_range Lists.remove_by_rank_range_count IsRightCall flags_for modify call
    IsCommand IsGiven AreArguments IsBin argument_list int_argument add_list_read add_list_write
    first_code HasNoContext HasOneContext EachIsArgument IsExpression IsPackable IsPackableValue
    Values.int_val Values.nil new list_reads list_op_code
list_write-IsRight _ (IsListWrite.append _ _ _ _ h0 h1 h2) =
    ((tt, tt, (one_context _ _ h2 tt, (tt, (h0, (tt, (tt, tt))))), h1), refl)
list_write-IsRight _ (IsListWrite.append_items _ _ _ _ h0 h1 h2) =
    ((tt, tt, (one_context _ _ h2 tt, (tt, (h0, (tt, (tt, tt))))), h1), refl)
list_write-IsRight _ (IsListWrite.insert _ _ _ _ _ h0 h1 h2 h3) =
    ((tt, tt, (one_context _ _ h3 tt, (tt, (h0, (h1, (tt, tt))))), h2), refl)
list_write-IsRight _ (IsListWrite.insert_items _ _ _ _ _ h0 h1 h2 h3) =
    ((tt, tt, (one_context _ _ h3 tt, (tt, (h0, (h1, (tt, tt))))), h2), refl)
list_write-IsRight _ (IsListWrite.increment _ _ _ _ _ h0 h1 h2 h3) =
    ((tt, tt, (one_context _ _ h3 tt, (tt, (h0, (h1, (tt, (tt, tt)))))), h2), refl)
list_write-IsRight _ (IsListWrite.set _ _ _ _ _ h0 h1 h2 h3) =
    ((tt, tt, (one_context _ _ h3 tt, (tt, (h0, (h1, (tt, tt))))), h2), refl)
list_write-IsRight _ (IsListWrite.clear _ _ h0 h1) =
    ((tt, tt, (one_context _ _ h1 tt, (tt, tt)), h0), refl)
list_write-IsRight _ (IsListWrite.sort _ _ _ h0 h1) =
    ((tt, tt, (one_context _ _ h1 tt, (tt, (tt, tt))), h0), refl)
list_write-IsRight _ (IsListWrite.remove_by_value _ _ _ h0 h1 h2) =
    ((tt, tt, (one_context _ _ h2 tt, (tt, (tt, (h0, tt)))), h1), refl)
list_write-IsRight _ (IsListWrite.remove_by_value_list _ _ _ h0 h1 h2) =
    ((tt, tt, (one_context _ _ h2 tt, (tt, (tt, (h0, tt)))), h1), refl)
list_write-IsRight _ (IsListWrite.remove_by_value_range _ _ _ _ h0 h1 h2 h3) = (
  (
    tt,
    tt,
    (
      one_context _ _ h3 (optional-HasNoContext _),
      (tt, (tt, (or_nil-IsExpression _ h0, optional-EachIsArgument _ h1))),
    ),
    h2,
  ),
  refl,
)
list_write-IsRight _ (IsListWrite.remove_by_value_relative_rank_range _ _ _ _ h0 h1 h2 h3) =
    ((tt, tt, (one_context _ _ h3 tt, (tt, (tt, (h0, (h1, tt))))), h2), refl)
list_write-IsRight _
      (IsListWrite.remove_by_value_relative_rank_range_count _ _ _ _ _ h0 h1 h2 h3 h4) =
    ((tt, tt, (one_context _ _ h4 tt, (tt, (tt, (h0, (h1, (h2, tt)))))), h3), refl)
list_write-IsRight _ (IsListWrite.remove_by_index _ _ _ h0 h1 h2) =
    ((tt, tt, (one_context _ _ h2 tt, (tt, (tt, (h0, tt)))), h1), refl)
list_write-IsRight _ (IsListWrite.remove_by_index_range _ _ _ h0 h1 h2) =
    ((tt, tt, (one_context _ _ h2 tt, (tt, (tt, (h0, tt)))), h1), refl)
list_write-IsRight _ (IsListWrite.remove_by_index_range_count _ _ _ _ h0 h1 h2 h3) =
    ((tt, tt, (one_context _ _ h3 tt, (tt, (tt, (h0, (h1, tt))))), h2), refl)
list_write-IsRight _ (IsListWrite.remove_by_rank _ _ _ h0 h1 h2) =
    ((tt, tt, (one_context _ _ h2 tt, (tt, (tt, (h0, tt)))), h1), refl)
list_write-IsRight _ (IsListWrite.remove_by_rank_range _ _ _ h0 h1 h2) =
    ((tt, tt, (one_context _ _ h2 tt, (tt, (tt, (h0, tt)))), h1), refl)
list_write-IsRight _ (IsListWrite.remove_by_rank_range_count _ _ _ _ h0 h1 h2 h3) =
    ((tt, tt, (one_context _ _ h3 tt, (tt, (tt, (h0, (h1, tt))))), h2), refl)
