-- ===== src/Expressions/Made/Shape.antt =====
-- expressions/: what is right for a call of a module of the server, and the arguments that the
-- builders of calls share.
use aerospike_client_rust.Base.{
  ◌≡◌, ℕ, ◌+◌, ℤ, pos, Bool, true, false, Option, none, some, List, [], ◌∷◌, ltb, leb, ◌&&◌,
  if◌then◌else◌,
}
use aerospike_client_rust.Value.{Value}
use aerospike_client_rust.Msgpack.Format.{IsPackable}
use aerospike_client_rust.Msgpack.Packed.Cdt.{ContextsPackable}
use aerospike_client_rust.Operations.{CdtContext}
use aerospike_client_rust.Expressions.Filter.{
  FilterExpression, expression, OptionalArguments, ExpressionArguments, ExpressionArgument,
  end_arguments, argument, argument_list, new,
}
use aerospike_client_rust.Expressions.Values
use aerospike_client_rust.Expressions.Calls.{int_argument, or_nil, optional_argument}
use aerospike_client_rust.Expressions.WellFormed.{
  IsPackableValue, HasNoContext, HasOneContext, IsExpression, EachIsArgument,
}

-- The first number among the arguments of a call is its code.
unfoldable pub first_code : ExpressionArguments → Option ℕ
first_code end_arguments = none
first_code (argument (ExpressionArgument.value (Value.int (pos n))) args) = some n
first_code (argument _ args) = first_code args

-- The flags that a call of a module has: without `MODIFY` if its code only reads.
unfoldable pub flags_for : ℕ → (ℕ → Bool) → Option ℕ → Option ℤ
flags_for part reads none = none
flags_for part reads (some n) = some (pos (if reads n then part else part + 64))

unfoldable pub IsRightCall : ℕ → (ℕ → Bool) → FilterExpression → Type 0
IsRightCall part reads (expression cmd val b flags ty es (OptionalArguments.arguments args)) =
    flags ≡ flags_for part reads (first_code args)
IsRightCall part reads _ = ⊥

unfoldable pub list_reads : ℕ → Bool
list_reads n = leb 16 n && ltb n 32

unfoldable pub map_reads : ℕ → Bool
map_reads n = leb 96 n

unfoldable pub bit_reads : ℕ → Bool
bit_reads n = leb 50 n

unfoldable pub hll_reads : ℕ → Bool
hll_reads n = leb 50 n

-- The expression is well formed, and its flags say whether its code modifies.
abbrev pub IsRightList : FilterExpression → Type 0
IsRightList e = IsExpression e × IsRightCall 0 list_reads e

abbrev pub IsRightMap : FilterExpression → Type 0
IsRightMap e = IsExpression e × IsRightCall 0 map_reads e

abbrev pub IsRightBit : FilterExpression → Type 0
IsRightBit e = IsExpression e × IsRightCall 1 bit_reads e

abbrev pub IsRightHll : FilterExpression → Type 0
IsRightHll e = IsExpression e × IsRightCall 2 hll_reads e

unfoldable pub IsOptional : Option FilterExpression → Type 0
IsOptional none = Unit {0}
IsOptional (some e) = IsExpression e

no_context : (args : ExpressionArguments) → HasNoContext args → HasOneContext args
unfolding HasNoContext HasOneContext
no_context end_arguments h = tt
no_context (argument (ExpressionArgument.context []) args) h = no_context args h
no_context (argument (ExpressionArgument.context (c ∷ ctx)) args) h = absurd h
no_context (argument _ args) h = no_context args h

pub one_context :
    (ctx : List CdtContext) (args : ExpressionArguments)
    → ContextsPackable ctx
    → HasNoContext args
    → HasOneContext (argument (ExpressionArgument.context ctx) args)
unfolding HasOneContext
one_context [] args h k = no_context args k
one_context (c ∷ ctx) args h k = (h, k)

pub or_nil-IsExpression : (e : Option FilterExpression) → IsOptional e → IsExpression (or_nil e)
unfolding IsOptional or_nil Values.nil new IsExpression IsPackableValue IsPackable
or_nil-IsExpression none h = tt
or_nil-IsExpression (some e) h = h

pub optional-EachIsArgument :
    (e : Option FilterExpression)
    → IsOptional e
    → EachIsArgument (argument_list (optional_argument e))
unfolding IsOptional optional_argument argument_list EachIsArgument
optional-EachIsArgument none h = tt
optional-EachIsArgument (some e) h = (h, tt)

pub optional-HasNoContext :
    (e : Option FilterExpression) → HasNoContext (argument_list (optional_argument e))
unfolding optional_argument argument_list HasNoContext
optional-HasNoContext none = tt
optional-HasNoContext (some e) = tt

pub signed-EachIsArgument :
    (signed : Bool) → EachIsArgument (argument_list (if signed then int_argument 1 ∷ [] else []))
unfolding argument_list EachIsArgument int_argument IsPackable
signed-EachIsArgument true = (tt, tt)
signed-EachIsArgument false = tt

pub signed-HasOneContext :
    (signed : Bool) → HasOneContext (argument_list (if signed then int_argument 1 ∷ [] else []))
unfolding argument_list HasOneContext int_argument
signed-HasOneContext true = tt
signed-HasOneContext false = tt
