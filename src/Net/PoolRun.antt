-- ===== src/Net/PoolRun.antt =====
-- net/connection_pool.rs: the calls on one queue in any order, by any number of threads: `get`, and
-- `put_back` and `drop_conn` on a connection that is handed out.
use aerospike_client_rust.Base.{
  ℕ, suc, ◌+◌, ◌≤◌, ◌≡◌, refl, sym, ap, ◌∙◌, List, [], ◌∷◌, ◌++◌, length, length-append, arith,
}
use mathlib.Core.Path.{subst}
use aerospike_client_rust.Outcome.{Outcome, ok, ok-injective}
use aerospike_client_rust.Net.ConnectionPool.{
  World, Queue, Got, pooled, no_more_connections, failed, with_capacity, get, put_back, drop_conn,
}
use aerospike_client_rust.Net.PoolInvariant.{
  IsCounted, handed, get-IsCounted, put_back-IsCounted, drop_conn-IsCounted,
}

module _ {C : Type 0} where
  -- One call, on a queue and on the connections that it has handed out.
  pub data Step : Queue C → List C → Queue C → List C → Type 0 where
    got :
        {q q' : Queue C} {lent : List C} (world : World C) (conn : C)
        → get world q ≡ ok (pooled conn, q')
        → Step q lent q' (conn ∷ lent)
    refused :
        {q q' : Queue C} {lent : List C} (world : World C)
        → get world q ≡ ok (no_more_connections, q')
        → Step q lent q' lent
    missed :
        {q q' : Queue C} {lent : List C} (world : World C)
        → get world q ≡ ok (failed, q')
        → Step q lent q' lent
    returned :
        {q q' : Queue C} {lent : List C} (conn : C) (before after : List C)
        → lent ≡ before ++ (conn ∷ after)
        → put_back conn q ≡ ok q'
        → Step q lent q' (before ++ after)
    dropped :
        {q q' : Queue C} {lent : List C} (conn : C) (before after : List C)
        → lent ≡ before ++ (conn ∷ after)
        → drop_conn conn q ≡ ok q'
        → Step q lent q' (before ++ after)

  pub data Steps : Queue C → List C → Queue C → List C → Type 0 where
    rest : {q : Queue C} {lent : List C} → Steps q lent q lent
    then :
        {q q' q'' : Queue C} {lent lent' lent'' : List C}
        → Step q lent q' lent'
        → Steps q' lent' q'' lent''
        → Steps q lent q'' lent''

  -- What holds between calls.
  abbrev pub IsSound : Queue C → List C → ℕ → Type 0
  IsSound q lent capacity = IsCounted q (length lent) × (q.capacity ≡ capacity)

  one_less :
      (lent before after : List C) (conn : C)
      → lent ≡ before ++ (conn ∷ after)
      → length lent ≡ suc (length (before ++ after))
  one_less lent before after conn e =
      ap length e ∙ omega (arith, length-append before (conn ∷ after), length-append before after)

  -- Whatever a call is known to return, it returned what its promise is about.
  got-IsSound :
      (world : World C) {q q' : Queue C} (lent lent' : List C) (g : Got C) {capacity : ℕ}
      → get world q ≡ ok (g, q')
      → length lent' ≡ handed g + length lent
      → IsSound q lent capacity
      → IsSound q' lent' capacity
  got-IsSound world {q = q} {q' = q'} lent lent' g e l (h, c) =
      let (g', r, same, limit, keeps) = get-IsCounted world q (length lent) h in
      let p : (g', r) ≡ (g, q') = ok-injective (sym same ∙ e) in
      let now : IsCounted q' (handed g + length lent) =
        subst (λ t. IsCounted t.1 (handed t.0 + length lent)) p keeps in
      (subst (λ n. IsCounted q' n) (sym l) now, subst (λ t. t.1.capacity ≡ q.capacity) p limit ∙ c)

  given-IsSound :
      (q : Queue C) {q' : Queue C} (before after : List C) {capacity : ℕ} (o : Outcome (Queue C))
      → o ≡ ok q'
      → (r : Queue C) × (o ≡ ok r)
        × (r.capacity ≡ q.capacity)
        × IsCounted r (length (before ++ after))
      → q.capacity ≡ capacity
      → IsSound q' (before ++ after) capacity
  given-IsSound q {q' = q'} before after o same (r, same', limit, keeps) c =
      let p : r ≡ q' = ok-injective (sym same' ∙ same) in
      (
        subst (λ t. IsCounted t (length (before ++ after))) p keeps,
        subst (λ t. t.capacity ≡ q.capacity) p limit ∙ c,
      )

  Step-IsSound :
      {q q' : Queue C} {lent lent' : List C} {capacity : ℕ}
      → Step q lent q' lent'
      → IsSound q lent capacity
      → IsSound q' lent' capacity
  unfolding handed
  Step-IsSound {lent = lent} (got world conn e) h =
      got-IsSound world lent (conn ∷ lent) (pooled conn) e (omega arith) h
  Step-IsSound {lent = lent} (refused world e) h =
      got-IsSound world lent lent no_more_connections e (omega arith) h
  Step-IsSound {lent = lent} (missed world e) h =
      got-IsSound world lent lent failed e (omega arith) h
  Step-IsSound {q = q} {lent = lent} (returned conn before after e s) (h, c) =
      given-IsSound q before after (put_back conn q) s
        (put_back-IsCounted conn q (length (before ++ after))
          (subst (λ n. IsCounted q n) (one_less lent before after conn e) h))
        c
  Step-IsSound {q = q} {lent = lent} (dropped conn before after e s) (h, c) =
      given-IsSound q before after (drop_conn conn q) s
        (drop_conn-IsCounted conn q (length (before ++ after))
          (subst (λ n. IsCounted q n) (one_less lent before after conn e) h))
        c

  Steps-IsSound :
      {q q' : Queue C} {lent lent' : List C} {capacity : ℕ}
      → Steps q lent q' lent'
      → IsSound q lent capacity
      → IsSound q' lent' capacity
  Steps-IsSound rest h = h
  Steps-IsSound (then s ss) h = Steps-IsSound ss (Step-IsSound s h)

  -- However many calls of `get`, `put_back` and `drop_conn` follow on a new queue, in any order and
  -- with any sockets, its count is that of its idle connections and of those handed out, and they
  -- are together not more than its capacity.
  pub with_capacity-Steps :
      (capacity : ℕ) (q : Queue C) (lent : List C)
      → Steps (with_capacity capacity) [] q lent
      → (q.num_conns ≡ length q.connections + length lent)
        × (length q.connections + length lent ≤ capacity)
  unfolding with_capacity
  with_capacity-Steps capacity q lent steps =
      let (h, c) =
        Steps-IsSound steps (record { counted = omega arith; bounded = omega arith }, refl) in
      (h.counted, omega (arith, h.counted, h.bounded, c))
