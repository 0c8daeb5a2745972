-- ===== src/Net/PoolRound.antt =====
-- net/connection_pool.rs: `ConnectionPool::get`, the round over the queues of a pool. The calls on
-- the queues learn of the sockets by their number of attempts left, `worlds`.
use aerospike_client_rust.Base.{
  ℕ, zero, suc, ◌+◌, ◌%◌, ◌^◌, ◌≤◌, ◌<◌, ◌≡◌, refl, sym, ◌∙◌, Bool, true, false, ◌&&◌, List, [],
  ◌∷◌, none, some, length, set, get_elem?, length-set, arith, ltb, ◌==◌, and_parts, Bool-cases, inl,
  inr, if◌then◌else◌,
}
use native.Mathlib.Nat.{mod-lt}
use aerospike_client_rust.Outcome.{Outcome, ok, err, panic, exhausted}
use aerospike_client_rust.Net.ConnectionPool
use aerospike_client_rust.Net.ConnectionPool.{
  World, Queue, Got, pooled, no_more_connections, failed,
}
use aerospike_client_rust.Net.PoolInvariant.{IsCounted, handed, get-IsCounted}

pub record Pool (C : Type 0) : Type 0 where
  pub num_queues : ℕ
  pub queues : List (Queue C)
  pub queue_counter : ℕ

unfoldable pub sum : List ℕ → ℕ
sum [] = 0
sum (n ∷ ns) = n + sum ns

module _ {C : Type 0} where
  unfoldable pub is_no_more : Got C → Bool
  is_no_more (pooled conn) = false
  is_no_more no_more_connections = true
  is_no_more failed = false

  -- `self.queues[i].get(timeout)`
  unfoldable pub visit : World C → ℕ → Pool C → Outcome (Got C × Pool C)
  visit world i pool = elim (get_elem? pool.queues i) [
    | none ↦ panic
    | some q ↦ elim (ConnectionPool.get world q) [
      | ok (g, q') ↦ ok (g, record pool { queues = set pool.queues i q' })
      | err e ↦ err e
      | panic ↦ panic
      | exhausted ↦ exhausted
    ]
  ]

  -- `fetch_add`, which wraps around.
  abbrev pub count_up : Pool C → Pool C
  count_up pool = record pool { queue_counter = (pool.queue_counter + 1) % 2 ^ 64 }

  -- The loop, with the attempts left; without queues its remainder panics.
  unfoldable pub try_queues : (ℕ → World C) → ℕ → Pool C → Outcome (Got C × Pool C)
  try_queues worlds zero pool = panic
  try_queues worlds (suc attempts) pool =
      elim (visit (worlds attempts) (pool.queue_counter % pool.num_queues) (count_up pool)) [
        | ok (g, p) ↦ elim (is_no_more g && ltb 0 attempts) [
          | true ↦ try_queues worlds attempts p
          | false ↦ ok (g, p)
        ]
        | err e ↦ err e
        | panic ↦ panic
        | exhausted ↦ exhausted
      ]

  unfoldable pub get_any : (ℕ → World C) → Pool C → Outcome (Got C × Pool C)
  get_any worlds pool =
      if pool.num_queues == 1
      then visit (worlds 0) 0 pool
      else try_queues worlds pool.num_queues pool

  -- The queues of a pool, with the connections that each has handed out: all counts are right.
  unfoldable pub AreCounted : List (Queue C) → List ℕ → Type 0
  AreCounted [] [] = Unit {0}
  AreCounted [] (out ∷ outs) = ⊥
  AreCounted (q ∷ qs) [] = ⊥
  AreCounted (q ∷ qs) (out ∷ outs) = IsCounted q out × AreCounted qs outs

  -- At any index there is a counted queue, and a counted queue in its place keeps all counts right.
  at_index :
      (qs : List (Queue C)) (outs : List ℕ) (i : ℕ)
      → AreCounted qs outs
      → i < length qs
      → (q : Queue C) × (out : ℕ) × (get_elem? qs i ≡ some q)
        × IsCounted q out
        × ((q' : Queue C) (d : ℕ)
            → IsCounted q' (d + out)
            → (outs' : List ℕ) × AreCounted (set qs i q') outs' × (sum outs' ≡ d + sum outs))
  unfolding AreCounted sum
  at_index [] outs i h lt = absurd (omega arith)
  at_index (q ∷ qs) [] i h lt = absurd h
  at_index (q ∷ qs) (out ∷ outs) zero (h, hs) lt =
      (q, out, refl, h, λ q' d k. ((d + out) ∷ outs, (k, hs), omega arith))
  at_index (q ∷ qs) (out ∷ outs) (suc i) (h, hs) lt =
      let (r, o, e, k, put) = at_index qs outs i hs (omega arith) in
      (
        r,
        o,
        e,
        k,
        λ q' d c.
            let (outs', keeps, more) = put q' d c in (out ∷ outs', (h, keeps), omega (arith, more)),
      )

  -- What a call on a pool promises.
  abbrev pub KeepsAll : Outcome (Got C × Pool C) → ℕ → ℕ → Type 0
  KeepsAll result n out =
      (g : Got C) × (p : Pool C) × (outs : List ℕ) × (result ≡ ok (g, p))
      × (p.num_queues ≡ n)
      × (length p.queues ≡ n)
      × AreCounted p.queues outs
      × (sum outs ≡ handed g + out)

  visited :
      (world : World C) (i : ℕ) (pool : Pool C) (q : Queue C) (g : Got C) (q' : Queue C)
      → get_elem? pool.queues i ≡ some q
      → ConnectionPool.get world q ≡ ok (g, q')
      → visit world i pool ≡ ok (g, record pool { queues = set pool.queues i q' })
  unfolding visit
  visited world i pool q g q' e same = rw (e, same, visit) refl

  visit-KeepsAll :
      (world : World C) (i : ℕ) (pool : Pool C) (outs : List ℕ)
      → AreCounted pool.queues outs
      → length pool.queues ≡ pool.num_queues
      → i < pool.num_queues
      → KeepsAll (visit world i pool) pool.num_queues (sum outs)
  visit-KeepsAll world i pool outs h l lt =
      let (q, out, e, k, put) = at_index pool.queues outs i h (omega arith) in
      let (g, q', same, limit, c) = get-IsCounted world q out k in
      let (outs', keeps, more) = put q' (handed g) c in
      (
        g,
        record pool { queues = set pool.queues i q' },
        outs',
        visited world i pool q g q' e same,
        refl,
        length-set pool.queues i q' ∙ l,
        keeps,
        more,
      )

  no_more-handed : (g : Got C) → is_no_more g ≡ true → handed g ≡ 0
  unfolding is_no_more handed
  no_more-handed (pooled conn) e = cc
  no_more-handed no_more_connections e = refl
  no_more-handed failed e = refl

  -- One attempt that ends the loop, and one that goes on.
  tried :
      (worlds : ℕ → World C) (attempts : ℕ) (pool p : Pool C) (g : Got C) (more : Bool)
      → visit (worlds attempts) (pool.queue_counter % pool.num_queues) (count_up pool) ≡ ok (g, p)
      → (is_no_more g && ltb 0 attempts) ≡ more
      → try_queues worlds (suc attempts) pool
        ≡ (if more then try_queues worlds attempts p else ok (g, p))
  unfolding try_queues
  tried worlds attempts pool p g true e c = rw (e, try_queues, c) refl
  tried worlds attempts pool p g false e c = rw (e, try_queues, c) refl

  try_queues-KeepsAll :
      (worlds : ℕ → World C) (attempts : ℕ) (pool : Pool C) (outs : List ℕ)
      → 1 ≤ attempts
      → AreCounted pool.queues outs
      → length pool.queues ≡ pool.num_queues
      → 1 ≤ pool.num_queues
      → KeepsAll (try_queues worlds attempts pool) pool.num_queues (sum outs)
  try_queues-KeepsAll worlds zero pool outs enough h l n = absurd (omega arith)
  try_queues-KeepsAll worlds (suc attempts) pool outs enough h l n =
      let (g, p, outs', same, same_n, l', keeps, more) =
        visit-KeepsAll (worlds attempts) (pool.queue_counter % pool.num_queues) (count_up pool) outs
          h l (mod-lt pool.queue_counter n) in
      elim (Bool-cases (is_no_more g && ltb 0 attempts)) [
        | inl c ↦
            let (no_more, left) = and_parts _ _ c in
            let none_handed : handed g ≡ 0 = no_more-handed g no_more in
            let (g', r, last, e, e_n, e_l, e_keeps, e_sum) =
              try_queues-KeepsAll worlds attempts p outs' (ground arith) keeps (l' ∙ sym same_n)
                (omega (arith, same_n)) in
            (
              g',
              r,
              last,
              tried worlds attempts pool p g true same c ∙ e,
              e_n ∙ same_n,
              e_l ∙ same_n,
              e_keeps,
              omega (arith, e_sum, more, none_handed),
            )
        | inr c ↦
            (g, p, outs', tried worlds attempts pool p g false same c, same_n, l', keeps, more)
      ]

  one_queue :
      (worlds : ℕ → World C) (pool : Pool C)
      → (pool.num_queues == 1) ≡ true
      → get_any worlds pool ≡ visit (worlds 0) 0 pool
  unfolding get_any
  one_queue worlds pool e = rw e refl

  some_queues :
      (worlds : ℕ → World C) (pool : Pool C)
      → (pool.num_queues == 1) ≡ false
      → get_any worlds pool ≡ try_queues worlds pool.num_queues pool
  unfolding get_any
  some_queues worlds pool e = rw e refl

  -- On a pool of at least one queue whose counts are all right, `get` does not panic and ends after
  -- one attempt for each queue at most; it leaves right counts in every queue, with one connection
  -- more handed out in all if it returned one.
  pub get_any-AreCounted :
      (worlds : ℕ → World C) (pool : Pool C) (outs : List ℕ)
      → AreCounted pool.queues outs
      → length pool.queues ≡ pool.num_queues
      → 1 ≤ pool.num_queues
      → KeepsAll (get_any worlds pool) pool.num_queues (sum outs)
  get_any-AreCounted worlds pool outs h l n = elim (Bool-cases (pool.num_queues == 1)) [
    | inl e ↦
        let (g, p, outs', same, nq, lq, keeps, more) =
          visit-KeepsAll (worlds 0) 0 pool outs h l n in
        (g, p, outs', one_queue worlds pool e ∙ same, nq, lq, keeps, more)
    | inr e ↦
        let (g, p, outs', same, nq, lq, keeps, more) =
          try_queues-KeepsAll worlds pool.num_queues pool outs n h l n in
        (g, p, outs', some_queues worlds pool e ∙ same, nq, lq, keeps, more)
  ]
