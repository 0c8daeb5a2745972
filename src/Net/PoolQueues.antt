-- ===== src/Net/PoolQueues.antt =====
-- net/connection_pool.rs: `initialize_queues`, the division of a pool's capacity into queues.
use aerospike_client_rust.Base.{
  ℕ, zero, suc, ◌+◌, ◌-◌, ◌*◌, ◌/◌, ◌%◌, ◌≤◌, ◌≡◌, refl, ap, ◌∙◌, false, List, [], ◌∷◌, length,
  arith, ltb, if◌then◌else◌, ◌==◌,
}
use native.Mathlib.Nat.{div-add-mod, mod-lt}
use aerospike_client_rust.Outcome.{ok}
use aerospike_client_rust.Net.ConnectionPool.{Queue, with_capacity, queues_from, initialize_queues}

unfoldable pub times : ℕ → ℕ → ℕ
times zero max = 0
times (suc n) max = max + times n max

times-mul : (n max : ℕ) → times n max ≡ max * n
unfolding times
times-mul zero max = omega arith
times-mul (suc n) max = omega (arith, times-mul n max)

-- The capacity of the next queue, and what is left of the remainder.
abbrev share : ℕ → ℕ → ℕ
share max rem = if ltb 0 rem then max + 1 else max

share_lem : (max rem : ℕ) → share max rem + (rem - 1) ≡ max + rem
share_lem max rem = ground arith

share_least : (max rem : ℕ) → max ≤ share max rem
share_least max rem = ground arith

share_most : (max rem : ℕ) → share max rem ≤ max + 1
share_most max rem = ground arith

module _ (C : Type 0) where
  unfoldable pub total : List (Queue C) → ℕ
  total [] = 0
  total (q ∷ qs) = q.capacity + total qs

  -- Every capacity is one of two neighbours.
  unfoldable pub AreEven : ℕ → List (Queue C) → Type 0
  AreEven max [] = Unit {0}
  AreEven max (q ∷ qs) = (max ≤ q.capacity) × (q.capacity ≤ max + 1) × AreEven max qs

  total-queues_from : (n max rem : ℕ) → rem ≤ n → total (queues_from n max rem) ≡ times n max + rem
  unfolding total queues_from with_capacity times
  total-queues_from zero max rem h = omega arith
  total-queues_from (suc n) max rem h =
      omega (arith, share_lem max rem, total-queues_from n max (rem - 1) (omega arith))

  length-queues_from : (n max rem : ℕ) → length (queues_from {C = C} n max rem) ≡ n
  unfolding queues_from
  length-queues_from zero max rem = refl
  length-queues_from (suc n) max rem = ap suc (length-queues_from n max (rem - 1))

  queues_from-AreEven : (n max rem : ℕ) → AreEven max (queues_from n max rem)
  unfolding queues_from AreEven with_capacity
  queues_from-AreEven zero max rem = tt
  queues_from-AreEven (suc n) max rem =
      (share_least max rem, share_most max rem, queues_from-AreEven n max (rem - 1))

  -- For at least one queue, a pool is divided into so many queues, whose capacities differ by one
  -- at most and are together the capacity of the pool.
  pub total-initialize_queues :
      (num_conns num_queues : ℕ)
      → 1 ≤ num_queues
      → (qs : List (Queue C)) × (initialize_queues num_conns num_queues ≡ ok qs)
        × (length qs ≡ num_queues)
        × (total qs ≡ num_conns)
        × AreEven (num_conns / num_queues) qs
  unfolding initialize_queues
  total-initialize_queues num_conns num_queues h =
      let max : ℕ = num_conns / num_queues in
      let rem : ℕ = num_conns % num_queues in
      let some_queue : (num_queues == 0) ≡ false = ground arith in
      (
        queues_from num_queues max rem,
        rw some_queue refl,
        length-queues_from num_queues max rem,
        total-queues_from num_queues max rem (omega (arith, mod-lt num_conns h))
            ∙ omega (arith, times-mul num_queues max, div-add-mod num_conns num_queues),
        queues_from-AreEven num_queues max rem,
      )
