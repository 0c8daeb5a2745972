-- ===== src/Commands/Reached.antt =====
-- commands/single_command.rs: the loop of `execute` reaches a try that succeeds.
use aerospike_client_rust.Base.{
  ℕ, zero, suc, ◌+◌, ◌-◌, ◌≤◌, ◌<◌, ◌≡◌, refl, true, false, not, ◌||◌, Option, none, some, arith,
}
use mathlib.Core.Path.{subst}
use aerospike_client_rust.Outcome.{ok}
use aerospike_client_rust.Commands.SingleCommand.{
  Trial, succeeded, Effects, again, done, send, invalidate, is_too_many, turn, execute_from,
  execute,
}

-- A try after which the loop goes on: no connection, or a failure to send.
pub data IsRetried (trial : Trial) : Type 0 where
  unconnected :
      trial.expired ≡ false
      → not trial.has_node || not trial.has_connection ≡ true
      → IsRetried trial
  unsent :
      trial.expired ≡ false
      → not trial.has_node || not trial.has_connection ≡ false
      → trial.prepared ≡ true
      → trial.sent ≡ false
      → IsRetried trial

abbrev pub IsAnswered : Trial → Type 0
IsAnswered trial =
    (trial.expired ≡ false)
    × (not trial.has_node || not trial.has_connection ≡ false)
    × (trial.prepared ≡ true)
    × (trial.sent ≡ true)
    × (trial.answered ≡ true)

is_too_many-earlier :
    (limit : Option ℕ) (n m : ℕ) → n ≤ m → is_too_many limit m ≡ false → is_too_many limit n ≡ false
unfolding is_too_many
is_too_many-earlier none n m le e = refl
is_too_many-earlier (some max_retries) n m le e = ground arith

turn-again :
    (limit : Option ℕ) (trial : Trial) (n : ℕ) (so_far : Effects)
    → is_too_many limit n ≡ false
    → IsRetried trial
    → (more : Effects) × (turn limit trial n so_far ≡ again more) × (more.sends ≤ so_far.sends + 1)
unfolding turn
turn-again limit trial n so_far e (unconnected h k) = (so_far, rw (e, h, k) refl, omega arith)
turn-again limit trial n so_far e (unsent h k l m) =
    (invalidate (send so_far), rw (e, h, k, l, m) refl, omega arith)

turn-done :
    (limit : Option ℕ) (trial : Trial) (n : ℕ) (so_far : Effects)
    → is_too_many limit n ≡ false
    → IsAnswered trial
    → turn limit trial n so_far ≡ done succeeded (send so_far)
unfolding turn
turn-done limit trial n so_far e (h, k, l, m, o) = rw (e, h, k, l, m, o) refl

-- The loop, with `n` turns behind it and `k` before the turn `m` that succeeds.
execute_from-reaches :
    (limit : Option ℕ) (trials : ℕ → Trial) (k fuel n m : ℕ) (so_far : Effects)
    → n + k + 1 ≡ m
    → k < fuel
    → is_too_many limit m ≡ false
    → ((i : ℕ) → i < m → n < i → IsRetried (trials i))
    → IsAnswered (trials m)
    → (last : Effects) × (execute_from limit trials fuel n so_far ≡ ok (succeeded, last))
      × (last.sends ≤ so_far.sends + k + 1)
unfolding execute_from
execute_from-reaches limit trials k zero n m so_far e lt few before h = absurd (omega arith)
execute_from-reaches limit trials zero (suc fuel) n m so_far e lt few before h =
    let same : m ≡ n + 1 = omega arith in
    (
      send so_far,
      rw
          (
            turn-done limit (trials (n + 1)) (n + 1) so_far
                (subst (λ i. is_too_many limit i ≡ false) same few)
                (subst (λ i. IsAnswered (trials i)) same h),
            execute_from,
          )
          refl,
      omega arith,
    )
execute_from-reaches limit trials (suc k) (suc fuel) n m so_far e lt few before h =
    let (more, same, le) =
      turn-again limit (trials (n + 1)) (n + 1) so_far
        (is_too_many-earlier limit (n + 1) m (omega arith) few)
        (before (n + 1) (omega arith) (omega arith)) in
    let (last, end, sends) =
      execute_from-reaches limit trials k fuel (n + 1) m more (omega arith) (omega arith) few
        (λ i below above. before i below (omega arith)) h in
    (last, rw (same, execute_from) end, omega arith)

-- If the `m`-th turn of the loop finds everything in order and every turn before it only fails to
-- get a connection or to send, and the limit of retries, if there is one, allows `m` turns, then
-- `execute` succeeds in that turn, having sent the command `m` times at most.
pub execute-reaches :
    (limit : Option ℕ) (trials : ℕ → Trial) (fuel m : ℕ)
    → 1 ≤ m
    → m ≤ fuel
    → is_too_many limit m ≡ false
    → ((i : ℕ) → i < m → 0 < i → IsRetried (trials i))
    → IsAnswered (trials m)
    → (last : Effects) × (execute limit trials fuel ≡ ok (succeeded, last)) × (last.sends ≤ m)
unfolding execute
execute-reaches limit trials fuel m le enough few before h =
    let (last, e, sends) =
      execute_from-reaches limit trials (m - 1) fuel 0 m (record { sends = 0; invalidated = 0 })
        (omega arith) (omega arith) few before h in
    (last, e, omega arith)
