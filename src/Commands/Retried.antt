-- ===== src/Commands/Retried.antt =====
-- commands/single_command.rs: the end of the loop of `execute` under a limit of retries.
use aerospike_client_rust.Base.{
  ℕ, zero, suc, ◌+◌, ◌≤◌, ◌≡◌, refl, Bool, true, false, not, ◌||◌, some, if◌then◌else◌, ltb, arith,
}
use aerospike_client_rust.Outcome.{ok}
use aerospike_client_rust.Commands.SingleCommand.{
  Trial, Ended, Effects, Turn, again, done, is_too_many, turn, execute_from, execute,
}

-- What holds behind a turn with `n` iterations counted.
data IsBounded (max_retries n : ℕ) : Turn → Type 0 where
  goes_on :
      {more : Effects}
      → n ≤ max_retries + 1
      → more.sends ≤ n
      → more.invalidated ≤ more.sends
      → IsBounded max_retries n (again more)
  ends :
      {ended : Ended} {more : Effects}
      → more.sends ≤ max_retries + 1
      → more.invalidated ≤ more.sends
      → IsBounded max_retries n (done ended more)

if-IsBounded :
    {max_retries n : ℕ} (c : Bool) {a b : Turn}
    → (c ≡ true → IsBounded max_retries n a)
    → (c ≡ false → IsBounded max_retries n b)
    → IsBounded max_retries n (if c then a else b)
if-IsBounded true h k = h refl
if-IsBounded false h k = k refl

turn-IsBounded :
    (max_retries : ℕ) (trial : Trial) (n : ℕ) (so_far : Effects)
    → n ≤ max_retries + 1
    → so_far.sends ≤ n
    → so_far.invalidated ≤ so_far.sends
    → IsBounded max_retries (n + 1) (turn (some max_retries) trial (n + 1) so_far)
unfolding turn is_too_many
turn-IsBounded max_retries trial n so_far le sends invalidated =
    if-IsBounded (ltb (max_retries + 1) (n + 1)) (λ e. ends (omega arith) invalidated)
      (λ within.
        let room : n + 1 ≤ max_retries + 1 = ground arith in
        if-IsBounded trial.expired (λ e. ends (omega arith) invalidated)
          (λ e.
            if-IsBounded (not trial.has_node || not trial.has_connection)
              (λ e. goes_on room (omega arith) invalidated)
              (λ e.
                if-IsBounded (not trial.prepared) (λ e. ends (omega arith) invalidated)
                  (λ e.
                    if-IsBounded (not trial.sent) (λ e. goes_on room (omega arith) (omega arith))
                      (λ e.
                        if-IsBounded trial.answered (λ e. ends (omega arith) (omega arith))
                          (λ e.
                            if-IsBounded trial.keep_connection
                              (λ e. ends (omega arith) (omega arith))
                              (λ e. ends (omega arith) (omega arith))))))))

-- The loop, from here, ends within its bounds.
abbrev EndsFrom : ℕ → (ℕ → Trial) → ℕ → ℕ → Effects → Type 0
EndsFrom max_retries trials fuel n so_far =
    (ended : Ended) × (last : Effects) × (execute_from (some max_retries) trials fuel n so_far
      ≡ ok (ended, last))
    × (last.sends ≤ max_retries + 1)
    × (last.invalidated ≤ last.sends)

by_turn :
    (max_retries : ℕ) (trials : ℕ → Trial) (fuel n : ℕ) (so_far : Effects) (t : Turn)
    → turn (some max_retries) (trials (n + 1)) (n + 1) so_far ≡ t
    → IsBounded max_retries (n + 1) t
    → ((more : Effects)
        → n + 1 ≤ max_retries + 1
        → more.sends ≤ n + 1
        → more.invalidated ≤ more.sends
        → EndsFrom max_retries trials fuel (n + 1) more)
    → EndsFrom max_retries trials (suc fuel) n so_far
unfolding execute_from
by_turn max_retries trials fuel n so_far (again more) e (goes_on le sends invalidated) onward =
    let (ended, last, same, h, k) = onward more le sends invalidated in
    (ended, last, rw (e, execute_from) same, h, k)
by_turn max_retries trials fuel n so_far (done ended more) e (ends sends invalidated) onward =
    (ended, more, rw (e, execute_from) refl, sends, invalidated)

execute_from-ends :
    (max_retries : ℕ) (trials : ℕ → Trial) (fuel n : ℕ) (so_far : Effects)
    → max_retries + 2 ≤ fuel + n
    → n ≤ max_retries + 1
    → so_far.sends ≤ n
    → so_far.invalidated ≤ so_far.sends
    → EndsFrom max_retries trials fuel n so_far
execute_from-ends max_retries trials zero n so_far enough le sends invalidated =
    absurd (omega arith)
execute_from-ends max_retries trials (suc fuel) n so_far enough le sends invalidated =
    by_turn max_retries trials fuel n so_far
      (turn (some max_retries) (trials (n + 1)) (n + 1) so_far) refl
      (turn-IsBounded max_retries (trials (n + 1)) n so_far le sends invalidated)
      (λ more le' sends' invalidated'.
        execute_from-ends max_retries trials fuel (n + 1) more (omega arith) le' sends'
          invalidated')

-- Under a limit of retries, whatever the clock, the cluster and the sockets do, `execute` ends within
-- `max_retries + 2` turns of its loop; the command was sent `max_retries + 1` times at most, and not
-- more connections were invalidated than it was sent.
pub execute-ends :
    (max_retries : ℕ) (trials : ℕ → Trial) (fuel : ℕ)
    → max_retries + 2 ≤ fuel
    → (ended : Ended) × (last : Effects) × (execute (some max_retries) trials fuel
        ≡ ok (ended, last))
      × (last.sends ≤ max_retries + 1)
      × (last.invalidated ≤ last.sends)
unfolding execute
execute-ends max_retries trials fuel enough =
    execute_from-ends max_retries trials fuel 0 (record { sends = 0; invalidated = 0 })
      (omega arith) (omega arith) (omega arith) (omega arith)
