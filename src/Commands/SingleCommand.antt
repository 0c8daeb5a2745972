-- ===== src/Commands/SingleCommand.antt =====
-- commands/single_command.rs: the loop of `execute`. What happens outside of it in one iteration, on
-- the clock, in the cluster and on the socket, is a `Trial`. The loop has fuel: with a limit of
-- retries it ends by itself, and without one only the deadline or an answer ends it.
-- The sleep between tries is left out; a limit of `usize::MAX` retries, where the source's sum
-- overflows, is not looked at.
use aerospike_client_rust.Base.{
  ℕ, zero, suc, ◌+◌, Bool, false, not, ◌||◌, Option, none, some, if◌then◌else◌, ltb,
}
use aerospike_client_rust.Outcome.{Outcome, ok, exhausted}

-- Whether the deadline has passed, `get_node`, `get_connection`, `prepare_buffer` with
-- `write_timeout`, `write_buffer` and `parse_result` succeed, and whether the error of the last is
-- one after which the connection is kept.
pub record Trial : Type 0 where
  pub expired : Bool
  pub has_node : Bool
  pub has_connection : Bool
  pub prepared : Bool
  pub sent : Bool
  pub answered : Bool
  pub keep_connection : Bool

pub data Ended : Type 0 where
  succeeded : Ended
  too_many_tries : ℕ → Ended
  timed_out : Ended
  not_prepared : Ended
  refused : Ended

-- How often the command was sent, and how many connections were invalidated.
pub record Effects : Type 0 where
  pub sends : ℕ
  pub invalidated : ℕ

pub data Turn : Type 0 where
  again : Effects → Turn
  done : Ended → Effects → Turn

-- `iterations > max_retries + 1`
unfoldable pub is_too_many : Option ℕ → ℕ → Bool
is_too_many none iterations = false
is_too_many (some max_retries) iterations = ltb (max_retries + 1) iterations

abbrev pub send : Effects → Effects
send so_far = record so_far { sends = so_far.sends + 1 }

abbrev pub invalidate : Effects → Effects
invalidate so_far = record so_far { invalidated = so_far.invalidated + 1 }

-- The body of the loop, with `iterations` already counted up.
unfoldable pub turn : Option ℕ → Trial → ℕ → Effects → Turn
turn max_retries trial iterations so_far =
    if is_too_many max_retries iterations
    then done (too_many_tries iterations) so_far
    else if trial.expired
    then done timed_out so_far
    else if not trial.has_node || not trial.has_connection
    then again so_far
    else if not trial.prepared
    then done not_prepared so_far
    else if not trial.sent
    then again (invalidate (send so_far))
    else if trial.answered
    then done succeeded (send so_far)
    else if trial.keep_connection
    then done refused (send so_far)
    else done refused (invalidate (send so_far))

unfoldable pub execute_from : Option ℕ → (ℕ → Trial) → ℕ → ℕ → Effects → Outcome (Ended × Effects)
execute_from max_retries trials zero iterations so_far = exhausted
execute_from max_retries trials (suc fuel) iterations so_far =
    elim (turn max_retries (trials (iterations + 1)) (iterations + 1) so_far) [
      | again more ↦ execute_from max_retries trials fuel (iterations + 1) more
      | done ended more ↦ ok (ended, more)
    ]

unfoldable pub execute : Option ℕ → (ℕ → Trial) → ℕ → Outcome (Ended × Effects)
execute max_retries trials fuel =
    execute_from max_retries trials fuel 0 (record { sends = 0; invalidated = 0 })
