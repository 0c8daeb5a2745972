-- ===== src/Tests/Retrying.antt =====
-- The loop of a command on a socket that fails twice.
use aerospike_client_rust.Base.{ℕ, ◌≤◌, ◌<◌, ◌≡◌, refl, true, false, some, ltb, arith}
use aerospike_client_rust.Outcome.{ok}
use aerospike_client_rust.Commands.SingleCommand.{
  Trial, Ended, succeeded, Effects, is_too_many, turn, execute_from, execute,
}
use aerospike_client_rust.Commands.Retried.{execute-ends}
use aerospike_client_rust.Commands.Reached.{IsRetried, unsent, execute-reaches}

abbrev two_failures : ℕ → Trial
two_failures n = record {
  expired = false;
  has_node = true;
  has_connection = true;
  prepared = true;
  sent = ltb 2 n;
  answered = true;
  keep_connection = false;
}

-- The third turn succeeds; two connections were invalidated.
third_succeeds :
    execute (some 2) two_failures 4 ≡ ok (succeeded, record { sends = 3; invalidated = 2 })
unfolding execute execute_from turn is_too_many
third_succeeds = refl

execute-ends_example :
    (ended : Ended) × (last : Effects) × (execute (some 2) two_failures 4 ≡ ok (ended, last))
    × (last.sends ≤ 3)
    × (last.invalidated ≤ last.sends)
execute-ends_example = execute-ends 2 two_failures 4 (omega arith)

two_failures-IsRetried : (i : ℕ) → i < 3 → 0 < i → IsRetried (two_failures i)
two_failures-IsRetried i below above = unsent refl refl refl (ground arith)

execute-reaches_example :
    (last : Effects) × (execute (some 2) two_failures 3 ≡ ok (succeeded, last)) × (last.sends ≤ 3)
unfolding is_too_many
execute-reaches_example =
    execute-reaches (some 2) two_failures 3 3 (omega arith) (omega arith) refl
      two_failures-IsRetried (refl, refl, refl, refl, refl)
