-- ===== src/Net/ConnectionPool.antt =====
-- net/connection_pool.rs: one queue of connections, its operations, and the division of a pool into
-- queues. A call holds the queue's mutex from its start to its end, so that calls are atomic steps.
-- What a call learns of the sockets and of the clock is its `World`. A subtraction from 0 panics.
use aerospike_client_rust.Base.{
  ℕ, zero, suc, ◌+◌, ◌-◌, ◌/◌, ◌%◌, Bool, List, [], ◌∷◌, ◌++◌, Option, none, some, if◌then◌else◌,
  ltb, leb, ◌==◌,
}
use aerospike_client_rust.Outcome.{Outcome, ok, err, panic, exhausted}

-- `Connection::is_idle`, `Connection::new` (nothing where it fails) and `set_timeout` (whether it
-- succeeds), during one call.
pub record World (C : Type 0) : Type 0 where
  pub is_idle : C → Bool
  pub connect : Option C
  pub set_timeout : C → Bool

pub record Queue (C : Type 0) : Type 0 where
  pub connections : List C
  pub num_conns : ℕ
  pub capacity : ℕ

-- The results of `get`; the queue is as the call leaves it, also where it fails.
pub data Got (C : Type 0) : Type 0 where
  pooled : C → Got C
  no_more_connections : Got C
  failed : Got C

-- `num_conns -= 1`
unfoldable pub less : ℕ → Outcome ℕ
less zero = panic
less (suc n) = ok n

module _ {C : Type 0} where
  unfoldable pub with_capacity : ℕ → Queue C
  with_capacity capacity = record { connections = []; num_conns = 0; capacity = capacity }

  -- Behind the loop: the timeouts of the connection are set.
  unfoldable pub hand_out : World C → C → Queue C → Outcome (Got C × Queue C)
  hand_out world conn q =
      if world.set_timeout conn then ok (pooled conn, q) else elim (less q.num_conns) [
        | ok n ↦ ok (failed, record q { num_conns = n })
        | err e ↦ err e
        | panic ↦ panic
        | exhausted ↦ exhausted
      ]

  -- The loop's branch on an empty queue.
  unfoldable pub open_new : World C → Queue C → Outcome (Got C × Queue C)
  open_new world q =
      if leb q.capacity q.num_conns then ok (no_more_connections, q) else elim world.connect [
        | none ↦ ok (failed, q)
        | some conn ↦ hand_out world conn (record q { num_conns = q.num_conns + 1 })
      ]

  -- The loop: `connections` and `num_conns` as they stand, the capacity as it was.
  unfoldable pub get_from : World C → List C → ℕ → ℕ → Outcome (Got C × Queue C)
  get_from world [] num_conns capacity =
      open_new world (record { connections = []; num_conns = num_conns; capacity = capacity })
  get_from world (conn ∷ rest) zero capacity =
      if world.is_idle conn
      then panic
      else hand_out world conn (record { connections = rest; num_conns = 0; capacity = capacity })
  get_from world (conn ∷ rest) (suc n) capacity =
      let next = get_from world rest n capacity in
      if world.is_idle conn
      then next
      else hand_out world conn
          (record { connections = rest; num_conns = suc n; capacity = capacity })

  unfoldable pub get : World C → Queue C → Outcome (Got C × Queue C)
  get world q = get_from world q.connections q.num_conns q.capacity

  unfoldable pub put_back : C → Queue C → Outcome (Queue C)
  put_back conn q =
      if ltb q.num_conns q.capacity
      then ok (record q { connections = q.connections ++ (conn ∷ []) })
      else elim (less q.num_conns) [
        | ok n ↦ ok (record q { num_conns = n })
        | err e ↦ err e
        | panic ↦ panic
        | exhausted ↦ exhausted
      ]

  unfoldable pub drop_conn : C → Queue C → Outcome (Queue C)
  drop_conn conn q = elim (less q.num_conns) [
    | ok n ↦ ok (record q { num_conns = n })
    | err e ↦ err e
    | panic ↦ panic
    | exhausted ↦ exhausted
  ]

  unfoldable pub clear : Queue C → Queue C
  clear q = record q { connections = []; num_conns = 0 }

  -- The loop of `initialize_queues`, with what is left of the remainder.
  unfoldable pub queues_from : ℕ → ℕ → ℕ → List (Queue C)
  queues_from zero max rem = []
  queues_from (suc n) max rem =
      with_capacity (if ltb 0 rem then max + 1 else max) ∷ queues_from n max (rem - 1)

  -- A division by no queues panics.
  unfoldable pub initialize_queues : ℕ → ℕ → Outcome (List (Queue C))
  initialize_queues num_conns num_queues =
      if num_queues == 0
      then panic
      else ok (queues_from num_queues (num_conns / num_queues) (num_conns % num_queues))
