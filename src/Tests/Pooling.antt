-- ===== src/Tests/Pooling.antt =====
-- Calls on a concrete queue of connections, which are numbers.
use aerospike_client_rust.Base.{
  ℕ, ◌+◌, ◌≤◌, ◌≡◌, ◌==◌, refl, true, List, [], ◌∷◌, some, length, arith,
}
use aerospike_client_rust.Outcome.{ok}
use aerospike_client_rust.Net.ConnectionPool.{
  World, Queue, pooled, with_capacity, hand_out, open_new, get_from, get, put_back,
  initialize_queues,
}
use aerospike_client_rust.Net.PoolInvariant.{Keeps, get-IsCounted}
use aerospike_client_rust.Net.PoolRun.{Steps, got, returned, rest, then, with_capacity-Steps}
use aerospike_client_rust.Net.PoolRound.{
  Pool, get_any, AreCounted, sum, KeepsAll, get_any-AreCounted,
}
use aerospike_client_rust.Net.PoolQueues.{total, AreEven, total-initialize_queues}

-- Connection 3 has been idle for too long; a new one is 7.
abbrev a_world : World ℕ
a_world = record { is_idle = λ conn. conn == 3; connect = some 7; set_timeout = λ conn. true }

abbrev a_queue : Queue ℕ
a_queue = record { connections = 3 ∷ 4 ∷ []; num_conns = 3; capacity = 4 }

-- One connection was opened, and is handed out.
abbrev one_out : Queue ℕ
one_out = record { connections = []; num_conns = 1; capacity = 2 }

abbrev one_back : Queue ℕ
one_back = record { connections = 7 ∷ []; num_conns = 1; capacity = 2 }

opened_first : get a_world (with_capacity 2) ≡ ok (pooled 7, one_out)
unfolding get get_from open_new hand_out with_capacity
opened_first = refl

given_back : put_back 7 one_out ≡ ok one_back
unfolding put_back
given_back = refl

-- The connection that was idle is closed, and the next one is handed out.
skipped_idle :
    get a_world a_queue ≡ ok (pooled 4, record { connections = []; num_conns = 2; capacity = 4 })
unfolding get get_from hand_out
skipped_idle = refl

some_calls-Steps : Steps (with_capacity 2) [] one_back []
some_calls-Steps = then (got a_world 7 opened_first) (then (returned 7 [] [] refl given_back) rest)

with_capacity-Steps_example :
    (one_back.num_conns ≡ length one_back.connections + 0) × (length one_back.connections + 0 ≤ 2)
with_capacity-Steps_example = with_capacity-Steps 2 one_back [] some_calls-Steps

get-IsCounted_example : Keeps (get a_world a_queue) 4 1
get-IsCounted_example =
    get-IsCounted a_world a_queue 1 (record { counted = refl; bounded = omega arith })

total-initialize_queues_example :
    (qs : List (Queue ℕ)) × (initialize_queues 7 3 ≡ ok qs)
    × (length qs ≡ 3)
    × (total ℕ qs ≡ 7)
    × AreEven ℕ 2 qs
total-initialize_queues_example = total-initialize_queues ℕ 7 3 (omega arith)

-- Two queues: the first has nothing left, the second a connection.
abbrev a_pool : Pool ℕ
a_pool = record {
  num_queues = 2;
  queues =
      record { connections = []; num_conns = 2; capacity = 2 }
      ∷ record { connections = 4 ∷ []; num_conns = 2; capacity = 2 }
      ∷ [];
  queue_counter = 0;
}

a_pool-AreCounted : AreCounted a_pool.queues (2 ∷ 1 ∷ [])
unfolding AreCounted
a_pool-AreCounted = (
  record { counted = refl; bounded = omega arith },
  (record { counted = refl; bounded = omega arith }, tt),
)

get_any-AreCounted_example : KeepsAll (get_any (λ n. a_world) a_pool) 2 (sum (2 ∷ 1 ∷ []))
get_any-AreCounted_example =
    get_any-AreCounted (λ n. a_world) a_pool (2 ∷ 1 ∷ []) a_pool-AreCounted refl (omega arith)
