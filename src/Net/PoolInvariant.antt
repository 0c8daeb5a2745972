-- ===== src/Net/PoolInvariant.antt =====
-- net/connection_pool.rs: the count of connections of a queue against its idle ones and those that
-- are handed out.
use aerospike_client_rust.Base.{
  ℕ, zero, suc, ◌+◌, ◌-◌, ◌≤◌, ◌<◌, ◌≡◌, refl, ap, ◌∙◌, false, List, [], ◌∷◌, ◌++◌, some, length,
  length-append, arith, ltb, leb, Bool-cases, Option-cases, inl, inr,
}
use aerospike_client_rust.Outcome.{Outcome, ok}
use aerospike_client_rust.Net.ConnectionPool.{
  World, Queue, Got, pooled, no_more_connections, failed, less, hand_out, open_new, get_from, get,
  put_back, drop_conn,
}

less_lem : (n : ℕ) → 1 ≤ n → less n ≡ ok (n - 1)
unfolding less
less_lem zero h = absurd (omega arith)
less_lem (suc n) h = ap ok (omega arith)

module _ {C : Type 0} where
  -- With `out` connections handed out: the count is right and within the capacity.
  pub record IsCounted (q : Queue C) (out : ℕ) : Type 0 where
    pub counted : q.num_conns ≡ length q.connections + out
    pub bounded : q.num_conns ≤ q.capacity

  -- The connections that a result hands out.
  unfoldable pub handed : Got C → ℕ
  handed (pooled conn) = 1
  handed no_more_connections = 0
  handed failed = 0

  -- What a call of `get` promises.
  abbrev pub Keeps : Outcome (Got C × Queue C) → ℕ → ℕ → Type 0
  Keeps result capacity out =
      (g : Got C) × (q : Queue C) × (result ≡ ok (g, q))
      × (q.capacity ≡ capacity)
      × IsCounted q (handed g + out)

  hand_out-Keeps :
      (world : World C) (conn : C) (q : Queue C) (out : ℕ)
      → IsCounted q (suc out)
      → Keeps (hand_out world conn q) q.capacity out
  unfolding hand_out handed
  hand_out-Keeps world conn q out h =
      let fewer : less q.num_conns ≡ ok (q.num_conns - 1) =
        less_lem q.num_conns (omega (arith, h.counted)) in
      elim (Bool-cases (world.set_timeout conn)) [
        | inl e ↦ (
          pooled conn,
          q,
          rw e refl,
          refl,
          record { counted = omega (arith, h.counted); bounded = h.bounded },
        )
        | inr e ↦ (
          failed,
          record q { num_conns = q.num_conns - 1 },
          rw (e, fewer) refl,
          refl,
          record { counted = omega (arith, h.counted); bounded = omega (arith, h.bounded) },
        )
      ]

  opened :
      (world : World C) (q : Queue C) (conn : C)
      → leb q.capacity q.num_conns ≡ false
      → world.connect ≡ some conn
      → open_new world q ≡ hand_out world conn (record q { num_conns = q.num_conns + 1 })
  unfolding open_new hand_out
  opened world q conn e s = rw (e, s) refl

  open_new-Keeps :
      (world : World C) (q : Queue C) (out : ℕ)
      → IsCounted q out
      → Keeps (open_new world q) q.capacity out
  unfolding open_new handed
  open_new-Keeps world q out h = elim (Bool-cases (leb q.capacity q.num_conns)) [
    | inl e ↦ (
      no_more_connections,
      q,
      rw e refl,
      refl,
      record { counted = omega (arith, h.counted); bounded = h.bounded },
    )
    | inr e ↦ elim (Option-cases world.connect) [
      | inl n ↦ (
        failed,
        q,
        rw (e, n) refl,
        refl,
        record { counted = omega (arith, h.counted); bounded = h.bounded },
      )
      | inr (conn, s) ↦
          let room : q.num_conns < q.capacity = ground arith in
          let more : Queue C = record q { num_conns = q.num_conns + 1 } in
          let (g, q', same, limit, keeps) =
            hand_out-Keeps world conn more out
              (record { counted = omega (arith, h.counted); bounded = omega arith }) in
          (g, q', opened world q conn e s ∙ same, limit, keeps)
    ]
  ]

  get_from-Keeps :
      (world : World C) (connections : List C) (num_conns capacity out : ℕ)
      → num_conns ≡ length connections + out
      → num_conns ≤ capacity
      → Keeps (get_from world connections num_conns capacity) capacity out
  unfolding get_from
  get_from-Keeps world [] num_conns capacity out h k =
      open_new-Keeps world (record { connections = []; num_conns = num_conns; capacity = capacity })
        out (record { counted = h; bounded = k })
  get_from-Keeps world (conn ∷ rest) zero capacity out h k = absurd (omega arith)
  get_from-Keeps world (conn ∷ rest) (suc n) capacity out h k =
      elim (Bool-cases (world.is_idle conn)) [
        | inl e ↦
            let (g, q, same, limit, keeps) =
              get_from-Keeps world rest n capacity out (omega arith) (omega arith) in
            (g, q, rw e same, limit, keeps)
        | inr e ↦
            let now : Queue C = record {
              connections = rest;
              num_conns = suc n;
              capacity = capacity;
            } in
            let (g, q, same, limit, keeps) =
              hand_out-Keeps world conn now out (record { counted = omega arith; bounded = k }) in
            (g, q, rw e same, limit, keeps)
      ]

  -- On a queue whose count is that of its idle connections and of the `out` ones handed out, and
  -- within the capacity, `get` does not panic, whatever the sockets and the clock do; the count of
  -- the queue that it leaves is right again, with one connection more handed out if it returned
  -- one, and within the same capacity.
  pub get-IsCounted :
      (world : World C) (q : Queue C) (out : ℕ)
      → IsCounted q out
      → Keeps (get world q) q.capacity out
  unfolding get
  get-IsCounted world q out h =
      get_from-Keeps world q.connections q.num_conns q.capacity out h.counted h.bounded

  -- The same for giving a connection back, which is one of those handed out.
  pub put_back-IsCounted :
      (conn : C) (q : Queue C) (out : ℕ)
      → IsCounted q (suc out)
      → (q' : Queue C) × (put_back conn q ≡ ok q') × (q'.capacity ≡ q.capacity) × IsCounted q' out
  unfolding put_back
  put_back-IsCounted conn q out h =
      let fewer : less q.num_conns ≡ ok (q.num_conns - 1) =
        less_lem q.num_conns (omega (arith, h.counted)) in
      elim (Bool-cases (ltb q.num_conns q.capacity)) [
        | inl e ↦ (
          record q { connections = q.connections ++ (conn ∷ []) },
          rw e refl,
          refl,
          record {
            counted = omega (arith, h.counted, length-append q.connections (conn ∷ []));
            bounded = h.bounded;
          },
        )
        | inr e ↦ (
          record q { num_conns = q.num_conns - 1 },
          rw (e, fewer) refl,
          refl,
          record { counted = omega (arith, h.counted); bounded = omega (arith, h.bounded) },
        )
      ]

  pub drop_conn-IsCounted :
      (conn : C) (q : Queue C) (out : ℕ)
      → IsCounted q (suc out)
      → (q' : Queue C) × (drop_conn conn q ≡ ok q') × (q'.capacity ≡ q.capacity) × IsCounted q' out
  unfolding drop_conn
  drop_conn-IsCounted conn q out h =
      let fewer : less q.num_conns ≡ ok (q.num_conns - 1) =
        less_lem q.num_conns (omega (arith, h.counted)) in
      (
        record q { num_conns = q.num_conns - 1 },
        rw (fewer, drop_conn) refl,
        refl,
        record { counted = omega (arith, h.counted); bounded = omega (arith, h.bounded) },
      )
