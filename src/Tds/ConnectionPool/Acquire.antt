-- ===== src/Tds/ConnectionPool/Acquire.antt =====
-- Acquire of src/tds/tds_connection_pool.cpp keeps the pool consistent.
use mssql_extension.Prelude.{
  Bool-cases, List, [], ap, arith, inl, inr, length, refl, ℕ, ◌+◌, ◌∷◌, ◌≡◌, ◌≤◌,
}
use mssql_extension.Tds.ConnectionPool.{
  ConnectionPool, Health, IdleConnection, activate, add_connection, count_closed, pop_idle,
  take_idle, validate_connection,
}
use mssql_extension.Tds.ConnectionPool.Invariant.{
  Consistent, count_active, count_active-set_active, count_idle, decrement_lem, hit, hit_cases,
  hit_other, hit_self, length-set_active,
}

-- The first idle connection leaves the queue.
popped :
    (m : IdleConnection) (rest : List IdleConnection) (p : ConnectionPool)
    → Consistent p
    → p.idle_connections ≡ m ∷ rest
    → Consistent (count_closed (pop_idle rest p))
unfolding count_closed pop_idle
popped m rest p v e = record {
  total_is_sum = omega (
    arith,
    v.total_is_sum,
    v.idle_counts,
    ap length e,
    decrement_lem p.idle_count,
    decrement_lem p.total_count,
  );
  idle_counts = omega (arith, v.idle_counts, ap length e, decrement_lem p.idle_count);
  active_counts = v.active_counts;
  none_lost =
      omega (
        arith,
        v.none_lost,
        v.total_is_sum,
        v.idle_counts,
        ap length e,
        decrement_lem p.total_count,
      );
  ids_unique = λ j. omega (arith, v.ids_unique j, ap (count_idle j) e);
  ids_below = λ j l. omega (arith, v.ids_below j l, ap (count_idle j) e);
}

activated :
    (m : IdleConnection) (rest : List IdleConnection) (p : ConnectionPool)
    → Consistent p
    → p.idle_connections ≡ m ∷ rest
    → Consistent (activate m.connection_id m.connection (pop_idle rest p))
unfolding activate pop_idle
activated m rest p v e =
    let free : count_active m.connection_id p.active_connections ≡ 0 = omega (
      arith,
      v.ids_unique m.connection_id,
      ap (count_idle m.connection_id) e,
      hit_self m.connection_id,
    ) in
    record {
      total_is_sum =
          omega (arith, v.total_is_sum, v.idle_counts, ap length e, decrement_lem p.idle_count);
      idle_counts = omega (arith, v.idle_counts, ap length e, decrement_lem p.idle_count);
      active_counts = omega (
        arith,
        v.active_counts,
        length-set_active m.connection_id m.connection p.active_connections free,
      );
      none_lost = v.none_lost;
      ids_unique = λ j. omega (
        arith,
        v.ids_unique j,
        ap (count_idle j) e,
        count_active-set_active j m.connection_id m.connection p.active_connections free,
      );
      ids_below = λ j l. omega (
        arith,
        v.ids_below j l,
        ap (count_idle j) e,
        count_active-set_active j m.connection_id m.connection p.active_connections free,
      );
    }

pub take_idle-Consistent :
    (health : ℕ → Health) (idle : List IdleConnection) (p : ConnectionPool)
    → Consistent p
    → p.idle_connections ≡ idle
    → Consistent (take_idle health idle p).1
unfolding take_idle count_closed pop_idle
take_idle-Consistent health [] p v e = v
take_idle-Consistent health (m ∷ rest) p v e =
    elim (Bool-cases (validate_connection (health m.connection))) [
      | inl t ↦ rw t (activated m rest p v e)
      | inr f ↦ rw f (
          take_idle-Consistent health rest (count_closed (pop_idle rest p)) (popped m rest p v e)
            refl)
    ]

-- The next id can be put into use.
pub new_id :
    (p : ConnectionPool)
    → Consistent p
    → (j : ℕ)
    → hit j p.next_connection_id
        + count_idle j p.idle_connections
        + count_active j p.active_connections
      ≤ 1
new_id p v j = elim (hit_cases j p.next_connection_id) [
  | inl (e, h) ↦ omega (arith, h, v.ids_below j (omega arith))
  | inr (n, h) ↦ omega (arith, h, v.ids_unique j)
]

pub add_connection-Consistent :
    (conn : ℕ) (p : ConnectionPool) → Consistent p → Consistent (add_connection conn p)
unfolding add_connection activate
add_connection-Consistent conn p v =
    let id = p.next_connection_id in
    let unused = v.ids_below id (omega arith) in
    let free : count_active id p.active_connections ≡ 0 = omega (arith, unused) in
    record {
      total_is_sum = omega (arith, v.total_is_sum);
      idle_counts = v.idle_counts;
      active_counts =
          omega (arith, v.active_counts, length-set_active id conn p.active_connections free);
      none_lost = omega (arith, v.none_lost);
      ids_unique = λ j.
          omega (arith, new_id p v j, count_active-set_active j id conn p.active_connections free);
      ids_below = λ j l. omega (
        arith,
        v.ids_below j (omega arith),
        hit_other j id (omega arith),
        count_active-set_active j id conn p.active_connections free,
      );
    }
