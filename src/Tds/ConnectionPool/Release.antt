-- ===== src/Tds/ConnectionPool/Release.antt =====
-- Release of src/tds/tds_connection_pool.cpp keeps the pool consistent.
use mssql_extension.Prelude.{
  Bool, Bool-cases, List, [], arith, false, if◌then◌else◌, inl, inr, length-append, not, refl, suc,
  true, ℕ, ◌==◌, ◌||◌, ◌∷◌, ◌≡◌,
}
use mssql_extension.Tds.ConnectionPool.{
  ConnectionPool, Health, IdleConnection, PoolConfiguration, count_closed, decrement, erase_active,
  find_active, is_active, push_idle, release, remove_active, return_idle,
}
use mssql_extension.Tds.ConnectionPool.Acquire.{new_id}
use mssql_extension.Tds.ConnectionPool.Invariant.{
  Consistent, count_active-erase_active, count_idle-append, decrement_lem, hit_other,
  length-erase_active,
}

either :
    {p q : ConnectionPool} (b : Bool)
    → Consistent p
    → Consistent q
    → Consistent (if b then p else q)
either true v w = v
either false v w = w

-- What Release has removed from the map.
abbrev erased : ℕ → ConnectionPool → ConnectionPool
erased conn p = record p {
  active_connections = erase_active conn p.active_connections;
  active_count = decrement p.active_count;
}

remove_active_lem :
    (conn : ℕ) (p : ConnectionPool)
    → is_active conn p.active_connections ≡ true
    → remove_active conn p ≡ erased conn p
unfolding remove_active
remove_active_lem conn p h = rw h refl

module _ (conn : ℕ) (p : ConnectionPool) (v : Consistent p)
    (held : is_active conn p.active_connections ≡ true) where
  one_less : suc (decrement p.active_count) ≡ p.active_count
  one_less =
      decrement_lem p.active_count
        (omega (arith, v.active_counts, length-erase_active conn p.active_connections held))

  closed-Consistent : Consistent (count_closed (erased conn p))
  unfolding count_closed
  closed-Consistent = record {
    total_is_sum = omega (arith, v.total_is_sum, one_less, decrement_lem p.total_count);
    idle_counts = v.idle_counts;
    active_counts =
        omega
          (arith, v.active_counts, one_less, length-erase_active conn p.active_connections held);
    none_lost = omega (arith, v.none_lost, v.total_is_sum, one_less, decrement_lem p.total_count);
    ids_unique = λ j.
        omega (arith, v.ids_unique j, count_active-erase_active j conn p.active_connections held);
    ids_below = λ j l.
        omega (arith, v.ids_below j l, count_active-erase_active j conn p.active_connections held);
  }

  abbrev queued : ℕ → ℕ → List IdleConnection
  queued id now = record { connection = conn; connection_id = id; last_released = now } ∷ []

  returned-Consistent :
      (now : ℕ)
      → Consistent (return_idle conn (find_active conn p.active_connections) now (erased conn p))
  unfolding return_idle push_idle
  returned-Consistent now = elim (Bool-cases (find_active conn p.active_connections == 0)) [
    | inl t ↦ rw t (record {
      total_is_sum = omega (arith, v.total_is_sum, one_less);
      idle_counts = omega (
        arith,
        v.idle_counts,
        length-append p.idle_connections (queued p.next_connection_id now),
      );
      active_counts =
          omega
            (arith, v.active_counts, one_less, length-erase_active conn p.active_connections held);
      none_lost = v.none_lost;
      ids_unique = λ j. omega (
        arith,
        new_id p v j,
        count_active-erase_active j conn p.active_connections held,
        count_idle-append j p.idle_connections (queued p.next_connection_id now),
      );
      ids_below = λ j l. omega (
        arith,
        v.ids_below j (omega arith),
        hit_other j p.next_connection_id (omega arith),
        count_active-erase_active j conn p.active_connections held,
        count_idle-append j p.idle_connections (queued p.next_connection_id now),
      );
    })
    | inr f ↦ rw f (record {
      total_is_sum = omega (arith, v.total_is_sum, one_less);
      idle_counts = omega (
        arith,
        v.idle_counts,
        length-append p.idle_connections (queued (find_active conn p.active_connections) now),
      );
      active_counts =
          omega
            (arith, v.active_counts, one_less, length-erase_active conn p.active_connections held);
      none_lost = v.none_lost;
      ids_unique = λ j. omega (
        arith,
        v.ids_unique j,
        count_active-erase_active j conn p.active_connections held,
        count_idle-append j p.idle_connections (queued (find_active conn p.active_connections) now),
      );
      ids_below = λ j l. omega (
        arith,
        v.ids_below j l,
        count_active-erase_active j conn p.active_connections held,
        count_idle-append j p.idle_connections (queued (find_active conn p.active_connections) now),
      );
    })
  ]

  pub release-Consistent :
      (config : PoolConfiguration) (health : ℕ → Health) (now : ℕ)
      → Consistent (release config health now conn p)
  unfolding release
  release-Consistent config health now = either p.is_shut_down v (
      rw (remove_active_lem conn p held) (
        either
          (not (health conn).is_idle || not config.connection_cache || not (health conn).is_alive)
          closed-Consistent (returned-Consistent now)))
