-- ===== src/Tds/ConnectionPool/CleanUp.antt =====
-- CleanupThreadFunc and Shutdown of src/tds/tds_connection_pool.cpp keep the pool consistent.
use mssql_extension.Prelude.{
  Bool-cases, List, [], append-nil, append_assoc, arith, inl, inr, leb, length, length-append, ltb,
  refl, subst, sym, ℕ, ◌&&◌, ◌++◌, ◌-◌, ◌==◌, ◌||◌, ◌∷◌,
}
use mssql_extension.Tds.ConnectionPool.{
  ConnectionPool, IdleConnection, PoolConfiguration, clean_idle, clean_up, close_all, count_closed,
  decrement, signal_shutdown,
}
use mssql_extension.Tds.ConnectionPool.Invariant.{Consistent, count_idle-append, decrement_lem}

-- The queue while CleanupThreadFunc goes through it: what stays, and what is still to be looked at.
abbrev with_idle : List IdleConnection → ConnectionPool → ConnectionPool
with_idle idle p = record p { idle_connections = idle }

dropped-Consistent :
    (m : IdleConnection) (remaining rest : List IdleConnection) (p : ConnectionPool)
    → Consistent (with_idle (remaining ++ (m ∷ rest)) p)
    → Consistent (
        with_idle
          (remaining ++ rest)
          (count_closed (record p { idle_count = decrement p.idle_count })))
unfolding count_closed
dropped-Consistent m remaining rest p v =
    let two = length-append remaining (m ∷ rest) in
    let one_fewer = decrement_lem p.idle_count (omega (arith, v.idle_counts, two)) in
    record {
      total_is_sum = omega (arith, v.total_is_sum, one_fewer, decrement_lem p.total_count);
      idle_counts = omega (arith, v.idle_counts, one_fewer, two, length-append remaining rest);
      active_counts = v.active_counts;
      none_lost =
          omega (arith, v.none_lost, v.total_is_sum, one_fewer, decrement_lem p.total_count);
      ids_unique = λ j. omega (
        arith,
        v.ids_unique j,
        count_idle-append j remaining (m ∷ rest),
        count_idle-append j remaining rest,
      );
      ids_below = λ j l. omega (
        arith,
        v.ids_below j l,
        count_idle-append j remaining (m ∷ rest),
        count_idle-append j remaining rest,
      );
    }

clean_idle-Consistent :
    (config : PoolConfiguration) (now to_keep : ℕ) (remaining rest : List IdleConnection)
    (p : ConnectionPool)
    → Consistent (with_idle (remaining ++ rest) p)
    → Consistent (clean_idle config now to_keep remaining rest p)
unfolding clean_idle
clean_idle-Consistent config now to_keep remaining [] p v =
    subst (λ l. Consistent (with_idle l p)) (append-nil remaining) v
clean_idle-Consistent config now to_keep remaining (m ∷ rest) p v =
    elim (Bool-cases
      (ltb config.idle_timeout (now - m.last_released) && leb to_keep (length remaining))) [
        | inl t ↦ rw t (
            clean_idle-Consistent config now to_keep remaining rest
              (count_closed (record p { idle_count = decrement p.idle_count }))
              (dropped-Consistent m remaining rest p v))
        | inr f ↦ rw f (
            clean_idle-Consistent config now to_keep (remaining ++ (m ∷ [])) rest p (
              subst (λ l. Consistent (with_idle l p)) (sym (append_assoc remaining (m ∷ []) rest))
                v))
      ]

pub clean_up-Consistent :
    (config : PoolConfiguration) (now : ℕ) (p : ConnectionPool)
    → Consistent p
    → Consistent (clean_up config now p)
unfolding clean_up
clean_up-Consistent config now p v =
    elim (Bool-cases (p.is_shut_down || config.idle_timeout == 0)) [
      | inl t ↦ rw t v
      | inr f ↦ rw f (clean_idle-Consistent config now _ [] p.idle_connections p v)
    ]

pub signal_shutdown-Consistent :
    (p : ConnectionPool) → Consistent p → Consistent (signal_shutdown p)
unfolding signal_shutdown
signal_shutdown-Consistent p v = record {
  total_is_sum = v.total_is_sum;
  idle_counts = v.idle_counts;
  active_counts = v.active_counts;
  none_lost = v.none_lost;
  ids_unique = v.ids_unique;
  ids_below = v.ids_below;
}

pub close_all-Consistent : (p : ConnectionPool) → Consistent p → Consistent (close_all p)
unfolding close_all
close_all-Consistent p v = record {
  total_is_sum = refl;
  idle_counts = refl;
  active_counts = refl;
  none_lost = omega (arith, v.none_lost, v.total_is_sum, v.idle_counts, v.active_counts);
  ids_unique = λ j. omega arith;
  ids_below = λ j l. refl;
}
