-- ===== src/Tds/ConnectionPool/Steps.antt =====
-- The critical sections of src/tds/tds_connection_pool.cpp in any order.
use mssql_extension.Prelude.{arith, refl, true, ℕ, ◌≡◌}
use mssql_extension.Tds.ConnectionPool.{
  ConnectionPool, Health, PoolConfiguration, add_connection, clean_up, close_all, is_active,
  new_pool, release, signal_shutdown, try_acquire_idle,
}
use mssql_extension.Tds.ConnectionPool.Acquire.{add_connection-Consistent, take_idle-Consistent}
use mssql_extension.Tds.ConnectionPool.CleanUp.{
  clean_up-Consistent, close_all-Consistent, signal_shutdown-Consistent,
}
use mssql_extension.Tds.ConnectionPool.Invariant.{Consistent}
use mssql_extension.Tds.ConnectionPool.Release.{release-Consistent}

-- One critical section of one thread. A connection that is released is one that the pool has handed
-- out; a connection that is added is one that the factory has made, with the lock dropped, at any time
-- after the test of the limit.
pub data PoolStep (config : PoolConfiguration) : ConnectionPool → ConnectionPool → Type 0 where
  acquires :
      (health : ℕ → Health) (p : ConnectionPool) → PoolStep config p (try_acquire_idle health p).1
  adds : (conn : ℕ) (p : ConnectionPool) → PoolStep config p (add_connection conn p)
  releases :
      (health : ℕ → Health) (now conn : ℕ) (p : ConnectionPool)
      → is_active conn p.active_connections ≡ true
      → PoolStep config p (release config health now conn p)
  cleans : (now : ℕ) (p : ConnectionPool) → PoolStep config p (clean_up config now p)
  signals : (p : ConnectionPool) → PoolStep config p (signal_shutdown p)
  closes : (p : ConnectionPool) → p.is_shut_down ≡ true → PoolStep config p (close_all p)

pub data Reachable (config : PoolConfiguration) : ConnectionPool → Type 0 where
  starts : Reachable config new_pool
  goes : (p q : ConnectionPool) → Reachable config p → PoolStep config p q → Reachable config q

PoolStep-Consistent :
    (config : PoolConfiguration) (p q : ConnectionPool)
    → PoolStep config p q
    → Consistent p
    → Consistent q
unfolding try_acquire_idle
PoolStep-Consistent config p q (acquires health _) v =
    take_idle-Consistent health p.idle_connections p v refl
PoolStep-Consistent config p q (adds conn _) v = add_connection-Consistent conn p v
PoolStep-Consistent config p q (releases health now conn _ held) v =
    release-Consistent conn p v held config health now
PoolStep-Consistent config p q (cleans now _) v = clean_up-Consistent config now p v
PoolStep-Consistent config p q (signals _) v = signal_shutdown-Consistent p v
PoolStep-Consistent config p q (closes _ signalled) v = close_all-Consistent p v

-- However the critical sections of the threads interleave, the counters of a pool are the lengths of
-- its queue and of its map, the total is their sum, a connection that was made is counted in the total
-- or was closed, no id is in use twice, and the next id is new.
pub Reachable-Consistent :
    (config : PoolConfiguration) (p : ConnectionPool) → Reachable config p → Consistent p
Reachable-Consistent config p starts = record {
  total_is_sum = refl;
  idle_counts = refl;
  active_counts = refl;
  none_lost = refl;
  ids_unique = λ j. omega arith;
  ids_below = λ j l. refl;
}
Reachable-Consistent config p (goes q _ before step) =
    PoolStep-Consistent config q p step (Reachable-Consistent config q before)
