-- ===== src/Tds/ConnectionPool/Limit.antt =====
-- Acquire of src/tds/tds_connection_pool.cpp against connection_limit: it tests the total, drops the
-- lock to make a connection, and adds the connection when it has the lock again.
use mssql_extension.Prelude.{none, suc, true, ℕ, ◌<◌, ◌≡◌}
use mssql_extension.Tds.ConnectionPool.{
  ConnectionPool, Health, PoolConfiguration, add_connection, clean_up, close_all, is_active,
  may_create, new_pool, release, signal_shutdown, try_acquire_idle,
}
use mssql_extension.Tds.ConnectionPool.Steps.{PoolStep, Reachable}

-- The critical sections in any order, with how many threads are between the test of the limit and
-- the lock that follows, of no more than `threads` that make connections at a time.
pub data Runs (config : PoolConfiguration) (threads : ℕ) : ConnectionPool → ℕ → Type 0 where
  begins : Runs config threads new_pool 0
  takes :
      (health : ℕ → Health) (p : ConnectionPool) (creating : ℕ)
      → Runs config threads p creating
      → Runs config threads (try_acquire_idle health p).1 creating
  -- TryAcquireIdle has found nothing, and under the same lock the total is below the limit.
  tests :
      (health : ℕ → Health) (p : ConnectionPool) (creating : ℕ)
      → Runs config threads p creating
      → creating < threads
      → (try_acquire_idle health p).0 ≡ none
      → may_create config (try_acquire_idle health p).1 ≡ true
      → Runs config threads (try_acquire_idle health p).1 (suc creating)
  makes :
      (conn : ℕ) (p : ConnectionPool) (creating : ℕ)
      → Runs config threads p (suc creating)
      → Runs config threads (add_connection conn p) creating
  fails :
      (p : ConnectionPool) (creating : ℕ)
      → Runs config threads p (suc creating)
      → Runs config threads p creating
  gives_back :
      (health : ℕ → Health) (now conn : ℕ) (p : ConnectionPool) (creating : ℕ)
      → Runs config threads p creating
      → is_active conn p.active_connections ≡ true
      → Runs config threads (release config health now conn p) creating
  sweeps :
      (now : ℕ) (p : ConnectionPool) (creating : ℕ)
      → Runs config threads p creating
      → Runs config threads (clean_up config now p) creating
  signals_shutdown :
      (p : ConnectionPool) (creating : ℕ)
      → Runs config threads p creating
      → Runs config threads (signal_shutdown p) creating
  closes_all :
      (p : ConnectionPool) (creating : ℕ)
      → Runs config threads p creating
      → p.is_shut_down ≡ true
      → Runs config threads (close_all p) creating

pub Runs-Reachable :
    (config : PoolConfiguration) (threads : ℕ) (p : ConnectionPool) (creating : ℕ)
    → Runs config threads p creating
    → Reachable config p
Runs-Reachable config threads p creating begins = Reachable.starts
Runs-Reachable config threads q creating (takes health p _ r) =
    Reachable.goes p q (Runs-Reachable config threads p creating r) (PoolStep.acquires health p)
Runs-Reachable config threads q creating (tests health p k r below found test) =
    Reachable.goes p q (Runs-Reachable config threads p k r) (PoolStep.acquires health p)
Runs-Reachable config threads q creating (makes conn p _ r) =
    Reachable.goes p q (Runs-Reachable config threads p (suc creating) r) (PoolStep.adds conn p)
Runs-Reachable config threads q creating (fails _ _ r) =
    Runs-Reachable config threads q (suc creating) r
Runs-Reachable config threads q creating (gives_back health now conn p _ r held) =
    Reachable.goes p q (Runs-Reachable config threads p creating r)
      (PoolStep.releases health now conn p held)
Runs-Reachable config threads q creating (sweeps now p _ r) =
    Reachable.goes p q (Runs-Reachable config threads p creating r) (PoolStep.cleans now p)
Runs-Reachable config threads q creating (signals_shutdown p _ r) =
    Reachable.goes p q (Runs-Reachable config threads p creating r) (PoolStep.signals p)
Runs-Reachable config threads q creating (closes_all p _ r signalled) =
    Reachable.goes p q (Runs-Reachable config threads p creating r) (PoolStep.closes p signalled)
