-- ===== src/Tds/ConnectionPool/LimitBound.antt =====
-- How far the total of a pool of src/tds/tds_connection_pool.cpp goes past connection_limit.
use mssql_extension.Prelude.{
  [], ap, arith, false, none, refl, subst, suc, sym, true, zero, ℕ, ◌+◌, ◌-◌, ◌<◌, ◌≡◌, ◌≤◌,
}
use mssql_extension.Tds.ConnectionPool.{
  ConnectionPool, Health, PoolConfiguration, activate, add_connection, close_all, may_create,
  new_pool, signal_shutdown, take_idle, try_acquire_idle,
}
use mssql_extension.Tds.ConnectionPool.Growth.{
  MakesNone, clean_up-MakesNone, release-MakesNone, take_idle-MakesNone, total_falls,
}
use mssql_extension.Tds.ConnectionPool.Limit.{Runs, Runs-Reachable}
use mssql_extension.Tds.ConnectionPool.Steps.{Reachable-Consistent}

falls :
    (config : PoolConfiguration) (threads : ℕ) (p q : ConnectionPool) (j k : ℕ)
    → Runs config threads p j
    → Runs config threads q k
    → MakesNone p q
    → q.total_count ≤ p.total_count
falls config threads p q j k r s =
    total_falls p q (Reachable-Consistent config p (Runs-Reachable config threads p j r))
      (Reachable-Consistent config q (Runs-Reachable config threads q k s))

may_create-below :
    (config : PoolConfiguration) (p : ConnectionPool)
    → may_create config p ≡ true
    → p.total_count < config.connection_limit
unfolding may_create
may_create-below config p test = ground arith

-- Each thread past its test has a place in the sum before its connection has one in the total.
Runs-bounded :
    (config : PoolConfiguration) (threads : ℕ) (p : ConnectionPool) (creating : ℕ)
    → 1 ≤ threads
    → Runs config threads p creating
    → p.total_count + creating < config.connection_limit + threads
unfolding try_acquire_idle add_connection activate signal_shutdown close_all
Runs-bounded config threads p creating some_threads Runs.begins = omega arith
Runs-bounded config threads q creating some_threads (Runs.takes health p _ r) = omega (
  arith,
  Runs-bounded config threads p creating some_threads r,
  falls config threads p q creating creating r (Runs.takes health p creating r)
      (take_idle-MakesNone health p.idle_connections p),
)
Runs-bounded config threads q creating some_threads (Runs.tests health p k r below found test) =
    omega (arith, below, may_create-below config q test)
Runs-bounded config threads q creating some_threads (Runs.makes conn p _ r) =
    omega (arith, Runs-bounded config threads p (suc creating) some_threads r)
Runs-bounded config threads q creating some_threads (Runs.fails _ _ r) =
    omega (arith, Runs-bounded config threads q (suc creating) some_threads r)
Runs-bounded config threads q creating some_threads (Runs.gives_back health now conn p _ r held) =
    omega (
      arith,
      Runs-bounded config threads p creating some_threads r,
      falls config threads p q creating creating r
          (Runs.gives_back health now conn p creating r held)
          (release-MakesNone config health now conn p),
    )
Runs-bounded config threads q creating some_threads (Runs.sweeps now p _ r) = omega (
  arith,
  Runs-bounded config threads p creating some_threads r,
  falls config threads p q creating creating r (Runs.sweeps now p creating r)
      (clean_up-MakesNone config now p),
)
Runs-bounded config threads q creating some_threads (Runs.signals_shutdown p _ r) =
    Runs-bounded config threads p creating some_threads r
Runs-bounded config threads q creating some_threads (Runs.closes_all p _ r signalled) =
    omega (arith, Runs-bounded config threads p creating some_threads r)

-- `n` connections, made one after another and all in use
unfoldable made : ℕ → ConnectionPool
made zero = new_pool
made (suc n) = add_connection n (made n)

made-idle : (n : ℕ) → (made n).idle_connections ≡ []
unfolding made add_connection activate
made-idle zero = refl
made-idle (suc n) = made-idle n

made-total : (n : ℕ) → (made n).total_count ≡ n
unfolding made add_connection activate
made-total zero = refl
made-total (suc n) = ap suc (made-total n)

abbrev healthy : ℕ → Health
healthy conn = record { is_alive = true; is_long_idle = false; answers_ping = true; is_idle = true }

made-try_acquire_idle : (n : ℕ) → try_acquire_idle healthy (made n) ≡ (none, made n)
unfolding try_acquire_idle take_idle
made-try_acquire_idle n = ap (λ idle. take_idle healthy idle (made n)) (made-idle n)

module _ (config : PoolConfiguration) (threads : ℕ) where
  made-tests :
      (n creating : ℕ)
      → n < config.connection_limit
      → creating < threads
      → Runs config threads (made n) creating
      → Runs config threads (made n) (suc creating)
  unfolding may_create
  made-tests n creating room below r =
      let nothing = made-try_acquire_idle n in
      subst (λ p. Runs config threads p (suc creating)) (ap (λ pair. pair.1) nothing)
        (Runs.tests healthy (made n) creating r below (ap (λ pair. pair.0) nothing) (
          subst (λ p. may_create config p ≡ true) (sym (ap (λ pair. pair.1) nothing))
            (ground (arith, made-total n))))

  -- one thread fills the pool up to its limit
  made-Runs : (n : ℕ) → 1 ≤ threads → n ≤ config.connection_limit → Runs config threads (made n) 0
  unfolding made
  made-Runs zero some_threads room = Runs.begins
  made-Runs (suc n) some_threads room =
      Runs.makes n (made n) 0
        (made-tests n 0 room some_threads (made-Runs n some_threads (omega arith)))

  -- the other threads pass their tests before the last place is taken
  all_test :
      (n k : ℕ)
      → n < config.connection_limit
      → k ≤ threads
      → Runs config threads (made n) 0
      → Runs config threads (made n) k
  all_test n zero room below r = r
  all_test n (suc k) room below r = made-tests n k room below (all_test n k room (omega arith) r)

  all_make :
      (n k : ℕ)
      → Runs config threads (made n) k
      → (p : ConnectionPool) × Runs config threads p 0 × (p.total_count ≡ n + k)
  unfolding made
  all_make n zero r = (made n, r, omega (arith, made-total n))
  all_make n (suc k) r =
      let (p, runs, total) = all_make (suc n) k (Runs.makes n (made n) k r) in
      (p, runs, omega (arith, total))

-- For a limit and a number of threads that are not 0: however the critical sections interleave, while
-- at most `threads` threads make a connection at the same time, the connections in the pool and those
-- being made are fewer than the limit plus `threads`; and some order of the sections leaves the pool
-- with just one fewer than that, none being made, which is past the limit for two threads or more.
pub total_count-limit :
    (config : PoolConfiguration) (threads : ℕ) (p : ConnectionPool) (creating : ℕ)
    → 1 ≤ config.connection_limit
    → 1 ≤ threads
    → Runs config threads p creating
    → (p.total_count + creating < config.connection_limit + threads)
      × ((q : ConnectionPool) × Runs config threads q 0
          × (suc q.total_count ≡ config.connection_limit + threads))
total_count-limit config threads p creating some_places some_threads r =
    let last = config.connection_limit - 1 in
    let (q, runs, total) = all_make config threads last threads (
      all_test config threads last threads (omega arith) (omega arith)
        (made-Runs config threads last some_threads (omega arith))) in
    (Runs-bounded config threads p creating some_threads r, (q, runs, omega (arith, total)))
