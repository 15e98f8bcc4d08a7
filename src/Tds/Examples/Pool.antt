-- ===== src/Tds/Examples/Pool.antt =====
-- A pool of src/tds/tds_connection_pool.cpp that makes a connection and takes it back.
use mssql_extension.Prelude.{arith, false, refl, some, suc, true, ℕ, ◌+◌, ◌<◌, ◌≡◌}
use mssql_extension.Tds.ConnectionPool.{
  ConnectionPool, Health, PoolConfiguration, activate, add_connection, may_create, new_pool,
  push_idle, release, remove_active, return_idle, take_idle, try_acquire_idle, validate_connection,
}
use mssql_extension.Tds.ConnectionPool.Invariant.{Consistent}
use mssql_extension.Tds.ConnectionPool.Limit.{Runs}
use mssql_extension.Tds.ConnectionPool.LimitBound.{total_count-limit}
use mssql_extension.Tds.ConnectionPool.Steps.{
  PoolStep, Reachable, Reachable-Consistent, adds, goes, starts,
}

abbrev two_at_most : PoolConfiguration
two_at_most = record {
  connection_limit = 2;
  connection_cache = true;
  idle_timeout = 300;
  min_connections = 0;
}

abbrev healthy : ℕ → Health
healthy conn = record { is_alive = true; is_long_idle = false; answers_ping = true; is_idle = true }

abbrev one_out : ConnectionPool
one_out = add_connection 70 new_pool

one_out-Reachable : Reachable two_at_most one_out
one_out-Reachable = goes _ _ starts (adds 70 new_pool)

abbrev one_back : ConnectionPool
one_back = release two_at_most healthy 5 70 one_out

one_back-Reachable : Reachable two_at_most one_back
unfolding add_connection activate
one_back-Reachable = goes _ _ one_out-Reachable (PoolStep.releases healthy 5 70 one_out refl)

taken_again : (try_acquire_idle healthy one_back).0 ≡ some 70
unfolding try_acquire_idle take_idle validate_connection release remove_active return_idle push_idle
    add_connection activate
taken_again = refl

Reachable-Consistent_example : Consistent one_back
Reachable-Consistent_example = Reachable-Consistent two_at_most one_back one_back-Reachable

one_made : Runs two_at_most 2 one_out 0
unfolding try_acquire_idle take_idle may_create
one_made =
    Runs.makes 70 new_pool 0
      (Runs.tests healthy new_pool 0 Runs.begins (omega arith) refl (ground arith))

total_count-limit_example :
    (one_out.total_count + 0 < 2 + 2)
    × ((q : ConnectionPool) × Runs two_at_most 2 q 0 × (suc q.total_count ≡ 2 + 2))
total_count-limit_example =
    total_count-limit two_at_most 2 one_out 0 (omega arith) (omega arith) one_made
