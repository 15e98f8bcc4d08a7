-- ===== src/Tds/ConnectionPool/Growth.antt =====
-- The operations of src/tds/tds_connection_pool.cpp that make no connection do not raise the total.
use mssql_extension.Prelude.{
  Bool, Bool-cases, List, [], arith, false, if◌then◌else◌, inl, inr, leb, length, ltb, not, refl,
  true, ℕ, ◌&&◌, ◌++◌, ◌-◌, ◌==◌, ◌||◌, ◌∷◌, ◌≡◌, ◌≤◌,
}
use mssql_extension.Tds.ConnectionPool.{
  ConnectionPool, Health, IdleConnection, PoolConfiguration, activate, clean_idle, clean_up,
  count_closed, decrement, find_active, is_active, pop_idle, push_idle, release, remove_active,
  return_idle, take_idle, validate_connection,
}
use mssql_extension.Tds.ConnectionPool.Invariant.{Consistent}

-- No connection was made, and none that was closed came back.
abbrev pub MakesNone : ConnectionPool → ConnectionPool → Type 0
MakesNone p q = (q.created_count ≡ p.created_count) × (p.closed_count ≤ q.closed_count)

pub take_idle-MakesNone :
    (health : ℕ → Health) (idle : List IdleConnection) (p : ConnectionPool)
    → MakesNone p (take_idle health idle p).1
unfolding take_idle count_closed pop_idle activate
take_idle-MakesNone health [] p = (refl, omega arith)
take_idle-MakesNone health (m ∷ rest) p =
    elim (Bool-cases (validate_connection (health m.connection))) [
      | inl t ↦ rw t (refl, omega arith)
      | inr f ↦
          let (made, closed) = take_idle-MakesNone health rest (count_closed (pop_idle rest p)) in
          rw f (made, omega (arith, closed))
    ]

clean_idle-MakesNone :
    (config : PoolConfiguration) (now to_keep : ℕ) (remaining rest : List IdleConnection)
    (p : ConnectionPool)
    → MakesNone p (clean_idle config now to_keep remaining rest p)
unfolding clean_idle count_closed
clean_idle-MakesNone config now to_keep remaining [] p = (refl, omega arith)
clean_idle-MakesNone config now to_keep remaining (m ∷ rest) p =
    elim (Bool-cases
      (ltb config.idle_timeout (now - m.last_released) && leb to_keep (length remaining))) [
        | inl t ↦
            let (made, closed) =
              clean_idle-MakesNone config now to_keep remaining rest
                (count_closed (record p { idle_count = decrement p.idle_count })) in
            rw t (made, omega (arith, closed))
        | inr f ↦ rw f (clean_idle-MakesNone config now to_keep (remaining ++ (m ∷ [])) rest p)
      ]

pub clean_up-MakesNone :
    (config : PoolConfiguration) (now : ℕ) (p : ConnectionPool)
    → MakesNone p (clean_up config now p)
unfolding clean_up
clean_up-MakesNone config now p = elim (Bool-cases (p.is_shut_down || config.idle_timeout == 0)) [
  | inl t ↦ rw t (refl, omega arith)
  | inr f ↦ rw f (clean_idle-MakesNone config now _ [] p.idle_connections p)
]

either-MakesNone :
    (p q r : ConnectionPool) (b : Bool)
    → MakesNone p q
    → MakesNone p r
    → MakesNone p (if b then q else r)
either-MakesNone p q r true v w = v
either-MakesNone p q r false v w = w

remove_active-MakesNone : (conn : ℕ) (p : ConnectionPool) → MakesNone p (remove_active conn p)
unfolding remove_active
remove_active-MakesNone conn p =
    either-MakesNone p _ _ (is_active conn p.active_connections) (refl, omega arith)
      (refl, omega arith)

pub release-MakesNone :
    (config : PoolConfiguration) (health : ℕ → Health) (now conn : ℕ) (p : ConnectionPool)
    → MakesNone p (release config health now conn p)
unfolding release count_closed return_idle push_idle
release-MakesNone config health now conn p =
    let (made, closed) = remove_active-MakesNone conn p in
    either-MakesNone p _ _ p.is_shut_down (refl, omega arith)
      (either-MakesNone p _ _
        (not (health conn).is_idle || not config.connection_cache || not (health conn).is_alive)
        (made, omega (arith, closed))
        (either-MakesNone p _ _ (find_active conn p.active_connections == 0) (made, closed)
          (made, closed)))

-- What makes no connection does not raise the total.
pub total_falls :
    (p q : ConnectionPool)
    → Consistent p
    → Consistent q
    → MakesNone p q
    → q.total_count ≤ p.total_count
total_falls p q v w (made, closed) = omega (arith, v.none_lost, w.none_lost, made, closed)
