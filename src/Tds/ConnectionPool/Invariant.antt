-- ===== src/Tds/ConnectionPool/Invariant.antt =====
-- The counters of src/tds/tds_connection_pool.cpp against its queue and its map, and their ids.
use mssql_extension.Prelude.{
  Bool-cases, List, [], ap, arith, false, if◌then◌else◌, inl, inr, length, refl, suc, true, zero, ℕ,
  ◌++◌, ◌+◌, ◌<◌, ◌==◌, ◌∷◌, ◌≡◌, ◌≢◌, ◌≤◌, ◌⊎◌,
}
use mssql_extension.Tds.ConnectionPool.{
  ConnectionPool, IdleConnection, decrement, erase_active, find_active, is_active, set_active,
}
use native.Mathlib.Decide.{ℕ_discrete}

abbrev pub hit : ℕ → ℕ → ℕ
hit j id = if j == id then 1 else 0

-- How often an id stands in the queue and in the map.
abbrev pub count_idle : ℕ → List IdleConnection → ℕ
count_idle j [] = 0
count_idle j (m ∷ rest) = hit j m.connection_id + count_idle j rest

abbrev pub count_active : ℕ → List (ℕ × ℕ) → ℕ
count_active j [] = 0
count_active j ((k, c) ∷ rest) = hit j k + count_active j rest

-- The counters count, every connection made is in the pool or was closed, no id is used twice, and the next id is above all in use.
pub record Consistent (p : ConnectionPool) : Type 0 where
  pub total_is_sum : p.total_count ≡ p.idle_count + p.active_count
  pub idle_counts : p.idle_count ≡ length p.idle_connections
  pub active_counts : p.active_count ≡ length p.active_connections
  pub none_lost : p.created_count ≡ p.closed_count + p.total_count
  pub ids_unique :
      (j : ℕ) → count_idle j p.idle_connections + count_active j p.active_connections ≤ 1
  pub ids_below :
      (j : ℕ)
      → p.next_connection_id ≤ j
      → count_idle j p.idle_connections + count_active j p.active_connections ≡ 0

pub hit_cases : (j id : ℕ) → ((j ≡ id) × (hit j id ≡ 1)) ⊎ ((j ≢ id) × (hit j id ≡ 0))
hit_cases j id = elim (ℕ_discrete j id) [
  | yes e ↦ inl (e, ground arith)
  | no n ↦ inr (n, ground arith)
]

pub length-set_active :
    (id conn : ℕ) (xs : List (ℕ × ℕ))
    → count_active id xs ≡ 0
    → length (set_active id conn xs) ≡ suc (length xs)
length-set_active id conn [] h = refl
length-set_active id conn ((k, c) ∷ rest) h = elim (hit_cases id k) [
  | inl (e, t) ↦ absurd (omega (arith, t))
  | inr (n, t) ↦ ground (arith, length-set_active id conn rest (omega (arith, t)))
]

pub count_active-set_active :
    (j id conn : ℕ) (xs : List (ℕ × ℕ))
    → count_active id xs ≡ 0
    → count_active j (set_active id conn xs) ≡ hit j id + count_active j xs
count_active-set_active j id conn [] h = refl
count_active-set_active j id conn ((k, c) ∷ rest) h = elim (hit_cases id k) [
  | inl (e, t) ↦ absurd (omega (arith, t))
  | inr (n, t) ↦
      let test : (k == id) ≡ false = ground arith in
      rw test (omega (arith, count_active-set_active j id conn rest (omega (arith, t))))
]

pub length-erase_active :
    (conn : ℕ) (xs : List (ℕ × ℕ))
    → is_active conn xs ≡ true
    → suc (length (erase_active conn xs)) ≡ length xs
length-erase_active conn [] h = cc
length-erase_active conn ((k, c) ∷ rest) h = elim (Bool-cases (c == conn)) [
  | inl t ↦ rw t refl
  | inr f ↦ rw f (ap suc (length-erase_active conn rest (rw f at h)))
]

pub count_active-erase_active :
    (j conn : ℕ) (xs : List (ℕ × ℕ))
    → is_active conn xs ≡ true
    → hit j (find_active conn xs) + count_active j (erase_active conn xs) ≡ count_active j xs
count_active-erase_active j conn [] h = cc
count_active-erase_active j conn ((k, c) ∷ rest) h = elim (Bool-cases (c == conn)) [
  | inl t ↦ rw t refl
  | inr f ↦ rw f (omega (arith, count_active-erase_active j conn rest (rw f at h)))
]

pub count_idle-append :
    (j : ℕ) (xs ys : List IdleConnection)
    → count_idle j (xs ++ ys) ≡ count_idle j xs + count_idle j ys
count_idle-append j [] ys = omega arith
count_idle-append j (m ∷ xs) ys = omega (arith, count_idle-append j xs ys)

pub hit_self : (j : ℕ) → hit j j ≡ 1
hit_self j = ground arith

pub decrement_lem : (n : ℕ) → 1 ≤ n → suc (decrement n) ≡ n
decrement_lem zero h = absurd (omega arith)
decrement_lem (suc n) h = refl

pub hit_other : (j id : ℕ) → id < j → hit j id ≡ 0
hit_other j id h = ground arith
