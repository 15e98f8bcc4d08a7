-- ===== src/Tds/Bytes/Stable.antt =====
-- The reads of Tds/Bytes succeed where the buffer is long enough, and do not look further.
use mssql_extension.Prelude.{
  List, [], arith, fault, inl, inr, length, length-append, ok, refl, sym, take, take-append, ℕ,
  ◌++◌, ◌<◌, ◌∙◌, ◌∷◌, ◌≡◌, ◌≤◌, ◌⊎◌,
}
use mssql_extension.Tds.Bytes.{read_bytes, read_u16, read_u32, read_u64, read_u8}
use native.Mathlib.Decide.{dec_lt}

module _ {E : Type 0} where
  pub read_u8_total : (xs : List ℕ) → 1 ≤ length xs → (v : ℕ) × (read_u8 {E = E} xs ≡ ok v)
  unfolding read_u8
  read_u8_total (a ∷ _) h = (a, refl)
  read_u8_total [] h = absurd (omega arith)

  pub read_u16_total : (xs : List ℕ) → 2 ≤ length xs → (v : ℕ) × (read_u16 {E = E} xs ≡ ok v)
  unfolding read_u16
  read_u16_total (a ∷ b ∷ _) h = (_, refl)
  read_u16_total [] h = absurd (omega arith)
  read_u16_total (a ∷ []) h = absurd (omega arith)

  pub read_u32_total : (xs : List ℕ) → 4 ≤ length xs → (v : ℕ) × (read_u32 {E = E} xs ≡ ok v)
  unfolding read_u32
  read_u32_total (a ∷ b ∷ c ∷ d ∷ _) h = (_, refl)
  read_u32_total [] h = absurd (omega arith)
  read_u32_total (a ∷ []) h = absurd (omega arith)
  read_u32_total (a ∷ b ∷ []) h = absurd (omega arith)
  read_u32_total (a ∷ b ∷ c ∷ []) h = absurd (omega arith)

  pub read_u64_total : (xs : List ℕ) → 8 ≤ length xs → (v : ℕ) × (read_u64 {E = E} xs ≡ ok v)
  unfolding read_u64
  read_u64_total (a ∷ b ∷ c ∷ d ∷ e ∷ f ∷ g ∷ h ∷ _) l = (_, refl)
  read_u64_total [] l = absurd (omega arith)
  read_u64_total (a ∷ []) l = absurd (omega arith)
  read_u64_total (a ∷ b ∷ []) l = absurd (omega arith)
  read_u64_total (a ∷ b ∷ c ∷ []) l = absurd (omega arith)
  read_u64_total (a ∷ b ∷ c ∷ d ∷ []) l = absurd (omega arith)
  read_u64_total (a ∷ b ∷ c ∷ d ∷ e ∷ []) l = absurd (omega arith)
  read_u64_total (a ∷ b ∷ c ∷ d ∷ e ∷ f ∷ []) l = absurd (omega arith)
  read_u64_total (a ∷ b ∷ c ∷ d ∷ e ∷ f ∷ g ∷ []) l = absurd (omega arith)

  pub read_u8-append : (xs ys : List ℕ) → 1 ≤ length xs → read_u8 {E = E} (xs ++ ys) ≡ read_u8 xs
  unfolding read_u8
  read_u8-append (a ∷ _) ys h = refl
  read_u8-append [] ys h = absurd (omega arith)

  pub read_u16-append : (xs ys : List ℕ) → 2 ≤ length xs → read_u16 {E = E} (xs ++ ys) ≡ read_u16 xs
  unfolding read_u16
  read_u16-append (a ∷ b ∷ _) ys h = refl
  read_u16-append [] ys h = absurd (omega arith)
  read_u16-append (a ∷ []) ys h = absurd (omega arith)

  pub read_u32-append : (xs ys : List ℕ) → 4 ≤ length xs → read_u32 {E = E} (xs ++ ys) ≡ read_u32 xs
  unfolding read_u32
  read_u32-append (a ∷ b ∷ c ∷ d ∷ _) ys h = refl
  read_u32-append [] ys h = absurd (omega arith)
  read_u32-append (a ∷ []) ys h = absurd (omega arith)
  read_u32-append (a ∷ b ∷ []) ys h = absurd (omega arith)
  read_u32-append (a ∷ b ∷ c ∷ []) ys h = absurd (omega arith)

  pub read_u64-append : (xs ys : List ℕ) → 8 ≤ length xs → read_u64 {E = E} (xs ++ ys) ≡ read_u64 xs
  unfolding read_u64
  read_u64-append (a ∷ b ∷ c ∷ d ∷ e ∷ f ∷ g ∷ h ∷ _) ys l = refl
  read_u64-append [] ys l = absurd (omega arith)
  read_u64-append (a ∷ []) ys l = absurd (omega arith)
  read_u64-append (a ∷ b ∷ []) ys l = absurd (omega arith)
  read_u64-append (a ∷ b ∷ c ∷ []) ys l = absurd (omega arith)
  read_u64-append (a ∷ b ∷ c ∷ d ∷ []) ys l = absurd (omega arith)
  read_u64-append (a ∷ b ∷ c ∷ d ∷ e ∷ []) ys l = absurd (omega arith)
  read_u64-append (a ∷ b ∷ c ∷ d ∷ e ∷ f ∷ []) ys l = absurd (omega arith)
  read_u64-append (a ∷ b ∷ c ∷ d ∷ e ∷ f ∷ g ∷ []) ys l = absurd (omega arith)

  pub read_bytes_total :
      (n : ℕ) (xs : List ℕ) → n ≤ length xs → read_bytes {E = E} n xs ≡ ok (take n xs)
  unfolding read_bytes
  read_bytes_total n xs h = ground arith

  pub read_bytes-append :
      (n : ℕ) (xs ys : List ℕ) → n ≤ length xs → read_bytes {E = E} n (xs ++ ys) ≡ read_bytes n xs
  read_bytes-append n xs ys h =
      read_bytes_total n (xs ++ ys) (omega (arith, length-append xs ys))
      ∙ rw (take-append n xs ys h) (sym (read_bytes_total n xs h))

  pub read_u8_cases :
      (xs : List ℕ) → (length xs < 1) ⊎ ((1 ≤ length xs) × ((v : ℕ) × (read_u8 {E = E} xs ≡ ok v)))
  read_u8_cases xs = elim (dec_lt (length xs) 1) [
    | yes h ↦ inl h
    | no h ↦ inr (omega arith, read_u8_total xs (omega arith))
  ]

  pub read_u16_cases :
      (xs : List ℕ) → (length xs < 2) ⊎ ((2 ≤ length xs) × ((v : ℕ) × (read_u16 {E = E} xs ≡ ok v)))
  read_u16_cases xs = elim (dec_lt (length xs) 2) [
    | yes h ↦ inl h
    | no h ↦ inr (omega arith, read_u16_total xs (omega arith))
  ]

  pub read_u32_cases :
      (xs : List ℕ) → (length xs < 4) ⊎ ((4 ≤ length xs) × ((v : ℕ) × (read_u32 {E = E} xs ≡ ok v)))
  read_u32_cases xs = elim (dec_lt (length xs) 4) [
    | yes h ↦ inl h
    | no h ↦ inr (omega arith, read_u32_total xs (omega arith))
  ]

  pub read_u64_cases :
      (xs : List ℕ) → (length xs < 8) ⊎ ((8 ≤ length xs) × ((v : ℕ) × (read_u64 {E = E} xs ≡ ok v)))
  read_u64_cases xs = elim (dec_lt (length xs) 8) [
    | yes h ↦ inl h
    | no h ↦ inr (omega arith, read_u64_total xs (omega arith))
  ]

  pub read_u8_short : (xs : List ℕ) → length xs < 1 → read_u8 {E = E} xs ≡ fault
  unfolding read_u8
  read_u8_short [] h = refl
  read_u8_short (a ∷ xs) h = absurd (omega arith)

  pub read_u16_short : (xs : List ℕ) → length xs < 2 → read_u16 {E = E} xs ≡ fault
  unfolding read_u16
  read_u16_short [] h = refl
  read_u16_short (a ∷ []) h = refl
  read_u16_short (a ∷ b ∷ xs) h = absurd (omega arith)

  pub read_u32_short : (xs : List ℕ) → length xs < 4 → read_u32 {E = E} xs ≡ fault
  unfolding read_u32
  read_u32_short [] h = refl
  read_u32_short (a ∷ []) h = refl
  read_u32_short (a ∷ b ∷ []) h = refl
  read_u32_short (a ∷ b ∷ c ∷ []) h = refl
  read_u32_short (a ∷ b ∷ c ∷ d ∷ xs) h = absurd (omega arith)

  pub read_bytes_short : (n : ℕ) (xs : List ℕ) → length xs < n → read_bytes {E = E} n xs ≡ fault
  unfolding read_bytes
  read_bytes_short n xs h = ground arith
