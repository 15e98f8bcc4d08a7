-- ===== src/Tds/Parser/Stable.antt =====
-- Parsers whose answer does not change when more bytes arrive: rules for the steps of Tds/Parser.
use mssql_extension.Prelude.{
  Bool, List, Option, Outcome, arith, drop-append, false, fault, if◌then◌else◌, length,
  length-append, none, ok, refl, some, throw, true, ℕ, ◌++◌, ◌<◌, ◌≡◌, ◌≢◌, ◌≤◌,
}
use mssql_extension.Tds.Bytes.{read_bytes, read_u16, read_u32, read_u8}
use mssql_extension.Tds.Bytes.Stable.{
  read_bytes-append, read_bytes_short, read_u16-append, read_u16_short, read_u32-append,
  read_u32_short, read_u8-append, read_u8_short,
}
use mssql_extension.Tds.Parser.{
  Parser, advance, and_then, chunk, need, pass, pure, raise, u16, u32, u8, ◌>>=◌,
}
use native.Mathlib.Decide.{dec_lt}

-- The same answer, with the bytes that came later behind the rest.
abbrev pub extend :
    {E A : Type 0} → List ℕ → Outcome E (Option (A × List ℕ)) → Outcome E (Option (A × List ℕ))
extend ys (ok (some (a, rest))) = ok (some (a, rest ++ ys))
extend ys (ok none) = ok none
extend ys (throw e) = throw e
extend ys fault = fault

pub data IsStableParser {E A : Type 0} (p : Parser E A) : Type 0 where
  stable :
      ((xs ys : List ℕ) → p xs ≢ ok none → p xs ≢ fault → p (xs ++ ys) ≡ extend ys (p xs))
      → IsStableParser p

pub run_stable :
    {E A : Type 0} {p : Parser E A}
    → IsStableParser p
    → (xs ys : List ℕ) → p xs ≢ ok none
    → p xs ≢ fault
    → p (xs ++ ys) ≡ extend ys (p xs)
run_stable (stable h) = h

module _ {E : Type 0} where
  pub pure-stable : {A : Type 0} (a : A) → IsStableParser (pure {E = E} a)
  pure-stable a = stable λ xs ys h k. refl

  pub raise-stable : {A : Type 0} (e : E) → IsStableParser (raise {A = A} e)
  raise-stable e = stable λ xs ys h k. refl

  pub bind-stable :
      {A B : Type 0} {p : Parser E A} {f : A → Parser E B}
      → IsStableParser p
      → ((a : A) → IsStableParser (f a))
      → IsStableParser (p >>= f)
  bind-stable {A} {B} {p} {f} first next =
      stable λ xs ys h k. go xs ys (p xs) (p (xs ++ ys)) (run_stable first xs ys) h k
    where
      go :
          (xs ys : List ℕ) (m m' : Outcome E (Option (A × List ℕ)))
          → (m ≢ ok none → m ≢ fault → m' ≡ extend ys m)
          → and_then f m ≢ ok none
          → and_then f m ≢ fault
          → and_then f m' ≡ extend ys (and_then f m)
      go xs ys (ok none) m' e h k = absurd (h refl)
      go xs ys (ok (some (a, r))) m' e h k =
          rw (e (λ p. cc) (λ p. cc)) (run_stable (next a) r ys h k)
      go xs ys (throw x) m' e h k = rw (e (λ p. cc) (λ p. cc)) refl
      go xs ys fault m' e h k = absurd (k refl)

  pub need-stable : (n : ℕ) → IsStableParser (need {E = E} n)
  unfolding need
  need-stable n = stable λ xs ys h k. elim (dec_lt (length xs) n) [
    | yes short ↦ absurd (h (ground arith))
    | no enough ↦ ground (arith, length-append xs ys)
  ]

  advance-append :
      {A : Type 0} (n : ℕ) (xs ys : List ℕ) (m : Outcome E A)
      → n ≤ length xs
      → advance n (xs ++ ys) m ≡ extend ys (advance n xs m)
  advance-append n xs ys (ok a) h = rw (drop-append n xs ys h)
  advance-append n xs ys (throw e) h = refl
  advance-append n xs ys fault h = refl

  -- A read that looks at `n` bytes and no further.
  advance-stable :
      {A : Type 0} (n : ℕ) (read : List ℕ → Outcome E A)
      → ((xs ys : List ℕ) → n ≤ length xs → read (xs ++ ys) ≡ read xs)
      → ((xs : List ℕ) → length xs < n → read xs ≡ fault)
      → IsStableParser (λ xs. advance n xs (read xs))
  advance-stable n read same short = stable λ xs ys h k. elim (dec_lt (length xs) n) [
    | yes l ↦ absurd (k (rw (short xs l) refl))
    | no enough ↦ rw (same xs ys (omega arith)) (advance-append n xs ys (read xs) (omega arith))
  ]

  pub u8-stable : IsStableParser (u8 {E = E})
  unfolding u8
  u8-stable = advance-stable 1 read_u8 read_u8-append read_u8_short

  pub u16-stable : IsStableParser (u16 {E = E})
  unfolding u16
  u16-stable = advance-stable 2 read_u16 read_u16-append read_u16_short

  pub u32-stable : IsStableParser (u32 {E = E})
  unfolding u32
  u32-stable = advance-stable 4 read_u32 read_u32-append read_u32_short

  pub chunk-stable : (n : ℕ) → IsStableParser (chunk {E = E} n)
  unfolding chunk
  chunk-stable n = advance-stable n (read_bytes n) (read_bytes-append n) (read_bytes_short n)

  pub pass-stable : (n : ℕ) → IsStableParser (pass {E = E} n)
  unfolding pass
  pass-stable n = stable λ xs ys h k. elim (dec_lt (length xs) n) [
    | yes short ↦ absurd (k (ground arith))
    | no enough ↦ ground (arith, length-append xs ys, drop-append n xs ys)
  ]

  pub if-stable :
      {A : Type 0} (b : Bool) {p q : Parser E A}
      → IsStableParser p
      → IsStableParser q
      → IsStableParser (if b then p else q)
  if-stable true h l = h
  if-stable false h l = l

pub ruleset stable_steps = (
  pure-stable, raise-stable, bind-stable, need-stable, u8-stable, u16-stable, u32-stable,
  chunk-stable, pass-stable, if-stable,
)
