-- ===== src/Tds/Parser/Safe.antt =====
-- Parsers that read nothing past the buffer: rules for the steps of Tds/Parser.
use mssql_extension.Prelude.{
  Bool, Ensures, List, Option, Outcome, arith, drop, false, fault, if◌then◌else◌, length,
  length-drop, none, ok, some, suc, throw, true, ℕ, ◌+◌, ◌≡◌, ◌≤◌,
}
use mssql_extension.Tds.Bytes.Stable.{
  read_bytes_total, read_u16_total, read_u32_total, read_u8_total,
}
use mssql_extension.Tds.Parser.{
  Parser, advance, and_then, chunk, need, pass, pure, raise, u16, u32, u8, ◌>>=◌, ◌>>◌,
}
use native.Mathlib.Decide.{dec_lt}

abbrev pub NoLonger : {A : Type 0} → List ℕ → Option (A × List ℕ) → Type 0
NoLonger xs none = Unit {0}
NoLonger xs (some (a, rest)) = length rest ≤ length xs

-- With `k` bytes left the parser does not fault, and what it leaves is no longer than what it got.
pub data IsSafe {E A : Type 0} (k : ℕ) (p : Parser E A) : Type 0 where
  safe : ((xs : List ℕ) → k ≤ length xs → Ensures (NoLonger xs) (p xs)) → IsSafe k p

pub run_safe :
    {E A : Type 0} {k : ℕ} {p : Parser E A}
    → IsSafe k p
    → (xs : List ℕ) → k ≤ length xs
    → Ensures (NoLonger xs) (p xs)
run_safe (safe h) = h

module _ {E : Type 0} where
  pub pure-IsSafe : {A : Type 0} {k : ℕ} (a : A) → IsSafe k (pure {E = E} a)
  pure-IsSafe a = safe λ xs h. omega arith

  pub raise-IsSafe : {A : Type 0} {k : ℕ} (e : E) → IsSafe k (raise {A = A} e)
  raise-IsSafe e = safe λ xs h. tt

  longer :
      {A : Type 0} (xs ys : List ℕ) (m : Outcome E (Option (A × List ℕ)))
      → length ys ≤ length xs
      → Ensures (NoLonger ys) m
      → Ensures (NoLonger xs) m
  longer xs ys (ok none) l h = tt
  longer xs ys (ok (some (a, r))) l h = omega arith
  longer xs ys (throw e) l h = tt
  longer xs ys fault l h = h

  -- A read of `n` bytes that succeeds, and then a parser that may rely on the `k` bytes behind them.
  advance-safe :
      {A B : Type 0} (n k : ℕ) (f : A → Parser E B) (xs : List ℕ) (r : Outcome E A)
      → n + k ≤ length xs
      → (a : A) × (r ≡ ok a)
      → ((a : A) → IsSafe k (f a))
      → Ensures (NoLonger xs) (and_then f (advance n xs r))
  advance-safe n k f xs r l (a, e) next = rw e (
      longer xs (drop n xs) (f a (drop n xs)) (omega (arith, length-drop n xs))
        (run_safe (next a) (drop n xs) (omega (arith, length-drop n xs))))

  pub need-IsSafe :
      {B : Type 0} {k : ℕ} (n : ℕ) {q : Parser E B} → IsSafe n q → IsSafe k (need n >> q)
  unfolding need
  need-IsSafe n {q = q} (safe h) = safe λ xs l. elim (dec_lt (length xs) n) [
    | yes short ↦ ground arith
    | no enough ↦ ground (arith, h xs)
  ]

  pub u8-IsSafe :
      {B : Type 0} {k : ℕ} {f : ℕ → Parser E B}
      → ((a : ℕ) → IsSafe k (f a))
      → IsSafe (suc k) (u8 >>= f)
  unfolding u8
  u8-IsSafe {k = k} {f = f} next =
      safe λ xs l. advance-safe 1 k f xs _ (omega arith) (read_u8_total xs (omega arith)) next

  pub u16-IsSafe :
      {B : Type 0} {k : ℕ} {f : ℕ → Parser E B}
      → ((a : ℕ) → IsSafe k (f a))
      → IsSafe (suc (suc k)) (u16 >>= f)
  unfolding u16
  u16-IsSafe {k = k} {f = f} next =
      safe λ xs l. advance-safe 2 k f xs _ (omega arith) (read_u16_total xs (omega arith)) next

  pub u32-IsSafe :
      {B : Type 0} {k : ℕ} {f : ℕ → Parser E B}
      → ((a : ℕ) → IsSafe k (f a))
      → IsSafe (suc (suc (suc (suc k)))) (u32 >>= f)
  unfolding u32
  u32-IsSafe {k = k} {f = f} next =
      safe λ xs l. advance-safe 4 k f xs _ (omega arith) (read_u32_total xs (omega arith)) next

  pub chunk-IsSafe :
      {B : Type 0} {k : ℕ} (n : ℕ) {f : List ℕ → Parser E B}
      → ((v : List ℕ) → IsSafe k (f v))
      → IsSafe (n + k) (chunk n >>= f)
  unfolding chunk
  chunk-IsSafe {k = k} n {f = f} next =
      safe λ xs l. advance-safe n k f xs _ l (_, read_bytes_total n xs (omega arith)) next

  pub pass-IsSafe :
      {B : Type 0} {k : ℕ} (n : ℕ) {q : Parser E B} → IsSafe k q → IsSafe (n + k) (pass n >> q)
  unfolding pass
  pass-IsSafe {k = k} n {q = q} next = safe λ xs l. elim (dec_lt (length xs) n) [
    | yes short ↦ absurd (omega arith)
    | no enough ↦
        ground (
          arith,
          longer xs (drop n xs) (q (drop n xs)),
          run_safe next (drop n xs),
          length-drop n xs,
        )
  ]

  -- A call of a parser that needs nothing, whatever is left.
  pub call-IsSafe :
      {A B : Type 0} {k : ℕ} {p : Parser E A} {f : A → Parser E B}
      → IsSafe 0 p
      → ((a : A) → IsSafe 0 (f a))
      → IsSafe k (p >>= f)
  call-IsSafe {A} {B} {p = p} {f = f} first next =
      safe λ xs l. go xs (p xs) (run_safe first xs (omega arith))
    where
      go :
          (xs : List ℕ) (m : Outcome E (Option (A × List ℕ)))
          → Ensures (NoLonger xs) m
          → Ensures (NoLonger xs) (and_then f m)
      go xs (ok none) h = tt
      go xs (ok (some (a, r))) h = longer xs r (f a r) h (run_safe (next a) r (omega arith))
      go xs (throw e) h = tt
      go xs fault h = h

  pub if-IsSafe :
      {A : Type 0} {k : ℕ} (b : Bool) {p q : Parser E A}
      → IsSafe k p
      → IsSafe k q
      → IsSafe k (if b then p else q)
  if-IsSafe true h l = h
  if-IsSafe false h l = l

  -- `need n` and then a step over those very bytes.
  pub chunk-IsSafe_all :
      {B : Type 0} (n : ℕ) {f : List ℕ → Parser E B}
      → ((v : List ℕ) → IsSafe 0 (f v))
      → IsSafe n (chunk n >>= f)
  chunk-IsSafe_all n {f = f} next =
      safe λ xs l. run_safe (chunk-IsSafe n {f = f} next) xs (omega arith)

  pub pass-IsSafe_all : {B : Type 0} (n : ℕ) {q : Parser E B} → IsSafe 0 q → IsSafe n (pass n >> q)
  pass-IsSafe_all n {q = q} next =
      safe λ xs l. run_safe (pass-IsSafe n {q = q} next) xs (omega arith)
