-- ===== src/Tds/Parser.antt =====
-- Parsers over a buffer of untrusted bytes, as the functions of src/tds/tds_column_metadata.cpp and
-- src/tds/tds_token_parser.cpp that take `data`, `length` and `offset` by reference. The list is the part
-- of the buffer from `offset` on, and `ok none` is `return false`: more data is needed.
pub mod Safe
pub mod Stable
use mssql_extension.Prelude.{
  List, Option, Outcome, drop, fault, if◌then◌else◌, length, ltb, none, ok, some, throw, ℕ,
}
use mssql_extension.Tds.Bytes.{read_bytes, read_u16, read_u32, read_u8}

abbrev pub Parser : Type 0 → Type 0 → Type 0
Parser E A = List ℕ → Outcome E (Option (A × List ℕ))

abbrev pub and_then :
    {E A B : Type 0}
    → (A → Parser E B)
    → Outcome E (Option (A × List ℕ))
    → Outcome E (Option (B × List ℕ))
and_then f (ok (some (a, rest))) = f a rest
and_then f (ok none) = ok none
and_then f (throw e) = throw e
and_then f fault = fault

infixl 5 ◌>>=◌ ◌>>◌
abbrev pub ◌>>=◌ : {E A B : Type 0} → Parser E A → (A → Parser E B) → Parser E B
◌>>=◌ p f rest = and_then f (p rest)

abbrev pub ◌>>◌ : {E B : Type 0} → Parser E (Unit {0}) → Parser E B → Parser E B
p >> q = p >>= λ _. q

abbrev pub pure : {E A : Type 0} → A → Parser E A
pure a rest = ok (some (a, rest))

abbrev pub raise : {E A : Type 0} → E → Parser E A
raise e rest = throw e

-- What a read takes, `n` bytes, is passed over.
abbrev pub advance : {E A : Type 0} → ℕ → List ℕ → Outcome E A → Outcome E (Option (A × List ℕ))
advance n rest (ok a) = ok (some (a, drop n rest))
advance n rest (throw e) = throw e
advance n rest fault = fault

-- `if (offset + n > length) return false;`
unfoldable pub need : {E : Type 0} → ℕ → Parser E (Unit {0})
need n rest = if ltb (length rest) n then ok none else ok (some (tt, rest))

unfoldable pub u8 : {E : Type 0} → Parser E ℕ
u8 rest = advance 1 rest (read_u8 rest)

unfoldable pub u16 : {E : Type 0} → Parser E ℕ
u16 rest = advance 2 rest (read_u16 rest)

unfoldable pub u32 : {E : Type 0} → Parser E ℕ
u32 rest = advance 4 rest (read_u32 rest)

-- The `n` bytes themselves.
unfoldable pub chunk : {E : Type 0} → ℕ → Parser E (List ℕ)
chunk n rest = advance n rest (read_bytes n rest)

-- `offset += n` without a read; the bytes have to be there, or the next pointer is outside the buffer.
unfoldable pub pass : {E : Type 0} → ℕ → Parser E (Unit {0})
pass n rest = if ltb (length rest) n then fault else ok (some (tt, drop n rest))
