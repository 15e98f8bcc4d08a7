-- ===== src/Dml/ValueSerializer/RoundTrip.antt =====
-- The server reads escaped identifiers and strings back as the text that was escaped.
use mssql_extension.Prelude.{
  Bool-cases, [], arith, false, inl, inr, refl, some, true, ℕ, ◌++◌, ◌==◌, ◌∷◌, ◌≡◌,
}
use mssql_extension.Dml.Text.{Text, codes}
use mssql_extension.Dml.ValueSerializer.{escape_bracket, escape_identifier, escape_string}
use mssql_extension.Dml.ValueSerializer.Lexer.{Apart, read_delimited, read_identifier, read_string}

pub equal : (a b : ℕ) → (a == b) ≡ true → a ≡ b
equal a b h = ground arith

module _ (close : ℕ) where
  closed : (rest : Text) → Apart close rest → read_delimited close true rest ≡ some ([], rest)
  unfolding read_delimited
  closed [] h = refl
  closed (c ∷ rest) h = rw (h)

escape_bracket-read :
    (name rest : Text)
    → Apart b']' rest
    → read_delimited b']' false (escape_bracket name ++ rest) ≡ some (name, rest)
unfolding read_delimited escape_bracket
escape_bracket-read [] rest h = closed b']' rest h
escape_bracket-read (c ∷ name) rest h = elim (Bool-cases (c == b']')) [
  | inl same ↦ rw (same, escape_bracket-read name rest h, equal c b']' same)
  | inr other ↦ rw (other, escape_bracket-read name rest h, other)
]

-- The server reads the text that EscapeIdentifier writes back as the one name it was given, whatever
-- bytes the name holds, and goes on with what follows, if that does not begin with a bracket.
pub escape_identifier-read :
    (name rest : Text)
    → Apart b']' rest
    → read_identifier (escape_identifier name ++ rest) ≡ some (name, rest)
unfolding read_identifier escape_identifier
escape_identifier-read name rest h = escape_bracket-read name rest h

escape_string-read_delimited :
    (value rest : Text)
    → Apart b'\'' rest
    → read_delimited b'\'' false (escape_string value ++ b'\'' ∷ rest) ≡ some (value, rest)
unfolding read_delimited escape_string
escape_string-read_delimited [] rest h = closed b'\'' rest h
escape_string-read_delimited (c ∷ value) rest h = elim (Bool-cases (c == b'\'')) [
  | inl same ↦ rw (same, escape_string-read_delimited value rest h, equal c b'\'' same)
  | inr other ↦ rw (other, escape_string-read_delimited value rest h, other)
]

-- The server reads the text that EscapeString writes, between N' and a quote, back as the one value
-- it was given, whatever bytes the value holds, if the text after it does not begin with a quote.
pub escape_string-read :
    (value rest : Text)
    → Apart b'\'' rest
    → read_string (codes "N'" ++ escape_string value ++ b'\'' ∷ rest) ≡ some (value, rest)
unfolding read_string
escape_string-read value rest h = escape_string-read_delimited value rest h
