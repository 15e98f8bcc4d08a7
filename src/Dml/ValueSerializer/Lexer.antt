-- ===== src/Dml/ValueSerializer/Lexer.antt =====
-- How Transact-SQL reads delimited text: a doubled closing delimiter stands for itself, a single one
-- ends the text. The Boolean says that the byte before was a closing delimiter not yet accounted for.
use mssql_extension.Prelude.{
  Bool, Option, [], false, if◌then◌else◌, none, some, true, ℕ, ◌&&◌, ◌==◌, ◌∷◌, ◌≡◌,
}
use mssql_extension.Dml.Text.{Text}

abbrev add_byte : ℕ → Option (Text × Text) → Option (Text × Text)
add_byte c none = none
add_byte c (some (text, rest)) = some (c ∷ text, rest)

unfoldable pub read_delimited : ℕ → Bool → Text → Option (Text × Text)
read_delimited close true [] = some ([], [])
read_delimited close false [] = none
read_delimited close true (c ∷ rest) =
    let more = add_byte close (read_delimited close false rest) in
    if c == close then more else some ([], c ∷ rest)
read_delimited close false (c ∷ rest) =
    let more = add_byte c (read_delimited close false rest) in
    let closed = read_delimited close true rest in if c == close then closed else more

-- `[name]` at the front of a text
unfoldable pub read_identifier : Text → Option (Text × Text)
read_identifier [] = none
read_identifier (c ∷ rest) =
    let named = read_delimited b']' false rest in if c == b'[' then named else none

-- `N'value'` at the front of a text
unfoldable pub read_string : Text → Option (Text × Text)
read_string (c ∷ d ∷ rest) =
    let valued = read_delimited b'\'' false rest in
    if (c == b'N') && (d == b'\'') then valued else none
read_string _ = none

-- The text that follows does not begin with the delimiter.
abbrev pub Apart : ℕ → Text → Type 0
Apart close [] = Unit
Apart close (c ∷ rest) = (c == close) ≡ false
