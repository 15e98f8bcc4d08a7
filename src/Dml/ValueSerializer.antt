-- ===== src/Dml/ValueSerializer.antt =====
-- src/dml/insert/mssql_value_serializer.cpp: quoting of identifiers and strings, and decimals.
pub mod Lexer
pub mod RoundTrip
pub mod Decimals
use mssql_extension.Prelude.{
  Bool, [], drop, false, if◌then◌else◌, leb, length, suc, take, zero, ℕ, ◌++◌, ◌-◌, ◌==◌, ◌∷◌,
}
use mssql_extension.Dml.Text.{Text}

-- the loop of `EscapeIdentifier`, from the second byte on to the closing bracket
unfoldable pub escape_bracket : Text → Text
escape_bracket [] = b']' ∷ []
escape_bracket (c ∷ name) =
    let rest = escape_bracket name in if c == b']' then b']' ∷ c ∷ rest else c ∷ rest

unfoldable pub escape_identifier : Text → Text
unfolding escape_bracket
escape_identifier name = b'[' ∷ escape_bracket name

unfoldable pub escape_string : Text → Text
escape_string [] = []
escape_string (c ∷ value) =
    let rest = escape_string value in if c == b'\'' then b'\'' ∷ c ∷ rest else c ∷ rest

-- the sign that `Hugeint::ToString` puts in front of a negative value
unfoldable pub is_negative : Text → Bool
is_negative [] = false
is_negative (c ∷ unscaled) = c == b'-'

-- `while (digits.size() <= scale) { digits = "0" + digits; }`, for `n` more rounds than it makes
unfoldable pub pad_digits : ℕ → ℕ → Text → Text
pad_digits zero scale digits = digits
pad_digits (suc n) scale digits =
    let rest = pad_digits n scale (b'0' ∷ digits) in
    if leb (length digits) scale then rest else digits

unfoldable pub place_point : Text → ℕ → Text
place_point digits scale =
    let int_len = length digits - scale in
    if scale == 0 then digits else take int_len digits ++ b'.' ∷ drop int_len digits

-- `unscaled` is what `Hugeint::ToString` returns for the value; the width is not read.
unfoldable pub serialize_decimal : Text → ℕ → Text
unfolding is_negative pad_digits place_point
serialize_decimal unscaled scale =
    let negative = is_negative unscaled in
    let digits = if negative then drop 1 unscaled else unscaled in
    let padded = pad_digits (suc scale) scale digits in
    if negative then b'-' ∷ place_point padded scale else place_point padded scale
