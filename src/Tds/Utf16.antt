-- ===== src/Tds/Utf16.antt =====
-- src/tds/encoding/utf16.cpp: text to UTF-16, by the code that also takes text that is no valid UTF-8.
-- `byte & 0x80` and the like test a byte's top bits, which a quotient does; the shifted parts of a code
-- point share no bits, so `|` is `+`.
pub mod Ascii
pub mod Length
pub mod Forms
pub mod Decode
pub mod RoundTrip
pub mod Direct
pub mod DirectLaws
use mssql_extension.Prelude.{
  Bool, List, [], false, if◌then◌else◌, leb, length, suc, true, zero, ℕ, ◌%◌, ◌&&◌, ◌*◌, ◌++◌, ◌+◌,
  ◌-◌, ◌/◌, ◌==◌, ◌∷◌,
}

-- What a round of the loop finds at a position: nothing more, a byte to pass over, or a code point.
pub data NextCode : Type 0 where
  ends : NextCode
  skips : List ℕ → NextCode
  finds : ℕ → List ℕ → NextCode

two_byte : ℕ → List ℕ → NextCode
two_byte byte (b ∷ rest) = NextCode.finds (byte % 32 * 64 + b % 64) rest
two_byte byte _ = NextCode.ends

three_byte : ℕ → List ℕ → NextCode
three_byte byte (b ∷ c ∷ rest) = NextCode.finds (byte % 16 * 4096 + b % 64 * 64 + c % 64) rest
three_byte byte _ = NextCode.ends

four_byte : ℕ → List ℕ → NextCode
four_byte byte (b ∷ c ∷ d ∷ rest) =
    NextCode.finds (byte % 8 * 262144 + b % 64 * 4096 + c % 64 * 64 + d % 64) rest
four_byte byte _ = NextCode.ends

unfoldable pub next_code : List ℕ → NextCode
unfolding two_byte three_byte four_byte
next_code [] = NextCode.ends
next_code (byte ∷ rest) =
    if byte / 128 == 0
    then NextCode.finds byte rest
    else if byte / 32 == 6
    then two_byte byte rest
    else if byte / 16 == 14
    then three_byte byte rest
    else if byte / 8 == 30
    then four_byte byte rest
    else NextCode.skips rest

unfoldable pub high_surrogate : ℕ → ℕ
high_surrogate codepoint = 55296 + codepoint / 1024 % 1024

unfoldable pub low_surrogate : ℕ → ℕ
low_surrogate codepoint = 56320 + codepoint % 1024

-- a code unit's two bytes, the low one first
unfoldable pub unit_bytes : ℕ → List ℕ
unit_bytes u = u % 256 ∷ u / 256 % 256 ∷ []

-- what is pushed for a code point; above 0x10FFFF nothing is
unfoldable pub code_bytes : ℕ → List ℕ
unfolding high_surrogate low_surrogate unit_bytes
code_bytes codepoint =
    if leb codepoint 65535
    then unit_bytes codepoint
    else if leb codepoint 1114111
    then unit_bytes (high_surrogate (codepoint - 65536))
      ++ unit_bytes (low_surrogate (codepoint - 65536))
    else []

unfoldable pub code_length : ℕ → ℕ
code_length codepoint = if leb codepoint 65535 then 2 else if leb codepoint 1114111 then 4 else 0

-- The loops, on as much fuel as there are bytes.
unfoldable pub general_loop : ℕ → List ℕ → List ℕ → List ℕ
unfolding next_code code_bytes
general_loop zero input result = result
general_loop (suc n) input result = elim (next_code input) [
  | NextCode.ends ↦ result
  | NextCode.skips rest ↦ general_loop n rest result
  | NextCode.finds codepoint rest ↦ general_loop n rest (result ++ code_bytes codepoint)
]

unfoldable pub utf8_to_utf16le_general : List ℕ → List ℕ
unfolding general_loop
utf8_to_utf16le_general input = general_loop (length input) input []

unfoldable pub length_loop : ℕ → List ℕ → ℕ → ℕ
unfolding next_code code_length
length_loop zero input byte_count = byte_count
length_loop (suc n) input byte_count = elim (next_code input) [
  | NextCode.ends ↦ byte_count
  | NextCode.skips rest ↦ length_loop n rest byte_count
  | NextCode.finds codepoint rest ↦ length_loop n rest (byte_count + code_length codepoint)
]

unfoldable pub legacy_utf16le_byte_length : List ℕ → ℕ
unfolding length_loop
legacy_utf16le_byte_length input = length_loop (length input) input 0

unfoldable pub is_ascii : ℕ → Bool
is_ascii byte = byte / 128 == 0

-- byte by byte
unfoldable pub all_ascii : List ℕ → Bool
unfolding is_ascii
all_ascii [] = true
all_ascii (byte ∷ rest) = let others = all_ascii rest in if is_ascii byte then others else false

-- Eight bytes at a time, the mask testing the top bit of each, and then byte by byte.
unfoldable pub is_ascii_string : List ℕ → Bool
unfolding all_ascii is_ascii
is_ascii_string (a ∷ b ∷ c ∷ d ∷ e ∷ f ∷ g ∷ h ∷ rest) =
    let others = is_ascii_string rest in
    if (is_ascii a && is_ascii b && is_ascii c && is_ascii d)
      && (is_ascii e && is_ascii f && is_ascii g && is_ascii h)
    then others
    else false
is_ascii_string rest = all_ascii rest

-- four bytes at a time, and then the last ones
unfoldable pub ascii_to_utf16le : List ℕ → List ℕ
ascii_to_utf16le (a ∷ b ∷ c ∷ d ∷ rest) = a ∷ 0 ∷ b ∷ 0 ∷ c ∷ 0 ∷ d ∷ 0 ∷ ascii_to_utf16le rest
ascii_to_utf16le (a ∷ rest) = a ∷ 0 ∷ ascii_to_utf16le rest
ascii_to_utf16le [] = []

unfoldable pub legacy_utf16le_encode : List ℕ → List ℕ
unfolding is_ascii_string ascii_to_utf16le utf8_to_utf16le_general
legacy_utf16le_encode [] = []
legacy_utf16le_encode (byte ∷ rest) =
    if is_ascii_string (byte ∷ rest)
    then ascii_to_utf16le (byte ∷ rest)
    else utf8_to_utf16le_general (byte ∷ rest)
