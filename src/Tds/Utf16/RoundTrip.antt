-- ===== src/Tds/Utf16/RoundTrip.antt =====
-- Text in UTF-8, encoded, is read back from UTF-16 as the same code points.
use mssql_extension.Prelude.{
  All, List, [], ap, append-nil, append_assoc, arith, inl, inr, length, length-append, option_then,
  refl, some, suc, sym, zero, ℕ, ◌%◌, ◌*◌, ◌++◌, ◌+◌, ◌-◌, ◌/◌, ◌∙◌, ◌∷◌, ◌≡◌, ◌≢◌, ◌≤◌,
}
use mssql_extension.Tds.Utf16.{
  code_bytes, general_loop, high_surrogate, legacy_utf16le_encode, low_surrogate, unit_bytes,
  utf8_to_utf16le_general,
}
use mssql_extension.Tds.Utf16.Ascii.{
  general_loop-finds, leb-false, leb-true, legacy_utf16le_encode-general,
}
use mssql_extension.Tds.Utf16.Decode.{
  equal_false, equal_true, length-utf8_bytes, next_code-utf8_bytes,
}
use mssql_extension.Tds.Utf16.Forms.{IsScalar, read_code, read_codes, utf8_bytes, utf8_text}
use native.Mathlib.Decide.{dec_lt}

code_text : List ℕ → List ℕ
code_text [] = []
code_text (c ∷ cs) = code_bytes c ++ code_text cs

code_bytes-unit : (c : ℕ) → c ≤ 65535 → code_bytes c ≡ unit_bytes c
unfolding code_bytes
code_bytes-unit c small = rw (leb-true c 65535 small)

code_bytes-pair :
    (c : ℕ)
    → 65536 ≤ c
    → c ≤ 1114111
    → code_bytes c
      ≡ unit_bytes (55296 + (c - 65536) / 1024 % 1024) ++ unit_bytes (56320 + (c - 65536) % 1024)
unfolding code_bytes high_surrogate low_surrogate
code_bytes-pair c large small = rw (leb-false c 65535 (omega arith), leb-true c 1114111 small)

unit_value : ℕ → ℕ
unit_value u = u % 256 + u / 256 % 256 * 256

unit_value_self : (u : ℕ) → u ≤ 65535 → unit_value u ≡ u
unfolding unit_value
unit_value_self u small = omega arith

read_code-single :
    (u : ℕ) (rest : List ℕ)
    → u ≤ 65535
    → u / 1024 ≢ 54
    → u / 1024 ≢ 55
    → read_code (unit_bytes u ++ rest) ≡ some (u, rest)
unfolding read_code unit_bytes unit_value
read_code-single u rest small not_high not_low =
    rw (
      unit_value_self u small,
      equal_false (u / 1024) 54 not_high,
      equal_false (u / 1024) 55 not_low,
    )

read_code-pair :
    (u v : ℕ) (rest : List ℕ)
    → u / 1024 ≡ 54
    → v / 1024 ≡ 55
    → read_code (unit_bytes u ++ unit_bytes v ++ rest)
      ≡ some (65536 + (u - 55296) * 1024 + (v - 56320), rest)
unfolding read_code unit_bytes unit_value
read_code-pair u v rest high low = rw (
  unit_value_self u (omega arith),
  equal_true (u / 1024) 54 high,
  unit_value_self v (omega arith),
  equal_true (v / 1024) 55 low,
)

read_code-code_bytes :
    (c : ℕ) (rest : List ℕ) → IsScalar c → read_code (code_bytes c ++ rest) ≡ some (c, rest)
read_code-code_bytes c rest (inl low) =
    rw (code_bytes-unit c (omega arith))
      (read_code-single c rest (omega arith) (omega arith) (omega arith))
read_code-code_bytes c rest (inr (high, small)) = elim (dec_lt c 65536) [
  | yes unit ↦
      rw (code_bytes-unit c (omega arith))
        (read_code-single c rest (omega arith) (omega arith) (omega arith))
  | no pair ↦
      let u = 55296 + (c - 65536) / 1024 % 1024 in
      let v = 56320 + (c - 65536) % 1024 in
      rw (code_bytes-pair c (omega arith) small) (
        read_code-pair u v rest (omega arith) (omega arith)
        ∙ ap (λ k. some (k, rest)) (omega arith))
]

IsScalar-small : (c : ℕ) → IsScalar c → c ≤ 1114111
IsScalar-small c (inl low) = omega arith
IsScalar-small c (inr (high, small)) = small

general_loop-code_text :
    (n : ℕ) (cs result : List ℕ)
    → All IsScalar cs
    → length (utf8_text cs) ≤ n
    → general_loop n (utf8_text cs) result ≡ result ++ code_text cs
unfolding utf8_text code_text general_loop
general_loop-code_text zero [] result scalars enough = sym (append-nil result)
general_loop-code_text (suc n) [] result scalars enough = sym (append-nil result)
general_loop-code_text zero (c ∷ cs) result (scalar, scalars) enough =
    absurd (omega (arith, length-append (utf8_bytes c) (utf8_text cs), length-utf8_bytes c))
general_loop-code_text (suc n) (c ∷ cs) result (scalar, scalars) enough =
    general_loop-finds n (utf8_bytes c ++ utf8_text cs) result (utf8_text cs) c
      (next_code-utf8_bytes c (utf8_text cs) (IsScalar-small c scalar))
    ∙ general_loop-code_text n cs (result ++ code_bytes c) scalars
        (omega (arith, length-append (utf8_bytes c) (utf8_text cs), length-utf8_bytes c))
    ∙ append_assoc result (code_bytes c) (code_text cs)

read_codes-cons :
    (n c : ℕ) (bytes rest : List ℕ)
    → read_code bytes ≡ some (c, rest)
    → read_codes (suc n) bytes ≡ option_then (read_codes n rest) (λ cs. some (c ∷ cs))
unfolding read_codes read_code
read_codes-cons n c [] rest h = absurd (ground arith)
read_codes-cons n c (a ∷ text) rest h = rw (h)

read_codes-code_text :
    (cs : List ℕ) → All IsScalar cs → read_codes (length cs) (code_text cs) ≡ some cs
unfolding code_text read_codes
read_codes-code_text [] scalars = refl
read_codes-code_text (c ∷ cs) (scalar, scalars) =
    read_codes-cons (length cs) c (code_bytes c ++ code_text cs) (code_text cs)
      (read_code-code_bytes c (code_text cs) scalar)
    ∙ rw (read_codes-code_text cs scalars)

-- A text of code points that are no surrogates, in UTF-8, is encoded in UTF-16 as a text of which
-- the reader of UTF-16 makes the same code points, those above 0xFFFF as surrogate pairs.
pub legacy_utf16le_encode-read_codes :
    (cs : List ℕ)
    → All IsScalar cs
    → read_codes (length cs) (legacy_utf16le_encode (utf8_text cs)) ≡ some cs
unfolding utf8_to_utf16le_general
legacy_utf16le_encode-read_codes cs scalars =
    ap (read_codes (length cs)) (
      legacy_utf16le_encode-general (utf8_text cs)
      ∙ general_loop-code_text (length (utf8_text cs)) cs [] scalars (omega arith))
    ∙ read_codes-code_text cs scalars
