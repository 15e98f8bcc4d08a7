-- ===== src/Tds/Utf16/Length.antt =====
-- The length computed against the encoding written.
use mssql_extension.Prelude.{
  Bool-cases, List, [], ap, arith, inl, inr, leb, length, length-append, refl, suc, sym, zero, ℕ,
  ◌++◌, ◌+◌, ◌∙◌, ◌≡◌,
}
use mssql_extension.Tds.Utf16.{
  NextCode, code_bytes, code_length, general_loop, legacy_utf16le_byte_length,
  legacy_utf16le_encode, length_loop, next_code, unit_bytes, utf8_to_utf16le_general,
}
use mssql_extension.Tds.Utf16.Ascii.{legacy_utf16le_encode-general}

unit-length : (u : ℕ) → length (unit_bytes u) ≡ 2
unfolding unit_bytes
unit-length u = refl

length-code_bytes : (codepoint : ℕ) → length (code_bytes codepoint) ≡ code_length codepoint
unfolding code_bytes code_length unit_bytes
length-code_bytes codepoint = elim (Bool-cases (leb codepoint 65535)) [
  | inl small ↦ rw (small)
  | inr large ↦ elim (Bool-cases (leb codepoint 1114111)) [
    | inl within ↦ rw (large, within)
    | inr beyond ↦ rw (large, beyond)
  ]
]

-- one round, when the rounds that follow agree
round :
    (n : ℕ)
    → ((input result : List ℕ)
        → length_loop n input (length result) ≡ length (general_loop n input result))
    → (next : NextCode) (result : List ℕ)
    → elim next [
      | NextCode.ends ↦ length result
      | NextCode.skips rest ↦ length_loop n rest (length result)
      | NextCode.finds codepoint rest ↦ length_loop n rest (length result + code_length codepoint)
    ]
      ≡ length (elim next [
        | NextCode.ends ↦ result
        | NextCode.skips rest ↦ general_loop n rest result
        | NextCode.finds codepoint rest ↦ general_loop n rest (result ++ code_bytes codepoint)
      ])
round n following NextCode.ends result = refl
round n following (NextCode.skips rest) result = following rest result
round n following (NextCode.finds codepoint rest) result =
    ap (length_loop n rest)
      (omega (arith, length-append result (code_bytes codepoint), length-code_bytes codepoint))
    ∙ following rest (result ++ code_bytes codepoint)

pub length_loop-general_loop :
    (n : ℕ) (input result : List ℕ)
    → length_loop n input (length result) ≡ length (general_loop n input result)
unfolding length_loop general_loop
length_loop-general_loop zero input result = refl
length_loop-general_loop (suc n) input result =
    round n (length_loop-general_loop n) (next_code input) result

-- For every text LegacyUtf16LEByteLength counts exactly the bytes that the encoder writes for it.
pub legacy_utf16le_byte_length-length :
    (input : List ℕ) → legacy_utf16le_byte_length input ≡ length (legacy_utf16le_encode input)
unfolding legacy_utf16le_byte_length utf8_to_utf16le_general
legacy_utf16le_byte_length-length input =
    length_loop-general_loop (length input) input []
    ∙ ap length (sym (legacy_utf16le_encode-general input))
