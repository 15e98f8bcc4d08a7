-- ===== src/Tds/Examples/Texts.antt =====
-- The UTF-16 encoder of src/tds/encoding/utf16.cpp at concrete texts.
-- "é€" and a code point of a surrogate pair
use mssql_extension.Prelude.{
  List, [], arith, drop, inl, inr, length, ok, refl, some, ℕ, ◌++◌, ◌∷◌, ◌≡◌,
}
use mssql_extension.Tds.Utf16.{
  legacy_utf16le_byte_length, legacy_utf16le_encode, utf8_to_utf16le_general,
}
use mssql_extension.Tds.Utf16.Ascii.{legacy_utf16le_encode-general}
use mssql_extension.Tds.Utf16.Direct.{legacy_utf16le_encode_direct}
use mssql_extension.Tds.Utf16.DirectLaws.{legacy_utf16le_encode_direct-encode}
use mssql_extension.Tds.Utf16.Forms.{read_codes, utf8_bytes, utf8_text}
use mssql_extension.Tds.Utf16.Length.{legacy_utf16le_byte_length-length}
use mssql_extension.Tds.Utf16.RoundTrip.{legacy_utf16le_encode-read_codes}

abbrev letters : List ℕ
letters = 233 ∷ 8364 ∷ 128512 ∷ []

letters-utf16 :
    legacy_utf16le_encode (utf8_text letters) ≡ 233 ∷ 0 ∷ 172 ∷ 32 ∷ 61 ∷ 216 ∷ 0 ∷ 222 ∷ []
unfolding legacy_utf16le_encode utf8_text utf8_bytes
letters-utf16 = refl

legacy_utf16le_encode-general_example :
    legacy_utf16le_encode (b'h' ∷ b'i' ∷ []) ≡ utf8_to_utf16le_general (b'h' ∷ b'i' ∷ [])
legacy_utf16le_encode-general_example = legacy_utf16le_encode-general (b'h' ∷ b'i' ∷ [])

legacy_utf16le_byte_length-length_example :
    legacy_utf16le_byte_length (195 ∷ 169 ∷ b'!' ∷ [])
    ≡ length (legacy_utf16le_encode (195 ∷ 169 ∷ b'!' ∷ []))
legacy_utf16le_byte_length-length_example =
    legacy_utf16le_byte_length-length (195 ∷ 169 ∷ b'!' ∷ [])

legacy_utf16le_encode-read_codes_example :
    read_codes 3 (legacy_utf16le_encode (utf8_text letters)) ≡ some letters
legacy_utf16le_encode-read_codes_example =
    legacy_utf16le_encode-read_codes letters
      (inl (omega arith), (inl (omega arith), (inr (omega arith, omega arith), tt)))

legacy_utf16le_encode_direct-encode_example :
    legacy_utf16le_encode_direct (195 ∷ 169 ∷ []) (1 ∷ 2 ∷ 3 ∷ [])
    ≡ ok (
      legacy_utf16le_encode (195 ∷ 169 ∷ [])
          ++ drop (length (legacy_utf16le_encode (195 ∷ 169 ∷ []))) (1 ∷ 2 ∷ 3 ∷ []),
      legacy_utf16le_byte_length (195 ∷ 169 ∷ []),
    )
unfolding legacy_utf16le_byte_length
legacy_utf16le_encode_direct-encode_example =
    legacy_utf16le_encode_direct-encode (195 ∷ 169 ∷ []) (1 ∷ 2 ∷ 3 ∷ []) (omega arith)
