-- ===== src/Tds/Utf16/DirectLaws.antt =====
-- The direct encoder against the one that returns a vector.
use mssql_extension.Prelude.{
  Bool-cases, List, Outcome, [], ap, arith, drop, drop-drop, false, inl, inr, length, length-append,
  length-drop, ok, refl, suc, sym, true, zero, ℕ, ◌*◌, ◌++◌, ◌+◌, ◌-◌, ◌>>=◌, ◌∙◌, ◌∷◌, ◌≡◌, ◌≤◌,
}
use mssql_extension.Tds.Utf16.{
  NextCode, ascii_to_utf16le, code_bytes, general_loop, is_ascii_string, legacy_utf16le_byte_length,
  legacy_utf16le_encode, next_code, utf8_to_utf16le_general,
}
use mssql_extension.Tds.Utf16.Ascii.{ascii_to_utf16le-widen, legacy_utf16le_encode-general, widen}
use mssql_extension.Tds.Utf16.Direct.{
  direct_loop, legacy_utf16le_encode_direct, pokes, pokes-append,
}
use mssql_extension.Tds.Utf16.Length.{legacy_utf16le_byte_length-length}

-- what the buffer holds when the loop that has written `before` into it ends
abbrev Written : List ℕ → List ℕ → List ℕ → Outcome Unit (List ℕ × ℕ)
Written before after all = ok (all ++ drop (length all - length before) after, length all)

length-general_loop_round :
    (n : ℕ)
    → ((input result : List ℕ) → length result ≤ length (general_loop n input result))
    → (next : NextCode) (result : List ℕ)
    → length result
      ≤ length (elim next [
        | NextCode.ends ↦ result
        | NextCode.skips rest ↦ general_loop n rest result
        | NextCode.finds codepoint rest ↦ general_loop n rest (result ++ code_bytes codepoint)
      ])
length-general_loop_round n following NextCode.ends result = omega arith
length-general_loop_round n following (NextCode.skips rest) result = following rest result
length-general_loop_round n following (NextCode.finds codepoint rest) result = omega (
  arith,
  following rest (result ++ code_bytes codepoint),
  length-append result (code_bytes codepoint),
)

length-general_loop :
    (n : ℕ) (input result : List ℕ) → length result ≤ length (general_loop n input result)
unfolding general_loop
length-general_loop zero input result = omega arith
length-general_loop (suc n) input result =
    length-general_loop_round n (length-general_loop n) (next_code input) result

Written-more :
    (before bytes after all : List ℕ)
    → length before + length bytes ≤ length all
    → Written (before ++ bytes) (drop (length bytes) after) all ≡ Written before after all
Written-more before bytes after all more =
    ap (λ t. ok (all ++ t, length all))
      (drop-drop (length bytes) (length all - length (before ++ bytes)) after
        ∙ ap (λ k. drop k after) (omega (arith, length-append before bytes)))

direct-round :
    (n : ℕ)
    → ((input before after : List ℕ)
        → length (general_loop n input before) ≤ length before + length after
        → direct_loop n input (length before) (before ++ after)
          ≡ Written before after (general_loop n input before))
    → (next : NextCode) (before after : List ℕ)
    → length (elim next [
      | NextCode.ends ↦ before
      | NextCode.skips rest ↦ general_loop n rest before
      | NextCode.finds codepoint rest ↦ general_loop n rest (before ++ code_bytes codepoint)
    ])
      ≤ length before + length after
    → elim next [
      | NextCode.ends ↦ ok (before ++ after, length before)
      | NextCode.skips rest ↦ direct_loop n rest (length before) (before ++ after)
      | NextCode.finds codepoint rest ↦
          pokes (length before) (code_bytes codepoint) (before ++ after)
          >>= direct_loop n rest (length before + length (code_bytes codepoint))
    ]
      ≡ Written before after (elim next [
        | NextCode.ends ↦ before
        | NextCode.skips rest ↦ general_loop n rest before
        | NextCode.finds codepoint rest ↦ general_loop n rest (before ++ code_bytes codepoint)
      ])
direct-round n following NextCode.ends before after room =
    ap (λ k. ok (before ++ drop k after, length before)) {x = 0} (omega arith)
direct-round n following (NextCode.skips rest) before after room = following rest before after room
direct-round n following (NextCode.finds codepoint rest) before after room =
    let bytes = code_bytes codepoint in
    let longer = before ++ bytes in
    let left = drop (length bytes) after in
    let more = length-general_loop n rest longer in
    rw (pokes-append before bytes after (omega (arith, more, length-append before bytes))) (
      ap (λ k. direct_loop n rest k (longer ++ left)) {y = length longer}
        (sym (length-append before bytes))
      ∙ following rest longer left
          (omega (arith, more, length-append before bytes, length-drop (length bytes) after))
      ∙ Written-more before bytes after (general_loop n rest longer)
          (omega (arith, more, length-append before bytes)))

direct_loop-Written :
    (n : ℕ) (input before after : List ℕ)
    → length (general_loop n input before) ≤ length before + length after
    → direct_loop n input (length before) (before ++ after)
      ≡ Written before after (general_loop n input before)
unfolding direct_loop general_loop
direct_loop-Written zero input before after room =
    ap (λ k. ok (before ++ drop k after, length before)) {x = 0} (omega arith)
direct_loop-Written (suc n) input before after room =
    direct-round n (direct_loop-Written n) (next_code input) before after room

length-widen : (input : List ℕ) → length (widen input) ≡ length input * 2
unfolding widen
length-widen [] = refl
length-widen (a ∷ rest) = omega (arith, length-widen rest)

encode-ascii :
    (byte : ℕ) (rest : List ℕ)
    → is_ascii_string (byte ∷ rest) ≡ true
    → legacy_utf16le_encode (byte ∷ rest) ≡ ascii_to_utf16le (byte ∷ rest)
unfolding legacy_utf16le_encode
encode-ascii byte rest ascii = rw (ascii)

direct-ascii :
    (byte : ℕ) (rest output : List ℕ)
    → is_ascii_string (byte ∷ rest) ≡ true
    → length (ascii_to_utf16le (byte ∷ rest)) ≤ length output
    → (let written = ascii_to_utf16le (byte ∷ rest) in
        legacy_utf16le_encode_direct (byte ∷ rest) output
        ≡ ok (written ++ drop (length written) output, length (byte ∷ rest) * 2))
unfolding legacy_utf16le_encode_direct
direct-ascii byte rest output ascii room =
    rw (ascii, pokes-append [] (ascii_to_utf16le (byte ∷ rest)) output room)

direct-general :
    (byte : ℕ) (rest output : List ℕ)
    → is_ascii_string (byte ∷ rest) ≡ false
    → length (utf8_to_utf16le_general (byte ∷ rest)) ≤ length output
    → (let written = utf8_to_utf16le_general (byte ∷ rest) in
        legacy_utf16le_encode_direct (byte ∷ rest) output
        ≡ ok (written ++ drop (length written) output, length written))
unfolding legacy_utf16le_encode_direct utf8_to_utf16le_general
direct-general byte rest output other room =
    let input = byte ∷ rest in
    let written = general_loop (length input) input [] in
    rw (other) (
      direct_loop-Written (length input) input [] output (omega arith)
      ∙ ap (λ k. ok (written ++ drop k output, length written)) (omega arith))

direct-none :
    (output : List ℕ)
    → legacy_utf16le_encode_direct [] output
      ≡ ok (
        legacy_utf16le_encode [] ++ drop (length (legacy_utf16le_encode [])) output,
        legacy_utf16le_byte_length [],
      )
unfolding legacy_utf16le_encode_direct legacy_utf16le_encode legacy_utf16le_byte_length
direct-none output = refl

-- Into a buffer with room for as many bytes as LegacyUtf16LEByteLength says, the direct encoder writes
-- nothing outside the buffer and returns that number of bytes; the buffer then begins with what the
-- encoder writes for the text, and behind it nothing is changed.
pub legacy_utf16le_encode_direct-encode :
    (input output : List ℕ)
    → legacy_utf16le_byte_length input ≤ length output
    → (let encoded = legacy_utf16le_encode input in
        legacy_utf16le_encode_direct input output
        ≡ ok (encoded ++ drop (length encoded) output, legacy_utf16le_byte_length input))
legacy_utf16le_encode_direct-encode [] output room = direct-none output
legacy_utf16le_encode_direct-encode (byte ∷ rest) output room =
    let input = byte ∷ rest in
    let counted = legacy_utf16le_byte_length-length input in
    elim (Bool-cases (is_ascii_string input)) [
      | inl ascii ↦
          let same = encode-ascii byte rest ascii in
          let wide = ap length (ascii_to_utf16le-widen input) ∙ length-widen input in
          let long = ap length same in
          direct-ascii byte rest output ascii (omega (arith, long, counted))
          ∙ ap (λ t. ok (t ++ drop (length t) output, length input * 2)) (sym same)
          ∙ ap
              (λ k. ok (
                legacy_utf16le_encode input ++ drop (length (legacy_utf16le_encode input)) output,
                k,
              ))
              (omega (arith, long, counted, wide))
      | inr other ↦
          let same = legacy_utf16le_encode-general input in
          let long = ap length same in
          direct-general byte rest output other (omega (arith, long, counted))
          ∙ ap (λ t. ok (t ++ drop (length t) output, length t)) (sym same)
          ∙ ap
              (λ k. ok (
                legacy_utf16le_encode input ++ drop (length (legacy_utf16le_encode input)) output,
                k,
              ))
              (sym counted)
    ]
