-- ===== src/Tds/Utf16/Direct.antt =====
-- LegacyUtf16LEEncodeDirect: the encoding written into a buffer. A write outside it is a fault.
use mssql_extension.Prelude.{
  List, Outcome, [], ap, append-nil, append_assoc, arith, drop, fault, if◌then◌else◌, length,
  length-append, ok, refl, suc, sym, zero, ℕ, ◌*◌, ◌++◌, ◌+◌, ◌>>=◌, ◌∙◌, ◌∷◌, ◌≡◌, ◌≤◌,
}
use mssql_extension.Tds.Utf16.{NextCode, ascii_to_utf16le, code_bytes, is_ascii_string, next_code}

-- `output[position] = byte`
unfoldable pub poke : ℕ → ℕ → List ℕ → Outcome Unit (List ℕ)
poke position byte [] = fault
poke zero byte (b ∷ output) = ok (byte ∷ output)
poke (suc position) byte (b ∷ output) = do written ← poke position byte output; ok (b ∷ written)

-- `output[out_pos++] = byte`, byte after byte
unfoldable pub pokes : ℕ → List ℕ → List ℕ → Outcome Unit (List ℕ)
unfolding poke
pokes out_pos [] output = ok output
pokes out_pos (byte ∷ bytes) output = do
  written ← poke out_pos byte output
  pokes (out_pos + 1) bytes written

-- The loop, and how many bytes it has written, on as much fuel as there are bytes.
unfoldable pub direct_loop : ℕ → List ℕ → ℕ → List ℕ → Outcome Unit (List ℕ × ℕ)
unfolding pokes
direct_loop zero input out_pos output = ok (output, out_pos)
direct_loop (suc n) input out_pos output = elim (next_code input) [
  | NextCode.ends ↦ ok (output, out_pos)
  | NextCode.skips rest ↦ direct_loop n rest out_pos output
  | NextCode.finds codepoint rest ↦
      pokes out_pos (code_bytes codepoint) output
      >>= direct_loop n rest (out_pos + length (code_bytes codepoint))
]

unfoldable pub legacy_utf16le_encode_direct : List ℕ → List ℕ → Outcome Unit (List ℕ × ℕ)
unfolding pokes direct_loop
legacy_utf16le_encode_direct [] output = ok (output, 0)
legacy_utf16le_encode_direct (byte ∷ rest) output =
    let input = byte ∷ rest in
    let widened = (do
      written ← pokes 0 (ascii_to_utf16le input) output
      ok (written, length input * 2)) in
    let general = direct_loop (length input) input 0 output in
    if is_ascii_string input then widened else general

poke-append :
    (before after : List ℕ) (b byte : ℕ)
    → poke (length before) byte (before ++ b ∷ after) ≡ ok (before ++ byte ∷ after)
unfolding poke
poke-append [] after b byte = refl
poke-append (a ∷ before) after b byte = rw (poke-append before after b byte)

pub pokes-append :
    (before bytes after : List ℕ)
    → length bytes ≤ length after
    → pokes (length before) bytes (before ++ after)
      ≡ ok ((before ++ bytes) ++ drop (length bytes) after)
unfolding pokes
pokes-append before [] after room = ap (λ t. ok (t ++ after)) (sym (append-nil before))
pokes-append before (byte ∷ bytes) [] room = absurd (omega arith)
pokes-append before (byte ∷ bytes) (b ∷ after) room =
    let longer = before ++ byte ∷ [] in
    rw (poke-append before after b byte) (
      ap (λ k. pokes k bytes (before ++ byte ∷ after)) {y = length longer}
        (omega (arith, length-append before (byte ∷ [])))
      ∙ ap (pokes (length longer) bytes) (sym (append_assoc before (byte ∷ []) after))
      ∙ pokes-append longer bytes after (omega arith)
      ∙ ap (λ t. ok (t ++ drop (length bytes) after)) (append_assoc before (byte ∷ []) bytes))
