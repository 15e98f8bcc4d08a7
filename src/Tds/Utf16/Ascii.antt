-- ===== src/Tds/Utf16/Ascii.antt =====
-- The path for ASCII against the general one.
use mssql_extension.Prelude.{
  Bool, Bool-cases, List, [], ap, append-nil, append_assoc, arith, false, if◌then◌else◌, inl, inr,
  leb, length, refl, suc, sym, true, ℕ, ◌%◌, ◌&&◌, ◌++◌, ◌/◌, ◌<◌, ◌==◌, ◌∙◌, ◌∷◌, ◌≡◌, ◌≤◌,
}
use mssql_extension.Tds.Utf16.{
  NextCode, all_ascii, ascii_to_utf16le, code_bytes, general_loop, is_ascii, is_ascii_string,
  legacy_utf16le_encode, next_code, unit_bytes, utf8_to_utf16le_general,
}

if-and :
    (a b c : Bool) → (if a && b then c else false) ≡ (if a then (if b then c else false) else false)
if-and true b c = refl
if-and false b c = refl

pub is_ascii_string-all_ascii : (input : List ℕ) → is_ascii_string input ≡ all_ascii input
unfolding is_ascii_string all_ascii
is_ascii_string-all_ascii [] = refl
is_ascii_string-all_ascii (a ∷ []) = refl
is_ascii_string-all_ascii (a ∷ b ∷ []) = refl
is_ascii_string-all_ascii (a ∷ b ∷ c ∷ []) = refl
is_ascii_string-all_ascii (a ∷ b ∷ c ∷ d ∷ []) = refl
is_ascii_string-all_ascii (a ∷ b ∷ c ∷ d ∷ e ∷ []) = refl
is_ascii_string-all_ascii (a ∷ b ∷ c ∷ d ∷ e ∷ f ∷ []) = refl
is_ascii_string-all_ascii (a ∷ b ∷ c ∷ d ∷ e ∷ f ∷ g ∷ []) = refl
is_ascii_string-all_ascii (a ∷ b ∷ c ∷ d ∷ e ∷ f ∷ g ∷ h ∷ rest) =
    rw (is_ascii_string-all_ascii rest) (simp (if-and))

-- every byte with a zero behind it
unfoldable pub widen : List ℕ → List ℕ
widen [] = []
widen (a ∷ rest) = a ∷ 0 ∷ widen rest

pub ascii_to_utf16le-widen : (input : List ℕ) → ascii_to_utf16le input ≡ widen input
unfolding ascii_to_utf16le widen
ascii_to_utf16le-widen [] = refl
ascii_to_utf16le-widen (a ∷ []) = refl
ascii_to_utf16le-widen (a ∷ b ∷ []) = refl
ascii_to_utf16le-widen (a ∷ b ∷ c ∷ []) = refl
ascii_to_utf16le-widen (a ∷ b ∷ c ∷ d ∷ rest) =
    ap (λ t. a ∷ 0 ∷ b ∷ 0 ∷ c ∷ 0 ∷ d ∷ 0 ∷ t) (ascii_to_utf16le-widen rest)

zero-equal : (a : ℕ) → (a == 0) ≡ true → a ≡ 0
zero-equal a h = ground arith

pub leb-true : (a b : ℕ) → a ≤ b → leb a b ≡ true
leb-true a b h = ground arith

low_byte : (byte : ℕ) → byte / 128 ≡ 0 → byte % 256 ≡ byte
low_byte byte h = omega arith

high_byte : (byte : ℕ) → byte / 128 ≡ 0 → byte / 256 % 256 ≡ 0
high_byte byte h = omega arith

code_bytes-ascii : (byte : ℕ) → (byte / 128 == 0) ≡ true → code_bytes byte ≡ byte ∷ 0 ∷ []
unfolding code_bytes unit_bytes
code_bytes-ascii byte h =
    let small = leb-true byte 65535 (omega (arith, zero-equal (byte / 128) h)) in
    rw (small)
      (cc (low_byte byte (zero-equal (byte / 128) h), high_byte byte (zero-equal (byte / 128) h)))

if-true : (b c : Bool) → (if b then c else false) ≡ true → (b ≡ true) × (c ≡ true)
if-true true true h = (refl, refl)
if-true true false h = ground arith
if-true false c h = ground arith

pub general_loop-finds :
    (n : ℕ) (input result rest : List ℕ) (codepoint : ℕ)
    → next_code input ≡ NextCode.finds codepoint rest
    → general_loop (suc n) input result ≡ general_loop n rest (result ++ code_bytes codepoint)
unfolding general_loop
general_loop-finds n input result rest codepoint h =
    ap
      (λ (next : NextCode). elim next [
        | NextCode.ends ↦ result
        | NextCode.skips others ↦ general_loop n others result
        | NextCode.finds found others ↦ general_loop n others (result ++ code_bytes found)
      ])
      h

next_code-ascii :
    (byte : ℕ) (rest : List ℕ)
    → is_ascii byte ≡ true
    → next_code (byte ∷ rest) ≡ NextCode.finds byte rest
unfolding next_code is_ascii
next_code-ascii byte rest h = rw (h)

general_loop-widen :
    (input result : List ℕ)
    → all_ascii input ≡ true
    → general_loop (length input) input result ≡ result ++ widen input
unfolding all_ascii widen is_ascii general_loop
general_loop-widen [] result h = sym (append-nil result)
general_loop-widen (byte ∷ rest) result h =
    let (first, others) = if-true (is_ascii byte) (all_ascii rest) h in
    general_loop-finds (length rest) (byte ∷ rest) result rest byte
      (next_code-ascii byte rest first)
    ∙ general_loop-widen rest (result ++ code_bytes byte) others
    ∙ rw (code_bytes-ascii byte first) (append_assoc result (byte ∷ 0 ∷ []) (widen rest))

-- For every text the encoder writes what the general loop writes, the path for ASCII included: the
-- test in blocks of eight bytes accepts only bytes below 128, and for them a zero behind each is
-- their encoding.
pub legacy_utf16le_encode-general :
    (input : List ℕ) → legacy_utf16le_encode input ≡ utf8_to_utf16le_general input
unfolding legacy_utf16le_encode utf8_to_utf16le_general
legacy_utf16le_encode-general [] = refl
legacy_utf16le_encode-general (byte ∷ rest) =
    let input = byte ∷ rest in
    elim (Bool-cases (is_ascii_string input)) [
      | inl ascii ↦ rw (ascii) (
          ascii_to_utf16le-widen input
          ∙ sym (general_loop-widen input [] (sym (is_ascii_string-all_ascii input) ∙ ascii)))
      | inr other ↦ rw (other)
    ]

pub leb-false : (a b : ℕ) → b < a → leb a b ≡ false
leb-false a b h = ground arith
