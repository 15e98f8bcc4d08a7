-- ===== src/Tds/Utf16/Decode.antt =====
-- A round of the loop finds the code point that UTF-8 spells.
use mssql_extension.Prelude.{
  List, ap, arith, false, length, ltb, true, ℕ, ◌%◌, ◌++◌, ◌+◌, ◌/◌, ◌<◌, ◌==◌, ◌∷◌, ◌≡◌, ◌≢◌, ◌≤◌,
}
use mssql_extension.Tds.Utf16.{NextCode, next_code}
use mssql_extension.Tds.Utf16.Forms.{utf8_bytes}
use native.Mathlib.Decide.{dec_lt}

pub ltb-true : (a b : ℕ) → a < b → ltb a b ≡ true
ltb-true a b h = ground arith

pub ltb-false : (a b : ℕ) → b ≤ a → ltb a b ≡ false
ltb-false a b h = ground arith

pub equal_true : (a b : ℕ) → a ≡ b → (a == b) ≡ true
equal_true a b h = ground arith

pub equal_false : (a b : ℕ) → a ≢ b → (a == b) ≡ false
equal_false a b h = ground arith

next_code-one : (c : ℕ) (rest : List ℕ) → c < 128 → next_code (c ∷ rest) ≡ NextCode.finds c rest
unfolding next_code
next_code-one c rest low = rw (equal_true (c / 128) 0 (omega arith))

next_code-two :
    (c : ℕ) (rest : List ℕ)
    → 128 ≤ c
    → c < 2048
    → next_code ((192 + c / 64) ∷ (128 + c % 64) ∷ rest) ≡ NextCode.finds c rest
unfolding next_code
next_code-two c rest low high =
    rw
      (
        equal_false ((192 + c / 64) / 128) 0 (omega arith),
        equal_true ((192 + c / 64) / 32) 6 (omega arith),
      )
      (ap (λ k. NextCode.finds k rest) (omega arith))

next_code-three :
    (c : ℕ) (rest : List ℕ)
    → 2048 ≤ c
    → c < 65536
    → next_code ((224 + c / 4096) ∷ (128 + c / 64 % 64) ∷ (128 + c % 64) ∷ rest)
      ≡ NextCode.finds c rest
unfolding next_code
next_code-three c rest low high =
    rw
      (
        equal_false ((224 + c / 4096) / 128) 0 (omega arith),
        equal_false ((224 + c / 4096) / 32) 6 (omega arith),
        equal_true ((224 + c / 4096) / 16) 14 (omega arith),
      )
      (ap (λ k. NextCode.finds k rest) (omega arith))

next_code-four :
    (c : ℕ) (rest : List ℕ)
    → 65536 ≤ c
    → c ≤ 1114111
    → next_code
        ((240 + c / 262144) ∷ (128 + c / 4096 % 64) ∷ (128 + c / 64 % 64) ∷ (128 + c % 64) ∷ rest)
      ≡ NextCode.finds c rest
unfolding next_code
next_code-four c rest low high =
    rw
      (
        equal_false ((240 + c / 262144) / 128) 0 (omega arith),
        equal_false ((240 + c / 262144) / 32) 6 (omega arith),
        equal_false ((240 + c / 262144) / 16) 14 (omega arith),
        equal_true ((240 + c / 262144) / 8) 30 (omega arith),
      )
      (ap (λ k. NextCode.finds k rest) (omega arith))

pub next_code-utf8_bytes :
    (c : ℕ) (rest : List ℕ) → c ≤ 1114111 → next_code (utf8_bytes c ++ rest) ≡ NextCode.finds c rest
unfolding utf8_bytes
next_code-utf8_bytes c rest small = elim (dec_lt c 128) [
  | yes one ↦ rw (ltb-true c 128 one) (next_code-one c rest one)
  | no more ↦ elim (dec_lt c 2048) [
    | yes two ↦
        rw (ltb-false c 128 (omega arith), ltb-true c 2048 two)
          (next_code-two c rest (omega arith) two)
    | no many ↦ elim (dec_lt c 65536) [
      | yes three ↦
          rw (ltb-false c 128 (omega arith), ltb-false c 2048 (omega arith), ltb-true c 65536 three)
            (next_code-three c rest (omega arith) three)
      | no four ↦
          rw
            (
              ltb-false c 128 (omega arith),
              ltb-false c 2048 (omega arith),
              ltb-false c 65536 (omega arith),
            )
            (next_code-four c rest (omega arith) small)
    ]
  ]
]

pub length-utf8_bytes : (c : ℕ) → 0 < length (utf8_bytes c)
unfolding utf8_bytes
length-utf8_bytes c = ground arith
