-- ===== src/Tds/Utf16/Forms.antt =====
-- UTF-8 and UTF-16 as their standards define them, for comparison with the code.
use mssql_extension.Prelude.{
  List, Option, [], if◌then◌else◌, ltb, none, option_then, some, suc, zero, ℕ, ◌%◌, ◌*◌, ◌++◌, ◌+◌,
  ◌-◌, ◌/◌, ◌<◌, ◌==◌, ◌∷◌, ◌≤◌, ◌⊎◌,
}

-- The bytes of a code point in UTF-8.
unfoldable pub utf8_bytes : ℕ → List ℕ
utf8_bytes c =
    if ltb c 128
    then c ∷ []
    else if ltb c 2048
    then (192 + c / 64) ∷ (128 + c % 64) ∷ []
    else if ltb c 65536
    then (224 + c / 4096) ∷ (128 + c / 64 % 64) ∷ (128 + c % 64) ∷ []
    else (240 + c / 262144) ∷ (128 + c / 4096 % 64) ∷ (128 + c / 64 % 64) ∷ (128 + c % 64) ∷ []

unfoldable pub utf8_text : List ℕ → List ℕ
utf8_text [] = []
utf8_text (c ∷ cs) = utf8_bytes c ++ utf8_text cs

-- a code point that is no surrogate
abbrev pub IsScalar : ℕ → Type 0
IsScalar c = (c < 55296) ⊎ ((57344 ≤ c) × (c ≤ 1114111))

-- the second unit of a pair
read_low : ℕ → List ℕ → Option (ℕ × List ℕ)
read_low u (a ∷ b ∷ rest) =
    let v = a + b * 256 in
    if v / 1024 == 55 then some (65536 + (u - 55296) * 1024 + (v - 56320), rest) else none
read_low u _ = none

-- the code point at the front of a text in UTF-16, the low byte of a unit first
unfoldable pub read_code : List ℕ → Option (ℕ × List ℕ)
unfolding read_low
read_code (a ∷ b ∷ rest) =
    let u = a + b * 256 in
    if u / 1024 == 54 then read_low u rest else if u / 1024 == 55 then none else some (u, rest)
read_code _ = none

-- a text in UTF-16 of at most `n` code points
unfoldable pub read_codes : ℕ → List ℕ → Option (List ℕ)
unfolding read_code
read_codes n [] = some []
read_codes zero (a ∷ text) = none
read_codes (suc n) (a ∷ text) =
    option_then (read_code (a ∷ text))
      (λ (c, rest). option_then (read_codes n rest) (λ cs. some (c ∷ cs)))
