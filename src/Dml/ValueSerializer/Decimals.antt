-- ===== src/Dml/ValueSerializer/Decimals.antt =====
-- What SerializeDecimal writes: the digits of the value, padded, with the point before the last ones.
use mssql_extension.Prelude.{
  Bool-cases, [], ap, append-nil, arith, drop, false, inl, inr, leb, length, length-drop,
  length-take_le, refl, subst, suc, sym, take, take-append-drop, zero, ℕ, ◌++◌, ◌+◌, ◌-◌, ◌<◌, ◌==◌,
  ◌∙◌, ◌∷◌, ◌≡◌,
}
use mssql_extension.Dml.Text.{Text}
use mssql_extension.Dml.ValueSerializer.{is_negative, pad_digits, place_point, serialize_decimal}

-- `n` zeros
abbrev pub zeros : ℕ → Text
zeros zero = []
zeros (suc n) = b'0' ∷ zeros n

zeros-cons : (n : ℕ) (xs : Text) → zeros n ++ b'0' ∷ xs ≡ b'0' ∷ zeros n ++ xs
zeros-cons zero xs = refl
zeros-cons (suc n) xs = ap (λ t. b'0' ∷ t) (zeros-cons n xs)

-- With rounds enough the loop stops with more than `scale` digits, only zeros having been added.
pub pad_digits-Stops :
    (n scale : ℕ) (digits : Text)
    → scale < n + length digits
    → (scale < length (pad_digits n scale digits))
      × ((k : ℕ) × (pad_digits n scale digits ≡ zeros k ++ digits))
unfolding pad_digits
pad_digits-Stops zero scale digits h = (omega arith, (0, refl))
pad_digits-Stops (suc n) scale digits h =
    let (more, (k, eq)) = pad_digits-Stops n scale (b'0' ∷ digits) (omega arith) in
    elim (Bool-cases (leb (length digits) scale)) [
      | inl short ↦ rw (short) (more, (suc k, eq ∙ zeros-cons k digits))
      | inr long ↦ rw (long) (ground arith, (0, refl))
    ]

-- the point, where there is something to follow it
abbrev pub after_point : Text → Text
after_point [] = []
after_point (c ∷ fraction) = b'.' ∷ c ∷ fraction

-- `text` is a whole part that is not empty and, if `scale` is not 0, a point with `scale` digits after
-- it; together the digits are `digits` with zeros in front.
abbrev pub Writes : Text → Text → ℕ → Type 0
Writes text digits scale =
    (whole : Text) × ((fraction : Text) × ((k : ℕ) × (text ≡ whole ++ after_point fraction)
        × (whole ++ fraction ≡ zeros k ++ digits)
        × (length fraction ≡ scale)
        × (0 < length whole)))

after_point-drop :
    (n : ℕ) (digits : Text) → n < length digits → after_point (drop n digits) ≡ b'.' ∷ drop n digits
after_point-drop n [] h = absurd (omega arith)
after_point-drop zero (c ∷ digits) h = refl
after_point-drop (suc n) (c ∷ digits) h = after_point-drop n digits (omega arith)

suc-nonzero : (n : ℕ) → (suc n == 0) ≡ false
suc-nonzero n = ground arith

place_point-Writes :
    (padded digits : Text) (scale k : ℕ)
    → scale < length padded
    → padded ≡ zeros k ++ digits
    → Writes (place_point padded scale) digits scale
unfolding place_point
place_point-Writes padded digits zero k h eq =
    (padded, ([], (k, sym (append-nil padded), append-nil padded ∙ eq, refl, h)))
place_point-Writes padded digits (suc s) k h eq =
    let n = length padded - suc s in
    let whole_some =
      subst (λ m. 0 < m) (sym (length-take_le n padded (omega arith))) (omega arith) in
    (
      take n padded,
      (
        drop n padded,
        (
          k,
          rw (suc-nonzero s)
              (ap (λ t. take n padded ++ t) (sym (after_point-drop n padded (omega arith)))),
          take-append-drop n padded ∙ eq,
          length-drop n padded ∙ omega arith,
          whole_some,
        ),
      ),
    )

-- What SerializeDecimal writes for the digits of a value that is not negative is a whole part that is
-- not empty, and, if the scale is not 0, a point with exactly as many digits after it as the scale
-- says; without the point it is the value's digits behind zeros.
pub serialize_decimal-Writes :
    (digits : Text) (scale : ℕ)
    → is_negative digits ≡ false
    → Writes (serialize_decimal digits scale) digits scale
unfolding serialize_decimal
serialize_decimal-Writes digits scale h =
    let (more, (k, eq)) = pad_digits-Stops (suc scale) scale digits (omega arith) in
    rw (h) (place_point-Writes (pad_digits (suc scale) scale digits) digits scale k more eq)

-- For a negative value it writes the sign, and then what it writes for the digits alone.
pub serialize_decimal-negative :
    (digits : Text) (scale : ℕ)
    → is_negative digits ≡ false
    → serialize_decimal (b'-' ∷ digits) scale ≡ b'-' ∷ serialize_decimal digits scale
unfolding serialize_decimal is_negative
serialize_decimal-negative digits scale h = rw (h)
