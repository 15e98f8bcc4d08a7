-- ===== src/Dml/DeleteStatement/Escape.antt =====
-- The DELETE statement's own escaping against the one of the other statements.
use mssql_extension.Prelude.{
  Bool-cases, Option, [], ap, append_assoc, arith, if◌then◌else◌, inl, inr, length, none, refl,
  some, suc, sym, zero, ℕ, ◌++◌, ◌<◌, ◌==◌, ◌∙◌, ◌∷◌, ◌≡◌, ◌⊎◌,
}
use mssql_extension.Dml.DeleteStatement.{delete_escape_identifier, double_brackets, find_bracket}
use mssql_extension.Dml.Text.{Text, codes}
use mssql_extension.Dml.ValueSerializer.{escape_bracket, escape_identifier}
use mssql_extension.Dml.ValueSerializer.RoundTrip.{equal}

-- every closing bracket doubled
doubled : Text → Text
doubled [] = []
doubled (c ∷ text) = let rest = doubled text in if c == b']' then b']' ∷ c ∷ rest else c ∷ rest

escape_bracket-doubled : (text : Text) → escape_bracket text ≡ doubled text ++ codes "]"
unfolding escape_bracket doubled
escape_bracket-doubled [] = refl
escape_bracket-doubled (c ∷ text) = elim (Bool-cases (c == b']')) [
  | inl same ↦ rw (same, escape_bracket-doubled text)
  | inr other ↦ rw (other, escape_bracket-doubled text)
]

find_bracket-cases :
    (text : Text)
    → ((find_bracket text ≡ none) × (doubled text ≡ text))
      ⊎ ((before : Text) × ((after : Text) × (find_bracket text ≡ some (before, after))
            × (doubled text ≡ before ++ codes "]]" ++ doubled after)
            × (length after < length text)))
unfolding find_bracket doubled
find_bracket-cases [] = inl (refl, refl)
find_bracket-cases (c ∷ text) = elim (Bool-cases (c == b']')) [
  | inl same ↦ inr ([], (text, rw (same), rw (same, equal c b']' same), omega arith))
  | inr other ↦ elim (find_bracket-cases text) [
    | inl (absent, plain) ↦ inl (rw (other, absent), rw (other, plain))
    | inr (before, (after, found, split, shorter)) ↦
        inr (c ∷ before, (after, rw (other, found), rw (other, split), omega arith))
  ]
]

double_brackets-found :
    (n : ℕ) (passed rest : Text) (found : Option (Text × Text))
    → find_bracket rest ≡ found
    → double_brackets (suc n) passed rest ≡ elim found [
      | none ↦ some (passed ++ rest)
      | some (before, after) ↦ double_brackets n (passed ++ before ++ codes "]]") after
    ]
unfolding double_brackets
double_brackets-found n passed rest found h =
    ap
      (λ (o : Option (Text × Text)). elim o [
        | none ↦ some (passed ++ rest)
        | some (before, after) ↦ double_brackets n (passed ++ before ++ codes "]]") after
      ])
      h

double_brackets-doubled :
    (n : ℕ) (passed rest : Text)
    → length rest < n
    → double_brackets n passed rest ≡ some (passed ++ doubled rest)
double_brackets-doubled zero passed rest enough = absurd (omega arith)
double_brackets-doubled (suc n) passed rest enough = elim (find_bracket-cases rest) [
  | inl (absent, plain) ↦
      double_brackets-found n passed rest none absent ∙ ap (λ t. some (passed ++ t)) (sym plain)
  | inr (before, (after, found, split, shorter)) ↦
      double_brackets-found n passed rest (some (before, after)) found
      ∙ double_brackets-doubled n (passed ++ before ++ codes "]]") after (omega arith)
      ∙ ap some (
          append_assoc (passed ++ before) (codes "]]") (doubled after)
          ∙ append_assoc passed before (codes "]]" ++ doubled after)
          ∙ ap (λ t. passed ++ t)
              (sym (append_assoc before (codes "]]") (doubled after)) ∙ sym split))
]

-- The loop that finds and doubles the closing brackets of a name ends, within as many rounds as the
-- name has bytes and one more, and what it leaves between brackets is what EscapeIdentifier of the
-- value serializer writes for the name.
pub delete_escape_identifier-escape_identifier :
    (identifier : Text) → delete_escape_identifier identifier ≡ some (escape_identifier identifier)
unfolding delete_escape_identifier escape_identifier
delete_escape_identifier-escape_identifier identifier = rw (
  double_brackets-doubled (suc (length identifier)) [] identifier (omega arith),
  escape_bracket-doubled identifier,
)
