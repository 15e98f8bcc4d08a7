-- ===== src/Tds/RowReader/SkipPrefix.antt =====
-- The skipping walks of src/tds/tds_row_reader.cpp on a buffer that grows: bytes that arrive later
-- change nothing about a value or a row that was complete.
use mssql_extension.Prelude.{
  Bool, Ensures-cases, List, Outcome, [], arith, drop, drop-append, false, inl, inr, length,
  length-append, length-drop, none, ok, refl, suc, true, zero, ℕ, ◌++◌, ◌+◌, ◌<◌, ◌∷◌, ◌≡◌, ◌≢◌,
  ◌≤◌,
}
use mssql_extension.Tds.Bytes.Stable.{
  read_u16-append, read_u16_cases, read_u32-append, read_u32_cases, read_u32_total, read_u64-append,
  read_u64_cases, read_u8-append, read_u8_cases,
}
use mssql_extension.Tds.ColumnMetadata.{ColumnMetadata, is_plp_type}
use mssql_extension.Tds.RowReader.Skip.{
  RowError, skip_chunks, skip_fixed, skip_lob, skip_plp_type, skip_prefix1, skip_prefix2,
  skip_value, skip_value_at, skip_variable,
}
use mssql_extension.Tds.RowReader.SkipBounds.{skip_value-Within}
use mssql_extension.Tds.RowReader.SkipRow.{skip_columns, skip_row}
use mssql_extension.Tds.Types.{TypeId}
use native.Mathlib.Decide.{dec_lt}

-- `f` answers as before once it has answered anything but "more data".
abbrev pub IsStable : (List ℕ → Outcome RowError ℕ) → Type 0
IsStable f = (xs ys : List ℕ) → f xs ≢ ok 0 → f (xs ++ ys) ≡ f xs

skip_fixed-IsStable : (w : ℕ) → IsStable (skip_fixed w)
unfolding skip_fixed
skip_fixed-IsStable w xs ys h = ground (arith, length-append xs ys)

skip_prefix1-IsStable : IsStable skip_prefix1
unfolding skip_prefix1
skip_prefix1-IsStable xs ys h = elim (read_u8_cases {E = RowError} xs) [
  | inl short ↦ absurd (h (ground arith))
  | inr (long, (n, r)) ↦
      ground (arith, r, h, read_u8-append {E = RowError} xs ys, length-append xs ys)
]

skip_prefix2-IsStable : IsStable skip_prefix2
unfolding skip_prefix2
skip_prefix2-IsStable xs ys h = elim (read_u16_cases {E = RowError} xs) [
  | inl short ↦ absurd (h (ground arith))
  | inr (long, (n, r)) ↦
      ground (arith, r, h, read_u16-append {E = RowError} xs ys, length-append xs ys)
]

skip_lob-IsStable : IsStable skip_lob
unfolding skip_lob
skip_lob-IsStable xs ys h = elim (read_u8_cases {E = RowError} xs) [
  | inl short ↦ absurd (h (ground arith))
  | inr (long, (p, r)) ↦ elim (dec_lt (length xs) (1 + p + 8 + 4)) [
    | yes short ↦ ground (arith, r, h, read_u8-append {E = RowError} xs ys, length-append xs ys)
    | no enough ↦
        let pointer = 1 + p + 8 in
        let (n, s) =
          read_u32_total {E = RowError} (drop pointer xs) (omega (arith, length-drop pointer xs)) in
        ground (
          arith,
          r,
          s,
          h,
          read_u8-append {E = RowError} xs ys,
          length-append xs ys,
          length-drop pointer xs,
          drop-append pointer xs ys,
          read_u32-append {E = RowError} (drop pointer xs) ys,
        )
  ]
]

-- The fuel may grow with the buffer.
skip_chunks-append :
    (fuel fuel' : ℕ) (xs ys : List ℕ) (offset : ℕ)
    → fuel ≤ fuel'
    → length xs < fuel
    → skip_chunks fuel xs offset ≢ ok 0
    → skip_chunks fuel' (xs ++ ys) offset ≡ skip_chunks fuel xs offset
unfolding skip_chunks
skip_chunks-append zero fuel' xs ys offset le l h = absurd (omega arith)
skip_chunks-append (suc fuel) zero xs ys offset le l h = absurd (omega arith)
skip_chunks-append (suc fuel) (suc fuel') xs ys offset le l h =
    elim (read_u32_cases {E = RowError} xs) [
      | inl short ↦ absurd (h (ground arith))
      | inr (long, (n, r)) ↦ ground (
        arith,
        r,
        h,
        read_u32-append {E = RowError} xs ys,
        length-append xs ys,
        length-drop (4 + n) xs,
        drop-append (4 + n) xs ys,
        skip_chunks-append fuel fuel' (drop (4 + n) xs) ys (offset + 4 + n),
      )
    ]

skip_plp_type-IsStable : IsStable skip_plp_type
unfolding skip_plp_type
skip_plp_type-IsStable xs ys h = elim (read_u64_cases {E = RowError} xs) [
  | inl short ↦ absurd (h (ground arith))
  | inr (long, (n, r)) ↦ ground (
    arith,
    r,
    h,
    read_u64-append {E = RowError} xs ys,
    length-append xs ys,
    length-drop 8 xs,
    drop-append 8 xs ys,
    skip_chunks-append (suc (length xs)) (suc (length (xs ++ ys))) (drop 8 xs) ys 8,
  )
]

skip_variable-IsStable : (plp : Bool) → IsStable (skip_variable plp)
unfolding skip_variable
skip_variable-IsStable true xs ys h = skip_plp_type-IsStable xs ys h
skip_variable-IsStable false xs ys h = skip_prefix2-IsStable xs ys h

ruleset stable_forms = (
  skip_fixed-IsStable, skip_prefix1-IsStable, skip_prefix2-IsStable, skip_lob-IsStable,
  skip_plp_type-IsStable, skip_variable-IsStable,
)

skip_value_at-IsStable : (t : TypeId) (plp : Bool) → IsStable (skip_value_at t plp)
unfolding skip_value_at
skip_value_at-IsStable TypeId.null plp xs ys h = refl
skip_value_at-IsStable _ plp xs ys h = first_of (search stable_forms, cc)

pub skip_value-IsStable : (col : ColumnMetadata) → IsStable (skip_value col)
unfolding skip_value
skip_value-IsStable col = skip_value_at-IsStable col.type_id (is_plp_type col)

skip_columns-append :
    (cols : List ColumnMetadata) (xs ys : List ℕ) (offset : ℕ)
    → skip_columns cols xs offset ≢ ok none
    → skip_columns cols (xs ++ ys) offset ≡ skip_columns cols xs offset
unfolding skip_columns
skip_columns-append [] xs ys offset h = refl
skip_columns-append (col ∷ cols) xs ys offset h =
    elim (Ensures-cases _ (skip_value col xs) (skip_value-Within col xs)) [
      | inl (n, r, le) ↦ ground (
        arith,
        r,
        h,
        skip_value-IsStable col xs ys,
        drop-append n xs ys,
        skip_columns-append cols (drop n xs) ys (offset + n),
      )
      | inr (x, r) ↦ ground (arith, r, skip_value-IsStable col xs ys)
    ]

-- Once a ROW is found complete, or malformed, the answer stays the same however many bytes follow:
-- it does not matter where the stream was cut into packets.
pub skip_row-append :
    (cols : List ColumnMetadata) (xs ys : List ℕ)
    → skip_row none cols xs ≢ ok none
    → skip_row none cols (xs ++ ys) ≡ skip_row none cols xs
unfolding skip_row
skip_row-append cols xs ys h = skip_columns-append cols xs ys 0 h
