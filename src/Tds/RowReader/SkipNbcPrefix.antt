-- ===== src/Tds/RowReader/SkipNbcPrefix.antt =====
-- SkipNBCRow of src/tds/tds_row_reader.cpp when more bytes follow.
use mssql_extension.Prelude.{
  Ensures-cases, List, [], arith, drop, drop-append, inl, inr, length, length-append, length-drop,
  none, ok, refl, suc, ℕ, ◌++◌, ◌+◌, ◌/◌, ◌<◌, ◌∷◌, ◌≡◌, ◌≢◌, ◌≤◌,
}
use mssql_extension.Tds.Bytes.Stable.{read_u8-append}
use mssql_extension.Tds.ColumnMetadata.{ColumnMetadata}
use mssql_extension.Tds.RowReader.Skip.{RowError, skip_value}
use mssql_extension.Tds.RowReader.SkipBounds.{skip_value-Within, skip_value_nbc-eq-skip_value}
use mssql_extension.Tds.RowReader.SkipPrefix.{skip_value-IsStable}
use mssql_extension.Tds.RowReader.SkipRow.{
  bitmap_bytes, null_bit, skip_nbc_columns, skip_nbc_one, skip_nbc_row,
}
use mssql_extension.Tds.RowReader.SkipRows.{null_bit_cases}
use native.Mathlib.Decide.{dec_lt}

null_bit-append :
    (buf ys : List ℕ) (i : ℕ) → i / 8 < length buf → null_bit (buf ++ ys) i ≡ null_bit buf i
unfolding null_bit
null_bit-append buf ys i h = rw (drop-append (i / 8) buf ys (omega arith)) (
    rw
      (read_u8-append {E = RowError} (drop (i / 8) buf) ys (omega (arith, length-drop (i / 8) buf)))
      refl)

skip_nbc_columns-append :
    (buf ys : List ℕ) (cols : List ColumnMetadata) (i : ℕ) (rest : List ℕ) (offset : ℕ)
    → (i + length cols + 7) / 8 ≤ length buf
    → skip_nbc_columns buf cols i none rest offset ≢ ok none
    → skip_nbc_columns (buf ++ ys) cols i none (rest ++ ys) offset
      ≡ skip_nbc_columns buf cols i none rest offset
unfolding skip_nbc_columns skip_nbc_one
skip_nbc_columns-append buf ys [] i rest offset room h = refl
skip_nbc_columns-append buf ys (col ∷ cols) i rest offset room h =
    elim (null_bit_cases buf i (omega arith)) [
      | inl b ↦ ground (
        arith,
        b,
        h,
        null_bit-append buf ys i (omega arith),
        skip_nbc_columns-append buf ys cols (suc i) rest offset (omega arith),
      )
      | inr b ↦ elim (Ensures-cases _ (skip_value col rest) (skip_value-Within col rest)) [
        | inl (n, r, le) ↦ ground (
          arith,
          b,
          r,
          h,
          null_bit-append buf ys i (omega arith),
          skip_value_nbc-eq-skip_value col rest,
          skip_value_nbc-eq-skip_value col (rest ++ ys),
          skip_value-IsStable col rest ys,
          drop-append n rest ys,
          skip_nbc_columns-append buf ys cols (suc i) (drop n rest) (offset + n) (omega arith),
        )
        | inr (x, r) ↦ ground (
          arith,
          b,
          r,
          null_bit-append buf ys i (omega arith),
          skip_value_nbc-eq-skip_value col rest,
          skip_value_nbc-eq-skip_value col (rest ++ ys),
          skip_value-IsStable col rest ys,
        )
      ]
    ]

-- Once an NBCROW is found complete, or malformed, the answer stays the same however many bytes follow.
pub skip_nbc_row-append :
    (cols : List ColumnMetadata) (xs ys : List ℕ)
    → skip_nbc_row none cols xs ≢ ok none
    → skip_nbc_row none cols (xs ++ ys) ≡ skip_nbc_row none cols xs
unfolding skip_nbc_row bitmap_bytes
skip_nbc_row-append cols xs ys h = elim (dec_lt (length xs) ((length cols + 7) / 8)) [
  | yes short ↦ absurd (h (ground arith))
  | no enough ↦ ground (
    arith,
    h,
    length-append xs ys,
    drop-append ((length cols + 7) / 8) xs ys,
    skip_nbc_columns-append xs ys cols 0 (drop ((length cols + 7) / 8) xs) ((length cols + 7) / 8),
  )
]
