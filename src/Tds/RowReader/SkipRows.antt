-- ===== src/Tds/RowReader/SkipRows.antt =====
-- SkipRow and SkipNBCRow of src/tds/tds_row_reader.cpp as a whole: the walk by descriptors against the
-- walk by types, and the bounds of both.
use mssql_extension.Prelude.{
  Bool-cases, Ensures, Ensures-cases, List, Option, Outcome, [], arith, drop, false, inl, inr,
  length, length-drop, map, none, ok, refl, some, suc, true, ℕ, ◌%◌, ◌+◌, ◌/◌, ◌<◌, ◌==◌, ◌^◌, ◌∷◌,
  ◌≡◌, ◌≤◌, ◌⊎◌,
}
use mssql_extension.Tds.Bytes.Stable.{read_u8_total}
use mssql_extension.Tds.ColumnMetadata.{ColumnMetadata}
use mssql_extension.Tds.RowReader.Skip.{RowError, SkipDesc, resolve_skip_form, skip_value}
use mssql_extension.Tds.RowReader.SkipBounds.{
  skip_by_form-eq, skip_fast-eq-skip_value, skip_value-Within, skip_value_nbc-eq-skip_value,
}
use mssql_extension.Tds.RowReader.SkipRow.{
  bitmap_bytes, null_bit, skip_columns, skip_columns_fast, skip_nbc_columns, skip_nbc_one,
  skip_nbc_row, skip_row,
}

-- What ParseColMetadata of src/tds/tds_token_parser.cpp hands the reader.
unfoldable pub descs_of : List ColumnMetadata → List SkipDesc
descs_of cols = map resolve_skip_form cols

skip_columns_fast-eq :
    (cols : List ColumnMetadata) (rest : List ℕ) (offset : ℕ)
    → skip_columns_fast cols (descs_of cols) rest offset ≡ skip_columns cols rest offset
unfolding skip_columns_fast skip_columns descs_of
skip_columns_fast-eq [] rest offset = refl
skip_columns_fast-eq (col ∷ cols) rest offset =
    simp (skip_fast-eq-skip_value, skip_columns_fast-eq cols)

-- A ROW is skipped alike with the forms resolved once per COLMETADATA and by the switch on the type
-- of each value: the same length, the same need for more data, the same exception.
pub skip_row-descs_of :
    (cols : List ColumnMetadata) (buf : List ℕ)
    → skip_row (some (descs_of cols)) cols buf ≡ skip_row none cols buf
unfolding skip_row
skip_row-descs_of cols buf = skip_columns_fast-eq cols buf 0

skip_nbc_one-eq :
    (col : ColumnMetadata) (rest : List ℕ)
    → skip_nbc_one (some (resolve_skip_form col)) col rest ≡ skip_nbc_one none col rest
unfolding skip_nbc_one
skip_nbc_one-eq col rest =
    ground (arith, skip_value_nbc-eq-skip_value col rest, skip_by_form-eq col rest)

skip_nbc_columns-eq :
    (buf : List ℕ) (cols : List ColumnMetadata) (i : ℕ) (rest : List ℕ) (offset : ℕ)
    → skip_nbc_columns buf cols i (some (descs_of cols)) rest offset
      ≡ skip_nbc_columns buf cols i none rest offset
unfolding skip_nbc_columns descs_of
skip_nbc_columns-eq buf [] i rest offset = refl
skip_nbc_columns-eq buf (col ∷ cols) i rest offset =
    simp (skip_nbc_one-eq, skip_nbc_columns-eq buf cols)

-- An NBCROW is skipped alike with the resolved forms and by the switch on the type of each value.
pub skip_nbc_row-descs_of :
    (cols : List ColumnMetadata) (buf : List ℕ)
    → skip_nbc_row (some (descs_of cols)) cols buf ≡ skip_nbc_row none cols buf
unfolding skip_nbc_row
skip_nbc_row-descs_of cols buf = simp (skip_nbc_columns-eq buf cols)

abbrev pub Fits : List ℕ → Option ℕ → Type 0
Fits buf none = Unit {0}
Fits buf (some n) = n ≤ length buf

abbrev pub FitsIn : List ℕ → Outcome RowError (Option ℕ) → Type 0
FitsIn buf r = Ensures (Fits buf) r

skip_columns-FitsIn :
    (buf : List ℕ) (cols : List ColumnMetadata) (rest : List ℕ) (offset : ℕ)
    → length buf ≡ offset + length rest
    → FitsIn buf (skip_columns cols rest offset)
unfolding skip_columns
skip_columns-FitsIn buf [] rest offset e = omega arith
skip_columns-FitsIn buf (col ∷ cols) rest offset e =
    elim (Ensures-cases _ (skip_value col rest) (skip_value-Within col rest)) [
      | inl (n, r, le) ↦ rw r (
          ground
            (arith, length-drop n rest, skip_columns-FitsIn buf cols (drop n rest) (offset + n)))
      | inr (x, r) ↦ rw r tt
    ]

-- Skipping a ROW reads nothing past the buffer, ends, and reports no more bytes than there are,
-- for any columns and any bytes.
pub skip_row-FitsIn :
    (cols : List ColumnMetadata) (buf : List ℕ) → FitsIn buf (skip_row none cols buf)
unfolding skip_row
skip_row-FitsIn cols buf = skip_columns-FitsIn buf cols buf 0 (omega arith)

-- The bitmap has a bit for every column.
pub null_bit_cases :
    (buf : List ℕ) (i : ℕ)
    → i / 8 < length buf
    → (null_bit buf i ≡ ok true) ⊎ (null_bit buf i ≡ ok false)
unfolding null_bit
null_bit_cases buf i h =
    let (v, e) =
      read_u8_total {E = RowError} (drop (i / 8) buf) (omega (arith, length-drop (i / 8) buf)) in
    rw e (elim (Bool-cases (v / 2 ^ (i % 8) % 2 == 1)) [ inl t ↦ inl (rw t) | inr f ↦ inr (rw f) ])

skip_nbc_columns-FitsIn :
    (buf : List ℕ) (cols : List ColumnMetadata) (i : ℕ) (rest : List ℕ) (offset : ℕ)
    → length buf ≡ offset + length rest
    → (i + length cols + 7) / 8 ≤ length buf
    → FitsIn buf (skip_nbc_columns buf cols i none rest offset)
unfolding skip_nbc_columns skip_nbc_one
skip_nbc_columns-FitsIn buf [] i rest offset e room = omega arith
skip_nbc_columns-FitsIn buf (col ∷ cols) i rest offset e room =
    elim (null_bit_cases buf i (omega arith)) [
      | inl b ↦ rw b (skip_nbc_columns-FitsIn buf cols (suc i) rest offset e (omega arith))
      | inr b ↦
          rw (b, skip_value_nbc-eq-skip_value col rest)
            (elim (Ensures-cases _ (skip_value col rest) (skip_value-Within col rest)) [
              | inl (n, r, le) ↦ rw r (
                  ground (
                    arith,
                    length-drop n rest,
                    skip_nbc_columns-FitsIn buf cols (suc i) (drop n rest) (offset + n),
                  ))
              | inr (x, r) ↦ rw r tt
            ])
    ]

-- Skipping an NBCROW reads nothing past the buffer, its NULL bitmap included, ends, and reports no more
-- bytes than there are, for any columns and any bytes.
pub skip_nbc_row-FitsIn :
    (cols : List ColumnMetadata) (buf : List ℕ) → FitsIn buf (skip_nbc_row none cols buf)
unfolding skip_nbc_row bitmap_bytes
skip_nbc_row-FitsIn cols buf = ground (
  arith,
  length-drop ((length cols + 7) / 8) buf,
  skip_nbc_columns-FitsIn buf cols 0 (drop ((length cols + 7) / 8) buf) ((length cols + 7) / 8),
)
