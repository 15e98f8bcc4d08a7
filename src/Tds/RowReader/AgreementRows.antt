-- ===== src/Tds/RowReader/AgreementRows.antt =====
-- ReadRow and ReadNBCRow against SkipRow and SkipNBCRow of src/tds/tds_row_reader.cpp, and the shape of
-- what they return.
use mssql_extension.Prelude.{
  Bool, Bool-cases, Ensures, Ensures-cases, List, Option, Outcome, [], arith, drop, false, fault,
  inl, inr, length, none, ok, refl, some, suc, throw, true, ℕ, ◌+◌, ◌/◌, ◌==◌, ◌∷◌, ◌≡◌, ◌≢◌, ◌≤◌,
}
use mssql_extension.Tds.ColumnMetadata.{ColumnMetadata}
use mssql_extension.Tds.RowReader.Agreement.{GuidLength, read_value-Agrees, read_value_nbc-Agrees}
use mssql_extension.Tds.RowReader.Read.{read_value, read_value_nbc}
use mssql_extension.Tds.RowReader.ReadRow.{
  RowData, RowResult, read_columns, read_nbc_columns, read_nbc_row, read_past, read_row,
  with_column,
}
use mssql_extension.Tds.RowReader.Skip.{RowError, skip_value}
use mssql_extension.Tds.RowReader.SkipRow.{
  bitmap_bytes, skip_columns, skip_nbc_columns, skip_nbc_one, skip_nbc_row, skip_row, step_past,
}
use mssql_extension.Tds.RowReader.SkipRows.{null_bit_cases}
use mssql_extension.Tds.Types.{TypeId}

abbrev pub row_length : Option (ℕ × RowData) → Option ℕ
row_length none = none
row_length (some (n, row)) = some n

-- The read is no fault, and where it returns, the skip returns the same length, or `none` with it.
abbrev pub RowAgrees : RowResult → Outcome RowError (Option ℕ) → Type 0
RowAgrees r s = Ensures (λ o. s ≡ ok (row_length o)) r

RowAgrees-with_column :
    (v : List ℕ) (is_null : Bool) (r : RowResult) (s : Outcome RowError (Option ℕ))
    → RowAgrees r s
    → RowAgrees (with_column v is_null r) s
RowAgrees-with_column v is_null (ok none) s h = h
RowAgrees-with_column v is_null (ok (some (n, row))) s h = h
RowAgrees-with_column v is_null (throw e) s h = tt
RowAgrees-with_column v is_null fault s h = h

RowAgrees-past :
    (n : ℕ) (r : RowResult) (s : Outcome RowError (Option ℕ))
    → (n ≢ 0 → RowAgrees r s)
    → RowAgrees (read_past n r) (step_past n s)
RowAgrees-past n r s h = elim (Bool-cases (n == 0)) [
  | inl e ↦ rw e refl
  | inr e ↦ rw e (h (λ z. ground arith))
]

-- Every GUID that SkipRow comes to has a length byte of 0 or 16, if the byte is there. The walk ends
-- with the first value that needs more data.
abbrev pub GuidLengths : List ColumnMetadata → List ℕ → Type 0
GuidLengths [] rest = Unit {0}
GuidLengths (col ∷ cols) rest =
    (col.type_id ≡ TypeId.uniqueidentifier → GuidLength rest)
    × ((n : ℕ) → skip_value col rest ≡ ok n → n ≢ 0 → GuidLengths cols (drop n rest))

read_columns-agrees :
    (cols : List ColumnMetadata) (rest : List ℕ) (offset : ℕ)
    → GuidLengths cols rest
    → RowAgrees (read_columns cols rest offset) (skip_columns cols rest offset)
unfolding read_columns skip_columns
read_columns-agrees [] rest offset g = refl
read_columns-agrees (col ∷ cols) rest offset (g, gs) =
    elim (Ensures-cases _ (read_value col rest) (read_value-Agrees col rest g)) [
      | inl (r, e, s) ↦
          rw (e, s)
            (RowAgrees-past r.consumed _ _ (λ goes_on. RowAgrees-with_column r.value r.is_null _ _ (
              read_columns-agrees cols (drop r.consumed rest) (offset + r.consumed)
                (gs r.consumed s goes_on))))
      | inr (x, e) ↦ rw e tt
    ]

-- ReadRow reads nothing past the buffer, and where it does not throw it takes the bytes of the row
-- that SkipRow measures, and asks for more data exactly where SkipRow does; the length bytes of the
-- GUIDs that SkipRow comes to, as far as the buffer has them, have to be 0 or 16.
pub read_row-agrees :
    (cols : List ColumnMetadata) (buf : List ℕ)
    → GuidLengths cols buf
    → RowAgrees (read_row cols buf) (skip_row none cols buf)
unfolding read_row skip_row
read_row-agrees cols buf g = read_columns-agrees cols buf 0 g

read_nbc_columns-agrees :
    (buf : List ℕ) (cols : List ColumnMetadata) (i : ℕ) (rest : List ℕ) (offset : ℕ)
    → (i + length cols + 7) / 8 ≤ length buf
    → RowAgrees
        (read_nbc_columns buf cols i rest offset)
        (skip_nbc_columns buf cols i none rest offset)
unfolding read_nbc_columns skip_nbc_columns skip_nbc_one
read_nbc_columns-agrees buf [] i rest offset room = refl
read_nbc_columns-agrees buf (col ∷ cols) i rest offset room =
    elim (null_bit_cases buf i (omega arith)) [
      | inl b ↦ rw b (
          RowAgrees-with_column [] true _ _
            (read_nbc_columns-agrees buf cols (suc i) rest offset (omega arith)))
      | inr b ↦
          rw b (elim (Ensures-cases _ (read_value_nbc col rest) (read_value_nbc-Agrees col rest)) [
            | inl (r, e, s) ↦
                rw (e, s)
                  (RowAgrees-past r.consumed _ _ (λ goes_on.
                    RowAgrees-with_column r.value false _ _ (
                      read_nbc_columns-agrees buf cols (suc i) (drop r.consumed rest)
                        (offset + r.consumed) (omega arith))))
            | inr (x, e) ↦ rw e tt
          ])
    ]

-- ReadNBCRow reads nothing past the buffer, and where it does not throw it takes the bytes of the row
-- that SkipNBCRow measures, and asks for more data exactly where SkipNBCRow does, for any bytes.
pub read_nbc_row-agrees :
    (cols : List ColumnMetadata) (buf : List ℕ)
    → RowAgrees (read_nbc_row cols buf) (skip_nbc_row none cols buf)
unfolding read_nbc_row skip_nbc_row bitmap_bytes
read_nbc_row-agrees cols buf = ground (
  arith,
  read_nbc_columns-agrees buf cols 0 (drop ((length cols + 7) / 8) buf) ((length cols + 7) / 8),
)
