-- ===== src/Tds/RowReader/ReadRow.antt =====
-- src/tds/tds_row_reader.cpp: ReadRow and ReadNBCRow, with the RowData of
-- src/include/tds/tds_token_parser.hpp. `none` says that more data is needed; what a call that ends so has
-- written to the row is dropped, since the next call prepares the row anew.
use mssql_extension.Prelude.{
  Bool, List, Option, Outcome, [], drop, false, fault, if◌then◌else◌, length, ltb, none, ok, some,
  suc, throw, true, ℕ, ◌+◌, ◌==◌, ◌>>=◌, ◌∷◌,
}
use mssql_extension.Tds.ColumnMetadata.{ColumnMetadata}
use mssql_extension.Tds.RowReader.Read.{read_value, read_value_nbc}
use mssql_extension.Tds.RowReader.Skip.{RowError}
use mssql_extension.Tds.RowReader.SkipRow.{bitmap_bytes, null_bit}

pub record RowData : Type 0 where
  pub values : List (List ℕ)
  pub null_mask : List Bool

abbrev pub no_columns : RowData
no_columns = record { values = []; null_mask = [] }

abbrev pub RowResult : Type 0
RowResult = Outcome RowError (Option (ℕ × RowData))

-- A column's value, and whether it is NULL, in front of those of the later columns.
abbrev pub with_column : List ℕ → Bool → RowResult → RowResult
with_column v is_null (ok (some (n, row))) =
    ok (some (n, record { values = v ∷ row.values; null_mask = is_null ∷ row.null_mask }))
with_column v is_null (ok none) = ok none
with_column v is_null (throw e) = throw e
with_column v is_null fault = fault

abbrev pub read_past : ℕ → RowResult → RowResult
read_past consumed more = if consumed == 0 then ok none else more

unfoldable pub read_columns : List ColumnMetadata → List ℕ → ℕ → RowResult
read_columns [] rest offset = ok (some (offset, no_columns))
read_columns (col ∷ cols) rest offset = read_value col rest >>= λ r.
    read_past r.consumed (
      with_column r.value r.is_null
        (read_columns cols (drop r.consumed rest) (offset + r.consumed)))

unfoldable pub read_row : List ColumnMetadata → List ℕ → RowResult
read_row cols buf = read_columns cols buf 0

-- The mask comes from the bitmap alone. The source reads the whole bitmap first, which is the same,
-- since `read_nbc_row` has seen that it is all there.
unfoldable pub read_nbc_columns : List ℕ → List ColumnMetadata → ℕ → List ℕ → ℕ → RowResult
read_nbc_columns buf [] i rest offset = ok (some (offset, no_columns))
read_nbc_columns buf (col ∷ cols) i rest offset = null_bit buf i >>= λ is_null.
    let absent = with_column [] true (read_nbc_columns buf cols (suc i) rest offset) in
    if is_null
    then absent
    else (read_value_nbc col rest >>= λ r. read_past r.consumed (
        with_column r.value false
          (read_nbc_columns buf cols (suc i) (drop r.consumed rest) (offset + r.consumed))))

unfoldable pub read_nbc_row : List ColumnMetadata → List ℕ → RowResult
read_nbc_row cols buf =
    let bytes = bitmap_bytes cols in
    if ltb (length buf) bytes then ok none else read_nbc_columns buf cols 0 (drop bytes buf) bytes
