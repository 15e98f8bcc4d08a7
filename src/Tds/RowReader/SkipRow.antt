-- ===== src/Tds/RowReader/SkipRow.antt =====
-- src/tds/tds_row_reader.cpp: SkipRow and SkipNBCRow. The descriptors of `skip_descs_`, where the
-- reader has them, are a second list in column order; a column past their end would be a read
-- outside the array. `some n` is a row of n bytes, `none` says that more data is needed.
use mssql_extension.Prelude.{
  ℕ, suc, ◌+◌, ◌/◌, ◌%◌, ◌^◌, ◌==◌, ltb, Bool, List, [], ◌∷◌, Option, none, some, if◌then◌else◌,
  Outcome, ok, fault, ◌>>=◌, length, drop,
}
use mssql_extension.Tds.Bytes.{read_u8}
use mssql_extension.Tds.ColumnMetadata.{ColumnMetadata}
use mssql_extension.Tds.RowReader.Skip.{
  RowError, SkipDesc, skip_value, skip_value_nbc, skip_by_form, is_slow,
}

-- `consumed == 0` ends the row; otherwise the walk goes on behind the value.
abbrev pub step_past : ℕ → (Outcome RowError (Option ℕ)) → Outcome RowError (Option ℕ)
step_past consumed more = if consumed == 0 then ok none else more

unfoldable pub skip_columns : List ColumnMetadata → List ℕ → ℕ → Outcome RowError (Option ℕ)
skip_columns [] rest offset = ok (some offset)
skip_columns (col ∷ cols) rest offset = skip_value col rest >>= λ consumed.
    step_past consumed (skip_columns cols (drop consumed rest) (offset + consumed))

-- One value of the fast walk of a ROW, and of an NBCROW.
unfoldable pub skip_fast : ColumnMetadata → SkipDesc → List ℕ → Outcome RowError ℕ
skip_fast col d rest = if is_slow d.form then skip_value col rest else skip_by_form d rest

unfoldable pub skip_columns_fast :
    List ColumnMetadata → List SkipDesc → List ℕ → ℕ → Outcome RowError (Option ℕ)
skip_columns_fast [] descs rest offset = ok (some offset)
skip_columns_fast (col ∷ cols) [] rest offset = fault
skip_columns_fast (col ∷ cols) (d ∷ descs) rest offset = skip_fast col d rest >>= λ consumed.
    step_past consumed (skip_columns_fast cols descs (drop consumed rest) (offset + consumed))

unfoldable pub skip_row :
    Option (List SkipDesc) → List ColumnMetadata → List ℕ → Outcome RowError (Option ℕ)
skip_row none cols buf = skip_columns cols buf 0
skip_row (some descs) cols buf = skip_columns_fast cols descs buf 0

unfoldable pub bitmap_bytes : List ColumnMetadata → ℕ
bitmap_bytes cols = (length cols + 7) / 8

-- `(data[col_idx / 8] & (1 << (col_idx % 8))) != 0`: that bit of the byte.
unfoldable pub null_bit : List ℕ → ℕ → Outcome RowError Bool
null_bit buf col_idx = read_u8 (drop (col_idx / 8) buf) >>= λ b. ok (b / 2 ^ (col_idx % 8) % 2 == 1)

abbrev pub nbc_desc : Option (List SkipDesc) → Outcome RowError (Option SkipDesc)
nbc_desc none = ok none
nbc_desc (some []) = fault
nbc_desc (some (d ∷ descs)) = ok (some d)

abbrev pub next_descs : Option (List SkipDesc) → Option (List SkipDesc)
next_descs none = none
next_descs (some []) = some []
next_descs (some (d ∷ descs)) = some descs

unfoldable pub skip_nbc_one : Option SkipDesc → ColumnMetadata → List ℕ → Outcome RowError ℕ
skip_nbc_one none col rest = skip_value_nbc col rest
skip_nbc_one (some d) col rest =
    if is_slow d.form then skip_value_nbc col rest else skip_by_form d rest

-- `buf` is the whole row, whose front is the bitmap.
unfoldable pub skip_nbc_columns :
    List ℕ
    → List ColumnMetadata
    → ℕ
    → Option (List SkipDesc)
    → List ℕ
    → ℕ
    → Outcome RowError (Option ℕ)
skip_nbc_columns buf [] col_idx descs rest offset = ok (some offset)
skip_nbc_columns buf (col ∷ cols) col_idx descs rest offset = null_bit buf col_idx >>= λ is_null.
    let skipped = skip_nbc_columns buf cols (suc col_idx) (next_descs descs) rest offset in
    if is_null
    then skipped
    else (nbc_desc descs >>= λ d. skip_nbc_one d col rest >>= λ consumed. step_past consumed (
        skip_nbc_columns buf cols (suc col_idx) (next_descs descs) (drop consumed rest)
          (offset + consumed)))

unfoldable pub skip_nbc_row :
    Option (List SkipDesc) → List ColumnMetadata → List ℕ → Outcome RowError (Option ℕ)
skip_nbc_row descs cols buf =
    let bytes = bitmap_bytes cols in
    if ltb (length buf) bytes
    then ok none
    else skip_nbc_columns buf cols 0 descs (drop bytes buf) bytes
