-- ===== src/Tds/RowReader/GuidDivergence.antt =====
-- ReadGuidType of src/tds/tds_row_reader.cpp against SkipValue where the length byte of a GUID is wrong.
use mssql_extension.Prelude.{
  List, [], arith, false, if◌then◌else◌, leb, length, ltb, none, ok, some, take, true, ℕ, ◌+◌, ◌<◌,
  ◌==◌, ◌↔◌, ◌∷◌, ◌≡◌, ◌⊎◌,
}
use mssql_extension.Tds.Bytes.{read_u8}
use mssql_extension.Tds.Bytes.Stable.{read_bytes_total}
use mssql_extension.Tds.ColumnMetadata.{ColumnMetadata}
use mssql_extension.Tds.RowReader.AgreementRows.{RowAgrees}
use mssql_extension.Tds.RowReader.Read.{read_guid_type, read_value, read_value_at}
use mssql_extension.Tds.RowReader.ReadRow.{read_columns, read_row}
use mssql_extension.Tds.RowReader.Skip.{RowError, skip_prefix1, skip_value, skip_value_at}
use mssql_extension.Tds.RowReader.SkipRow.{skip_columns, skip_row}
use mssql_extension.Tds.Types.{TypeId}

read_row_guid :
    (col : ColumnMetadata) (n : ℕ) (rest : List ℕ)
    → col.type_id ≡ TypeId.uniqueidentifier
    → read_row (col ∷ []) (n ∷ rest) ≡ (
        if n == 0
        then ok (some (1, record { values = [] ∷ []; null_mask = true ∷ [] }))
        else if ltb (length rest) 16
        then ok none
        else ok (some (17, record { values = take 16 rest ∷ []; null_mask = false ∷ [] })))
unfolding read_row read_columns read_value read_value_at read_guid_type read_u8
read_row_guid col n rest t = rw t (ground (arith, read_bytes_total {E = RowError} 16 rest))

skip_row_guid :
    (col : ColumnMetadata) (n : ℕ) (rest : List ℕ)
    → col.type_id ≡ TypeId.uniqueidentifier
    → skip_row none (col ∷ []) (n ∷ rest) ≡ ok (if leb n (length rest) then some (1 + n) else none)
unfolding skip_row skip_columns skip_value skip_value_at skip_prefix1 read_u8
skip_row_guid col n rest t = rw t (ground arith)

-- For a row of one GUID, whatever its length byte `n` says and whatever follows, ReadRow and SkipRow
-- agree exactly when `n` is 0 or 16, or when both ask for more data because neither the `n` bytes nor
-- sixteen are there.
pub read_row-agrees_iff :
    (col : ColumnMetadata) (n : ℕ) (rest : List ℕ)
    → col.type_id ≡ TypeId.uniqueidentifier
    → RowAgrees (read_row (col ∷ []) (n ∷ rest)) (skip_row none (col ∷ []) (n ∷ rest))
      ↔ (n ≡ 0 ⊎ n ≡ 16 ⊎ (length rest < n × length rest < 16))
read_row-agrees_iff col n rest t =
    rw (read_row_guid col n rest t, skip_row_guid col n rest t) (ground arith)
