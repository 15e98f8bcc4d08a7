-- ===== src/Tds/Examples/Rows.antt =====
-- Rows of src/tds/tds_row_reader.cpp with an int and an nvarchar(20).
use mssql_extension.Prelude.{
  List, [], arith, false, inr, length, none, ok, refl, some, true, ℕ, ◌++◌, ◌<◌, ◌↔◌, ◌∷◌, ◌≡◌, ◌⊎◌,
}
use mssql_extension.Tds.Bytes.{read_bytes, read_u16, read_u8}
use mssql_extension.Tds.ColumnMetadata.{ColumnMetadata, is_plp_type}
use mssql_extension.Tds.RowReader.AgreementRows.{
  GuidLengths, RowAgrees, read_nbc_row-agrees, read_row-agrees,
}
use mssql_extension.Tds.RowReader.GuidDivergence.{read_row-agrees_iff}
use mssql_extension.Tds.RowReader.Read.{read_nbc_prefix1, read_value_nbc, read_value_nbc_at}
use mssql_extension.Tds.RowReader.ReadRow.{read_nbc_columns, read_nbc_row, read_row}
use mssql_extension.Tds.RowReader.Skip.{
  skip_prefix1, skip_prefix2, skip_value, skip_value_at, skip_value_nbc, skip_value_nbc_at,
  skip_variable,
}
use mssql_extension.Tds.RowReader.SkipNbcPrefix.{skip_nbc_row-append}
use mssql_extension.Tds.RowReader.SkipPrefix.{skip_row-append}
use mssql_extension.Tds.RowReader.SkipRow.{
  bitmap_bytes, null_bit, skip_columns, skip_nbc_columns, skip_nbc_one, skip_nbc_row, skip_row,
}
use mssql_extension.Tds.RowReader.SkipRows.{
  FitsIn, descs_of, skip_nbc_row-descs_of, skip_row-FitsIn, skip_row-descs_of,
}
use mssql_extension.Tds.Types.{TypeId}

abbrev pub two_columns : List ColumnMetadata
two_columns =
    record {
      name = 110 ∷ [];
      type_id = TypeId.intn;
      max_length = 4;
      precision = 0;
      scale = 0;
      collation = 0;
      flags = 0;
    }
    ∷ record {
      name = 116 ∷ [];
      type_id = TypeId.nvarchar;
      max_length = 40;
      precision = 0;
      scale = 0;
      collation = 0;
      flags = 0;
    }
    ∷ []

abbrev a_guid : ColumnMetadata
a_guid = record {
  name = 103 ∷ [];
  type_id = TypeId.uniqueidentifier;
  max_length = 16;
  precision = 0;
  scale = 0;
  collation = 0;
  flags = 0;
}

abbrev pub a_row : List ℕ
a_row = 4 ∷ 7 ∷ 0 ∷ 0 ∷ 0 ∷ 4 ∷ 0 ∷ 104 ∷ 0 ∷ 105 ∷ 0 ∷ []

-- The second column is NULL.
abbrev an_nbc_row : List ℕ
an_nbc_row = 2 ∷ 4 ∷ 7 ∷ 0 ∷ 0 ∷ 0 ∷ []

abbrev sixteen : List ℕ
sixteen = 0 ∷ 1 ∷ 2 ∷ 3 ∷ 4 ∷ 5 ∷ 6 ∷ 7 ∷ 8 ∷ 9 ∷ 10 ∷ 11 ∷ 12 ∷ 13 ∷ 14 ∷ 15 ∷ []

skip_a_row : skip_row none two_columns a_row ≡ ok (some 11)
unfolding skip_row skip_columns skip_value skip_value_at skip_prefix1 skip_prefix2 skip_variable
    is_plp_type read_u8 read_u16
skip_a_row = refl

read_an_nbc_row :
    read_nbc_row two_columns an_nbc_row
    ≡ ok (
        some (6, record { values = (7 ∷ 0 ∷ 0 ∷ 0 ∷ []) ∷ [] ∷ []; null_mask = false ∷ true ∷ [] }))
unfolding read_nbc_row read_nbc_columns null_bit bitmap_bytes read_value_nbc read_value_nbc_at
    read_nbc_prefix1 read_bytes read_u8
read_an_nbc_row = refl

skip_row-descs_of_example :
    skip_row (some (descs_of two_columns)) two_columns a_row ≡ skip_row none two_columns a_row
skip_row-descs_of_example = skip_row-descs_of two_columns a_row

skip_nbc_row-descs_of_example :
    skip_nbc_row (some (descs_of two_columns)) two_columns an_nbc_row
    ≡ skip_nbc_row none two_columns an_nbc_row
skip_nbc_row-descs_of_example = skip_nbc_row-descs_of two_columns an_nbc_row

skip_row-FitsIn_example : FitsIn a_row (skip_row none two_columns a_row)
skip_row-FitsIn_example = skip_row-FitsIn two_columns a_row

skip_row-append_example :
    skip_row none two_columns (a_row ++ an_nbc_row) ≡ skip_row none two_columns a_row
skip_row-append_example = skip_row-append two_columns a_row an_nbc_row (λ h. cc (h, skip_a_row))

-- a GUID and an int
abbrev guid_and_int : List ColumnMetadata
guid_and_int = a_guid ∷ two_columns

abbrev a_guid_row : List ℕ
a_guid_row = 16 ∷ sixteen ++ a_row

guid_lengths : GuidLengths guid_and_int a_guid_row
unfolding read_u8
guid_lengths =
    (λ t n h. inr (ground (arith, h)), λ n h z. (λ t. cc, λ m h' z'. (λ t. cc, λ k i y. tt)))

read_row-agrees_example :
    RowAgrees (read_row guid_and_int a_guid_row) (skip_row none guid_and_int a_guid_row)
read_row-agrees_example = read_row-agrees guid_and_int a_guid_row guid_lengths

-- no byte of the GUID is there, and the walk has ended with the int
cut_short_lengths : GuidLengths (two_columns ++ a_guid ∷ []) (5 ∷ 0 ∷ 0 ∷ [])
unfolding skip_value skip_value_at skip_prefix1 read_u8
cut_short_lengths = (λ t. cc, λ n h z. absurd (z (ground (arith, h))))

read_nbc_row-agrees_example :
    RowAgrees (read_nbc_row two_columns an_nbc_row) (skip_nbc_row none two_columns an_nbc_row)
read_nbc_row-agrees_example = read_nbc_row-agrees two_columns an_nbc_row

read_row-agrees_iff_example :
    RowAgrees (read_row (a_guid ∷ []) (5 ∷ sixteen)) (skip_row none (a_guid ∷ []) (5 ∷ sixteen))
    ↔ (◌≡◌ {A = ℕ} 5 0 ⊎ ◌≡◌ {A = ℕ} 5 16 ⊎ (length sixteen < 5 × length sixteen < 16))
read_row-agrees_iff_example = read_row-agrees_iff a_guid 5 sixteen refl

skip_an_nbc_row : skip_nbc_row none two_columns an_nbc_row ≡ ok (some 6)
unfolding skip_nbc_row skip_nbc_columns skip_nbc_one null_bit bitmap_bytes skip_value_nbc
    skip_value_nbc_at skip_prefix1 read_u8
skip_an_nbc_row = refl

skip_nbc_row-append_example :
    skip_nbc_row none two_columns (an_nbc_row ++ a_row) ≡ skip_nbc_row none two_columns an_nbc_row
skip_nbc_row-append_example =
    skip_nbc_row-append two_columns an_nbc_row a_row (λ h. cc (h, skip_an_nbc_row))
