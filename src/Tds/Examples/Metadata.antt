-- ===== src/Tds/Examples/Metadata.antt =====
-- A COLMETADATA token of src/tds/tds_column_metadata.cpp: one column `n` of type int.
use mssql_extension.Prelude.{Ensures, List, [], ok, refl, some, ℕ, ◌++◌, ◌∷◌, ◌≡◌}
use mssql_extension.Tds.Bytes.{read_bytes, read_u16, read_u8}
use mssql_extension.Tds.ColumnMetadata.Parse.{
  parse, parse_column, parse_column_name, parse_columns, parse_type_info, type_info,
}
use mssql_extension.Tds.ColumnMetadata.ParseLaws.{Leaves, parse-safe}
use mssql_extension.Tds.ColumnMetadata.ParsePrefix.{later, parse-append}
use mssql_extension.Tds.Parser.{chunk, need, pass, u16, u8}
use mssql_extension.Tds.Types.{type_of_byte}

-- The low byte of each UTF-16 unit, for a text in ASCII.
abbrev pub low_bytes : List ℕ → List ℕ
low_bytes [] = []
low_bytes (a ∷ []) = []
low_bytes (a ∷ b ∷ rest) = a ∷ low_bytes rest

abbrev one_column : List ℕ
one_column = 1 ∷ 0 ∷ 0 ∷ 0 ∷ 0 ∷ 0 ∷ 0 ∷ 0 ∷ 0x38 ∷ 1 ∷ 110 ∷ 0 ∷ []

one_column_parsed : (parse low_bytes one_column).1 ≡ ok (some [])
unfolding parse parse_columns parse_column parse_type_info type_info parse_column_name need pass u16
    u8 chunk type_of_byte read_u16 read_u8 read_bytes
one_column_parsed = refl

parse-safe_example : Ensures (Leaves low_bytes one_column) (parse low_bytes one_column).1
parse-safe_example = parse-safe low_bytes one_column

parse-append_example :
    parse low_bytes (one_column ++ (0xfd ∷ []))
    ≡ ((parse low_bytes one_column).0, later low_bytes (0xfd ∷ []) (parse low_bytes one_column).1)
parse-append_example =
    parse-append low_bytes one_column (0xfd ∷ []) (λ h. cc (h, one_column_parsed))
