-- ===== src/Tds/ColumnMetadata/Parse.antt =====
-- ColumnMetadataParser of src/tds/tds_column_metadata.cpp. `utf16le_decode` is Utf16LEDecode of
-- src/tds/encoding/utf16.cpp, which rests on simdutf.
use mssql_extension.Prelude.{
  Bool, List, Option, Outcome, [], drop, false, fault, if◌then◌else◌, length, ltb, none, ok, some,
  suc, throw, true, zero, ℕ, ◌*◌, ◌==◌, ◌∷◌,
}
use mssql_extension.Tds.Bytes.{read_u16}
use mssql_extension.Tds.ColumnMetadata.{ColumnMetadata}
use mssql_extension.Tds.Parser.{Parser, chunk, need, pass, pure, raise, u16, u32, u8, ◌>>=◌, ◌>>◌}
use mssql_extension.Tds.Types.{TypeId, type_of_byte}

pub data MetaError : Type 0 where
  bad_scale : ℕ → MetaError
  unsupported_type : TypeId → MetaError

-- The fields that ParseTypeInfo fills in; it clears them first.
pub record TypeInfo : Type 0 where
  pub max_length : ℕ
  pub precision : ℕ
  pub scale : ℕ
  pub collation : ℕ

abbrev pub no_info : TypeInfo
no_info = record { max_length = 0; precision = 0; scale = 0; collation = 0 }

-- A length byte alone.
unfoldable pub length_info : Parser MetaError TypeInfo
length_info = do need 1; n ← u8; pure (record no_info { max_length = n })

unfoldable pub decimal_info : Parser MetaError TypeInfo
decimal_info = do
  need 3
  n ← u8
  p ← u8
  s ← u8
  pure (record no_info { max_length = n; precision = p; scale = s })

-- The collation has 5 bytes, of which 4 are kept.
unfoldable pub string_info : Parser MetaError TypeInfo
string_info = do
  need 7
  n ← u16
  c ← u32
  pass 1
  pure (record no_info { max_length = n; collation = c })

unfoldable pub binary_info : Parser MetaError TypeInfo
binary_info = do need 2; n ← u16; pure (record no_info { max_length = n })

unfoldable pub scale_info : Parser MetaError TypeInfo
scale_info = do
  need 1
  s ← u8
  if ltb 7 s then raise (bad_scale s) else pure (record no_info { scale = s })

-- A text whose count of UTF-16 units stands in front of it, in one byte or in two.
unfoldable pub pass_b_varchar : Parser MetaError (Unit {0})
pass_b_varchar = do need 1; n ← u8; need (n * 2); pass (n * 2); pure tt

unfoldable pub pass_us_varchar : Parser MetaError (Unit {0})
pass_us_varchar = do need 2; n ← u16; need (n * 2); pass (n * 2); pure tt

unfoldable pub xml_schema : Parser MetaError (Unit {0})
xml_schema = do pass_b_varchar; pass_b_varchar; pass_us_varchar; pure tt

unfoldable pub xml_info : Parser MetaError TypeInfo
xml_info = do
  need 1
  schema_present ← u8
  if schema_present == 0 then pure tt else xml_schema
  pure (record no_info { max_length = 0xffff })

unfoldable pub pass_parts : ℕ → Parser MetaError (Unit {0})
pass_parts zero = pure tt
pass_parts (suc n) = pass_us_varchar >> pass_parts n

unfoldable pub lob_collation : Bool → Parser MetaError ℕ
lob_collation true = pure 0
lob_collation false = do need 5; c ← u32; pass 1; pure c

-- The argument tells an IMAGE, which has no collation.
unfoldable pub lob_info : Bool → Parser MetaError TypeInfo
lob_info is_image = do
  need 4
  pass 4
  c ← lob_collation is_image
  need 1
  num_parts ← u8
  pass_parts num_parts
  pure (record no_info { max_length = 0xffff; collation = c })

unfoldable pub type_info : TypeId → Parser MetaError TypeInfo
type_info TypeId.null = pure no_info
type_info TypeId.tinyint = pure no_info
type_info TypeId.bit = pure no_info
type_info TypeId.smallint = pure no_info
type_info TypeId.int = pure no_info
type_info TypeId.bigint = pure no_info
type_info TypeId.real = pure no_info
type_info TypeId.float = pure no_info
type_info TypeId.money = pure no_info
type_info TypeId.smallmoney = pure no_info
type_info TypeId.datetime = pure no_info
type_info TypeId.smalldatetime = pure no_info
type_info TypeId.intn = length_info
type_info TypeId.bitn = length_info
type_info TypeId.floatn = length_info
type_info TypeId.moneyn = length_info
type_info TypeId.datetimen = length_info
type_info TypeId.decimal = decimal_info
type_info TypeId.numeric = decimal_info
type_info TypeId.uniqueidentifier = length_info
type_info TypeId.bigchar = string_info
type_info TypeId.bigvarchar = string_info
type_info TypeId.nchar = string_info
type_info TypeId.nvarchar = string_info
type_info TypeId.bigbinary = binary_info
type_info TypeId.bigvarbinary = binary_info
type_info TypeId.date = pure no_info
type_info TypeId.time = scale_info
type_info TypeId.datetime2 = scale_info
type_info TypeId.datetimeoffset = scale_info
type_info TypeId.xml = xml_info
type_info TypeId.text = lob_info false
type_info TypeId.ntext = lob_info false
type_info TypeId.image = lob_info true
type_info t = raise (unsupported_type t)

unfoldable pub parse_type_info : Parser MetaError (TypeId × TypeInfo)
parse_type_info = do need 1; b ← u8; i ← type_info (type_of_byte b); pure (type_of_byte b, i)

module _ (utf16le_decode : List ℕ → List ℕ) where
  unfoldable pub parse_column_name : Parser MetaError (List ℕ)
  parse_column_name = do
    need 1
    n ← u8
    need (n * 2)
    name ← chunk (n * 2)
    pure (utf16le_decode name)

  -- 4 bytes of UserType, 2 of flags, the type and the name.
  unfoldable pub parse_column : Parser MetaError ColumnMetadata
  parse_column = do
    need 4
    pass 4
    need 2
    flags ← u16
    ti ← parse_type_info
    name ← parse_column_name
    pure (record {
      name = name;
      type_id = ti.0;
      max_length = ti.1.max_length;
      precision = ti.1.precision;
      scale = ti.1.scale;
      collation = ti.1.collation;
      flags = flags;
    })

  -- The columns of `columns` after the call, whatever its result: those parsed before it ended.
  unfoldable pub parse_columns :
      ℕ → List ℕ → List ColumnMetadata × Outcome MetaError (Option (List ℕ))
  parse_columns zero rest = ([], ok (some rest))
  parse_columns (suc n) rest = elim (parse_column rest) [
    | ok none ↦ ([], ok none)
    | ok (some (c, rest')) ↦ let (cs, o) = parse_columns n rest' in (c ∷ cs, o)
    | throw e ↦ ([], throw e)
    | fault ↦ ([], fault)
  ]

  -- Parse: `columns`, and the bytes consumed or the need for more data.
  unfoldable pub parse : List ℕ → List ColumnMetadata × Outcome MetaError (Option (List ℕ))
  parse buf = if ltb (length buf) 2 then ([], ok none) else elim (read_u16 {E = MetaError} buf) [
    | ok count ↦
        let columns = parse_columns count (drop 2 buf) in
        if count == 0xffff then ([], ok (some (drop 2 buf))) else columns
    | throw e ↦ ([], throw e)
    | fault ↦ ([], fault)
  ]
