-- ===== src/Tds/RowReader/Read.antt =====
-- src/tds/tds_row_reader.cpp, the reading half: ReadValue, ReadValueNBC and the readers by type. The
-- out parameters `value` and `is_null` are fields of the result; the caller has cleared `value`, and
-- ReadValue `is_null`, before the read. A consumed count of 0 says that more data is needed.
use mssql_extension.Prelude.{
  Bool, List, Outcome, [], drop, false, fault, if◌then◌else◌, length, ltb, ok, suc, throw, true,
  zero, ℕ, ◌++◌, ◌+◌, ◌==◌, ◌>>=◌,
}
use mssql_extension.Tds.Bytes.{read_bytes, read_u16, read_u32, read_u64, read_u8}
use mssql_extension.Tds.ColumnMetadata.{ColumnMetadata, is_plp_type}
use mssql_extension.Tds.RowReader.Skip.{
  RowError, plp_null_marker, unknown_fixed_type, unsupported_nbc_type, unsupported_type,
}
use mssql_extension.Tds.Types.{TypeId}

pub record Value : Type 0 where
  pub consumed : ℕ
  pub value : List ℕ
  pub is_null : Bool

abbrev pub more_data : Value
more_data = record { consumed = 0; value = []; is_null = false }

abbrev pub null_value : ℕ → Value
null_value n = record { consumed = n; value = []; is_null = true }

abbrev pub some_value : ℕ → List ℕ → Value
some_value n v = record { consumed = n; value = v; is_null = false }

-- `if (length < size) return 0; value.assign(data, data + size); return size;`
unfoldable pub read_fixed : ℕ → List ℕ → Outcome RowError Value
read_fixed size buf =
    if ltb (length buf) size
    then ok more_data
    else (read_bytes size buf >>= λ v. ok (some_value size v))

unfoldable pub read_fixed_type : TypeId → List ℕ → Outcome RowError Value
unfolding read_fixed
read_fixed_type TypeId.tinyint buf = read_fixed 1 buf
read_fixed_type TypeId.bit buf = read_fixed 1 buf
read_fixed_type TypeId.smallint buf = read_fixed 2 buf
read_fixed_type TypeId.int buf = read_fixed 4 buf
read_fixed_type TypeId.real buf = read_fixed 4 buf
read_fixed_type TypeId.smallmoney buf = read_fixed 4 buf
read_fixed_type TypeId.smalldatetime buf = read_fixed 4 buf
read_fixed_type TypeId.bigint buf = read_fixed 8 buf
read_fixed_type TypeId.float buf = read_fixed 8 buf
read_fixed_type TypeId.money buf = read_fixed 8 buf
read_fixed_type TypeId.datetime buf = read_fixed 8 buf
read_fixed_type t buf = throw (unknown_fixed_type t)

-- The values behind a length byte, 0 for NULL.
unfoldable pub read_prefix1 : List ℕ → Outcome RowError Value
read_prefix1 buf =
    if ltb (length buf) 1
    then ok more_data
    else (read_u8 buf >>= λ n.
        if n == 0
        then ok (null_value 1)
        else if ltb (length buf) (1 + n)
        then ok more_data
        else (read_bytes n (drop 1 buf) >>= λ v. ok (some_value (1 + n) v)))

unfoldable pub read_nullable_fixed_type : List ℕ → Outcome RowError Value
unfolding read_prefix1
read_nullable_fixed_type buf = read_prefix1 buf

unfoldable pub read_decimal_type : List ℕ → Outcome RowError Value
unfolding read_prefix1
read_decimal_type buf = read_prefix1 buf

unfoldable pub read_date_type : List ℕ → Outcome RowError Value
unfolding read_prefix1
read_date_type buf = read_prefix1 buf

unfoldable pub read_time_type : List ℕ → Outcome RowError Value
unfolding read_prefix1
read_time_type buf = read_prefix1 buf

unfoldable pub read_datetime2_type : List ℕ → Outcome RowError Value
unfolding read_prefix1
read_datetime2_type buf = read_prefix1 buf

unfoldable pub read_datetimeoffset_type : List ℕ → Outcome RowError Value
unfolding read_prefix1
read_datetimeoffset_type buf = read_prefix1 buf

unfoldable pub read_variable_length_type : List ℕ → Outcome RowError Value
read_variable_length_type buf =
    if ltb (length buf) 2
    then ok more_data
    else (read_u16 buf >>= λ n.
        if n == 0xffff
        then ok (null_value 2)
        else if ltb (length buf) (2 + n)
        then ok more_data
        else (read_bytes n (drop 2 buf) >>= λ v. ok (some_value (2 + n) v)))

-- The length byte is tested for 0 and is otherwise taken to be 16.
unfoldable pub read_guid_type : List ℕ → Outcome RowError Value
read_guid_type buf =
    if ltb (length buf) 1
    then ok more_data
    else (read_u8 buf >>= λ n.
        if n == 0
        then ok (null_value 1)
        else if ltb (length buf) (1 + 16)
        then ok more_data
        else (read_bytes 16 (drop 1 buf) >>= λ v. ok (some_value (1 + 16) v)))

-- The chunk loop; `value` holds the chunks read so far. The fuel is that of `skip_chunks`.
unfoldable pub read_chunks : ℕ → List ℕ → ℕ → List ℕ → Outcome RowError Value
read_chunks zero rest offset value = fault
read_chunks (suc fuel) rest offset value =
    if ltb (length rest) 4
    then ok (some_value 0 value)
    else (read_u32 rest >>= λ n.
        if n == 0
        then ok (some_value (offset + 4) value)
        else if ltb (length rest) (4 + n)
        then ok (some_value 0 value)
        else (read_bytes n (drop 4 rest) >>= λ chunk.
            read_chunks fuel (drop (4 + n) rest) (offset + 4 + n) (value ++ chunk)))

unfoldable pub read_plp_type : List ℕ → Outcome RowError Value
read_plp_type buf =
    if ltb (length buf) 8
    then ok more_data
    else (read_u64 buf >>= λ total_length.
        if total_length == plp_null_marker
        then ok (null_value 8)
        else read_chunks (suc (length buf)) (drop 8 buf) 8 [])

unfoldable pub read_variable : Bool → List ℕ → Outcome RowError Value
read_variable true buf = read_plp_type buf
read_variable false buf = read_variable_length_type buf

unfoldable pub read_value_at : TypeId → Bool → List ℕ → Outcome RowError Value
read_value_at TypeId.tinyint plp buf = read_fixed_type TypeId.tinyint buf
read_value_at TypeId.bit plp buf = read_fixed_type TypeId.bit buf
read_value_at TypeId.smallint plp buf = read_fixed_type TypeId.smallint buf
read_value_at TypeId.int plp buf = read_fixed_type TypeId.int buf
read_value_at TypeId.real plp buf = read_fixed_type TypeId.real buf
read_value_at TypeId.smallmoney plp buf = read_fixed_type TypeId.smallmoney buf
read_value_at TypeId.smalldatetime plp buf = read_fixed_type TypeId.smalldatetime buf
read_value_at TypeId.bigint plp buf = read_fixed_type TypeId.bigint buf
read_value_at TypeId.float plp buf = read_fixed_type TypeId.float buf
read_value_at TypeId.money plp buf = read_fixed_type TypeId.money buf
read_value_at TypeId.datetime plp buf = read_fixed_type TypeId.datetime buf
read_value_at TypeId.intn plp buf = read_nullable_fixed_type buf
read_value_at TypeId.bitn plp buf = read_nullable_fixed_type buf
read_value_at TypeId.floatn plp buf = read_nullable_fixed_type buf
read_value_at TypeId.moneyn plp buf = read_nullable_fixed_type buf
read_value_at TypeId.datetimen plp buf = read_nullable_fixed_type buf
read_value_at TypeId.xml plp buf = read_plp_type buf
read_value_at TypeId.bigchar plp buf = read_variable plp buf
read_value_at TypeId.bigvarchar plp buf = read_variable plp buf
read_value_at TypeId.nchar plp buf = read_variable plp buf
read_value_at TypeId.nvarchar plp buf = read_variable plp buf
read_value_at TypeId.bigbinary plp buf = read_variable plp buf
read_value_at TypeId.bigvarbinary plp buf = read_variable plp buf
read_value_at TypeId.decimal plp buf = read_decimal_type buf
read_value_at TypeId.numeric plp buf = read_decimal_type buf
read_value_at TypeId.date plp buf = read_date_type buf
read_value_at TypeId.time plp buf = read_time_type buf
read_value_at TypeId.datetime2 plp buf = read_datetime2_type buf
read_value_at TypeId.datetimeoffset plp buf = read_datetimeoffset_type buf
read_value_at TypeId.uniqueidentifier plp buf = read_guid_type buf
read_value_at t plp buf = throw (unsupported_type t)

unfoldable pub read_value : ColumnMetadata → List ℕ → Outcome RowError Value
read_value col buf = read_value_at col.type_id (is_plp_type col) buf

-- In an NBCROW a length byte of 0 is an empty value, since the bitmap says which values are NULL.
unfoldable pub read_nbc_prefix1 : List ℕ → Outcome RowError Value
read_nbc_prefix1 buf =
    if ltb (length buf) 1
    then ok more_data
    else (read_u8 buf >>= λ n.
        if ltb (length buf) (1 + n)
        then ok more_data
        else (read_bytes n (drop 1 buf) >>= λ v. ok (some_value (1 + n) v)))

unfoldable pub read_value_nbc_at : TypeId → Bool → List ℕ → Outcome RowError Value
read_value_nbc_at TypeId.tinyint plp buf = read_fixed_type TypeId.tinyint buf
read_value_nbc_at TypeId.bit plp buf = read_fixed_type TypeId.bit buf
read_value_nbc_at TypeId.smallint plp buf = read_fixed_type TypeId.smallint buf
read_value_nbc_at TypeId.int plp buf = read_fixed_type TypeId.int buf
read_value_nbc_at TypeId.real plp buf = read_fixed_type TypeId.real buf
read_value_nbc_at TypeId.smallmoney plp buf = read_fixed_type TypeId.smallmoney buf
read_value_nbc_at TypeId.smalldatetime plp buf = read_fixed_type TypeId.smalldatetime buf
read_value_nbc_at TypeId.bigint plp buf = read_fixed_type TypeId.bigint buf
read_value_nbc_at TypeId.float plp buf = read_fixed_type TypeId.float buf
read_value_nbc_at TypeId.money plp buf = read_fixed_type TypeId.money buf
read_value_nbc_at TypeId.datetime plp buf = read_fixed_type TypeId.datetime buf
read_value_nbc_at TypeId.intn plp buf = read_nbc_prefix1 buf
read_value_nbc_at TypeId.bitn plp buf = read_nbc_prefix1 buf
read_value_nbc_at TypeId.floatn plp buf = read_nbc_prefix1 buf
read_value_nbc_at TypeId.moneyn plp buf = read_nbc_prefix1 buf
read_value_nbc_at TypeId.datetimen plp buf = read_nbc_prefix1 buf
read_value_nbc_at TypeId.xml plp buf = read_plp_type buf
read_value_nbc_at TypeId.bigchar plp buf = read_variable plp buf
read_value_nbc_at TypeId.bigvarchar plp buf = read_variable plp buf
read_value_nbc_at TypeId.nchar plp buf = read_variable plp buf
read_value_nbc_at TypeId.nvarchar plp buf = read_variable plp buf
read_value_nbc_at TypeId.bigbinary plp buf = read_variable plp buf
read_value_nbc_at TypeId.bigvarbinary plp buf = read_variable plp buf
read_value_nbc_at TypeId.decimal plp buf = read_nbc_prefix1 buf
read_value_nbc_at TypeId.numeric plp buf = read_nbc_prefix1 buf
read_value_nbc_at TypeId.date plp buf = read_nbc_prefix1 buf
read_value_nbc_at TypeId.time plp buf = read_nbc_prefix1 buf
read_value_nbc_at TypeId.datetime2 plp buf = read_nbc_prefix1 buf
read_value_nbc_at TypeId.datetimeoffset plp buf = read_nbc_prefix1 buf
read_value_nbc_at TypeId.uniqueidentifier plp buf = read_nbc_prefix1 buf
read_value_nbc_at t plp buf = throw (unsupported_nbc_type t)

unfoldable pub read_value_nbc : ColumnMetadata → List ℕ → Outcome RowError Value
read_value_nbc col buf = read_value_nbc_at col.type_id (is_plp_type col) buf
