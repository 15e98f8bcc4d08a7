-- ===== src/Tds/RowReader/Skip.antt =====
-- src/tds/tds_row_reader.cpp, the skipping half: SkipByForm, ResolveSkipForm, SkipValue, SkipValueNBC
-- and SkipPLPType. A buffer is the list of the `length` bytes that `data` points to; a result of 0
-- says that more data is needed. Buffers are shorter than 2^63 bytes, so no size_t sum wraps.
use mssql_extension.Prelude.{
  ℕ, zero, suc, ◌+◌, ◌==◌, ltb, leb, Bool, true, false, List, if◌then◌else◌, Outcome, ok, throw,
  fault, ◌>>=◌, length, drop,
}
use mssql_extension.Tds.Types.{TypeId}
use mssql_extension.Tds.Bytes.{read_u8, read_u16, read_u32, read_u64}
use mssql_extension.Tds.ColumnMetadata.{ColumnMetadata, is_plp_type}

-- The exceptions of the read path.
pub data RowError : Type 0 where
  lob_too_large : ℕ → RowError
  unsupported_type : TypeId → RowError
  unsupported_nbc_type : TypeId → RowError
  unknown_fixed_type : TypeId → RowError

abbrev pub max_lob_value_bytes : ℕ
max_lob_value_bytes = 2147483647

abbrev pub plp_null_marker : ℕ
plp_null_marker = 0xffffffffffffffff

unfoldable pub skip_fixed : ℕ → List ℕ → Outcome RowError ℕ
skip_fixed width buf = ok (if leb width (length buf) then width else 0)

unfoldable pub skip_prefix1 : List ℕ → Outcome RowError ℕ
skip_prefix1 buf =
    if ltb (length buf) 1
    then ok 0
    else (read_u8 buf >>= λ n. ok (if leb (1 + n) (length buf) then 1 + n else 0))

unfoldable pub skip_prefix2 : List ℕ → Outcome RowError ℕ
skip_prefix2 buf =
    if ltb (length buf) 2
    then ok 0
    else (read_u16 buf >>= λ n.
        if n == 0xffff then ok 2 else ok (if leb (2 + n) (length buf) then 2 + n else 0))

-- TEXT, NTEXT and IMAGE: a text pointer, a timestamp of 8 bytes, and a 4-byte length.
unfoldable pub skip_lob : List ℕ → Outcome RowError ℕ
skip_lob buf =
    if ltb (length buf) 1
    then ok 0
    else (read_u8 buf >>= λ pointer_len.
        let header = 1 + pointer_len + 8 + 4 in
        if pointer_len == 0
        then ok 1
        else if ltb (length buf) header
        then ok 0
        else (read_u32 (drop (1 + pointer_len + 8) buf) >>= λ n.
            if ltb max_lob_value_bytes n
            then throw (lob_too_large n)
            else ok (if leb (header + n) (length buf) then header + n else 0)))

-- The chunk loop, over what is left of the buffer from `offset` on. Every round takes 4 bytes at
-- least, so as many rounds as there are bytes, and one more, are enough.
unfoldable pub skip_chunks : ℕ → List ℕ → ℕ → Outcome RowError ℕ
skip_chunks zero rest offset = fault
skip_chunks (suc fuel) rest offset =
    if ltb (length rest) 4
    then ok 0
    else (read_u32 rest >>= λ n.
        let more = skip_chunks fuel (drop (4 + n) rest) (offset + 4 + n) in
        if n == 0 then ok (offset + 4) else if ltb (length rest) (4 + n) then ok 0 else more)

unfoldable pub skip_plp_type : List ℕ → Outcome RowError ℕ
skip_plp_type buf =
    if ltb (length buf) 8
    then ok 0
    else (read_u64 buf >>= λ total_length.
        if total_length == plp_null_marker
        then ok 8
        else skip_chunks (suc (length buf)) (drop 8 buf) 8)

unfoldable pub skip_variable : Bool → List ℕ → Outcome RowError ℕ
skip_variable true buf = skip_plp_type buf
skip_variable false buf = skip_prefix2 buf

-- The second argument is the column's IsPLPType().
unfoldable pub skip_value_at : TypeId → Bool → List ℕ → Outcome RowError ℕ
skip_value_at TypeId.tinyint plp buf = skip_fixed 1 buf
skip_value_at TypeId.bit plp buf = skip_fixed 1 buf
skip_value_at TypeId.smallint plp buf = skip_fixed 2 buf
skip_value_at TypeId.int plp buf = skip_fixed 4 buf
skip_value_at TypeId.real plp buf = skip_fixed 4 buf
skip_value_at TypeId.smallmoney plp buf = skip_fixed 4 buf
skip_value_at TypeId.smalldatetime plp buf = skip_fixed 4 buf
skip_value_at TypeId.bigint plp buf = skip_fixed 8 buf
skip_value_at TypeId.float plp buf = skip_fixed 8 buf
skip_value_at TypeId.money plp buf = skip_fixed 8 buf
skip_value_at TypeId.datetime plp buf = skip_fixed 8 buf
skip_value_at TypeId.intn plp buf = skip_prefix1 buf
skip_value_at TypeId.bitn plp buf = skip_prefix1 buf
skip_value_at TypeId.floatn plp buf = skip_prefix1 buf
skip_value_at TypeId.moneyn plp buf = skip_prefix1 buf
skip_value_at TypeId.datetimen plp buf = skip_prefix1 buf
skip_value_at TypeId.decimal plp buf = skip_prefix1 buf
skip_value_at TypeId.numeric plp buf = skip_prefix1 buf
skip_value_at TypeId.date plp buf = skip_prefix1 buf
skip_value_at TypeId.time plp buf = skip_prefix1 buf
skip_value_at TypeId.datetime2 plp buf = skip_prefix1 buf
skip_value_at TypeId.datetimeoffset plp buf = skip_prefix1 buf
skip_value_at TypeId.uniqueidentifier plp buf = skip_prefix1 buf
skip_value_at TypeId.text plp buf = skip_lob buf
skip_value_at TypeId.ntext plp buf = skip_lob buf
skip_value_at TypeId.image plp buf = skip_lob buf
skip_value_at TypeId.xml plp buf = skip_plp_type buf
skip_value_at TypeId.bigchar plp buf = skip_variable plp buf
skip_value_at TypeId.bigvarchar plp buf = skip_variable plp buf
skip_value_at TypeId.nchar plp buf = skip_variable plp buf
skip_value_at TypeId.nvarchar plp buf = skip_variable plp buf
skip_value_at TypeId.bigbinary plp buf = skip_variable plp buf
skip_value_at TypeId.bigvarbinary plp buf = skip_variable plp buf
skip_value_at _ plp buf = ok 0

unfoldable pub skip_value : ColumnMetadata → List ℕ → Outcome RowError ℕ
skip_value col buf = skip_value_at col.type_id (is_plp_type col) buf

-- The second argument is the column's IsPLPType().
unfoldable pub skip_value_nbc_at : TypeId → Bool → List ℕ → Outcome RowError ℕ
skip_value_nbc_at TypeId.tinyint plp buf = skip_fixed 1 buf
skip_value_nbc_at TypeId.bit plp buf = skip_fixed 1 buf
skip_value_nbc_at TypeId.smallint plp buf = skip_fixed 2 buf
skip_value_nbc_at TypeId.int plp buf = skip_fixed 4 buf
skip_value_nbc_at TypeId.real plp buf = skip_fixed 4 buf
skip_value_nbc_at TypeId.smallmoney plp buf = skip_fixed 4 buf
skip_value_nbc_at TypeId.smalldatetime plp buf = skip_fixed 4 buf
skip_value_nbc_at TypeId.bigint plp buf = skip_fixed 8 buf
skip_value_nbc_at TypeId.float plp buf = skip_fixed 8 buf
skip_value_nbc_at TypeId.money plp buf = skip_fixed 8 buf
skip_value_nbc_at TypeId.datetime plp buf = skip_fixed 8 buf
skip_value_nbc_at TypeId.intn plp buf = skip_prefix1 buf
skip_value_nbc_at TypeId.bitn plp buf = skip_prefix1 buf
skip_value_nbc_at TypeId.floatn plp buf = skip_prefix1 buf
skip_value_nbc_at TypeId.moneyn plp buf = skip_prefix1 buf
skip_value_nbc_at TypeId.datetimen plp buf = skip_prefix1 buf
skip_value_nbc_at TypeId.decimal plp buf = skip_prefix1 buf
skip_value_nbc_at TypeId.numeric plp buf = skip_prefix1 buf
skip_value_nbc_at TypeId.date plp buf = skip_prefix1 buf
skip_value_nbc_at TypeId.time plp buf = skip_prefix1 buf
skip_value_nbc_at TypeId.datetime2 plp buf = skip_prefix1 buf
skip_value_nbc_at TypeId.datetimeoffset plp buf = skip_prefix1 buf
skip_value_nbc_at TypeId.uniqueidentifier plp buf = skip_prefix1 buf
skip_value_nbc_at TypeId.text plp buf = skip_lob buf
skip_value_nbc_at TypeId.ntext plp buf = skip_lob buf
skip_value_nbc_at TypeId.image plp buf = skip_lob buf
skip_value_nbc_at TypeId.xml plp buf = skip_plp_type buf
skip_value_nbc_at TypeId.bigchar plp buf = skip_variable plp buf
skip_value_nbc_at TypeId.bigvarchar plp buf = skip_variable plp buf
skip_value_nbc_at TypeId.nchar plp buf = skip_variable plp buf
skip_value_nbc_at TypeId.nvarchar plp buf = skip_variable plp buf
skip_value_nbc_at TypeId.bigbinary plp buf = skip_variable plp buf
skip_value_nbc_at TypeId.bigvarbinary plp buf = skip_variable plp buf
skip_value_nbc_at _ plp buf = ok 0

unfoldable pub skip_value_nbc : ColumnMetadata → List ℕ → Outcome RowError ℕ
skip_value_nbc col buf = skip_value_nbc_at col.type_id (is_plp_type col) buf

pub data SkipForm : Type 0 where
  fixed prefix1 prefix2 slow : SkipForm

pub record SkipDesc : Type 0 where
  pub form : SkipForm
  pub width : ℕ

abbrev pub desc : SkipForm → ℕ → SkipDesc
desc f w = record { form = f; width = w }

abbrev pub variable_form : Bool → SkipDesc
variable_form true = desc SkipForm.slow 0
variable_form false = desc SkipForm.prefix2 0

unfoldable pub resolve_form_at : TypeId → Bool → SkipDesc
resolve_form_at TypeId.tinyint plp = desc SkipForm.fixed 1
resolve_form_at TypeId.bit plp = desc SkipForm.fixed 1
resolve_form_at TypeId.smallint plp = desc SkipForm.fixed 2
resolve_form_at TypeId.int plp = desc SkipForm.fixed 4
resolve_form_at TypeId.real plp = desc SkipForm.fixed 4
resolve_form_at TypeId.smallmoney plp = desc SkipForm.fixed 4
resolve_form_at TypeId.smalldatetime plp = desc SkipForm.fixed 4
resolve_form_at TypeId.bigint plp = desc SkipForm.fixed 8
resolve_form_at TypeId.float plp = desc SkipForm.fixed 8
resolve_form_at TypeId.money plp = desc SkipForm.fixed 8
resolve_form_at TypeId.datetime plp = desc SkipForm.fixed 8
resolve_form_at TypeId.intn plp = desc SkipForm.prefix1 0
resolve_form_at TypeId.bitn plp = desc SkipForm.prefix1 0
resolve_form_at TypeId.floatn plp = desc SkipForm.prefix1 0
resolve_form_at TypeId.moneyn plp = desc SkipForm.prefix1 0
resolve_form_at TypeId.datetimen plp = desc SkipForm.prefix1 0
resolve_form_at TypeId.decimal plp = desc SkipForm.prefix1 0
resolve_form_at TypeId.numeric plp = desc SkipForm.prefix1 0
resolve_form_at TypeId.date plp = desc SkipForm.prefix1 0
resolve_form_at TypeId.time plp = desc SkipForm.prefix1 0
resolve_form_at TypeId.datetime2 plp = desc SkipForm.prefix1 0
resolve_form_at TypeId.datetimeoffset plp = desc SkipForm.prefix1 0
resolve_form_at TypeId.uniqueidentifier plp = desc SkipForm.prefix1 0
resolve_form_at TypeId.bigchar plp = variable_form plp
resolve_form_at TypeId.bigvarchar plp = variable_form plp
resolve_form_at TypeId.nchar plp = variable_form plp
resolve_form_at TypeId.nvarchar plp = variable_form plp
resolve_form_at TypeId.bigbinary plp = variable_form plp
resolve_form_at TypeId.bigvarbinary plp = variable_form plp
resolve_form_at _ plp = desc SkipForm.slow 0

unfoldable pub resolve_skip_form : ColumnMetadata → SkipDesc
resolve_skip_form col = resolve_form_at col.type_id (is_plp_type col)

unfoldable pub skip_form : SkipForm → ℕ → List ℕ → Outcome RowError ℕ
skip_form SkipForm.fixed width buf = ok (if leb width (length buf) then width else 0)
skip_form SkipForm.prefix1 width buf =
    if ltb (length buf) 1
    then ok 0
    else (read_u8 buf >>= λ n. ok (if leb (1 + n) (length buf) then 1 + n else 0))
skip_form SkipForm.prefix2 width buf =
    if ltb (length buf) 2
    then ok 0
    else (read_u16 buf >>= λ n.
        if n == 0xffff then ok 2 else ok (if leb (2 + n) (length buf) then 2 + n else 0))
skip_form SkipForm.slow width buf = ok 0

unfoldable pub skip_by_form : SkipDesc → List ℕ → Outcome RowError ℕ
skip_by_form d buf = skip_form d.form d.width buf

unfoldable pub is_slow : SkipForm → Bool
is_slow SkipForm.slow = true
is_slow _ = false
