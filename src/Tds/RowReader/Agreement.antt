-- ===== src/Tds/RowReader/Agreement.antt =====
-- ReadValue against SkipValue in src/tds/tds_row_reader.cpp: the reader of a value and the walk that only
-- measures it take the same bytes.
use mssql_extension.Prelude.{
  Bool, Ensures, List, Outcome, [], arith, drop, false, inl, inr, length, length-drop, ok, refl,
  suc, take, true, zero, ℕ, ◌++◌, ◌+◌, ◌<◌, ◌≡◌, ◌⊎◌,
}
use mssql_extension.Tds.Bytes.{read_u8}
use mssql_extension.Tds.Bytes.Stable.{
  read_bytes_total, read_u16_cases, read_u32_cases, read_u64_cases, read_u8_cases,
}
use mssql_extension.Tds.ColumnMetadata.{ColumnMetadata, is_plp_type}
use mssql_extension.Tds.RowReader.Read.{
  Value, read_chunks, read_date_type, read_datetime2_type, read_datetimeoffset_type,
  read_decimal_type, read_fixed, read_fixed_type, read_guid_type, read_nbc_prefix1,
  read_nullable_fixed_type, read_plp_type, read_prefix1, read_time_type, read_value, read_value_at,
  read_value_nbc, read_value_nbc_at, read_variable, read_variable_length_type,
}
use mssql_extension.Tds.RowReader.Skip.{
  RowError, skip_chunks, skip_fixed, skip_plp_type, skip_prefix1, skip_prefix2, skip_value,
  skip_value_at, skip_value_nbc, skip_variable,
}
use mssql_extension.Tds.RowReader.SkipBounds.{skip_value_nbc-eq-skip_value}
use mssql_extension.Tds.Types.{TypeId}

-- The read is no fault, and a result that it returns is of the length that the skip reports.
abbrev pub Agrees : Outcome RowError Value → Outcome RowError ℕ → Type 0
Agrees r s = Ensures (λ v. s ≡ ok v.consumed) r

read_fixed-Agrees : (w : ℕ) (buf : List ℕ) → Agrees (read_fixed w buf) (skip_fixed w buf)
unfolding read_fixed skip_fixed
read_fixed-Agrees w buf = ground (arith, read_bytes_total {E = RowError} w buf)

read_prefix1-Agrees : (buf : List ℕ) → Agrees (read_prefix1 buf) (skip_prefix1 buf)
unfolding read_prefix1 skip_prefix1
read_prefix1-Agrees buf = elim (read_u8_cases {E = RowError} buf) [
  | inl short ↦ ground arith
  | inr (long, (n, r)) ↦
      ground (arith, r, length-drop 1 buf, read_bytes_total {E = RowError} n (drop 1 buf))
]

read_nbc_prefix1-Agrees : (buf : List ℕ) → Agrees (read_nbc_prefix1 buf) (skip_prefix1 buf)
unfolding read_nbc_prefix1 skip_prefix1
read_nbc_prefix1-Agrees buf = elim (read_u8_cases {E = RowError} buf) [
  | inl short ↦ ground arith
  | inr (long, (n, r)) ↦
      ground (arith, r, length-drop 1 buf, read_bytes_total {E = RowError} n (drop 1 buf))
]

read_variable_length_type-Agrees :
    (buf : List ℕ) → Agrees (read_variable_length_type buf) (skip_prefix2 buf)
unfolding read_variable_length_type skip_prefix2
read_variable_length_type-Agrees buf = elim (read_u16_cases {E = RowError} buf) [
  | inl short ↦ ground arith
  | inr (long, (n, r)) ↦
      ground (arith, r, length-drop 2 buf, read_bytes_total {E = RowError} n (drop 2 buf))
]

-- The length byte of a GUID is 0 or 16, as the protocol has it.
abbrev pub GuidLength : List ℕ → Type 0
GuidLength buf = (n : ℕ) → read_u8 {E = RowError} buf ≡ ok n → (n ≡ 0) ⊎ (n ≡ 16)

read_guid_type-Agrees :
    (buf : List ℕ) → GuidLength buf → Agrees (read_guid_type buf) (skip_prefix1 buf)
unfolding read_guid_type skip_prefix1
read_guid_type-Agrees buf g = elim (read_u8_cases {E = RowError} buf) [
  | inl short ↦ ground arith
  | inr (long, (n, r)) ↦
      ground (arith, r, g n r, length-drop 1 buf, read_bytes_total {E = RowError} 16 (drop 1 buf))
]

read_chunks-Agrees :
    (fuel : ℕ) (rest : List ℕ) (offset : ℕ) (acc : List ℕ)
    → length rest < fuel
    → Agrees (read_chunks fuel rest offset acc) (skip_chunks fuel rest offset)
unfolding read_chunks skip_chunks
read_chunks-Agrees zero rest offset acc l = absurd (omega arith)
read_chunks-Agrees (suc fuel) rest offset acc l = elim (read_u32_cases {E = RowError} rest) [
  | inl short ↦ ground arith
  | inr (long, (n, r)) ↦ ground (
    arith,
    r,
    length-drop 4 rest,
    length-drop (4 + n) rest,
    read_bytes_total {E = RowError} n (drop 4 rest),
    read_chunks-Agrees fuel (drop (4 + n) rest) (offset + 4 + n) (acc ++ take n (drop 4 rest)),
  )
]

read_plp_type-Agrees : (buf : List ℕ) → Agrees (read_plp_type buf) (skip_plp_type buf)
unfolding read_plp_type skip_plp_type
read_plp_type-Agrees buf = elim (read_u64_cases {E = RowError} buf) [
  | inl short ↦ ground arith
  | inr (long, (n, r)) ↦
      ground (arith, r, length-drop 8 buf, read_chunks-Agrees (suc (length buf)) (drop 8 buf) 8 [])
]

read_variable-Agrees :
    (plp : Bool) (buf : List ℕ) → Agrees (read_variable plp buf) (skip_variable plp buf)
unfolding read_variable skip_variable
read_variable-Agrees true buf = read_plp_type-Agrees buf
read_variable-Agrees false buf = read_variable_length_type-Agrees buf

ruleset reads_agree = (
  read_fixed-Agrees, read_prefix1-Agrees, read_nbc_prefix1-Agrees, read_plp_type-Agrees,
  read_variable-Agrees,
)

-- Only the readers of fixed types, which `read_value_at` calls at those types.
read_value_at-Agrees :
    (t : TypeId) (plp : Bool) (buf : List ℕ)
    → (t ≡ TypeId.uniqueidentifier → GuidLength buf)
    → Agrees (read_value_at t plp buf) (skip_value_at t plp buf)
unfolding read_value_at skip_value_at read_fixed_type read_nullable_fixed_type read_decimal_type
    read_date_type read_time_type read_datetime2_type read_datetimeoffset_type
read_value_at-Agrees TypeId.null plp buf g = tt
read_value_at-Agrees TypeId.uniqueidentifier plp buf g = read_guid_type-Agrees buf (g refl)
read_value_at-Agrees _ plp buf g = first_of (search reads_agree, assumption tt)

-- Where ReadValue succeeds it takes the bytes that SkipValue skips, and it asks for more data where
-- SkipValue does. The length byte of a GUID has to be 0 or 16.
pub read_value-Agrees :
    (col : ColumnMetadata) (buf : List ℕ)
    → (col.type_id ≡ TypeId.uniqueidentifier → GuidLength buf)
    → Agrees (read_value col buf) (skip_value col buf)
unfolding read_value skip_value
read_value-Agrees col buf g = read_value_at-Agrees col.type_id (is_plp_type col) buf g

read_value_nbc_at-Agrees :
    (t : TypeId) (plp : Bool) (buf : List ℕ)
    → Agrees (read_value_nbc_at t plp buf) (skip_value_at t plp buf)
unfolding read_value_nbc_at skip_value_at read_fixed_type
read_value_nbc_at-Agrees TypeId.null plp buf = tt
read_value_nbc_at-Agrees _ plp buf = first_of (search reads_agree, assumption tt)

-- Where ReadValueNBC succeeds it takes the bytes that SkipValueNBC skips, and it asks for more data
-- where SkipValueNBC does, for every length byte.
pub read_value_nbc-Agrees :
    (col : ColumnMetadata) (buf : List ℕ) → Agrees (read_value_nbc col buf) (skip_value_nbc col buf)
unfolding read_value_nbc
read_value_nbc-Agrees col buf =
    rw (skip_value_nbc-eq-skip_value col buf)
      (unfold skip_value in read_value_nbc_at-Agrees col.type_id (is_plp_type col) buf)
