-- ===== src/Tds/RowReader/SkipBounds.antt =====
-- The skipping walks of src/tds/tds_row_reader.cpp on any bytes: what they read and how far they go.
use mssql_extension.Prelude.{
  Bool, Ensures, List, Outcome, arith, drop, false, inl, inr, length, length-drop, refl, suc, true,
  zero, ℕ, ◌+◌, ◌<◌, ◌≡◌, ◌≤◌,
}
use mssql_extension.Tds.Bytes.Stable.{
  read_u16_total, read_u32_cases, read_u32_total, read_u64_cases, read_u8_cases, read_u8_total,
}
use mssql_extension.Tds.ColumnMetadata.{ColumnMetadata, is_plp_type}
use mssql_extension.Tds.RowReader.Skip.{
  RowError, is_slow, resolve_form_at, resolve_skip_form, skip_by_form, skip_chunks, skip_fixed,
  skip_form, skip_lob, skip_plp_type, skip_prefix1, skip_prefix2, skip_value, skip_value_at,
  skip_value_nbc, skip_value_nbc_at, skip_variable,
}
use mssql_extension.Tds.RowReader.SkipRow.{skip_fast}
use mssql_extension.Tds.Types.{TypeId}

abbrev pub Within : List ℕ → Outcome RowError ℕ → Type 0
Within buf r = Ensures (λ n. n ≤ length buf) r

skip_fixed-Within : (w : ℕ) (buf : List ℕ) → Within buf (skip_fixed w buf)
unfolding skip_fixed
skip_fixed-Within w buf = ground arith

skip_prefix1-Within : (buf : List ℕ) → Within buf (skip_prefix1 buf)
unfolding skip_prefix1
skip_prefix1-Within buf = ground (arith, read_u8_total {E = RowError} buf)

skip_prefix2-Within : (buf : List ℕ) → Within buf (skip_prefix2 buf)
unfolding skip_prefix2
skip_prefix2-Within buf = ground (arith, read_u16_total {E = RowError} buf)

skip_lob-Within : (buf : List ℕ) → Within buf (skip_lob buf)
unfolding skip_lob
skip_lob-Within buf = elim (read_u8_cases {E = RowError} buf) [
  | inl short ↦ ground arith
  | inr (long, (p, e)) ↦ rw e (
      ground
        (arith, read_u32_total {E = RowError} (drop (1 + p + 8) buf), length-drop (1 + p + 8) buf))
]

skip_chunks-Within :
    (fuel : ℕ) (buf rest : List ℕ) (offset : ℕ)
    → length rest < fuel
    → length buf ≡ offset + length rest
    → Within buf (skip_chunks fuel rest offset)
unfolding skip_chunks
skip_chunks-Within zero buf rest offset h e = absurd (omega arith)
skip_chunks-Within (suc fuel) buf rest offset h e = elim (read_u32_cases {E = RowError} rest) [
  | inl short ↦ ground arith
  | inr (long, (n, r)) ↦ rw r (
      ground (
        arith,
        length-drop (4 + n) rest,
        skip_chunks-Within fuel buf (drop (4 + n) rest) (offset + 4 + n),
      ))
]

skip_plp_type-Within : (buf : List ℕ) → Within buf (skip_plp_type buf)
unfolding skip_plp_type
skip_plp_type-Within buf = elim (read_u64_cases {E = RowError} buf) [
  | inl short ↦ ground arith
  | inr (long, (n, r)) ↦
      rw r (
        ground (arith, length-drop 8 buf, skip_chunks-Within (suc (length buf)) buf (drop 8 buf) 8))
]

skip_variable-Within : (plp : Bool) (buf : List ℕ) → Within buf (skip_variable plp buf)
unfolding skip_variable
skip_variable-Within true buf = skip_plp_type-Within buf
skip_variable-Within false buf = skip_prefix2-Within buf

ruleset skip_bounds = (
  skip_fixed-Within, skip_prefix1-Within, skip_prefix2-Within, skip_lob-Within,
  skip_plp_type-Within, skip_variable-Within,
)

skip_value_at-Within :
    (t : TypeId) (plp : Bool) (buf : List ℕ) → Within buf (skip_value_at t plp buf)
unfolding skip_value_at
skip_value_at-Within TypeId.null plp buf = omega arith
skip_value_at-Within _ plp buf = first_of (search skip_bounds, omega arith)

-- One value is skipped without a read past the buffer, and no value reaches past it.
pub skip_value-Within : (col : ColumnMetadata) (buf : List ℕ) → Within buf (skip_value col buf)
unfolding skip_value
skip_value-Within col buf = skip_value_at-Within col.type_id (is_plp_type col) buf

skip_value_nbc_at-eq :
    (t : TypeId) (plp : Bool) (buf : List ℕ) → skip_value_nbc_at t plp buf ≡ skip_value_at t plp buf
unfolding skip_value_at skip_value_nbc_at
skip_value_nbc_at-eq TypeId.null plp buf = refl
skip_value_nbc_at-eq _ plp buf = refl

-- A value of an NBCROW that is not NULL is framed as in a ROW.
pub skip_value_nbc-eq-skip_value :
    (col : ColumnMetadata) (buf : List ℕ) → skip_value_nbc col buf ≡ skip_value col buf
unfolding skip_value skip_value_nbc
skip_value_nbc-eq-skip_value col buf = skip_value_nbc_at-eq col.type_id (is_plp_type col) buf

skip_by_form-at :
    (t : TypeId) (plp : Bool) (buf : List ℕ)
    → is_slow (resolve_form_at t plp).form ≡ false
    → skip_by_form (resolve_form_at t plp) buf ≡ skip_value_at t plp buf
unfolding resolve_form_at is_slow skip_by_form skip_form skip_value_at skip_fixed skip_prefix1
    skip_prefix2 skip_variable
skip_by_form-at TypeId.null plp buf h = cc
skip_by_form-at TypeId.bigchar true buf h = cc
skip_by_form-at TypeId.bigvarchar true buf h = cc
skip_by_form-at TypeId.nchar true buf h = cc
skip_by_form-at TypeId.nvarchar true buf h = cc
skip_by_form-at TypeId.bigbinary true buf h = cc
skip_by_form-at TypeId.bigvarbinary true buf h = cc
skip_by_form-at _ _ buf h = cc

pub skip_by_form-eq :
    (col : ColumnMetadata) (buf : List ℕ)
    → is_slow (resolve_skip_form col).form ≡ false
    → skip_by_form (resolve_skip_form col) buf ≡ skip_value col buf
unfolding resolve_skip_form skip_value
skip_by_form-eq col buf h = skip_by_form-at col.type_id (is_plp_type col) buf h

-- The fast walk of a column is the switch on its type, whatever the bytes.
pub skip_fast-eq-skip_value :
    (col : ColumnMetadata) (buf : List ℕ)
    → skip_fast col (resolve_skip_form col) buf ≡ skip_value col buf
unfolding skip_fast resolve_skip_form skip_value
skip_fast-eq-skip_value col buf = ground (arith, skip_by_form-at col.type_id (is_plp_type col) buf)
