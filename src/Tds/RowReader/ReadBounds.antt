-- ===== src/Tds/RowReader/ReadBounds.antt =====
-- ReadRow and ReadNBCRow of src/tds/tds_row_reader.cpp on any bytes: what they read and how far they go.
use mssql_extension.Prelude.{
  Bool, Bool-cases, Ensures, Ensures-cases, List, Option, Outcome, [], arith, drop, fault, inl, inr,
  length, length-drop, none, ok, refl, some, throw, ℕ, ◌+◌, ◌==◌, ◌∷◌, ◌≡◌, ◌≢◌, ◌≤◌, ◌⊎◌,
}
use mssql_extension.Tds.Bytes.Stable.{read_bytes_total, read_u8_cases}
use mssql_extension.Tds.ColumnMetadata.{ColumnMetadata}
use mssql_extension.Tds.RowReader.Agreement.{Agrees, read_value-Agrees}
use mssql_extension.Tds.RowReader.AgreementRows.{RowAgrees, read_nbc_row-agrees}
use mssql_extension.Tds.RowReader.Read.{Value, read_guid_type, read_value, read_value_at}
use mssql_extension.Tds.RowReader.ReadRow.{
  RowData, RowResult, read_columns, read_nbc_row, read_past, read_row, with_column,
}
use mssql_extension.Tds.RowReader.Skip.{RowError, skip_value}
use mssql_extension.Tds.RowReader.SkipBounds.{Within, skip_value-Within}
use mssql_extension.Tds.RowReader.SkipRows.{FitsIn, skip_nbc_row-FitsIn}
use mssql_extension.Tds.Types.{TypeId}

abbrev pub ReadsWithin : List ℕ → Outcome RowError Value → Type 0
ReadsWithin buf r = Ensures (λ v. v.consumed ≤ length buf) r

Agrees-Within :
    (buf : List ℕ) (r : Outcome RowError Value) (s : Outcome RowError ℕ)
    → Agrees r s
    → Within buf s
    → ReadsWithin buf r
Agrees-Within buf (ok v) s a w = rw a at w
Agrees-Within buf (throw e) s a w = tt
Agrees-Within buf fault s a w = a

read_guid_type-within : (buf : List ℕ) → ReadsWithin buf (read_guid_type buf)
unfolding read_guid_type
read_guid_type-within buf = elim (read_u8_cases {E = RowError} buf) [
  | inl short ↦ ground arith
  | inr (long, (n, r)) ↦
      ground (arith, r, length-drop 1 buf, read_bytes_total {E = RowError} 16 (drop 1 buf))
]

not_guid : (t : TypeId) → (t ≡ TypeId.uniqueidentifier) ⊎ (t ≢ TypeId.uniqueidentifier)
not_guid TypeId.uniqueidentifier = inl refl
not_guid _ = inr (λ p. cc)

-- One value is read without a read past the buffer.
pub read_value-within : (col : ColumnMetadata) (buf : List ℕ) → ReadsWithin buf (read_value col buf)
read_value-within col buf = elim (not_guid col.type_id) [
  | inl g ↦ unfold read_value read_value_at in rw g (read_guid_type-within buf)
  | inr h ↦
      Agrees-Within buf (read_value col buf) (skip_value col buf)
        (read_value-Agrees col buf (λ g. absurd (h g))) (skip_value-Within col buf)
]

abbrev pub RowFits : List ℕ → Option (ℕ × RowData) → Type 0
RowFits buf none = Unit {0}
RowFits buf (some (n, row)) = n ≤ length buf

RowFits-with_column :
    (buf v : List ℕ) (b : Bool) (r : RowResult)
    → Ensures (RowFits buf) r
    → Ensures (RowFits buf) (with_column v b r)
RowFits-with_column buf v b (ok none) h = h
RowFits-with_column buf v b (ok (some (n, row))) h = h
RowFits-with_column buf v b (throw e) h = h
RowFits-with_column buf v b fault h = h

RowFits-past :
    (buf : List ℕ) (n : ℕ) (r : RowResult)
    → Ensures (RowFits buf) r
    → Ensures (RowFits buf) (read_past n r)
RowFits-past buf n r h = elim (Bool-cases (n == 0)) [ inl e ↦ rw e tt | inr e ↦ rw e h ]

read_columns-within :
    (buf : List ℕ) (cols : List ColumnMetadata) (rest : List ℕ) (offset : ℕ)
    → length buf ≡ offset + length rest
    → Ensures (RowFits buf) (read_columns cols rest offset)
unfolding read_columns
read_columns-within buf [] rest offset e = omega arith
read_columns-within buf (col ∷ cols) rest offset e =
    elim (Ensures-cases _ (read_value col rest) (read_value-within col rest)) [
      | inl (v, r, le) ↦ rw r (
          RowFits-past buf v.consumed _ (
            RowFits-with_column buf v.value v.is_null _ (
              read_columns-within buf cols (drop v.consumed rest) (offset + v.consumed)
                (omega (arith, length-drop v.consumed rest)))))
      | inr (x, r) ↦ rw r tt
    ]

-- ReadRow reads nothing past the buffer, ends, and takes no more bytes than there are, for any columns
-- and any bytes, malformed GUIDs included.
pub read_row-within :
    (cols : List ColumnMetadata) (buf : List ℕ) → Ensures (RowFits buf) (read_row cols buf)
unfolding read_row
read_row-within cols buf = read_columns-within buf cols buf 0 (omega arith)

RowAgrees-within :
    (buf : List ℕ) (r : RowResult) (s : Outcome RowError (Option ℕ))
    → RowAgrees r s
    → FitsIn buf s
    → Ensures (RowFits buf) r
RowAgrees-within buf (ok none) s a w = tt
RowAgrees-within buf (ok (some (n, row))) s a w = rw a at w
RowAgrees-within buf (throw e) s a w = tt
RowAgrees-within buf fault s a w = a

-- ReadNBCRow reads nothing past the buffer, ends, and takes no more bytes than there are, for any columns
-- and any bytes.
pub read_nbc_row-within :
    (cols : List ColumnMetadata) (buf : List ℕ) → Ensures (RowFits buf) (read_nbc_row cols buf)
read_nbc_row-within cols buf =
    RowAgrees-within buf _ _ (read_nbc_row-agrees cols buf) (skip_nbc_row-FitsIn cols buf)
