-- ===== src/Dml/DeleteStatement/Built.antt =====
-- Build of a DELETE: what it throws, and what it writes.
use mssql_extension.Prelude.{
  All, Bool-cases, Ensures, List, Option, Outcome, [], ap, arith, fault, inl, inr, length, map,
  none, ok, refl, some, throw, true, ◌++◌, ◌<◌, ◌==◌, ◌>>=◌, ◌∷◌, ◌≡◌,
}
use mssql_extension.Dml.DeleteStatement.{
  MssqlDeleteTarget, assemble_delete, bracketed, bracketed_names, build_delete,
  generate_delete_clause, generate_on_clause, key_literals, key_row, key_rows, key_test,
}
use mssql_extension.Dml.DeleteStatement.Escape.{delete_escape_identifier-escape_identifier}
use mssql_extension.Dml.DmlBatch.{DmlError, MssqlDmlBatch, PkColumnInfo, is_valid, no_batch}
use mssql_extension.Dml.Text.{Text, codes, join}
use mssql_extension.Dml.ValueSerializer.{escape_identifier}
use mssql_extension.Dml.ValueSerializer.RoundTrip.{equal}

-- No fault: no read outside a vector, and no fuel that runs out.
abbrev pub Unfaulted : {A : Type 0} → Outcome DmlError A → Type 0
Unfaulted outcome = Ensures (λ a. Unit) outcome

pub bracketed-escape_identifier : (name : Text) → bracketed name ≡ ok (escape_identifier name)
unfolding bracketed
bracketed-escape_identifier name =
    ap (λ (escaped : Option Text). elim escaped [ none ↦ fault | some text ↦ ok text ])
      (delete_escape_identifier-escape_identifier name)

abbrev escaped_name : {Kind : Type 0} → PkColumnInfo Kind → Text
escaped_name col = escape_identifier col.name

pub bracketed_names-escaped_name :
    {Kind : Type 0} (columns : List (PkColumnInfo Kind))
    → bracketed_names columns ≡ ok (map escaped_name columns)
unfolding bracketed_names
bracketed_names-escaped_name [] = refl
bracketed_names-escaped_name (col ∷ columns) =
    rw (bracketed-escape_identifier col.name, bracketed_names-escaped_name columns)

Unfaulted-bind :
    {A B : Type 0} (first : Outcome DmlError A) (go_on : A → Outcome DmlError B)
    → Unfaulted first
    → ((a : A) → Unfaulted (go_on a))
    → Unfaulted (first >>= go_on)
Unfaulted-bind (ok a) go_on h k = k a
Unfaulted-bind (throw e) go_on h k = tt
Unfaulted-bind fault go_on h k = h

module _ {Datum Kind : Type 0} (serialize_value : Datum → Kind → Outcome DmlError Text)
    (serializes : (value : Datum) (kind : Kind) → Unfaulted (serialize_value value kind)) where
  key_literals-Unfaulted :
      (columns : List (PkColumnInfo Kind)) (row_pk : List Datum)
      → length row_pk ≡ length columns
      → Unfaulted (key_literals serialize_value columns row_pk)
  unfolding key_literals
  key_literals-Unfaulted [] row_pk same = tt
  key_literals-Unfaulted (col ∷ columns) [] same = absurd (omega arith)
  key_literals-Unfaulted (col ∷ columns) (value ∷ row_pk) same =
      Unfaulted-bind (serialize_value value col.duckdb_type) _ (serializes value col.duckdb_type)
        (λ literal.
          Unfaulted-bind (key_literals serialize_value columns row_pk) _
            (key_literals-Unfaulted columns row_pk (omega arith)) (λ literals. tt))

  key_row-Unfaulted :
      (columns : List (PkColumnInfo Kind)) (row_pk : List Datum)
      → Unfaulted (key_row serialize_value columns row_pk)
  unfolding key_row
  key_row-Unfaulted columns row_pk = elim (Bool-cases (length row_pk == length columns)) [
    | inl same ↦ rw (same) (
        Unfaulted-bind (key_literals serialize_value columns row_pk) _
          (key_literals-Unfaulted columns row_pk (equal (length row_pk) (length columns) same))
          (λ literals. tt))
    | inr other ↦ rw (other) tt
  ]

  key_rows-Unfaulted :
      (columns : List (PkColumnInfo Kind)) (pk_values : List (List Datum))
      → Unfaulted (key_rows serialize_value columns pk_values)
  unfolding key_rows
  key_rows-Unfaulted columns [] = tt
  key_rows-Unfaulted columns (row_pk ∷ pk_values) =
      Unfaulted-bind (key_row serialize_value columns row_pk) _ (key_row-Unfaulted columns row_pk)
        (λ row.
          Unfaulted-bind (key_rows serialize_value columns pk_values) _
            (key_rows-Unfaulted columns pk_values) (λ rows. tt))

  pub build_delete-Unfaulted :
      (target : MssqlDeleteTarget Kind) (pk_values : List (List Datum))
      → Unfaulted (build_delete serialize_value target pk_values)
  unfolding build_delete generate_delete_clause generate_on_clause
  build_delete-Unfaulted target [] = tt
  build_delete-Unfaulted target (row_pk ∷ pk_values) =
      Unfaulted-bind (key_rows serialize_value target.pk_columns (row_pk ∷ pk_values)) _
        (key_rows-Unfaulted target.pk_columns (row_pk ∷ pk_values))
        (λ rows.
          rw
            (
              bracketed_names-escaped_name target.pk_columns,
              bracketed-escape_identifier target.schema_name,
              bracketed-escape_identifier target.table_name,
            )
            tt)

  pub build_delete-none :
      (target : MssqlDeleteTarget Kind) → build_delete serialize_value target [] ≡ ok no_batch
  unfolding build_delete
  build_delete-none target = refl

module _ {Datum Kind : Type 0} (serialize_value : Datum → Kind → Outcome DmlError Text) where
  -- a key whose values can all be serialized, as many of them as the key has columns
  abbrev pub IsKey : List (PkColumnInfo Kind) → List Datum → Type 0
  IsKey columns row_pk = (text : Text) × (key_row serialize_value columns row_pk ≡ ok text)

  key_rows-ok :
      (columns : List (PkColumnInfo Kind)) (pk_values : List (List Datum))
      → All (IsKey columns) pk_values
      → (rows : List Text) × (key_rows serialize_value columns pk_values ≡ ok rows)
  unfolding key_rows
  key_rows-ok columns [] keys = ([], refl)
  key_rows-ok columns (row_pk ∷ pk_values) ((text, serialized), keys) =
      let (rows, others) = key_rows-ok columns pk_values keys in
      (text ∷ rows, rw (serialized, others))

  pub build_delete-ok :
      (target : MssqlDeleteTarget Kind) (pk_values : List (List Datum))
      → 0 < length pk_values
      → All (IsKey target.pk_columns) pk_values
      → (batch : MssqlDmlBatch) × (build_delete serialize_value target pk_values ≡ ok batch)
        × (is_valid batch ≡ true)
  unfolding build_delete generate_delete_clause generate_on_clause is_valid assemble_delete
  build_delete-ok target [] some_rows keys = absurd (omega arith)
  build_delete-ok target (row_pk ∷ pk_values) some_rows keys =
      let (rows, serialized) = key_rows-ok target.pk_columns (row_pk ∷ pk_values) keys in
      let names = map escaped_name target.pk_columns in
      let delete_clause =
        codes "DELETE t FROM "
        ++ escape_identifier target.schema_name
        ++ codes "."
        ++ escape_identifier target.table_name
        ++ codes " AS t" in
      let on_clause = codes "ON " ++ join (codes " AND ") (map key_test names) in
      (
        assemble_delete (length (row_pk ∷ pk_values)) rows names delete_clause on_clause,
        rw (
          serialized,
          bracketed_names-escaped_name target.pk_columns,
          bracketed-escape_identifier target.schema_name,
          bracketed-escape_identifier target.table_name,
        ),
        ground arith,
      )
