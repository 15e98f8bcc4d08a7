-- ===== src/Dml/DeleteStatement.antt =====
-- src/dml/delete/mssql_delete_statement.cpp: the text of a DELETE.
pub mod Escape
pub mod Built
use mssql_extension.Prelude.{
  List, Option, Outcome, [], fault, if◌then◌else◌, length, map, none, ok, some, suc, throw, zero, ℕ,
  ◌++◌, ◌==◌, ◌>>=◌, ◌∷◌,
}
use mssql_extension.Dml.DmlBatch.{DmlError, MssqlDmlBatch, PkColumnInfo, no_batch}
use mssql_extension.Dml.Text.{Text, codes, join}

-- the text before the first closing bracket and the text after it: `escaped.find(']', pos)`
unfoldable pub find_bracket : Text → Option (Text × Text)
find_bracket [] = none
find_bracket (c ∷ text) =
    let rest = find_bracket text in
    if c == b']'
    then some ([], text)
    else elim rest [ none ↦ none | some (before, after) ↦ some (c ∷ before, after) ]

-- The loop, at the position behind `passed`; `none` means that the fuel has run out.
unfoldable pub double_brackets : ℕ → Text → Text → Option Text
unfolding find_bracket
double_brackets zero passed rest = none
double_brackets (suc n) passed rest =
    let found = find_bracket rest in
    elim found [
      | none ↦ some (passed ++ rest)
      | some (before, after) ↦ double_brackets n (passed ++ before ++ codes "]]") after
    ]

in_brackets : Option Text → Option Text
in_brackets none = none
in_brackets (some escaped) = some (codes "[" ++ escaped ++ codes "]")

unfoldable pub delete_escape_identifier : Text → Option Text
unfolding double_brackets in_brackets
delete_escape_identifier identifier =
    in_brackets (double_brackets (suc (length identifier)) [] identifier)

pub record MssqlDeleteTarget (Kind : Type 0) : Type 0 where
  pub schema_name : Text
  pub table_name : Text
  pub pk_columns : List (PkColumnInfo Kind)

-- the escaped name; the fuel of its loop does not run out
unfoldable pub bracketed : Text → Outcome DmlError Text
unfolding delete_escape_identifier
bracketed name =
    let escaped = delete_escape_identifier name in
    elim escaped [ none ↦ fault | some text ↦ ok text ]

unfoldable pub bracketed_names :
    {Kind : Type 0} → List (PkColumnInfo Kind) → Outcome DmlError (List Text)
unfolding bracketed
bracketed_names [] = ok []
bracketed_names (col ∷ columns) = do
  name ← bracketed col.name
  names ← bracketed_names columns
  ok (name ∷ names)

unfoldable pub generate_delete_clause :
    {Kind : Type 0} → MssqlDeleteTarget Kind → Outcome DmlError Text
unfolding bracketed
generate_delete_clause target = do
  schema ← bracketed target.schema_name
  table ← bracketed target.table_name
  ok (codes "DELETE t FROM " ++ schema ++ codes "." ++ table ++ codes " AS t")

unfoldable pub key_test : Text → Text
key_test col = codes "t." ++ col ++ codes " = v." ++ col

unfoldable pub generate_on_clause : {Kind : Type 0} → MssqlDeleteTarget Kind → Outcome DmlError Text
unfolding bracketed_names key_test
generate_on_clause target = do
  names ← bracketed_names target.pk_columns
  ok (codes "ON " ++ join (codes " AND ") (map key_test names))

-- the whole statement, from the texts of the rows, the names of the key and the two clauses
unfoldable pub assemble_delete : ℕ → List Text → List Text → Text → Text → MssqlDmlBatch
assemble_delete row_count rows names delete_clause on_clause = record {
  row_count = row_count;
  sql =
      delete_clause
      ++ codes " JOIN ("
      ++ (codes "VALUES " ++ join (codes ", ") rows)
      ++ codes ")"
      ++ (codes " AS v(" ++ join (codes ", ") names ++ codes ")")
      ++ codes " "
      ++ on_clause;
}

-- `serialize_value value kind` is `MSSQLValueSerializer::Serialize`.
module _ {Datum Kind : Type 0} (serialize_value : Datum → Kind → Outcome DmlError Text) where
  unfoldable pub key_literals : List (PkColumnInfo Kind) → List Datum → Outcome DmlError (List Text)
  key_literals [] row_pk = ok []
  key_literals (col ∷ columns) [] = fault
  key_literals (col ∷ columns) (value ∷ row_pk) = do
    literal ← serialize_value value col.duckdb_type
    literals ← key_literals columns row_pk
    ok (literal ∷ literals)

  -- the literals of a row, as many as the key has columns
  unfoldable pub key_row : List (PkColumnInfo Kind) → List Datum → Outcome DmlError Text
  unfolding key_literals
  key_row columns row_pk =
      let row = (do
        literals ← key_literals columns row_pk
        ok (codes "(" ++ join (codes ", ") literals ++ codes ")")) in
      if length row_pk == length columns
      then row
      else throw (DmlError.pk_count_mismatch (length columns) (length row_pk))

  unfoldable pub key_rows :
      List (PkColumnInfo Kind) → List (List Datum) → Outcome DmlError (List Text)
  unfolding key_row
  key_rows columns [] = ok []
  key_rows columns (row_pk ∷ pk_values) = do
    row ← key_row columns row_pk
    rows ← key_rows columns pk_values
    ok (row ∷ rows)

  unfoldable pub build_delete :
      MssqlDeleteTarget Kind → List (List Datum) → Outcome DmlError MssqlDmlBatch
  unfolding key_rows bracketed_names generate_delete_clause generate_on_clause assemble_delete
  build_delete target [] = ok no_batch
  build_delete target (row_pk ∷ pk_values) = do
    rows ← key_rows target.pk_columns (row_pk ∷ pk_values)
    names ← bracketed_names target.pk_columns
    delete_clause ← generate_delete_clause target
    on_clause ← generate_on_clause target
    ok (assemble_delete (length (row_pk ∷ pk_values)) rows names delete_clause on_clause)
