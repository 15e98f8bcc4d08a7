-- ===== src/Dml/InsertTarget.antt =====
-- src/include/dml/insert: the target table of an INSERT, the limits on its batches, and what it throws.
-- A column's type in DuckDB stands with the serializer, which alone reads it.
use mssql_extension.Prelude.{
  List, Outcome, [], fault, if◌then◌else◌, ltb, ok, suc, throw, zero, ℕ, ◌∷◌,
}
use mssql_extension.Dml.Text.{Text}

pub record MssqlInsertColumn : Type 0 where
  pub name : Text
  pub mssql_type : Text

pub record MssqlInsertTarget : Type 0 where
  pub schema_name : Text
  pub table_name : Text
  pub columns : List MssqlInsertColumn
  pub insert_column_indices : List ℕ
  pub returning_column_indices : List ℕ

pub record MssqlInsertConfig : Type 0 where
  pub batch_size : ℕ
  pub max_rows_per_statement : ℕ
  pub max_sql_bytes : ℕ

pub data InsertError : Type 0 where
  bad_batch_size : ℕ → InsertError
  bad_max_rows : ℕ → InsertError
  bad_max_sql_bytes : ℕ → InsertError
  xml_too_large : Text → ℕ → InsertError
  row_too_large : ℕ → ℕ → InsertError
  called_after_finalize : InsertError
  failed_to_add_row : InsertError
  execution_failed : Text → InsertError

-- `columns[i]`: an index past the end is a read outside the vector
unfoldable pub get_column : List MssqlInsertColumn → ℕ → Outcome InsertError MssqlInsertColumn
get_column [] i = fault
get_column (col ∷ columns) zero = ok col
get_column (col ∷ columns) (suc i) = get_column columns i

-- `std::min(batch_size, max_rows_per_statement)`
unfoldable pub effective_rows_per_statement : MssqlInsertConfig → ℕ
effective_rows_per_statement config =
    if ltb config.max_rows_per_statement config.batch_size
    then config.max_rows_per_statement
    else config.batch_size

abbrev pub min_insert_sql_bytes : ℕ
min_insert_sql_bytes = 1024

unfoldable pub validate : MssqlInsertConfig → Outcome InsertError (Unit {0})
validate config =
    if ltb config.batch_size 1
    then throw (InsertError.bad_batch_size config.batch_size)
    else if ltb config.max_rows_per_statement 1
    then throw (InsertError.bad_max_rows config.max_rows_per_statement)
    else if ltb config.max_sql_bytes min_insert_sql_bytes
    then throw (InsertError.bad_max_sql_bytes config.max_sql_bytes)
    else ok tt
