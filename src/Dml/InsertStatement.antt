-- ===== src/Dml/InsertStatement.antt =====
-- src/dml/insert/mssql_insert_statement.cpp: the text of an INSERT.
pub mod Read
pub mod Names
use mssql_extension.Prelude.{Bool, List, Outcome, [], false, map, ok, true, ℕ, ◌++◌, ◌>>=◌, ◌∷◌}
use mssql_extension.Dml.InsertTarget.{InsertError, MssqlInsertColumn, MssqlInsertTarget, get_column}
use mssql_extension.Dml.Text.{Text, codes, join}
use mssql_extension.Dml.ValueSerializer.{escape_identifier}

pub record InsertCache : Type 0 where
  pub cached_table_name : Text
  pub cached_column_list : Text
  pub cached_output_clause : Text

-- the escaped names of the columns with the indices, `before` in front of each
unfoldable pub quote_columns :
    Text → List MssqlInsertColumn → List ℕ → Outcome InsertError (List Text)
quote_columns before columns [] = ok []
quote_columns before columns (i ∷ indices) = do
  col ← get_column columns i
  names ← quote_columns before columns indices
  ok ((before ++ escape_identifier col.name) ∷ names)

unfoldable pub output_clause_for : Bool → MssqlInsertTarget → List ℕ → Outcome InsertError Text
unfolding quote_columns
output_clause_for false target indices = ok []
output_clause_for true target [] = ok []
output_clause_for true target (i ∷ indices) = do
  names ← quote_columns (codes "INSERTED.") target.columns (i ∷ indices)
  ok (codes "OUTPUT " ++ join (codes ", ") names)

unfoldable pub initialize_cache : MssqlInsertTarget → Bool → Outcome InsertError InsertCache
unfolding quote_columns output_clause_for
initialize_cache target include_output = do
  names ← quote_columns [] target.columns target.insert_column_indices
  output_clause ← output_clause_for include_output target target.returning_column_indices
  ok (record {
    cached_table_name =
        escape_identifier target.schema_name ++ codes "." ++ escape_identifier target.table_name;
    cached_column_list = join (codes ", ") names;
    cached_output_clause = output_clause;
  })

-- `"\n  (" … ")"`
unfoldable pub row_text : List Text → Text
row_text row = codes "\n  (" ++ join (codes ", ") row ++ codes ")"

unfoldable pub output_line : Text → Text
output_line [] = []
output_line (c ∷ clause) = codes "\n" ++ c ∷ clause

unfoldable pub build : InsertCache → List (List Text) → Text
unfolding output_line
build cache row_literals =
    codes "INSERT INTO "
    ++ cache.cached_table_name
    ++ codes " ("
    ++ cache.cached_column_list
    ++ codes ")"
    ++ output_line cache.cached_output_clause
    ++ codes "\nVALUES"
    ++ join (codes ",") (map row_text row_literals)
    ++ codes ";"
