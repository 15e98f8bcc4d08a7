-- ===== src/Dml/BatchBuilder.antt =====
-- src/dml/insert/mssql_batch_builder.cpp: rows gathered until a statement is full.
pub mod Size
pub mod Invariant
pub mod PushAll
use mssql_extension.Prelude.{
  Bool, List, Outcome, [], false, if◌then◌else◌, leb, length, ltb, ok, throw, true, ℕ, ◌&&◌, ◌++◌,
  ◌+◌, ◌-◌, ◌==◌, ◌>>=◌, ◌∷◌,
}
use mssql_extension.Dml.InsertStatement.{InsertCache, build, initialize_cache}
use mssql_extension.Dml.InsertTarget.{
  InsertError, MssqlInsertColumn, MssqlInsertConfig, MssqlInsertTarget,
  effective_rows_per_statement, get_column,
}
use mssql_extension.Dml.Text.{Text, codes}

pub record MssqlInsertBatch : Type 0 where
  pub row_offset_start : ℕ
  pub row_offset_end : ℕ
  pub row_count : ℕ
  pub sql_statement : Text
  pub sql_bytes : ℕ

pub record MssqlBatchBuilder : Type 0 where
  pub target : MssqlInsertTarget
  pub config : MssqlInsertConfig
  pub include_output_clause : Bool
  pub row_literals : List (List Text)
  pub current_sql_bytes : ℕ
  pub pending_row_count : ℕ
  pub current_row_offset : ℕ
  pub batch_count : ℕ
  pub base_sql_size : ℕ

-- what the OUTPUT clause adds to the size
unfoldable pub output_line_size : Text → ℕ
output_line_size [] = 0
output_line_size (c ∷ clause) = 1 + length (c ∷ clause)

unfoldable pub calculate_base_sql_size : InsertCache → ℕ
unfolding output_line_size
calculate_base_sql_size stmt =
    12
    + length stmt.cached_table_name
    + 2
    + length stmt.cached_column_list
    + 1
    + output_line_size stmt.cached_output_clause
    + 7
    + 1

unfoldable pub empty_builder :
    InsertCache → MssqlInsertTarget → MssqlInsertConfig → Bool → MssqlBatchBuilder
empty_builder stmt target config include_output_clause = record {
  target = target;
  config = config;
  include_output_clause = include_output_clause;
  row_literals = [];
  current_sql_bytes = calculate_base_sql_size stmt;
  pending_row_count = 0;
  current_row_offset = 0;
  batch_count = 0;
  base_sql_size = calculate_base_sql_size stmt;
}

unfoldable pub new_batch_builder :
    MssqlInsertTarget → MssqlInsertConfig → Bool → Outcome InsertError MssqlBatchBuilder
new_batch_builder target config include_output_clause = do
  stmt ← initialize_cache target include_output_clause
  ok (empty_builder stmt target config include_output_clause)

-- the loop over the literals, from the second on
unfoldable pub literals_size : List Text → ℕ
literals_size [] = 0
literals_size (literal ∷ literals) = 2 + length literal + literals_size literals

unfoldable pub estimate_row_size : List Text → ℕ
unfolding literals_size
estimate_row_size [] = 4 + 2
estimate_row_size (literal ∷ literals) = 4 + length literal + literals_size literals + 2

-- the row joins the batch
unfoldable pub push_literals : MssqlBatchBuilder → List Text → MssqlBatchBuilder
push_literals builder literals = record builder {
  row_literals = builder.row_literals ++ literals ∷ [];
  current_sql_bytes = builder.current_sql_bytes + estimate_row_size literals;
  pending_row_count = builder.pending_row_count + 1;
  current_row_offset = builder.current_row_offset + 1;
}

-- the rest of `AddRow`, once the row is serialized
unfoldable pub add_literals :
    MssqlBatchBuilder → List Text → Outcome InsertError (Bool × MssqlBatchBuilder)
add_literals builder literals =
    let row_sql_size = estimate_row_size literals in
    let max_sql_bytes = builder.config.max_sql_bytes in
    if ltb max_sql_bytes row_sql_size
    then throw (InsertError.row_too_large builder.current_row_offset max_sql_bytes)
    else if ltb max_sql_bytes (builder.current_sql_bytes + row_sql_size)
        && ltb 0 builder.pending_row_count
    then ok (false, builder)
    else if leb (effective_rows_per_statement builder.config) builder.pending_row_count
    then ok (false, builder)
    else ok (true, push_literals builder literals)

same_text : Text → Text → Bool
same_text [] [] = true
same_text (a ∷ s) (b ∷ t) = (a == b) && same_text s t
same_text _ _ = false

-- An XML literal that is larger than the server takes is rejected.
check_xml : MssqlInsertColumn → Text → Outcome InsertError Text
unfolding same_text
check_xml col literal =
    if same_text col.mssql_type (codes "xml") && ltb 4096 (length literal)
    then throw (InsertError.xml_too_large col.name (length literal))
    else ok literal

-- `serialize_from_vector row i` is `SerializeFromVector` of column `i` of the chunk at a row, at the column's type.
module _ {Row : Type 0} (serialize_from_vector : Row → ℕ → Outcome InsertError Text) where
  serialize_columns : List MssqlInsertColumn → List ℕ → Row → Outcome InsertError (List Text)
  unfolding check_xml
  serialize_columns columns [] row = ok []
  serialize_columns columns (i ∷ indices) row = do
    col ← get_column columns i
    value ← serialize_from_vector row i
    literal ← check_xml col value
    literals ← serialize_columns columns indices row
    ok (literal ∷ literals)

  unfoldable pub serialize_row : MssqlInsertTarget → Row → Outcome InsertError (List Text)
  unfolding serialize_columns
  serialize_row target row = serialize_columns target.columns target.insert_column_indices row

  unfoldable pub add_row : MssqlBatchBuilder → Row → Outcome InsertError (Bool × MssqlBatchBuilder)
  add_row builder row = do
    literals ← serialize_row builder.target row
    add_literals builder literals

unfoldable pub has_pending_rows : MssqlBatchBuilder → Bool
has_pending_rows builder = ltb 0 builder.pending_row_count

-- the batch that `FlushBatch` returns
unfoldable pub batch_of : InsertCache → MssqlBatchBuilder → MssqlInsertBatch
batch_of stmt builder = record {
  row_offset_start = builder.current_row_offset - builder.pending_row_count;
  row_offset_end = builder.current_row_offset;
  row_count = builder.pending_row_count;
  sql_statement = build stmt builder.row_literals;
  sql_bytes = length (build stmt builder.row_literals);
}

-- the builder that it leaves
unfoldable pub reset_batch : MssqlBatchBuilder → MssqlBatchBuilder
reset_batch builder = record builder {
  batch_count = builder.batch_count + 1;
  row_literals = [];
  current_sql_bytes = builder.base_sql_size;
  pending_row_count = 0;
}

unfoldable pub flush_batch :
    MssqlBatchBuilder → Outcome InsertError (MssqlInsertBatch × MssqlBatchBuilder)
flush_batch builder = do
  stmt ← initialize_cache builder.target builder.include_output_clause
  ok (batch_of stmt builder, reset_batch builder)
