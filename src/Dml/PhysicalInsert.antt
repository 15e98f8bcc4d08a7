-- ===== src/Dml/PhysicalInsert.antt =====
-- src/dml/insert/mssql_physical_insert.cpp without RETURNING: DuckDB hands Sink the chunks one by one,
-- calls Finalize once, and takes the number of rows from GetData.
pub mod Sent
pub mod Waiting
pub mod Count
use mssql_extension.Prelude.{List, Outcome, [], fault, ok, throw, ℕ, ◌+◌, ◌∷◌}
use mssql_extension.Dml.InsertExecutor.{MssqlInsertExecutor, execute, finalize, new_insert_executor}
use mssql_extension.Dml.InsertTarget.{InsertError, MssqlInsertConfig, MssqlInsertTarget}
use mssql_extension.Dml.Text.{Text}
use mssql_extension.Tds.Parser.{chunk}

pub record InsertSink : Type 0 where
  pub executor : MssqlInsertExecutor
  pub total_rows_inserted : ℕ

module _ {Row : Type 0} (serialize_from_vector : Row → ℕ → Outcome InsertError Text)
    (execute_batch : Text → Outcome InsertError ℕ) where
  -- `gstate.total_rows_inserted += rows_inserted`
  unfoldable pub count_rows :
      InsertSink
      → MssqlInsertExecutor × Outcome InsertError ℕ
      → InsertSink × Outcome InsertError (Unit {0})
  count_rows state (executor, ok rows_inserted) = (
    record { executor = executor; total_rows_inserted = state.total_rows_inserted + rows_inserted },
    ok tt,
  )
  count_rows state (executor, throw e) = (record state { executor = executor }, throw e)
  count_rows state (executor, fault) = (record state { executor = executor }, fault)

  unfoldable pub sink : InsertSink → List Row → InsertSink × Outcome InsertError (Unit {0})
  unfolding count_rows
  sink state chunk =
      count_rows state (execute serialize_from_vector execute_batch state.executor chunk)

  -- what `Finalize` returns of its statement is dropped
  unfoldable pub drop_count :
      InsertSink
      → MssqlInsertExecutor × Outcome InsertError ℕ
      → InsertSink × Outcome InsertError (Unit {0})
  drop_count state (executor, ok affected) = (record state { executor = executor }, ok tt)
  drop_count state (executor, throw e) = (record state { executor = executor }, throw e)
  drop_count state (executor, fault) = (record state { executor = executor }, fault)

  unfoldable pub sink_finalize : InsertSink → InsertSink × Outcome InsertError (Unit {0})
  unfolding drop_count
  sink_finalize state =
      drop_count state (finalize serialize_from_vector execute_batch state.executor)

  -- the chunks of a statement in order, up to the first exception, and then `Finalize`
  unfoldable pub insert_chunks :
      InsertSink → List (List Row) → InsertSink × Outcome InsertError (Unit {0})
  insert_chunks state [] = sink_finalize state
  insert_chunks state (chunk ∷ chunks) =
      let after = sink state chunk in
      elim after.1 [
        | ok done ↦ insert_chunks after.0 chunks
        | throw e ↦ (after.0, throw e)
        | fault ↦ (after.0, fault)
      ]

  abbrev pub new_insert_sink : MssqlInsertTarget → MssqlInsertConfig → InsertSink
  new_insert_sink target config = record {
    executor = new_insert_executor target config;
    total_rows_inserted = 0;
  }
