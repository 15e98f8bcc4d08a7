-- ===== src/Dml/InsertExecutor.antt =====
-- src/dml/insert/mssql_insert_executor.cpp: the rows of an INSERT, sent statement by statement.
pub mod Delivery
pub mod Loop
pub mod Whole
pub mod Finish
use mssql_extension.Prelude.{
  Bool, List, Option, Outcome, [], false, fault, if◌then◌else◌, none, not, ok, some, throw, true, ℕ,
  ◌&&◌, ◌++◌, ◌+◌, ◌>>=◌, ◌∷◌,
}
use mssql_extension.Dml.BatchBuilder.{
  MssqlBatchBuilder, MssqlInsertBatch, add_row, flush_batch, has_pending_rows, new_batch_builder,
}
use mssql_extension.Dml.InsertTarget.{InsertError, MssqlInsertConfig, MssqlInsertTarget}
use mssql_extension.Dml.Text.{Text}

-- `sent` is what has gone to the server so far, in its order.
pub record MssqlInsertExecutor : Type 0 where
  pub target : MssqlInsertTarget
  pub config : MssqlInsertConfig
  pub batch_builder : Option MssqlBatchBuilder
  pub finalized : Bool
  pub sent : List Text

abbrev pub new_insert_executor : MssqlInsertTarget → MssqlInsertConfig → MssqlInsertExecutor
new_insert_executor target config = record {
  target = target;
  config = config;
  batch_builder = none;
  finalized = false;
  sent = [];
}

unfoldable pub ensure_batch_builder :
    MssqlInsertExecutor → Bool → Outcome InsertError MssqlBatchBuilder
ensure_batch_builder executor with_output = elim executor.batch_builder [
  | some builder ↦ ok builder
  | none ↦ new_batch_builder executor.target executor.config with_output
]

-- A loop's state when it ends, however it ends, with its value or its exception.
pub record Run (A : Type 0) : Type 0 where
  pub builder : MssqlBatchBuilder
  pub log : List Text
  pub outcome : Outcome InsertError A

-- Goes on with the value, or stops in the state reached.
abbrev pub settle :
    {A B : Type 0} → MssqlBatchBuilder → List Text → Outcome InsertError A → (A → Run B) → Run B
settle builder log (ok a) go_on = go_on a
settle builder log (throw e) go_on = record { builder = builder; log = log; outcome = throw e }
settle builder log fault go_on = record { builder = builder; log = log; outcome = fault }

-- `serialize_from_vector` is as for the batch builder; `execute_batch sql` is what comes of sending a
-- statement: the number of rows affected, or an exception.
module _ {Row : Type 0} (serialize_from_vector : Row → ℕ → Outcome InsertError Text)
    (execute_batch : Text → Outcome InsertError ℕ) where
  -- `if (!batch_builder_->AddRow(…)) { throw … }`, once the full batch is gone
  unfoldable pub add_again : MssqlBatchBuilder → Row → Outcome InsertError MssqlBatchBuilder
  add_again builder row = do
    (added, after) ← add_row serialize_from_vector builder row
    if added then ok after else throw InsertError.failed_to_add_row

  unfoldable pub flush_and_add : MssqlBatchBuilder → List Text → Row → Run ℕ
  flush_and_add builder log row = settle builder log (flush_batch builder) (λ (batch, emptied).
      let sent = log ++ batch.sql_statement ∷ [] in
      settle emptied sent (execute_batch batch.sql_statement) (λ affected.
        settle emptied sent (add_again emptied row)
          (λ after. record { builder = after; log = sent; outcome = ok affected })))

  unfoldable pub insert_row : MssqlBatchBuilder → List Text → Row → Run ℕ
  insert_row builder log row =
      settle builder log (add_row serialize_from_vector builder row) (λ (added, after).
        if added
        then record { builder = after; log = log; outcome = ok 0 }
        else flush_and_add after log row)

  unfoldable pub insert_rows : MssqlBatchBuilder → List Text → List Row → ℕ → Run ℕ
  insert_rows builder log [] total = record { builder = builder; log = log; outcome = ok total }
  insert_rows builder log (row ∷ rows) total =
      let run = insert_row builder log row in
      settle run.builder run.log run.outcome
        (λ affected. insert_rows run.builder run.log rows (total + affected))

  unfoldable pub execute :
      MssqlInsertExecutor → List Row → MssqlInsertExecutor × Outcome InsertError ℕ
  execute executor input_chunk =
      if executor.finalized
      then (executor, throw InsertError.called_after_finalize)
      else elim (ensure_batch_builder executor false) [
        | ok builder ↦
            let run = insert_rows builder executor.sent input_chunk 0 in
            (record executor { batch_builder = some run.builder; sent = run.log }, run.outcome)
        | throw e ↦ (executor, throw e)
        | fault ↦ (executor, fault)
      ]

  -- the batch of the rows that are left goes to the server
  unfoldable pub send_batch :
      MssqlInsertExecutor
      → Outcome InsertError (MssqlInsertBatch × MssqlBatchBuilder)
      → MssqlInsertExecutor × Outcome InsertError ℕ
  send_batch executor (ok (batch, emptied)) = (
    record executor {
      batch_builder = some emptied;
      sent = executor.sent ++ batch.sql_statement ∷ [];
    },
    execute_batch batch.sql_statement,
  )
  send_batch executor (throw e) = (executor, throw e)
  send_batch executor fault = (executor, fault)

  -- the value is the number of rows the last statement affected, which the code drops
  unfoldable pub finalize : MssqlInsertExecutor → MssqlInsertExecutor × Outcome InsertError ℕ
  finalize executor =
      if executor.finalized
      then (executor, ok 0)
      else let closed = record executor { finalized = true } in
        elim executor.batch_builder [
          | none ↦ (closed, ok 0)
          | some builder ↦
              if has_pending_rows builder
              then send_batch closed (flush_batch builder)
              else (closed, ok 0)
        ]

  -- the destructor: what `Finalize` throws is ignored
  unfoldable pub destroy : MssqlInsertExecutor → MssqlInsertExecutor
  destroy executor = elim executor.batch_builder [
    | none ↦ executor
    | some builder ↦
        if not executor.finalized && has_pending_rows builder
        then (finalize executor).0
        else executor
  ]
