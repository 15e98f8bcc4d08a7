-- ===== src/Dml/PhysicalInsert/Waiting.antt =====
-- Chunks whose rows all wait for the flush in Finalize.
use mssql_extension.Prelude.{
  List, Option, Outcome, [], ap, arith, false, length, length-append, ok, refl, some, subst, sym,
  true, ℕ, ◌+◌, ◌∙◌, ◌∷◌, ◌≡◌, ◌≤◌,
}
use mssql_extension.Dml.BatchBuilder.{
  MssqlBatchBuilder, add_literals, add_row, push_literals, serialize_row,
}
use mssql_extension.Dml.BatchBuilder.PushAll.{
  add_literals-fits, push_all, push_all-append, push_all-config, push_all-pending,
  push_all-sql_bytes, push_all-target,
}
use mssql_extension.Dml.BatchBuilder.Size.{sizes, sizes-all}
use mssql_extension.Dml.InsertExecutor.{
  Run, ensure_batch_builder, insert_row, insert_rows, new_insert_executor,
}
use mssql_extension.Dml.InsertExecutor.Delivery.{Serialized, concat}
use mssql_extension.Dml.InsertExecutor.Whole.{execute-runs}
use mssql_extension.Dml.InsertTarget.{
  InsertError, MssqlInsertConfig, MssqlInsertTarget, effective_rows_per_statement,
}
use mssql_extension.Dml.PhysicalInsert.{InsertSink, count_rows, insert_chunks, sink, sink_finalize}
use mssql_extension.Dml.PhysicalInsert.Sent.{SerializedChunks, count_rows-ok, insert_chunks-cons}
use mssql_extension.Dml.Text.{Text}

module _ {Row : Type 0} (serialize_from_vector : Row → ℕ → Outcome InsertError Text)
    (execute_batch : Text → Outcome InsertError ℕ)
    (runs : (sql : Text) → (n : ℕ) × (execute_batch sql ≡ ok n)) where
  insert_row-push :
      (builder : MssqlBatchBuilder) (log : List Text) (row : Row) (literals : List Text)
      → serialize_row serialize_from_vector builder.target row ≡ ok literals
      → add_literals builder literals ≡ ok (true, push_literals builder literals)
      → insert_row serialize_from_vector execute_batch builder log row
        ≡ record { builder = push_literals builder literals; log = log; outcome = ok 0 }
  unfolding insert_row add_row
  insert_row-push builder log row literals serialized adds = rw (serialized, adds)

  insert_rows-push_all :
      (builder : MssqlBatchBuilder) (log : List Text) (rows : List Row) (more : List (List Text))
      → Serialized serialize_from_vector builder.target builder.config rows more
      → builder.pending_row_count + length more ≤ effective_rows_per_statement builder.config
      → builder.current_sql_bytes + sizes more ≤ builder.config.max_sql_bytes
      → insert_rows serialize_from_vector execute_batch builder log rows 0
        ≡ record { builder = push_all builder more; log = log; outcome = ok 0 }
  unfolding insert_rows push_all push_literals sizes
  insert_rows-push_all builder log [] [] serialized room small = refl
  insert_rows-push_all builder log [] (l ∷ more) serialized room small = absurd serialized
  insert_rows-push_all builder log (row ∷ rows) [] serialized room small = absurd serialized
  insert_rows-push_all builder log (row ∷ rows) (literals ∷ more) (first, alone, rest) room small =
      let step =
        insert_row-push builder log row literals first
          (add_literals-fits builder literals (omega arith) (omega arith)) in
      rw (step) (
        insert_rows-push_all (push_literals builder literals) log rows more rest (omega arith)
          (omega arith))

  module _ (target : MssqlInsertTarget) (config : MssqlInsertConfig) where
    -- the operator's state while it has sent nothing
    abbrev pub waiting : Option MssqlBatchBuilder → InsertSink
    waiting held = record {
      executor = record (new_insert_executor target config) { batch_builder = held; sent = [] };
      total_rows_inserted = 0;
    }

    -- whether or not the builder has been made
    pub sink-push :
        (held : Option MssqlBatchBuilder) (builder : MssqlBatchBuilder) (rows : List Row)
        (given : List (List Text))
        → ensure_batch_builder (waiting held).executor false ≡ ok builder
        → Serialized serialize_from_vector builder.target builder.config rows given
        → builder.pending_row_count + length given ≤ effective_rows_per_statement builder.config
        → builder.current_sql_bytes + sizes given ≤ builder.config.max_sql_bytes
        → sink serialize_from_vector execute_batch (waiting held) rows
          ≡ (waiting (some (push_all builder given)), ok tt)
    unfolding sink
    sink-push held builder rows given ensured serialized room small =
        ap (count_rows serialize_from_vector execute_batch (waiting held)) (
          execute-runs serialize_from_vector execute_batch runs (waiting held).executor builder rows
            refl ensured
          ∙ ap
              (λ (run : Run ℕ). (
                record (waiting held).executor { batch_builder = some run.builder; sent = run.log },
                run.outcome,
              ))
              (insert_rows-push_all builder [] rows given serialized room small))
        ∙ count_rows-ok serialize_from_vector execute_batch runs (waiting held)
            ((waiting (some (push_all builder given))).executor, ok 0) 0 refl

    pub chunks-push :
        (builder : MssqlBatchBuilder) (chunks : List (List Row)) (given : List (List (List Text)))
        → builder.target ≡ target
        → builder.config ≡ config
        → SerializedChunks serialize_from_vector target config chunks given
        → builder.pending_row_count + length (concat given) ≤ effective_rows_per_statement config
        → builder.current_sql_bytes + sizes (concat given) ≤ config.max_sql_bytes
        → insert_chunks serialize_from_vector execute_batch (waiting (some builder)) chunks
          ≡ sink_finalize serialize_from_vector execute_batch
              (waiting (some (push_all builder (concat given))))
    unfolding insert_chunks push_all ensure_batch_builder
    chunks-push builder [] [] et ec all room small = refl
    chunks-push builder [] (first ∷ given) et ec all room small = absurd all
    chunks-push builder (rows ∷ chunks) [] et ec all room small = absurd all
    chunks-push builder (rows ∷ chunks) (first ∷ given) et ec (here, all) room small =
        let lengths = length-append first (concat given) in
        let bytes = sizes-all first (concat given) in
        insert_chunks-cons serialize_from_vector execute_batch runs (waiting (some builder))
          (waiting (some (push_all builder first))) rows chunks
          (sink-push (some builder) builder rows first refl
            (subst (λ t. Serialized serialize_from_vector t builder.config rows first) (sym et)
              (subst (λ c. Serialized serialize_from_vector target c rows first) (sym ec) here))
            (omega (arith, lengths, ap effective_rows_per_statement ec))
            (omega (arith, bytes, ap (λ (c : MssqlInsertConfig). c.max_sql_bytes) ec)))
        ∙ chunks-push (push_all builder first) chunks given (push_all-target builder first ∙ et)
            (push_all-config builder first ∙ ec) all
            (omega (arith, lengths, push_all-pending builder first))
            (omega (arith, bytes, push_all-sql_bytes builder first))
        ∙ ap (λ b. sink_finalize serialize_from_vector execute_batch (waiting (some b)))
            (sym (push_all-append builder first (concat given)))
