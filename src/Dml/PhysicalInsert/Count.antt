-- ===== src/Dml/PhysicalInsert/Count.antt =====
-- The number of rows that an INSERT reports.
use mssql_extension.Prelude.{
  List, Outcome, [], ap, arith, false, length, length-append, none, ok, refl, some, subst, sym,
  true, ℕ, ◌+◌, ◌<◌, ◌∙◌, ◌∷◌, ◌≡◌, ◌≤◌,
}
use mssql_extension.Dml.BatchBuilder.{
  MssqlBatchBuilder, batch_of, calculate_base_sql_size, empty_builder, reset_batch,
}
use mssql_extension.Dml.BatchBuilder.Invariant.{new_batch_builder-ok}
use mssql_extension.Dml.BatchBuilder.PushAll.{
  has_pending_rows-true, push_all, push_all-append, push_all-config, push_all-flush_batch,
  push_all-pending, push_all-row_literals, push_all-sql_bytes, push_all-target,
}
use mssql_extension.Dml.BatchBuilder.Size.{sizes, sizes-all}
use mssql_extension.Dml.InsertExecutor.{ensure_batch_builder, new_insert_executor}
use mssql_extension.Dml.InsertExecutor.Delivery.{concat}
use mssql_extension.Dml.InsertExecutor.Finish.{finalize-rest}
use mssql_extension.Dml.InsertStatement.{InsertCache, build, initialize_cache}
use mssql_extension.Dml.InsertTarget.{
  InsertError, MssqlInsertConfig, MssqlInsertTarget, effective_rows_per_statement,
}
use mssql_extension.Dml.PhysicalInsert.{
  InsertSink, drop_count, insert_chunks, new_insert_sink, sink_finalize,
}
use mssql_extension.Dml.PhysicalInsert.Sent.{SerializedChunks, drop_count-ok, insert_chunks-cons}
use mssql_extension.Dml.PhysicalInsert.Waiting.{chunks-push, sink-push, waiting}
use mssql_extension.Dml.Text.{Text}

module _ {Row : Type 0} (serialize_from_vector : Row → ℕ → Outcome InsertError Text)
    (execute_batch : Text → Outcome InsertError ℕ)
    (runs : (sql : Text) → (n : ℕ) × (execute_batch sql ≡ ok n)) where
  module _ (target : MssqlInsertTarget) (config : MssqlInsertConfig) (stmt : InsertCache)
      (cached : initialize_cache target false ≡ ok stmt) where
    abbrev empty : MssqlBatchBuilder
    empty = empty_builder stmt target config false

    -- the first chunk makes the builder
    all_waiting :
        (chunks : List (List Row)) (given : List (List (List Text)))
        → SerializedChunks serialize_from_vector target config chunks given
        → 0 < length (concat given)
        → length (concat given) ≤ effective_rows_per_statement config
        → calculate_base_sql_size stmt + sizes (concat given) ≤ config.max_sql_bytes
        → insert_chunks serialize_from_vector execute_batch
            (new_insert_sink serialize_from_vector execute_batch target config)
            chunks
          ≡ sink_finalize serialize_from_vector execute_batch (
              waiting serialize_from_vector execute_batch runs target config
                (some (push_all empty (concat given))))
    unfolding ensure_batch_builder empty_builder
    all_waiting [] [] all some_rows room small = absurd (omega arith)
    all_waiting [] (first ∷ given) all some_rows room small = absurd all
    all_waiting (rows ∷ chunks) [] all some_rows room small = absurd all
    all_waiting (rows ∷ chunks) (first ∷ given) (here, all) some_rows room small =
        let lengths = length-append first (concat given) in
        let bytes = sizes-all first (concat given) in
        insert_chunks-cons serialize_from_vector execute_batch runs
          (new_insert_sink serialize_from_vector execute_batch target config)
          (waiting serialize_from_vector execute_batch runs target config
            (some (push_all empty first)))
          rows chunks
          (sink-push serialize_from_vector execute_batch runs target config none empty rows first
            (new_batch_builder-ok stmt target config false cached) here (omega (arith, lengths))
            (omega (arith, bytes)))
        ∙ chunks-push serialize_from_vector execute_batch runs target config (push_all empty first)
            chunks given (push_all-target empty first) (push_all-config empty first) all
            (omega (arith, lengths, push_all-pending empty first))
            (omega (arith, bytes, push_all-sql_bytes empty first))
        ∙ ap
            (λ b.
              sink_finalize serialize_from_vector execute_batch
                (waiting serialize_from_vector execute_batch runs target config (some b)))
            (sym (push_all-append empty first (concat given)))

    -- the flush in Finalize, and what it adds to the count
    waiting-finalize :
        (given : List (List Text)) (n : ℕ)
        → 0 < length given
        → execute_batch (build stmt (push_all empty given).row_literals) ≡ ok n
        → sink_finalize serialize_from_vector execute_batch (
            waiting serialize_from_vector execute_batch runs target config
              (some (push_all empty given)))
          ≡ (
            record {
              executor = record (new_insert_executor target config) {
                finalized = true;
                batch_builder = some (reset_batch (push_all empty given));
                sent = build stmt (push_all empty given).row_literals ∷ [];
              };
              total_rows_inserted = 0;
            },
            ok tt,
          )
    unfolding sink_finalize batch_of empty_builder
    waiting-finalize given n some_rows executes =
        let filled = push_all empty given in
        let held = waiting serialize_from_vector execute_batch runs target config (some filled) in
        ap (drop_count serialize_from_vector execute_batch held) (
          finalize-rest serialize_from_vector execute_batch runs held.executor filled
            (reset_batch filled) (batch_of stmt filled) refl refl
            (has_pending_rows-true filled (omega (arith, push_all-pending empty given)))
            (push_all-flush_batch stmt empty given cached))
        ∙ drop_count-ok serialize_from_vector execute_batch runs held
            (
              record held.executor {
                finalized = true;
                batch_builder = some (reset_batch filled);
                sent = build stmt filled.row_literals ∷ [];
              },
              execute_batch (build stmt filled.row_literals),
            )
            n executes

  -- However the rows of an INSERT are cut into chunks, when there are rows, they can all be
  -- serialized, none of them larger alone than the limit, they all fit in one statement, and the
  -- server executes each statement: that one statement is sent, nothing is thrown, and the number of
  -- rows that the INSERT reports is 0, whatever number the server answers, since the flush in
  -- Finalize is not counted.
  pub insert_chunks-one_statement :
      (target : MssqlInsertTarget) (config : MssqlInsertConfig) (stmt : InsertCache)
      (chunks : List (List Row)) (given : List (List (List Text)))
      → initialize_cache target false ≡ ok stmt
      → SerializedChunks serialize_from_vector target config chunks given
      → 0 < length (concat given)
      → length (concat given) ≤ effective_rows_per_statement config
      → calculate_base_sql_size stmt + sizes (concat given) ≤ config.max_sql_bytes
      → (let result =
            insert_chunks serialize_from_vector execute_batch
              (new_insert_sink serialize_from_vector execute_batch target config)
              chunks in
          (result.1 ≡ ok tt)
          × (result.0.executor.sent ≡ build stmt (concat given) ∷ [])
          × (result.0.total_rows_inserted ≡ 0))
  unfolding empty_builder
  insert_chunks-one_statement target config stmt chunks given cached all some_rows room small =
      let filled = push_all (empty_builder stmt target config false) (concat given) in
      let (n, executes) = runs (build stmt filled.row_literals) in
      subst
        (λ (r : InsertSink × Outcome InsertError (Unit {0})).
          (r.1 ≡ ok tt)
          × (r.0.executor.sent ≡ build stmt (concat given) ∷ [])
          × (r.0.total_rows_inserted ≡ 0))
        (sym (
          all_waiting target config stmt cached chunks given all some_rows room small
          ∙ waiting-finalize target config stmt cached (concat given) n some_rows executes))
        (
          refl,
          ap (λ t. build stmt t ∷ [])
              (push_all-row_literals (empty_builder stmt target config false) (concat given)),
          refl,
        )
