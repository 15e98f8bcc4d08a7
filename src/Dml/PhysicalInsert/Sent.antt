-- ===== src/Dml/PhysicalInsert/Sent.antt =====
-- A whole INSERT, from the first chunk to the last statement.
use mssql_extension.Prelude.{
  List, Outcome, [], ap, append-nil, append_assoc, false, fault, inl, ok, refl, subst, sym, throw,
  ℕ, ◌++◌, ◌+◌, ◌<◌, ◌∷◌, ◌≡◌,
}
use mssql_extension.Dml.InsertExecutor.{MssqlInsertExecutor, execute, finalize}
use mssql_extension.Dml.InsertExecutor.Delivery.{Divides, Serialized, concat}
use mssql_extension.Dml.InsertExecutor.Finish.{finalize-Finished}
use mssql_extension.Dml.InsertExecutor.Whole.{Ready, execute-Ready}
use mssql_extension.Dml.InsertStatement.{InsertCache, initialize_cache}
use mssql_extension.Dml.InsertTarget.{
  InsertError, MssqlInsertConfig, MssqlInsertTarget, effective_rows_per_statement,
}
use mssql_extension.Dml.PhysicalInsert.{
  InsertSink, count_rows, drop_count, insert_chunks, new_insert_sink, sink, sink_finalize,
}
use mssql_extension.Dml.Text.{Text}

-- Chunk by chunk, the literals of its rows.
abbrev pub SerializedChunks :
    {Row : Type 0}
    → (Row → ℕ → Outcome InsertError Text)
    → MssqlInsertTarget
    → MssqlInsertConfig
    → List (List Row)
    → List (List (List Text))
    → Type 0
SerializedChunks serialize_from_vector target config [] [] = Unit
SerializedChunks serialize_from_vector target config [] (given ∷ givens) = ⊥
SerializedChunks serialize_from_vector target config (input_chunk ∷ chunks) [] = ⊥
SerializedChunks serialize_from_vector target config (input_chunk ∷ chunks) (given ∷ givens) =
    Serialized serialize_from_vector target config input_chunk given
    × SerializedChunks serialize_from_vector target config chunks givens

-- The INSERT ends without an exception, and every row is in a statement that was sent.
abbrev pub AllSent :
    InsertCache
    → MssqlInsertConfig
    → List (List Text)
    → InsertSink × Outcome InsertError (Unit {0})
    → Type 0
AllSent stmt config given result =
    (result.1 ≡ ok tt) × Divides stmt config result.0.executor.sent [] given

module _ {Row : Type 0} (serialize_from_vector : Row → ℕ → Outcome InsertError Text)
    (execute_batch : Text → Outcome InsertError ℕ)
    (runs : (sql : Text) → (n : ℕ) × (execute_batch sql ≡ ok n)) where
  pub drop_count-ok :
      (state : InsertSink) (result : MssqlInsertExecutor × Outcome InsertError ℕ) (n : ℕ)
      → result.1 ≡ ok n
      → drop_count serialize_from_vector execute_batch state result
        ≡ (record state { executor = result.0 }, ok tt)
  unfolding drop_count
  drop_count-ok state (executor, outcome) n ends = rw (ends)

  pub count_rows-ok :
      (state : InsertSink) (result : MssqlInsertExecutor × Outcome InsertError ℕ) (n : ℕ)
      → result.1 ≡ ok n
      → count_rows serialize_from_vector execute_batch state result ≡ (
        record { executor = result.0; total_rows_inserted = state.total_rows_inserted + n },
        ok tt,
      )
  unfolding count_rows
  count_rows-ok state (executor, outcome) n ends = rw (ends)

  pub insert_chunks-cons :
      (state after : InsertSink) (input_chunk : List Row) (chunks : List (List Row))
      → sink serialize_from_vector execute_batch state input_chunk ≡ (after, ok tt)
      → insert_chunks serialize_from_vector execute_batch state (input_chunk ∷ chunks)
        ≡ insert_chunks serialize_from_vector execute_batch after chunks
  unfolding insert_chunks
  insert_chunks-cons state after input_chunk chunks sinks =
      ap
        (λ (p : InsertSink × Outcome InsertError (Unit {0})). elim p.1 [
          | ok done ↦ insert_chunks serialize_from_vector execute_batch p.0 chunks
          | throw e ↦ (p.0, throw e)
          | fault ↦ (p.0, fault)
        ])
        sinks

  module _ (stmt : InsertCache) where
    sink_finalize-AllSent :
        (state : InsertSink) (given : List (List Text))
        → Ready stmt state.executor given
        → AllSent stmt state.executor.config given
            (sink_finalize serialize_from_vector execute_batch state)
    unfolding sink_finalize
    sink_finalize-AllSent state given ready =
        let ((affected, ends), sent) =
          finalize-Finished serialize_from_vector execute_batch runs stmt state.executor given
            ready in
        subst (AllSent stmt state.executor.config given)
          (sym (
            drop_count-ok state (finalize serialize_from_vector execute_batch state.executor)
              affected ends))
          (refl, sent)

    insert_chunks-AllSent :
        (state : InsertSink) (given : List (List Text)) (chunks : List (List Row))
        (more : List (List (List Text)))
        → 0 < effective_rows_per_statement state.executor.config
        → Ready stmt state.executor given
        → SerializedChunks serialize_from_vector state.executor.target state.executor.config chunks
            more
        → AllSent stmt state.executor.config
            (given ++ concat more)
            (insert_chunks serialize_from_vector execute_batch state chunks)
    unfolding insert_chunks sink
    insert_chunks-AllSent state given [] [] some_rows ready all =
        subst
          (λ g.
            AllSent stmt state.executor.config g
              (sink_finalize serialize_from_vector execute_batch state))
          (sym (append-nil given)) (sink_finalize-AllSent state given ready)
    insert_chunks-AllSent state given [] (l ∷ more) some_rows ready all = absurd all
    insert_chunks-AllSent state given (input_chunk ∷ chunks) [] some_rows ready all = absurd all
    insert_chunks-AllSent state given (input_chunk ∷ chunks) (literals ∷ more) some_rows ready
          (first, rest) =
        let (total, ends, after_ready, same_target, same_config) =
          execute-Ready serialize_from_vector execute_batch runs stmt state.executor given literals
            input_chunk some_rows ready first in
        let result = execute serialize_from_vector execute_batch state.executor input_chunk in
        let after : InsertSink = record {
          executor = result.0;
          total_rows_inserted = state.total_rows_inserted + total;
        } in
        let remaining =
          insert_chunks-AllSent after (given ++ literals) chunks more
            (subst (λ c. 0 < effective_rows_per_statement c) (sym same_config) some_rows)
            after_ready
            (subst (λ c. SerializedChunks serialize_from_vector result.0.target c chunks more)
              (sym same_config)
              (subst
                (λ t. SerializedChunks serialize_from_vector t state.executor.config chunks more)
                (sym same_target) rest)) in
        subst (AllSent stmt state.executor.config (given ++ concat (literals ∷ more)))
          (sym (
            insert_chunks-cons state after input_chunk chunks
              (count_rows-ok state result total ends)))
          (subst
            (λ g.
              AllSent stmt state.executor.config g
                (insert_chunks serialize_from_vector execute_batch after chunks))
            (append_assoc given literals (concat more))
            (subst
              (λ c.
                AllSent stmt c ((given ++ literals) ++ concat more)
                  (insert_chunks serialize_from_vector execute_batch after chunks))
              same_config remaining))

    -- An INSERT whose rows can all be serialized, none of them larger alone than the limit, against a
    -- server that executes each statement, ends without an exception, and what was sent are the
    -- INSERT statements for a division of all its rows, in order, into batches: each has a row, no
    -- more rows than the limit allows, and a text shorter than the limit unless it is one row.
    pub insert_chunks-Divides :
        (target : MssqlInsertTarget) (config : MssqlInsertConfig) (chunks : List (List Row))
        (given : List (List (List Text)))
        → 0 < effective_rows_per_statement config
        → initialize_cache target false ≡ ok stmt
        → SerializedChunks serialize_from_vector target config chunks given
        → AllSent stmt config (concat given) (
            insert_chunks serialize_from_vector execute_batch
              (new_insert_sink serialize_from_vector execute_batch target config)
              chunks)
    insert_chunks-Divides target config chunks given some_rows cached serialized =
        insert_chunks-AllSent (new_insert_sink serialize_from_vector execute_batch target config) []
          chunks given some_rows
          (record { unfinished = refl; cached = cached; begun = inl (refl, refl, refl) }) serialized
