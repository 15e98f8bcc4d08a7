-- ===== src/Dml/InsertExecutor/Finish.antt =====
-- Finalize sends what is left, and every row given has been sent.
use mssql_extension.Prelude.{
  Bool-cases, List, Outcome, [], arith, false, inl, inr, length-zero, none, ok, refl, some, subst,
  sym, true, ℕ, ◌++◌, ◌<◌, ◌∙◌, ◌∷◌, ◌≡◌,
}
use mssql_extension.Dml.BatchBuilder.{
  MssqlBatchBuilder, MssqlInsertBatch, batch_of, flush_batch, has_pending_rows, reset_batch,
}
use mssql_extension.Dml.BatchBuilder.Invariant.{flush_batch-ok}
use mssql_extension.Dml.InsertExecutor.{MssqlInsertExecutor, finalize, send_batch}
use mssql_extension.Dml.InsertExecutor.Delivery.{Divides}
use mssql_extension.Dml.InsertExecutor.Loop.{Holds-flush}
use mssql_extension.Dml.InsertExecutor.Whole.{Ready}
use mssql_extension.Dml.InsertStatement.{InsertCache, build}
use mssql_extension.Dml.InsertTarget.{InsertError, MssqlInsertConfig}
use mssql_extension.Dml.Text.{Text}

has_pending_rows-some :
    (builder : MssqlBatchBuilder) → has_pending_rows builder ≡ true → 0 < builder.pending_row_count
unfolding has_pending_rows
has_pending_rows-some builder h = ground arith

has_pending_rows-none :
    (builder : MssqlBatchBuilder) → has_pending_rows builder ≡ false → builder.pending_row_count ≡ 0
unfolding has_pending_rows
has_pending_rows-none builder h = ground arith

module _ {Row : Type 0} (serialize_from_vector : Row → ℕ → Outcome InsertError Text)
    (execute_batch : Text → Outcome InsertError ℕ)
    (runs : (sql : Text) → (n : ℕ) × (execute_batch sql ≡ ok n)) where
  finalize-none :
      (executor : MssqlInsertExecutor)
      → executor.finalized ≡ false
      → executor.batch_builder ≡ none
      → finalize serialize_from_vector execute_batch executor
        ≡ (record executor { finalized = true }, ok 0)
  unfolding finalize
  finalize-none executor unfinished unbuilt = simp (unfinished, unbuilt)

  finalize-empty :
      (executor : MssqlInsertExecutor) (builder : MssqlBatchBuilder)
      → executor.finalized ≡ false
      → executor.batch_builder ≡ some builder
      → has_pending_rows builder ≡ false
      → finalize serialize_from_vector execute_batch executor
        ≡ (record executor { finalized = true }, ok 0)
  unfolding finalize
  finalize-empty executor builder unfinished present empty = simp (unfinished, present, empty)

  pub finalize-rest :
      (executor : MssqlInsertExecutor) (builder emptied : MssqlBatchBuilder)
      (batch : MssqlInsertBatch)
      → executor.finalized ≡ false
      → executor.batch_builder ≡ some builder
      → has_pending_rows builder ≡ true
      → flush_batch builder ≡ ok (batch, emptied)
      → finalize serialize_from_vector execute_batch executor ≡ (
        record executor {
          finalized = true;
          batch_builder = some emptied;
          sent = executor.sent ++ batch.sql_statement ∷ [];
        },
        execute_batch batch.sql_statement,
      )
  unfolding finalize send_batch
  finalize-rest executor builder emptied batch unfinished present waiting flushes =
      simp (unfinished, present, waiting, flushes)

  -- what Finalize leaves: no exception, and every row given in a statement that was sent
  abbrev pub Finished :
      InsertCache
      → MssqlInsertConfig
      → List (List Text)
      → MssqlInsertExecutor × Outcome InsertError ℕ
      → Type 0
  Finished stmt config given result =
      ((affected : ℕ) × (result.1 ≡ ok affected)) × Divides stmt config result.0.sent [] given

  pub finalize-Finished :
      (stmt : InsertCache) (executor : MssqlInsertExecutor) (given : List (List Text))
      → Ready stmt executor given
      → Finished stmt executor.config given (finalize serialize_from_vector execute_batch executor)
  unfolding has_pending_rows batch_of reset_batch
  finalize-Finished stmt executor given ready = elim ready.begun [
    | inl (unbuilt, unsent, ungiven) ↦
        subst (Finished stmt executor.config given)
          (sym (finalize-none executor ready.unfinished unbuilt))
          ((0, refl), record { parts = []; texts = unsent; whole = sym ungiven; batches = tt })
    | inr (builder, present, holds) ↦ elim (Bool-cases (has_pending_rows builder)) [
      | inl waiting ↦
          let sql = build stmt builder.row_literals in
          subst (Finished stmt executor.config given)
            (sym (
              finalize-rest executor builder (reset_batch builder) (batch_of stmt builder)
                ready.unfinished present waiting (flush_batch-ok stmt builder holds.inv)))
            (
              runs sql,
              (Holds-flush stmt executor.target executor.config builder executor.sent given holds
                  (has_pending_rows-some builder waiting)).divides,
            )
      | inr empty ↦
          subst (Finished stmt executor.config given)
            (sym (finalize-empty executor builder ready.unfinished present empty))
            (
              (0, refl),
              subst (λ rows. Divides stmt executor.config executor.sent rows given)
                  (length-zero builder.row_literals
                    (sym holds.inv.counted ∙ has_pending_rows-none builder empty))
                  holds.divides,
            )
    ]
  ]
