-- ===== src/Dml/DeleteExecutor/Ends.antt =====
-- The loop of Finalize ends, whatever the size of a batch.
use mssql_extension.Prelude.{
  Bool-cases, Ensures, List, Outcome, [], ap, arith, drop, fault, inl, inr, length, length-drop, ok,
  subst, suc, sym, take, throw, true, zero, ℕ, ◌+◌, ◌<◌, ◌∙◌, ◌∷◌, ◌≡◌, ◌≤◌, ◌⊎◌,
}
use mssql_extension.Dml.DeleteExecutor.{
  MssqlDeleteExecutor, drain_deletes, execute_built, finalize_delete, flush_rows, if_pending,
  rows_to_process, send_delete, unless_failed,
}
use mssql_extension.Dml.DmlBatch.{DmlError, MssqlDmlBatch, MssqlDmlResult, is_valid, no_batch}
use mssql_extension.Dml.Text.{Text}
use native.Mathlib.Decide.{dec_lt}

abbrev pub Done : {A : Type 0} → Outcome DmlError A → Type 0
Done outcome = Ensures (λ a. Unit) outcome

rows_to_process-none : (p : ℕ) → 0 < p → rows_to_process p 0 ≡ 0
unfolding rows_to_process
rows_to_process-none p h = ground arith

pub rows_to_process-some : (p e : ℕ) → 0 < p → 0 < e → 0 < rows_to_process p e
unfolding rows_to_process
rows_to_process-some p e h k = ground arith

module _ {Key : Type 0} where
  -- a flush that succeeds leaves fewer than `n` rows, and none faults
  abbrev pub Goes : ℕ → MssqlDeleteExecutor Key × Outcome DmlError MssqlDmlResult → Type 0
  Goes n (executor, ok (MssqlDmlResult.success affected number)) =
      length executor.pending_pk_values < n
  Goes n (executor, ok (MssqlDmlResult.failure message number)) = Unit
  Goes n (executor, throw e) = Unit
  Goes n (executor, fault) = ⊥

  module _ (build_statement : List (List Key) → Outcome DmlError MssqlDmlBatch)
      (server : Text → ℕ ⊎ Text)
      (builds : (rows : List (List Key)) → Ensures (λ batch. Unit) (build_statement rows))
      (builds_none : build_statement [] ≡ ok no_batch) where
    send_delete-Goes :
        (n : ℕ) (executor : MssqlDeleteExecutor Key) (sql : Text) (answer : ℕ ⊎ Text)
        → length executor.pending_pk_values < n
        → Goes n (send_delete build_statement server executor sql answer)
    unfolding send_delete
    send_delete-Goes n executor sql (inl affected) fewer = fewer
    send_delete-Goes n executor sql (inr message) fewer = tt

    execute_built-Goes :
        (n : ℕ) (executor : MssqlDeleteExecutor Key) (built : Outcome DmlError MssqlDmlBatch)
        → Ensures (λ batch. Unit) built
        → length executor.pending_pk_values < n
        → Goes n (execute_built build_statement server executor built)
    unfolding execute_built
    execute_built-Goes n executor (ok batch) unfaulted fewer = elim (Bool-cases (is_valid batch)) [
      | inl valid ↦ rw (valid) (send_delete-Goes n executor batch.sql (server batch.sql) fewer)
      | inr invalid ↦ rw (invalid) tt
    ]
    execute_built-Goes n executor (throw e) unfaulted fewer = tt
    execute_built-Goes n executor fault unfaulted fewer = absurd unfaulted

    execute_built-none :
        (n : ℕ) (executor : MssqlDeleteExecutor Key)
        → Goes n (execute_built build_statement server executor (ok no_batch))
    unfolding execute_built is_valid
    execute_built-none n executor = tt

    none_processed :
        (executor : MssqlDeleteExecutor Key)
        → 0 < length executor.pending_pk_values
        → executor.effective_size ≡ 0
        → rows_to_process (length executor.pending_pk_values) executor.effective_size ≡ 0
    none_processed executor some_rows unsized =
        ap (rows_to_process (length executor.pending_pk_values)) unsized
        ∙ rows_to_process-none (length executor.pending_pk_values) some_rows

    flush_rows-Goes :
        (executor : MssqlDeleteExecutor Key)
        → 0 < length executor.pending_pk_values
        → Goes (length executor.pending_pk_values) (flush_rows build_statement server executor)
    unfolding flush_rows
    flush_rows-Goes executor some_rows =
        let waiting = executor.pending_pk_values in
        let n = rows_to_process (length waiting) executor.effective_size in
        let left = record executor {
          deleted_batches = executor.deleted_batches + 1;
          pending_pk_values = drop n waiting;
        } in
        elim (dec_lt 0 executor.effective_size) [
          | yes sizeable ↦
              execute_built-Goes (length waiting) left (build_statement (take n waiting))
                (builds (take n waiting))
                (omega (
                  arith,
                  length-drop n waiting,
                  rows_to_process-some (length waiting) executor.effective_size some_rows sizeable,
                ))
          | no unsized ↦
              subst
                (λ (k : ℕ). Goes (length waiting) (
                  execute_built build_statement server
                    (record executor {
                      deleted_batches = executor.deleted_batches + 1;
                      pending_pk_values = drop k waiting;
                    })
                    (build_statement (take k waiting))))
                (sym (none_processed executor some_rows (omega arith)))
                (rw (builds_none) (
                  execute_built-none (length waiting) (record executor {
                    deleted_batches = executor.deleted_batches + 1;
                    pending_pk_values = drop 0 waiting;
                  })))
        ]

    unless_failed-Done :
        (n : ℕ) (flushed : MssqlDeleteExecutor Key × Outcome DmlError MssqlDmlResult)
        → Goes n flushed
        → ((executor : MssqlDeleteExecutor Key)
            → length executor.pending_pk_values < n
            → Done (drain_deletes build_statement server n executor).1)
        → Done
            (unless_failed build_statement server
              (drain_deletes build_statement server n)
              flushed).1
    unless_failed-Done n (executor, ok (MssqlDmlResult.success affected number)) fewer following =
        following executor fewer
    unless_failed-Done n (executor, ok (MssqlDmlResult.failure message number)) fewer following = tt
    unless_failed-Done n (executor, throw e) fewer following = tt
    unless_failed-Done n (executor, fault) fewer following = absurd fewer

    Goes-weaken :
        (m n : ℕ) (flushed : MssqlDeleteExecutor Key × Outcome DmlError MssqlDmlResult)
        → m ≤ n
        → Goes m flushed
        → Goes n flushed
    Goes-weaken m n (executor, ok (MssqlDmlResult.success affected number)) more goes = omega arith
    Goes-weaken m n (executor, ok (MssqlDmlResult.failure message number)) more goes = tt
    Goes-weaken m n (executor, throw e) more goes = tt
    Goes-weaken m n (executor, fault) more goes = goes

    if_pending-cases :
        {A : Type 0} (P : A → Type 0) (rows : List (List Key)) (more empty : A)
        → (0 < length rows → P more)
        → P empty
        → P (if_pending rows more empty)
    if_pending-cases P [] more empty some_rows no_rows = no_rows
    if_pending-cases P (row ∷ rows) more empty some_rows no_rows = some_rows (omega arith)

    drain_deletes-Done :
        (n : ℕ) (executor : MssqlDeleteExecutor Key)
        → length executor.pending_pk_values < n
        → Done (drain_deletes build_statement server n executor).1
    unfolding drain_deletes
    drain_deletes-Done zero executor enough = absurd (omega arith)
    drain_deletes-Done (suc n) executor enough =
        if_pending-cases
          (λ (r : MssqlDeleteExecutor Key × Outcome DmlError MssqlDmlResult). Done r.1)
          executor.pending_pk_values
          (unless_failed build_statement server (drain_deletes build_statement server n)
            (flush_rows build_statement server executor))
          (
            executor,
            ok (MssqlDmlResult.success executor.total_rows_deleted executor.deleted_batches),
          )
          (λ some_rows.
            unless_failed-Done n (flush_rows build_statement server executor)
              (Goes-weaken (length executor.pending_pk_values) n
                (flush_rows build_statement server executor) (omega arith)
                (flush_rows-Goes executor some_rows))
              (drain_deletes-Done n))
          tt

    pub finalize_delete-Done :
        (executor : MssqlDeleteExecutor Key)
        → Done (finalize_delete build_statement server executor).1
    unfolding finalize_delete
    finalize_delete-Done executor = elim (Bool-cases executor.finalized) [
      | inl closed ↦ simp (closed) tt
      | inr unclosed ↦ simp (unclosed) (
          drain_deletes-Done (suc (length executor.pending_pk_values))
            (record executor { finalized = true }) (omega arith))
    ]
