-- ===== src/Dml/DeleteExecutor.antt =====
-- src/dml/delete/mssql_delete_executor.cpp: the keys of the rows to delete, sent batch by batch.
pub mod Ends
pub mod Drained
pub mod Deletes
use mssql_extension.Prelude.{
  Bool, List, Outcome, [], drop, false, fault, if◌then◌else◌, inl, inr, leb, length, ltb, not, ok,
  suc, take, throw, true, zero, ℕ, ◌&&◌, ◌++◌, ◌+◌, ◌∷◌, ◌⊎◌,
}
use mssql_extension.Dml.DmlBatch.{
  DmlError, MssqlDmlBatch, MssqlDmlConfig, MssqlDmlResult, effective_batch_size, is_valid,
}
use mssql_extension.Dml.Text.{Text, codes}
use mssql_extension.Tds.Socket.{pending}

pub record MssqlDeleteExecutor (Key : Type 0) : Type 0 where
  pub effective_size : ℕ
  pub pending_pk_values : List (List Key)
  pub total_rows_deleted : ℕ
  pub deleted_batches : ℕ
  pub finalized : Bool
  pub defer_execution : Bool
  -- the statements given to the server, in their order
  pub sent : List Text

-- `std::min(pending, effective)`
unfoldable pub rows_to_process : ℕ → ℕ → ℕ
rows_to_process pending effective = if ltb effective pending then effective else pending

abbrev pub new_delete_executor :
    {Key : Type 0} → MssqlDmlConfig → ℕ → Bool → MssqlDeleteExecutor Key
new_delete_executor config params_per_row in_transaction = record {
  effective_size = effective_batch_size config params_per_row;
  pending_pk_values = [];
  total_rows_deleted = 0;
  deleted_batches = 0;
  finalized = false;
  defer_execution = in_transaction;
  sent = [];
}

-- whether `pending_pk_values_` is not empty
abbrev pub if_pending : {Key A : Type 0} → List (List Key) → A → A → A
if_pending [] more empty = empty
if_pending (row ∷ rows) more empty = more

-- `build_statement` is `Build` of the executor's statement; `server sql` is what comes of a statement: the number
-- of rows deleted, or an error.
module _ {Key : Type 0} (build_statement : List (List Key) → Outcome DmlError MssqlDmlBatch)
    (server : Text → ℕ ⊎ Text) where
  abbrev pub FlushResult : Type 0
  FlushResult = MssqlDeleteExecutor Key × Outcome DmlError MssqlDmlResult

  unfoldable pub send_delete : MssqlDeleteExecutor Key → Text → ℕ ⊎ Text → FlushResult
  send_delete executor sql (inl affected) = (
    record executor {
      total_rows_deleted = executor.total_rows_deleted + affected;
      sent = executor.sent ++ sql ∷ [];
    },
    ok (MssqlDmlResult.success affected executor.deleted_batches),
  )
  send_delete executor sql (inr message) = (
    record executor { sent = executor.sent ++ sql ∷ [] },
    ok (MssqlDmlResult.failure message executor.deleted_batches),
  )

  unfoldable pub execute_built :
      MssqlDeleteExecutor Key → Outcome DmlError MssqlDmlBatch → FlushResult
  unfolding send_delete
  execute_built executor (ok batch) =
      if is_valid batch then send_delete executor batch.sql (server batch.sql) else (
        executor,
        ok (MssqlDmlResult.failure (codes "Failed to build DELETE batch") executor.deleted_batches),
      )
  execute_built executor (throw e) = (executor, throw e)
  execute_built executor fault = (executor, fault)

  -- `FlushBatch` when rows are pending
  unfoldable pub flush_rows : MssqlDeleteExecutor Key → FlushResult
  unfolding execute_built rows_to_process
  flush_rows executor =
      let pending = executor.pending_pk_values in
      let n = rows_to_process (length pending) executor.effective_size in
      execute_built
        (record executor {
          deleted_batches = executor.deleted_batches + 1;
          pending_pk_values = drop n pending;
        })
        (build_statement (take n pending))

  unfoldable pub flush_delete : MssqlDeleteExecutor Key → FlushResult
  unfolding flush_rows
  flush_delete executor =
      if_pending executor.pending_pk_values (flush_rows executor)
        (executor, ok (MssqlDmlResult.success 0 executor.deleted_batches))

  -- `if (!result.success) { return result; }`
  abbrev pub unless_failed : (MssqlDeleteExecutor Key → FlushResult) → FlushResult → FlushResult
  unless_failed go_on (executor, ok (MssqlDmlResult.success affected number)) = go_on executor
  unless_failed go_on (executor, ok (MssqlDmlResult.failure message number)) =
      (executor, ok (MssqlDmlResult.failure message number))
  unless_failed go_on (executor, throw e) = (executor, throw e)
  unless_failed go_on (executor, fault) = (executor, fault)

  -- the loop of `Finalize`, on fuel, once `finalized_` is set
  unfoldable pub drain_deletes : ℕ → MssqlDeleteExecutor Key → FlushResult
  unfolding flush_rows
  drain_deletes zero executor = (executor, fault)
  drain_deletes (suc n) executor =
      if_pending executor.pending_pk_values (unless_failed (drain_deletes n) (flush_rows executor))
        (executor, ok (MssqlDmlResult.success executor.total_rows_deleted executor.deleted_batches))

  -- a key joins the pending ones, and a batch that is full goes
  unfoldable pub add_key : MssqlDeleteExecutor Key → List Key → FlushResult
  unfolding flush_delete
  add_key executor pk =
      let added = record executor { pending_pk_values = executor.pending_pk_values ++ pk ∷ [] } in
      if not executor.defer_execution
        && leb executor.effective_size (length added.pending_pk_values)
      then flush_delete added
      else (added, ok (MssqlDmlResult.success 0 executor.deleted_batches))

  -- `if (!result.success) { throw IOException(…); }`
  unfoldable pub raise_failure : Outcome DmlError MssqlDmlResult → Outcome DmlError (Unit {0})
  raise_failure (ok (MssqlDmlResult.success affected number)) = ok tt
  raise_failure (ok (MssqlDmlResult.failure message number)) =
      throw (DmlError.statement_failed message)
  raise_failure (throw e) = throw e
  raise_failure fault = fault

  unfoldable pub add_keys :
      MssqlDeleteExecutor Key → List (List Key) → MssqlDeleteExecutor Key × Outcome DmlError ℕ
  unfolding add_key raise_failure
  add_keys executor [] = (executor, ok executor.total_rows_deleted)
  add_keys executor (pk ∷ pk_values) =
      let added = add_key executor pk in
      elim (raise_failure added.1) [
        | ok done ↦ add_keys added.0 pk_values
        | throw e ↦ (added.0, throw e)
        | fault ↦ (added.0, fault)
      ]

  unfoldable pub execute_delete :
      MssqlDeleteExecutor Key → List (List Key) → MssqlDeleteExecutor Key × Outcome DmlError ℕ
  unfolding add_keys
  execute_delete executor pk_values =
      if executor.finalized
      then (executor, throw DmlError.called_after_finalize)
      else add_keys executor pk_values

  unfoldable pub finalize_delete : MssqlDeleteExecutor Key → FlushResult
  unfolding drain_deletes
  finalize_delete executor =
      if executor.finalized
      then (
        executor,
        ok (MssqlDmlResult.success executor.total_rows_deleted executor.deleted_batches),
      )
      else drain_deletes (suc (length executor.pending_pk_values))
          (record executor { finalized = true })
