-- ===== src/Dml/DeleteExecutor/Deletes.antt =====
-- Finalize of a DELETE.
use mssql_extension.Prelude.{All, Outcome, false, inl, ℕ, ◌<◌, ◌≡◌, ◌⊎◌}
use mssql_extension.Dml.DeleteExecutor.{MssqlDeleteExecutor, finalize_delete}
use mssql_extension.Dml.DeleteExecutor.Drained.{Drained, finalize-Drained}
use mssql_extension.Dml.DeleteExecutor.Ends.{finalize_delete-Done}
use mssql_extension.Dml.DeleteStatement.{MssqlDeleteTarget, build_delete}
use mssql_extension.Dml.DeleteStatement.Built.{
  IsKey, Unfaulted, build_delete-Unfaulted, build_delete-none, build_delete-ok,
}
use mssql_extension.Dml.DmlBatch.{DmlError}
use mssql_extension.Dml.Text.{Text}

-- Finalize ends, with a result or an exception: its loop needs at most one round more than there are
-- rows pending, whatever the server answers, whatever the lengths of the keys, and whatever the batch
-- size, also when the limit on parameters makes it 0. Serializing a value must not fault itself.
pub finalize_delete-Ends :
    {Datum Kind : Type 0} (serialize_value : Datum → Kind → Outcome DmlError Text)
    (server : Text → ℕ ⊎ Text) (target : MssqlDeleteTarget Kind)
    (executor : MssqlDeleteExecutor Datum)
    → ((value : Datum) (kind : Kind) → Unfaulted (serialize_value value kind))
    → Unfaulted (finalize_delete (build_delete serialize_value target) server executor).1
finalize_delete-Ends serialize_value server target executor serializes =
    finalize_delete-Done (build_delete serialize_value target) server
      (build_delete-Unfaulted serialize_value serializes target)
      (build_delete-none serialize_value serializes target) executor

-- Where the values of each pending key can be serialized, as many as the key has columns, the batch
-- size is not 0 and the server executes each statement, Finalize succeeds, leaves no key pending, and
-- has sent the DELETE statements for a division of the pending keys, all of them and in their order,
-- into parts that are not empty and no larger than the batch size.
pub finalize_delete-Drained :
    {Datum Kind : Type 0} (serialize_value : Datum → Kind → Outcome DmlError Text)
    (server : Text → ℕ ⊎ Text) (target : MssqlDeleteTarget Kind)
    (executor : MssqlDeleteExecutor Datum) (answers : (sql : Text) → (n : ℕ) × (server sql ≡ inl n))
    → executor.finalized ≡ false
    → 0 < executor.effective_size
    → All (IsKey serialize_value target.pk_columns) executor.pending_pk_values
    → Drained
        (build_delete serialize_value target)
        executor
        (finalize_delete (build_delete serialize_value target) server executor)
finalize_delete-Drained serialize_value server target executor answers unfinished sizeable keys =
    finalize-Drained (build_delete serialize_value target) server answers
      (IsKey serialize_value target.pk_columns) (build_delete-ok serialize_value target) executor
      unfinished sizeable keys
