-- ===== src/Dml/DeleteExecutor/Drained.antt =====
-- Every waiting key goes to the server in one statement.
use mssql_extension.Prelude.{
  All, Bool, List, Outcome, [], ap, append-nil, append_assoc, arith, drop, false, if◌then◌else◌,
  inl, length, length-drop, length-take_le, length-zero, ok, refl, subst, suc, sym, take,
  take-append-drop, true, zero, ℕ, ◌++◌, ◌+◌, ◌<◌, ◌∙◌, ◌∷◌, ◌≡◌, ◌≤◌, ◌⊎◌,
}
use mssql_extension.Dml.DeleteExecutor.{
  MssqlDeleteExecutor, drain_deletes, execute_built, finalize_delete, flush_rows, if_pending,
  rows_to_process, send_delete, unless_failed,
}
use mssql_extension.Dml.DeleteExecutor.Ends.{rows_to_process-some}
use mssql_extension.Dml.DmlBatch.{DmlError, MssqlDmlBatch, MssqlDmlResult, is_valid}
use mssql_extension.Dml.InsertExecutor.Delivery.{concat}
use mssql_extension.Dml.Text.{Text}
use native.Mathlib.Decide.{dec_lt}

All-take : {A : Type 0} (P : A → Type 0) (n : ℕ) (xs : List A) → All P xs → All P (take n xs)
All-take P zero xs all = tt
All-take P (suc n) [] all = tt
All-take P (suc n) (x ∷ xs) (px, all) = (px, All-take P n xs all)

All-drop : {A : Type 0} (P : A → Type 0) (n : ℕ) (xs : List A) → All P xs → All P (drop n xs)
All-drop P zero xs all = all
All-drop P (suc n) [] all = tt
All-drop P (suc n) (x ∷ xs) (px, all) = All-drop P n xs all

if-false : {A : Type 0} (b : Bool) (x y : A) → b ≡ false → (if b then x else y) ≡ y
if-false b x y h = rw (h)

rows_to_process-bounds : (p e : ℕ) → (rows_to_process p e ≤ p) × (rows_to_process p e ≤ e)
unfolding rows_to_process
rows_to_process-bounds p e = (ground arith, ground arith)

module _ {Key : Type 0} (build_statement : List (List Key) → Outcome DmlError MssqlDmlBatch) where
  -- the texts are those of the statements for the parts, one after another
  abbrev pub AreStatements : List (List (List Key)) → List Text → Type 0
  AreStatements [] [] = Unit
  AreStatements [] (text ∷ texts) = ⊥
  AreStatements (part ∷ parts) [] = ⊥
  AreStatements (part ∷ parts) (text ∷ texts) =
      ((batch : MssqlDmlBatch) × (build_statement part ≡ ok batch) × (text ≡ batch.sql))
      × AreStatements parts texts

  -- The loop has succeeded, and the waiting rows, all of them and in their order, have gone in parts
  -- that are not empty and no larger than the batch size.
  pub record Drained (before : MssqlDeleteExecutor Key)
      (result : MssqlDeleteExecutor Key × Outcome DmlError MssqlDmlResult) : Type 0 where
    pub total : ℕ
    pub batches : ℕ
    pub succeeds : result.1 ≡ ok (MssqlDmlResult.success total batches)
    pub none_left : result.0.pending_pk_values ≡ []
    pub parts : List (List (List Key))
    pub texts : List Text
    pub sends : result.0.sent ≡ before.sent ++ texts
    pub statements : AreStatements parts texts
    pub whole : concat parts ≡ before.pending_pk_values
    pub sized : All (λ part. (0 < length part) × (length part ≤ before.effective_size)) parts

  module _ (server : Text → ℕ ⊎ Text) (answers : (sql : Text) → (n : ℕ) × (server sql ≡ inl n))
      (P : List Key → Type 0)
      (builds : (rows : List (List Key))
        → 0 < length rows
        → All P rows
        → (batch : MssqlDmlBatch) × (build_statement rows ≡ ok batch)
          × (is_valid batch ≡ true)) where
    abbrev flushed : MssqlDeleteExecutor Key → Text → ℕ → MssqlDeleteExecutor Key
    flushed executor sql affected =
        let waiting = executor.pending_pk_values in
        record executor {
          deleted_batches = executor.deleted_batches + 1;
          pending_pk_values =
              drop (rows_to_process (length waiting) executor.effective_size) waiting;
          total_rows_deleted = executor.total_rows_deleted + affected;
          sent = executor.sent ++ sql ∷ [];
        }

    flush_rows-ok :
        (executor : MssqlDeleteExecutor Key) (batch : MssqlDmlBatch) (affected : ℕ)
        → build_statement (
            take
              (rows_to_process (length executor.pending_pk_values) executor.effective_size)
              executor.pending_pk_values)
          ≡ ok batch
        → is_valid batch ≡ true
        → server batch.sql ≡ inl affected
        → flush_rows build_statement server executor ≡ (
          flushed executor batch.sql affected,
          ok (MssqlDmlResult.success affected (executor.deleted_batches + 1)),
        )
    unfolding flush_rows execute_built send_delete
    flush_rows-ok executor batch affected built valid answered = rw (built, valid, answered)

    if_pending-some :
        {A : Type 0} (rows : List (List Key)) (more empty : A)
        → 0 < length rows
        → if_pending rows more empty ≡ more
    if_pending-some [] more empty some_rows = absurd (omega arith)
    if_pending-some (row ∷ rows) more empty some_rows = refl

    drain_deletes-more :
        (n : ℕ) (executor left : MssqlDeleteExecutor Key) (affected number : ℕ)
        → 0 < length executor.pending_pk_values
        → flush_rows build_statement server executor
          ≡ (left, ok (MssqlDmlResult.success affected number))
        → drain_deletes build_statement server (suc n) executor
          ≡ drain_deletes build_statement server n left
    unfolding drain_deletes
    drain_deletes-more n executor left affected number some_rows flushes =
        if_pending-some executor.pending_pk_values _ _ some_rows
        ∙ ap (unless_failed build_statement server (drain_deletes build_statement server n)) flushes

    drain_deletes-none :
        (n : ℕ) (executor : MssqlDeleteExecutor Key)
        → executor.pending_pk_values ≡ []
        → Drained executor (drain_deletes build_statement server (suc n) executor)
    unfolding drain_deletes
    drain_deletes-none n executor none_pending =
        subst (Drained executor)
          (sym (
            ap
              (λ rows.
                if_pending rows
                  (unless_failed build_statement server (drain_deletes build_statement server n)
                    (flush_rows build_statement server executor))
                  (
                    executor,
                    ok (
                        MssqlDmlResult.success executor.total_rows_deleted
                          executor.deleted_batches),
                  ))
              none_pending))
          (record {
            total = executor.total_rows_deleted;
            batches = executor.deleted_batches;
            succeeds = refl;
            none_left = none_pending;
            parts = [];
            texts = [];
            sends = sym (append-nil executor.sent);
            statements = tt;
            whole = sym none_pending;
            sized = tt;
          })

    drain_deletes-Drained :
        (n : ℕ) (executor : MssqlDeleteExecutor Key)
        → length executor.pending_pk_values < n
        → 0 < executor.effective_size
        → All P executor.pending_pk_values
        → Drained executor (drain_deletes build_statement server n executor)
    drain_deletes-Drained zero executor enough sizeable all = absurd (omega arith)
    drain_deletes-Drained (suc n) executor enough sizeable all =
        elim (dec_lt 0 (length executor.pending_pk_values)) [
          | no finished ↦
              drain_deletes-none n executor (length-zero executor.pending_pk_values (omega arith))
          | yes some_rows ↦
              let keys = executor.pending_pk_values in
              let k = rows_to_process (length keys) executor.effective_size in
              let positive =
                rows_to_process-some (length keys) executor.effective_size some_rows sizeable in
              let (within, limited) =
                rows_to_process-bounds (length keys) executor.effective_size in
              let (batch, built, valid) =
                builds (take k keys) (omega (arith, length-take_le k keys within))
                  (All-take P k keys all) in
              let (affected, answered) = answers batch.sql in
              let left = flushed executor batch.sql affected in
              let following =
                drain_deletes-Drained n left (omega (arith, length-drop k keys)) sizeable
                  (All-drop P k keys all) in
              subst (Drained executor)
                (sym (
                  drain_deletes-more n executor left affected (executor.deleted_batches + 1)
                    some_rows (flush_rows-ok executor batch affected built valid answered)))
                (record {
                  total = following.total;
                  batches = following.batches;
                  succeeds = following.succeeds;
                  none_left = following.none_left;
                  parts = take k keys ∷ following.parts;
                  texts = batch.sql ∷ following.texts;
                  sends =
                      following.sends ∙ append_assoc executor.sent (batch.sql ∷ []) following.texts;
                  statements = ((batch, built, refl), following.statements);
                  whole = ap (λ t. take k keys ++ t) following.whole ∙ take-append-drop k keys;
                  sized = (
                    (
                      omega (arith, length-take_le k keys within),
                      omega (arith, length-take_le k keys within),
                    ),
                    following.sized,
                  );
                })
        ]

    pub finalize-Drained :
        (executor : MssqlDeleteExecutor Key)
        → executor.finalized ≡ false
        → 0 < executor.effective_size
        → All P executor.pending_pk_values
        → Drained executor (finalize_delete build_statement server executor)
    unfolding finalize_delete
    finalize-Drained executor unfinished sizeable all =
        let drained =
          drain_deletes-Drained (suc (length executor.pending_pk_values))
            (record executor { finalized = true }) (omega arith) sizeable all in
        subst (Drained executor)
          (sym (
            if-false executor.finalized
              (
                executor,
                ok (MssqlDmlResult.success executor.total_rows_deleted executor.deleted_batches),
              )
              (drain_deletes build_statement server (suc (length executor.pending_pk_values))
                (record executor { finalized = true }))
              unfinished))
          (record {
            total = drained.total;
            batches = drained.batches;
            succeeds = drained.succeeds;
            none_left = drained.none_left;
            parts = drained.parts;
            texts = drained.texts;
            sends = drained.sends;
            statements = drained.statements;
            whole = drained.whole;
            sized = drained.sized;
          })
