-- ===== src/Dml/InsertExecutor/Whole.antt =====
-- Execute and Finalize: the state between chunks, and what has been sent in the end.
use mssql_extension.Prelude.{
  List, Outcome, [], false, inl, inr, none, ok, refl, some, subst, sym, ℕ, ◌++◌, ◌<◌, ◌≡◌, ◌⊎◌,
}
use mssql_extension.Dml.BatchBuilder.{MssqlBatchBuilder, empty_builder}
use mssql_extension.Dml.BatchBuilder.Invariant.{empty_builder-WellFormed, new_batch_builder-ok}
use mssql_extension.Dml.InsertExecutor.{
  MssqlInsertExecutor, ensure_batch_builder, execute, insert_rows,
}
use mssql_extension.Dml.InsertExecutor.Delivery.{Serialized}
use mssql_extension.Dml.InsertExecutor.Loop.{Holds, insert_rows-Went}
use mssql_extension.Dml.InsertStatement.{InsertCache, initialize_cache}
use mssql_extension.Dml.InsertTarget.{
  InsertError, MssqlInsertConfig, MssqlInsertTarget, effective_rows_per_statement,
}
use mssql_extension.Dml.Text.{Text}

-- An executor between two calls of Execute, with the rows given to it so far.
pub record Ready (stmt : InsertCache) (executor : MssqlInsertExecutor) (given : List (List Text))
    : Type 0 where
  pub unfinished : executor.finalized ≡ false
  pub cached : initialize_cache executor.target false ≡ ok stmt
  pub begun :
      ((executor.batch_builder ≡ none) × (executor.sent ≡ []) × (given ≡ []))
      ⊎ ((builder : MssqlBatchBuilder) × (executor.batch_builder ≡ some builder)
          × Holds stmt executor.target executor.config builder executor.sent given)

empty_builder-Holds :
    (stmt : InsertCache) (target : MssqlInsertTarget) (config : MssqlInsertConfig)
    → initialize_cache target false ≡ ok stmt
    → Holds stmt target config (empty_builder stmt target config false) [] []
unfolding empty_builder
empty_builder-Holds stmt target config cached = record {
  inv = empty_builder-WellFormed stmt target config false cached;
  same_target = refl;
  same_config = refl;
  divides = record { parts = []; texts = refl; whole = refl; batches = tt };
}

ensure_batch_builder-Holds :
    (stmt : InsertCache) (executor : MssqlInsertExecutor) (given : List (List Text))
    → Ready stmt executor given
    → (builder : MssqlBatchBuilder) × (ensure_batch_builder executor false ≡ ok builder)
      × Holds stmt executor.target executor.config builder executor.sent given
unfolding ensure_batch_builder
ensure_batch_builder-Holds stmt executor given ready = elim ready.begun [
  | inl (unbuilt, unsent, ungiven) ↦ (
    empty_builder stmt executor.target executor.config false,
    rw (unbuilt) (new_batch_builder-ok stmt executor.target executor.config false ready.cached),
    subst
        (λ l.
          Holds stmt executor.target executor.config
            (empty_builder stmt executor.target executor.config false) l given)
        (sym unsent)
        (subst
          (Holds stmt executor.target executor.config
            (empty_builder stmt executor.target executor.config false) [])
          (sym ungiven) (empty_builder-Holds stmt executor.target executor.config ready.cached)),
  )
  | inr (builder, present, holds) ↦ (builder, rw (present), holds)
]

-- no exception, and an executor for the same table that is ready for more
abbrev pub Accepts :
    InsertCache
    → MssqlInsertExecutor
    → List (List Text)
    → MssqlInsertExecutor × Outcome InsertError ℕ
    → Type 0
Accepts stmt executor given result =
    (total : ℕ) × (result.1 ≡ ok total)
    × Ready stmt result.0 given
    × (result.0.target ≡ executor.target)
    × (result.0.config ≡ executor.config)

module _ {Row : Type 0} (serialize_from_vector : Row → ℕ → Outcome InsertError Text)
    (execute_batch : Text → Outcome InsertError ℕ)
    (runs : (sql : Text) → (n : ℕ) × (execute_batch sql ≡ ok n)) where
  pub execute-runs :
      (executor : MssqlInsertExecutor) (builder : MssqlBatchBuilder) (rows : List Row)
      → executor.finalized ≡ false
      → ensure_batch_builder executor false ≡ ok builder
      → execute serialize_from_vector execute_batch executor rows ≡ (
          let run = insert_rows serialize_from_vector execute_batch builder executor.sent rows 0 in
          (record executor { batch_builder = some run.builder; sent = run.log }, run.outcome))
  unfolding execute
  execute-runs executor builder rows unfinished ensured = simp (unfinished, ensured)

  -- A chunk of rows that can be serialized, none too large alone, goes through Execute without an
  -- exception, and the rows given before and those of the chunk are divided as they should be.
  pub execute-Ready :
      (stmt : InsertCache) (executor : MssqlInsertExecutor) (given more : List (List Text))
      (rows : List Row)
      → 0 < effective_rows_per_statement executor.config
      → Ready stmt executor given
      → Serialized serialize_from_vector executor.target executor.config rows more
      → Accepts stmt executor
          (given ++ more)
          (execute serialize_from_vector execute_batch executor rows)
  execute-Ready stmt executor given more rows some_rows ready serialized =
      let (builder, ensured, holds) = ensure_batch_builder-Holds stmt executor given ready in
      let run = insert_rows serialize_from_vector execute_batch builder executor.sent rows 0 in
      let went =
        insert_rows-Went stmt executor.target executor.config serialize_from_vector execute_batch
          runs some_rows builder executor.sent given 0 rows more holds serialized in
      subst (Accepts stmt executor (given ++ more))
        (sym (execute-runs executor builder rows ready.unfinished ensured))
        (
          went.total,
          went.succeeds,
          record {
            unfinished = ready.unfinished;
            cached = ready.cached;
            begun = inr (run.builder, refl, went.holds);
          },
          refl,
          refl,
        )
