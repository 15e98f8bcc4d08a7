-- ===== src/Dml/InsertExecutor/Loop.antt =====
-- The loop over the rows of a chunk keeps the division into batches.
use mssql_extension.Prelude.{
  List, Outcome, [], ap, append-nil, append_assoc, arith, false, inl, inr, ok, refl, subst, sym,
  true, ℕ, ◌++◌, ◌+◌, ◌<◌, ◌>>=◌, ◌∙◌, ◌∷◌, ◌≡◌, ◌≤◌, ◌⊎◌,
}
use mssql_extension.Dml.BatchBuilder.{
  MssqlBatchBuilder, MssqlInsertBatch, add_literals, add_row, batch_of, estimate_row_size,
  flush_batch, push_literals, reset_batch, serialize_row,
}
use mssql_extension.Dml.BatchBuilder.Invariant.{
  WellFormed, add_literals-cases, flush_batch-ok, push_literals-WellFormed, reset_batch-WellFormed,
}
use mssql_extension.Dml.InsertExecutor.{Run, add_again, flush_and_add, insert_row, insert_rows}
use mssql_extension.Dml.InsertExecutor.Delivery.{
  Divides, Divides-flush, Divides-push, IsBatch, Serialized, WellFormed-IsBatch,
}
use mssql_extension.Dml.InsertStatement.{InsertCache, build}
use mssql_extension.Dml.InsertTarget.{
  InsertError, MssqlInsertConfig, MssqlInsertTarget, effective_rows_per_statement,
}
use mssql_extension.Dml.Text.{Text}

-- The builder, the statements sent, and the rows given to it so far agree.
pub record Holds (stmt : InsertCache) (target : MssqlInsertTarget) (config : MssqlInsertConfig)
    (builder : MssqlBatchBuilder) (log : List Text) (given : List (List Text)) : Type 0 where
  pub inv : WellFormed stmt builder
  pub same_target : builder.target ≡ target
  pub same_config : builder.config ≡ config
  pub divides : Divides stmt config log builder.row_literals given

-- What the loop leaves: a value, and a state that agrees with the rows given.
pub record Went (stmt : InsertCache) (target : MssqlInsertTarget) (config : MssqlInsertConfig)
    (run : Run ℕ) (given : List (List Text)) : Type 0 where
  pub total : ℕ
  pub succeeds : run.outcome ≡ ok total
  pub holds : Holds stmt target config run.builder run.log given

module _ (stmt : InsertCache) (target : MssqlInsertTarget) (config : MssqlInsertConfig) where
  Holds-push :
      (builder : MssqlBatchBuilder) (log : List Text) (given : List (List Text))
      (literals : List Text)
      → Holds stmt target config builder log given
      → builder.pending_row_count < effective_rows_per_statement builder.config
      → builder.pending_row_count ≡ 0
        ⊎ builder.current_sql_bytes + estimate_row_size literals ≤ builder.config.max_sql_bytes
      → Holds stmt target config (push_literals builder literals) log (given ++ literals ∷ [])
  unfolding push_literals
  Holds-push builder log given literals h room small = record {
    inv = push_literals-WellFormed stmt builder literals h.inv room small;
    same_target = h.same_target;
    same_config = h.same_config;
    divides = Divides-push stmt config log builder.row_literals given literals h.divides;
  }

  pub Holds-flush :
      (builder : MssqlBatchBuilder) (log : List Text) (given : List (List Text))
      → Holds stmt target config builder log given
      → 0 < builder.pending_row_count
      → Holds stmt target config
          (reset_batch builder)
          (log ++ build stmt builder.row_literals ∷ [])
          given
  unfolding reset_batch
  Holds-flush builder log given h some_rows = record {
    inv = reset_batch-WellFormed stmt builder h.inv;
    same_target = h.same_target;
    same_config = h.same_config;
    divides = Divides-flush stmt config log builder.row_literals given h.divides (
        subst (λ c. IsBatch stmt c builder.row_literals) h.same_config
          (WellFormed-IsBatch stmt builder h.inv some_rows));
  }

  module _ {Row : Type 0} (serialize_from_vector : Row → ℕ → Outcome InsertError Text)
      (execute_batch : Text → Outcome InsertError ℕ)
      (runs : (sql : Text) → (n : ℕ) × (execute_batch sql ≡ ok n))
      (some_rows : 0 < effective_rows_per_statement config) where
    add_row-add_literals :
        (builder : MssqlBatchBuilder) (row : Row) (literals : List Text)
        → builder.target ≡ target
        → serialize_row serialize_from_vector target row ≡ ok literals
        → add_row serialize_from_vector builder row ≡ add_literals builder literals
    unfolding add_row
    add_row-add_literals builder row literals same serialized =
        ap
          (λ t. serialize_row serialize_from_vector t row >>= (λ found. add_literals builder found))
          same
        ∙ rw (serialized)

    add_again-Holds :
        (builder : MssqlBatchBuilder) (log : List Text) (given : List (List Text)) (row : Row)
        (literals : List Text)
        → Holds stmt target config builder log given
        → builder.pending_row_count ≡ 0
        → serialize_row serialize_from_vector target row ≡ ok literals
        → estimate_row_size literals ≤ config.max_sql_bytes
        → (add_again serialize_from_vector execute_batch builder row
            ≡ ok (push_literals builder literals))
          × Holds stmt target config (push_literals builder literals) log (given ++ literals ∷ [])
    unfolding add_again
    add_again-Holds builder log given row literals h empty serialized small =
        let adds = add_row-add_literals builder row literals h.same_target serialized in
        elim (add_literals-cases builder literals
          (subst (λ c. estimate_row_size literals ≤ c.max_sql_bytes) (sym h.same_config) small)
          (subst (λ c. 0 < effective_rows_per_statement c) (sym h.same_config) some_rows)) [
            | inl (eq, room, fits) ↦
                (rw (adds, eq), Holds-push builder log given literals h room fits)
            | inr (eq, waiting) ↦ absurd (omega arith)
          ]

    insert_row-fits :
        (builder after : MssqlBatchBuilder) (log : List Text) (row : Row)
        → add_row serialize_from_vector builder row ≡ ok (true, after)
        → insert_row serialize_from_vector execute_batch builder log row
          ≡ record { builder = after; log = log; outcome = ok 0 }
    unfolding insert_row
    insert_row-fits builder after log row adds = rw (adds)

    insert_row-full :
        (builder emptied after : MssqlBatchBuilder) (batch : MssqlInsertBatch) (log : List Text)
        (row : Row) (n : ℕ)
        → add_row serialize_from_vector builder row ≡ ok (false, builder)
        → flush_batch builder ≡ ok (batch, emptied)
        → execute_batch batch.sql_statement ≡ ok n
        → add_again serialize_from_vector execute_batch emptied row ≡ ok after
        → insert_row serialize_from_vector execute_batch builder log row
          ≡ record { builder = after; log = log ++ batch.sql_statement ∷ []; outcome = ok n }
    unfolding insert_row flush_and_add
    insert_row-full builder emptied after batch log row n full flushes executes adds =
        rw (full, flushes, executes, adds)

    insert_row-Went :
        (builder : MssqlBatchBuilder) (log : List Text) (given : List (List Text)) (row : Row)
        (literals : List Text)
        → Holds stmt target config builder log given
        → serialize_row serialize_from_vector target row ≡ ok literals
        → estimate_row_size literals ≤ config.max_sql_bytes
        → Went stmt target config
            (insert_row serialize_from_vector execute_batch builder log row)
            (given ++ literals ∷ [])
    unfolding batch_of reset_batch
    insert_row-Went builder log given row literals h serialized small =
        let adds = add_row-add_literals builder row literals h.same_target serialized in
        let goal = λ (run : Run ℕ). Went stmt target config run (given ++ literals ∷ []) in
        elim (add_literals-cases builder literals
          (subst (λ c. estimate_row_size literals ≤ c.max_sql_bytes) (sym h.same_config) small)
          (subst (λ c. 0 < effective_rows_per_statement c) (sym h.same_config) some_rows)) [
            | inl (eq, room, fits) ↦
                subst goal (sym (insert_row-fits builder _ log row (adds ∙ eq))) (record {
                  total = 0;
                  succeeds = refl;
                  holds = Holds-push builder log given literals h room fits;
                })
            | inr (eq, waiting) ↦
                let sql = build stmt builder.row_literals in
                let (n, executes) = runs sql in
                let emptied = Holds-flush builder log given h waiting in
                let (again, holds) =
                  add_again-Holds (reset_batch builder) (log ++ sql ∷ []) given row literals emptied
                    refl serialized small in
                subst goal
                  (sym (
                    insert_row-full builder _ _ (batch_of stmt builder) log row n (adds ∙ eq)
                      (flush_batch-ok stmt builder h.inv) executes again))
                  (record { total = n; succeeds = refl; holds = holds })
          ]

    pub insert_rows-Went :
        (builder : MssqlBatchBuilder) (log : List Text) (given : List (List Text)) (total : ℕ)
        (rows : List Row) (more : List (List Text))
        → Holds stmt target config builder log given
        → Serialized serialize_from_vector target config rows more
        → Went stmt target config
            (insert_rows serialize_from_vector execute_batch builder log rows total)
            (given ++ more)
    unfolding insert_rows
    insert_rows-Went builder log given total [] [] h tt = record {
      total = total;
      succeeds = refl;
      holds = subst (Holds stmt target config builder log) (sym (append-nil given)) h;
    }
    insert_rows-Went builder log given total [] (l ∷ more) h none_left = absurd none_left
    insert_rows-Went builder log given total (row ∷ rows) [] h none_left = absurd none_left
    insert_rows-Went builder log given total (row ∷ rows) (literals ∷ more) h
          (serialized, small, rest) =
        let run = insert_row serialize_from_vector execute_batch builder log row in
        let went = insert_row-Went builder log given row literals h serialized small in
        let remaining =
          insert_rows-Went run.builder run.log (given ++ literals ∷ []) (total + went.total) rows
            more went.holds rest in
        rw (went.succeeds) (
          subst
            (Went stmt target config (
              insert_rows serialize_from_vector execute_batch run.builder run.log rows
                (total + went.total)))
            (append_assoc given (literals ∷ []) more) remaining)
