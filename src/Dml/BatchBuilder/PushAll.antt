-- ===== src/Dml/BatchBuilder/PushAll.antt =====
-- Rows that join the batch one after another.
use mssql_extension.Prelude.{
  List, [], append-nil, append_assoc, arith, length, ok, refl, sym, true, ◌++◌, ◌+◌, ◌<◌, ◌∙◌, ◌∷◌,
  ◌≡◌, ◌≤◌,
}
use mssql_extension.Dml.BatchBuilder.{
  MssqlBatchBuilder, add_literals, batch_of, estimate_row_size, flush_batch, has_pending_rows,
  push_literals, reset_batch,
}
use mssql_extension.Dml.BatchBuilder.Size.{sizes}
use mssql_extension.Dml.InsertStatement.{InsertCache, initialize_cache}
use mssql_extension.Dml.InsertTarget.{effective_rows_per_statement}
use mssql_extension.Dml.Text.{Text}

unfoldable pub push_all : MssqlBatchBuilder → List (List Text) → MssqlBatchBuilder
push_all builder [] = builder
push_all builder (literals ∷ more) = push_all (push_literals builder literals) more

pub push_all-row_literals :
    (builder : MssqlBatchBuilder) (more : List (List Text))
    → (push_all builder more).row_literals ≡ builder.row_literals ++ more
unfolding push_all push_literals
push_all-row_literals builder [] = sym (append-nil builder.row_literals)
push_all-row_literals builder (literals ∷ more) =
    push_all-row_literals (push_literals builder literals) more
    ∙ append_assoc builder.row_literals (literals ∷ []) more

pub push_all-pending :
    (builder : MssqlBatchBuilder) (more : List (List Text))
    → (push_all builder more).pending_row_count ≡ builder.pending_row_count + length more
unfolding push_all push_literals
push_all-pending builder [] = omega arith
push_all-pending builder (literals ∷ more) =
    omega (arith, push_all-pending (push_literals builder literals) more)

pub push_all-append :
    (builder : MssqlBatchBuilder) (first more : List (List Text))
    → push_all builder (first ++ more) ≡ push_all (push_all builder first) more
unfolding push_all
push_all-append builder [] more = refl
push_all-append builder (literals ∷ first) more =
    push_all-append (push_literals builder literals) first more

pub push_all-sql_bytes :
    (builder : MssqlBatchBuilder) (more : List (List Text))
    → (push_all builder more).current_sql_bytes ≡ builder.current_sql_bytes + sizes more
unfolding push_all push_literals sizes
push_all-sql_bytes builder [] = omega arith
push_all-sql_bytes builder (literals ∷ more) =
    omega (arith, push_all-sql_bytes (push_literals builder literals) more)

pub push_all-target :
    (builder : MssqlBatchBuilder) (more : List (List Text))
    → (push_all builder more).target ≡ builder.target
unfolding push_all push_literals
push_all-target builder [] = refl
push_all-target builder (literals ∷ more) = push_all-target (push_literals builder literals) more

pub push_all-config :
    (builder : MssqlBatchBuilder) (more : List (List Text))
    → (push_all builder more).config ≡ builder.config
unfolding push_all push_literals
push_all-config builder [] = refl
push_all-config builder (literals ∷ more) = push_all-config (push_literals builder literals) more

pub push_all-flush_batch :
    (stmt : InsertCache) (builder : MssqlBatchBuilder) (more : List (List Text))
    → initialize_cache builder.target builder.include_output_clause ≡ ok stmt
    → flush_batch (push_all builder more)
      ≡ ok (batch_of stmt (push_all builder more), reset_batch (push_all builder more))
unfolding push_all push_literals flush_batch
push_all-flush_batch stmt builder [] cached = rw (cached)
push_all-flush_batch stmt builder (literals ∷ more) cached =
    push_all-flush_batch stmt (push_literals builder literals) more cached

pub add_literals-fits :
    (builder : MssqlBatchBuilder) (literals : List Text)
    → builder.pending_row_count < effective_rows_per_statement builder.config
    → builder.current_sql_bytes + estimate_row_size literals ≤ builder.config.max_sql_bytes
    → add_literals builder literals ≡ ok (true, push_literals builder literals)
unfolding add_literals
add_literals-fits builder literals room small = ground arith

pub has_pending_rows-true :
    (builder : MssqlBatchBuilder) → 0 < builder.pending_row_count → has_pending_rows builder ≡ true
unfolding has_pending_rows
has_pending_rows-true builder h = ground arith
