-- ===== src/Dml/BatchBuilder/Invariant.antt =====
-- The builder's counters agree with the rows that it holds.
use mssql_extension.Prelude.{
  Bool, List, [], arith, false, inl, inr, length, length-append, ok, refl, true, ◌+◌, ◌<◌, ◌∷◌, ◌≡◌,
  ◌≤◌, ◌⊎◌,
}
use mssql_extension.Dml.BatchBuilder.{
  MssqlBatchBuilder, add_literals, batch_of, calculate_base_sql_size, empty_builder,
  estimate_row_size, flush_batch, new_batch_builder, push_literals, reset_batch,
}
use mssql_extension.Dml.BatchBuilder.Size.{sizes, sizes-append}
use mssql_extension.Dml.InsertStatement.{InsertCache, initialize_cache}
use mssql_extension.Dml.InsertTarget.{
  MssqlInsertConfig, MssqlInsertTarget, effective_rows_per_statement,
}
use mssql_extension.Dml.Text.{Text}

-- `stmt` is what the builder's target makes of the statement's head.
pub record WellFormed (stmt : InsertCache) (builder : MssqlBatchBuilder) : Type 0 where
  pub cached : initialize_cache builder.target builder.include_output_clause ≡ ok stmt
  pub based : builder.base_sql_size ≡ calculate_base_sql_size stmt
  pub counted : builder.pending_row_count ≡ length builder.row_literals
  pub sized : builder.current_sql_bytes ≡ calculate_base_sql_size stmt + sizes builder.row_literals
  pub bounded : builder.pending_row_count ≤ effective_rows_per_statement builder.config
  pub offset : builder.pending_row_count ≤ builder.current_row_offset
  pub fits :
      builder.pending_row_count ≤ 1 ⊎ builder.current_sql_bytes ≤ builder.config.max_sql_bytes

-- What add_literals comes to for a row that is not too large alone.
pub add_literals-cases :
    (builder : MssqlBatchBuilder) (literals : List Text)
    → estimate_row_size literals ≤ builder.config.max_sql_bytes
    → 0 < effective_rows_per_statement builder.config
    → (add_literals builder literals ≡ ok (true, push_literals builder literals)
        × builder.pending_row_count < effective_rows_per_statement builder.config
        × (builder.pending_row_count ≡ 0
            ⊎ builder.current_sql_bytes + estimate_row_size literals
              ≤ builder.config.max_sql_bytes))
      ⊎ (add_literals builder literals ≡ ok (false, builder) × 0 < builder.pending_row_count)
unfolding add_literals
add_literals-cases builder literals small some_rows = ground arith

pub push_literals-WellFormed :
    (stmt : InsertCache) (builder : MssqlBatchBuilder) (literals : List Text)
    → WellFormed stmt builder
    → builder.pending_row_count < effective_rows_per_statement builder.config
    → builder.pending_row_count ≡ 0
      ⊎ builder.current_sql_bytes + estimate_row_size literals ≤ builder.config.max_sql_bytes
    → WellFormed stmt (push_literals builder literals)
unfolding push_literals
push_literals-WellFormed stmt builder literals inv room small = record {
  cached = inv.cached;
  based = inv.based;
  counted = omega (arith, inv.counted, length-append builder.row_literals (literals ∷ []));
  sized = omega (arith, inv.sized, sizes-append builder.row_literals literals);
  bounded = omega (arith, room);
  offset = omega (arith, inv.offset);
  fits = elim small [ inl first ↦ inl (omega arith) | inr below ↦ inr below ];
}

pub flush_batch-ok :
    (stmt : InsertCache) (builder : MssqlBatchBuilder)
    → WellFormed stmt builder
    → flush_batch builder ≡ ok (batch_of stmt builder, reset_batch builder)
unfolding flush_batch
flush_batch-ok stmt builder inv = rw (inv.cached)

pub reset_batch-WellFormed :
    (stmt : InsertCache) (builder : MssqlBatchBuilder)
    → WellFormed stmt builder
    → WellFormed stmt (reset_batch builder)
unfolding reset_batch sizes
reset_batch-WellFormed stmt builder inv = record {
  cached = inv.cached;
  based = inv.based;
  counted = refl;
  sized = omega (arith, inv.based);
  bounded = omega arith;
  offset = omega arith;
  fits = inl (omega arith);
}

pub new_batch_builder-ok :
    (stmt : InsertCache) (target : MssqlInsertTarget) (config : MssqlInsertConfig)
    (include_output_clause : Bool)
    → initialize_cache target include_output_clause ≡ ok stmt
    → new_batch_builder target config include_output_clause
      ≡ ok (empty_builder stmt target config include_output_clause)
unfolding new_batch_builder
new_batch_builder-ok stmt target config include_output_clause cached = rw (cached)

pub empty_builder-WellFormed :
    (stmt : InsertCache) (target : MssqlInsertTarget) (config : MssqlInsertConfig)
    (include_output_clause : Bool)
    → initialize_cache target include_output_clause ≡ ok stmt
    → WellFormed stmt (empty_builder stmt target config include_output_clause)
unfolding empty_builder sizes
empty_builder-WellFormed stmt target config include_output_clause cached = record {
  cached = cached;
  based = refl;
  counted = refl;
  sized = omega arith;
  bounded = omega arith;
  offset = omega arith;
  fits = inl (omega arith);
}
