-- ===== src/Dml/InsertExecutor/Delivery.antt =====
-- Every row goes to the server once, in order, in a statement that keeps to the limits.
use mssql_extension.Prelude.{
  All, All-append, List, Outcome, [], ap, append-nil, append_assoc, arith, inl, inr, length, map,
  map-append, ok, sym, ℕ, ◌++◌, ◌<◌, ◌∙◌, ◌∷◌, ◌≡◌, ◌≤◌, ◌⊎◌,
}
use mssql_extension.Dml.BatchBuilder.{MssqlBatchBuilder, estimate_row_size, serialize_row}
use mssql_extension.Dml.BatchBuilder.Invariant.{WellFormed}
use mssql_extension.Dml.BatchBuilder.Size.{length-build_some}
use mssql_extension.Dml.InsertStatement.{InsertCache, build}
use mssql_extension.Dml.InsertTarget.{
  InsertError, MssqlInsertConfig, MssqlInsertTarget, effective_rows_per_statement,
}
use mssql_extension.Dml.Text.{Text}

abbrev pub concat {ℓ} : {A : Type ℓ} → List (List A) → List A
concat [] = []
concat (part ∷ parts) = part ++ concat parts

concat-append {ℓ} :
    {A : Type ℓ} (parts : List (List A)) (part : List A)
    → concat (parts ++ part ∷ []) ≡ concat parts ++ part
concat-append [] part = append-nil part
concat-append (p ∷ parts) part =
    rw (concat-append parts part) (sym (append_assoc p (concat parts) part))

-- the rows of one statement: at least one, no more than the limit, and in a text that is shorter than
-- the limit on its size unless the row is the only one
abbrev pub IsBatch : InsertCache → MssqlInsertConfig → List (List Text) → Type 0
IsBatch stmt config rows =
    (0 < length rows)
    × (length rows ≤ effective_rows_per_statement config)
    × (length rows ≤ 1 ⊎ length (build stmt rows) < config.max_sql_bytes)

-- The statements are those of a division of the rows `given` into batches, but for the last rows,
-- which are still `waiting`.
pub record Divides (stmt : InsertCache) (config : MssqlInsertConfig) (log : List Text)
    (waiting given : List (List Text)) : Type 0 where
  pub parts : List (List (List Text))
  pub texts : log ≡ map (build stmt) parts
  pub whole : concat parts ++ waiting ≡ given
  pub batches : All (IsBatch stmt config) parts

-- a statement more
pub Divides-flush :
    (stmt : InsertCache) (config : MssqlInsertConfig) (log : List Text)
    (waiting given : List (List Text))
    → Divides stmt config log waiting given
    → IsBatch stmt config waiting
    → Divides stmt config (log ++ build stmt waiting ∷ []) [] given
Divides-flush stmt config log waiting given before batch = record {
  parts = before.parts ++ waiting ∷ [];
  texts = rw (before.texts) (sym (map-append (build stmt) before.parts (waiting ∷ [])));
  whole = append-nil _ ∙ concat-append before.parts waiting ∙ before.whole;
  batches = All-append _ before.parts (waiting ∷ []) before.batches (batch, tt);
}

-- a row more
pub Divides-push :
    (stmt : InsertCache) (config : MssqlInsertConfig) (log : List Text)
    (waiting given : List (List Text)) (row : List Text)
    → Divides stmt config log waiting given
    → Divides stmt config log (waiting ++ row ∷ []) (given ++ row ∷ [])
Divides-push stmt config log waiting given row before = record {
  parts = before.parts;
  texts = before.texts;
  whole =
      sym (append_assoc (concat before.parts) waiting (row ∷ []))
      ∙ ap (λ t. t ++ row ∷ []) before.whole;
  batches = before.batches;
}

pub WellFormed-IsBatch :
    (stmt : InsertCache) (builder : MssqlBatchBuilder)
    → WellFormed stmt builder
    → 0 < builder.pending_row_count
    → IsBatch stmt builder.config builder.row_literals
WellFormed-IsBatch stmt builder inv some_rows = (
  omega (arith, inv.counted),
  omega (arith, inv.counted, inv.bounded),
  elim inv.fits [
    | inl one ↦ inl (omega (arith, inv.counted))
    | inr below ↦ inr (
        omega (
          arith,
          inv.sized,
          length-build_some stmt builder.row_literals (omega (arith, inv.counted)),
        ))
  ],
)

-- Row by row, the literals of the target's columns, no row larger alone than the limit.
abbrev pub Serialized :
    {Row : Type 0}
    → (Row → ℕ → Outcome InsertError Text)
    → MssqlInsertTarget
    → MssqlInsertConfig
    → List Row
    → List (List Text)
    → Type 0
Serialized serialize_from_vector target config [] [] = Unit
Serialized serialize_from_vector target config [] (literals ∷ given) = ⊥
Serialized serialize_from_vector target config (row ∷ rows) [] = ⊥
Serialized serialize_from_vector target config (row ∷ rows) (literals ∷ given) =
    (serialize_row serialize_from_vector target row ≡ ok literals)
    × (estimate_row_size literals ≤ config.max_sql_bytes)
    × Serialized serialize_from_vector target config rows given
