-- ===== src/Dml/InsertStatement/Names.antt =====
-- The names in an INSERT are the target's: its schema, its table, and its columns at the indices.
use mssql_extension.Prelude.{
  Bool, List, Outcome, [], ap, false, fault, length, map, ok, refl, some, throw, true, ℕ, ◌++◌,
  ◌>>=◌, ◌∷◌, ◌≡◌,
}
use mssql_extension.Dml.InsertStatement.{
  InsertCache, build, initialize_cache, output_clause_for, quote_columns,
}
use mssql_extension.Dml.InsertStatement.Read.{after_names, build-read, cache_of, read_insert}
use mssql_extension.Dml.InsertTarget.{InsertError, MssqlInsertColumn, MssqlInsertTarget, get_column}
use mssql_extension.Dml.Text.{Text, codes, join}
use mssql_extension.Dml.ValueSerializer.{escape_identifier}

-- the columns at the indices
unfoldable pub columns_at :
    List MssqlInsertColumn → List ℕ → Outcome InsertError (List MssqlInsertColumn)
columns_at columns [] = ok []
columns_at columns (i ∷ indices) = do
  col ← get_column columns i
  found ← columns_at columns indices
  ok (col ∷ found)

abbrev pub names_of : List MssqlInsertColumn → List Text
names_of cols = map (λ (col : MssqlInsertColumn). col.name) cols

abbrev quote : Text → MssqlInsertColumn → Text
quote before col = before ++ escape_identifier col.name

quote-step :
    (before : Text) (first : Outcome InsertError MssqlInsertColumn)
    (others : Outcome InsertError (List MssqlInsertColumn))
    → (first >>= (λ col.
        (others >>= (λ found. ok (map (quote before) found)))
        >>= (λ names. ok (quote before col ∷ names))))
      ≡ ((first >>= (λ col. others >>= (λ found. ok (col ∷ found))))
          >>= (λ found. ok (map (quote before) found)))
quote-step before (ok col) (ok found) = refl
quote-step before (ok col) (throw e) = refl
quote-step before (ok col) fault = refl
quote-step before (throw e) others = refl
quote-step before fault others = refl

quote_columns-columns_at :
    (before : Text) (columns : List MssqlInsertColumn) (indices : List ℕ)
    → quote_columns before columns indices
      ≡ (columns_at columns indices >>= (λ found. ok (map (quote before) found)))
unfolding quote_columns columns_at
quote_columns-columns_at before columns [] = refl
quote_columns-columns_at before columns (i ∷ indices) =
    rw (quote_columns-columns_at before columns indices)
      (quote-step before (get_column columns i) (columns_at columns indices))

map-quote :
    (cols : List MssqlInsertColumn) → map (quote []) cols ≡ map escape_identifier (names_of cols)
map-quote [] = refl
map-quote (col ∷ cols) = ap (λ t. escape_identifier col.name ∷ t) (map-quote cols)

output_clause_for-ok :
    (include_output : Bool) (target : MssqlInsertTarget) (indices : List ℕ)
    (returned : List MssqlInsertColumn)
    → columns_at target.columns indices ≡ ok returned
    → (clause : Text) × (output_clause_for include_output target indices ≡ ok clause)
unfolding output_clause_for
output_clause_for-ok false target indices returned returns = ([], refl)
output_clause_for-ok true target [] returned returns = ([], refl)
output_clause_for-ok true target (i ∷ indices) returned returns =
    let quoted = quote_columns-columns_at (codes "INSERTED.") target.columns (i ∷ indices) in
    (
      codes "OUTPUT " ++ join (codes ", ") (map (quote (codes "INSERTED.")) returned),
      rw (quoted, returns),
    )

pub build-read_insert :
    (target : MssqlInsertTarget) (include_output : Bool) (column : MssqlInsertColumn)
    (columns returned : List MssqlInsertColumn) (rows : List (List Text))
    → columns_at target.columns target.insert_column_indices ≡ ok (column ∷ columns)
    → columns_at target.columns target.returning_column_indices ≡ ok returned
    → (stmt : InsertCache) × (initialize_cache target include_output ≡ ok stmt)
      × (read_insert (length (names_of columns)) (build stmt rows)
          ≡ some (
            record {
              schema = target.schema_name;
              table = target.table_name;
              columns = column.name ∷ names_of columns;
            },
            codes ")" ++ after_names stmt.cached_output_clause rows,
          ))
unfolding initialize_cache
build-read_insert target include_output column columns returned rows inserts returns =
    let (clause, clause_ok) =
      output_clause_for-ok include_output target target.returning_column_indices returned returns in
    let names = names_of columns in
    let quoted = quote_columns-columns_at [] target.columns target.insert_column_indices in
    (
      cache_of target.schema_name target.table_name column.name names clause,
      rw (quoted, inserts, clause_ok, map-quote columns),
      build-read target.schema_name target.table_name column.name names clause rows,
    )
