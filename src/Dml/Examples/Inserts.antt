-- ===== src/Dml/Examples/Inserts.antt =====
-- An INSERT of three rows in statements of at most two.
use mssql_extension.Prelude.{
  List, Outcome, [], arith, false, length, ok, refl, some, true, ℕ, ◌++◌, ◌+◌, ◌∷◌, ◌≡◌, ◌≤◌,
}
use mssql_extension.Dml.BatchBuilder.{calculate_base_sql_size, estimate_row_size, serialize_row}
use mssql_extension.Dml.BatchBuilder.Size.{length-build, sizes}
use mssql_extension.Dml.InsertStatement.{InsertCache, build, initialize_cache}
use mssql_extension.Dml.InsertStatement.Names.{build-read_insert, columns_at}
use mssql_extension.Dml.InsertStatement.Read.{after_names, read_insert}
use mssql_extension.Dml.InsertTarget.{
  InsertError, MssqlInsertColumn, MssqlInsertConfig, MssqlInsertTarget,
  effective_rows_per_statement, get_column,
}
use mssql_extension.Dml.PhysicalInsert.{insert_chunks, new_insert_sink}
use mssql_extension.Dml.PhysicalInsert.Count.{insert_chunks-one_statement}
use mssql_extension.Dml.PhysicalInsert.Sent.{AllSent, insert_chunks-Divides}
use mssql_extension.Dml.Text.{Text, codes}
use mssql_extension.Dml.ValueSerializer.{escape_identifier}

abbrev people : MssqlInsertTarget
people = record {
  schema_name = codes "dbo";
  table_name = codes "odd]name";
  columns =
      (record { name = codes "id"; mssql_type = codes "int" })
      ∷ (record { name = codes "note"; mssql_type = codes "xml" })
      ∷ [];
  insert_column_indices = 0 ∷ 1 ∷ [];
  returning_column_indices = 0 ∷ [];
}

abbrev two_rows : MssqlInsertConfig
two_rows = record { batch_size = 2; max_rows_per_statement = 1000; max_sql_bytes = 1024 }

abbrev people_head : InsertCache
people_head = record {
  cached_table_name = codes "[dbo].[odd]]name]";
  cached_column_list = codes "[id], [note]";
  cached_output_clause = [];
}

people_head-is : initialize_cache people false ≡ ok people_head
unfolding initialize_cache get_column escape_identifier
people_head-is = refl

-- a row is a byte, written in each of its columns
abbrev literal_of : ℕ → ℕ → Outcome InsertError Text
literal_of row i = ok (row ∷ [])

abbrev executes : Text → Outcome InsertError ℕ
executes sql = ok 1

abbrev executes-runs : (sql : Text) → (n : ℕ) × (executes sql ≡ ok n)
executes-runs sql = (1, refl)

abbrev row_of : ℕ → List Text
row_of row = (row ∷ []) ∷ (row ∷ []) ∷ []

row_of-serialize_row : (row : ℕ) → serialize_row literal_of people row ≡ ok (row_of row)
unfolding serialize_row get_column
row_of-serialize_row row = refl

row_of-small : (row : ℕ) → estimate_row_size (row_of row) ≤ 1024
unfolding estimate_row_size
row_of-small row = omega arith

insert_chunks-Divides_example :
    AllSent people_head two_rows (row_of b'1' ∷ row_of b'2' ∷ row_of b'3' ∷ []) (
      insert_chunks literal_of executes
        (new_insert_sink literal_of executes people two_rows)
        ((b'1' ∷ b'2' ∷ []) ∷ (b'3' ∷ []) ∷ []))
unfolding effective_rows_per_statement
insert_chunks-Divides_example =
    insert_chunks-Divides literal_of executes executes-runs people_head people two_rows
      ((b'1' ∷ b'2' ∷ []) ∷ (b'3' ∷ []) ∷ [])
      ((row_of b'1' ∷ row_of b'2' ∷ []) ∷ (row_of b'3' ∷ []) ∷ []) (omega arith) people_head-is
      (
        (
          row_of-serialize_row b'1',
          row_of-small b'1',
          (row_of-serialize_row b'2', row_of-small b'2', tt),
        ),
        ((row_of-serialize_row b'3', row_of-small b'3', tt), tt),
      )

insert_chunks-one_statement_example :
    (let result =
        insert_chunks literal_of executes
          (new_insert_sink literal_of executes people two_rows)
          ((b'1' ∷ []) ∷ [] ∷ (b'2' ∷ []) ∷ []) in
      (result.1 ≡ ok tt)
      × (result.0.executor.sent ≡ build people_head (row_of b'1' ∷ row_of b'2' ∷ []) ∷ [])
      × (result.0.total_rows_inserted ≡ 0))
unfolding effective_rows_per_statement calculate_base_sql_size sizes estimate_row_size
insert_chunks-one_statement_example =
    insert_chunks-one_statement literal_of executes executes-runs people two_rows people_head
      ((b'1' ∷ []) ∷ [] ∷ (b'2' ∷ []) ∷ []) ((row_of b'1' ∷ []) ∷ [] ∷ (row_of b'2' ∷ []) ∷ [])
      people_head-is
      (
        (row_of-serialize_row b'1', row_of-small b'1', tt),
        (tt, ((row_of-serialize_row b'2', row_of-small b'2', tt), tt)),
      )
      (omega arith) (omega arith) (omega arith)

length-build_example :
    length (build people_head (row_of b'1' ∷ row_of b'2' ∷ [])) + 1
    ≡ calculate_base_sql_size people_head + sizes (row_of b'1' ∷ row_of b'2' ∷ [])
length-build_example = length-build people_head (row_of b'1') (row_of b'2' ∷ [])

abbrev id_column : MssqlInsertColumn
id_column = record { name = codes "id"; mssql_type = codes "int" }

abbrev note_column : MssqlInsertColumn
note_column = record { name = codes "note"; mssql_type = codes "xml" }

build-read_insert_example :
    (stmt : InsertCache) × (initialize_cache people true ≡ ok stmt)
    × (read_insert 1 (build stmt (row_of b'1' ∷ []))
        ≡ some (
          record {
            schema = codes "dbo";
            table = codes "odd]name";
            columns = codes "id" ∷ codes "note" ∷ [];
          },
          codes ")" ++ after_names stmt.cached_output_clause (row_of b'1' ∷ []),
        ))
unfolding columns_at get_column
build-read_insert_example =
    build-read_insert people true id_column (note_column ∷ []) (id_column ∷ []) (row_of b'1' ∷ [])
      refl refl
