-- ===== src/Dml/Examples/Deletes.antt =====
-- A DELETE of two rows by a key of one column.
use mssql_extension.Prelude.{Outcome, [], arith, inl, ok, refl, true, ℕ, ◌++◌, ◌∷◌, ◌≡◌, ◌⊎◌}
use mssql_extension.Dml.DeleteExecutor.{MssqlDeleteExecutor, finalize_delete, new_delete_executor}
use mssql_extension.Dml.DeleteExecutor.Deletes.{finalize_delete-Drained, finalize_delete-Ends}
use mssql_extension.Dml.DeleteExecutor.Drained.{Drained}
use mssql_extension.Dml.DeleteStatement.{
  MssqlDeleteTarget, build_delete, generate_delete_clause, generate_on_clause, key_row,
}
use mssql_extension.Dml.DeleteStatement.Built.{Unfaulted}
use mssql_extension.Dml.DmlBatch.{DmlError, MssqlDmlResult, effective_batch_size, is_valid}
use mssql_extension.Dml.Text.{Text, codes}

abbrev orders : MssqlDeleteTarget ℕ
orders = record {
  schema_name = codes "dbo";
  table_name = codes "orders";
  pk_columns = (record { name = codes "id"; duckdb_type = 0 }) ∷ [];
}

abbrev digit_of : ℕ → ℕ → Outcome DmlError Text
digit_of value kind = ok (value ∷ [])

abbrev counts_two : Text → ℕ ⊎ Text
counts_two sql = inl 2

abbrev two_waiting : MssqlDeleteExecutor ℕ
two_waiting = record (new_delete_executor (record { batch_size = 10; max_parameters = 5 }) 1 true) {
  pending_pk_values = (b'7' ∷ []) ∷ (b'8' ∷ []) ∷ [];
}

deleted :
    (finalize_delete (build_delete digit_of orders) counts_two two_waiting).0.sent
    ≡ codes "DELETE t FROM [dbo].[orders] AS t JOIN (VALUES (7), (8)) AS v([id]) ON t.[id] = v.[id]"
      ∷ []
unfolding finalize_delete build_delete effective_batch_size generate_delete_clause
    generate_on_clause is_valid
deleted = refl

no_parameters_left :
    (finalize_delete (build_delete digit_of orders) counts_two (record two_waiting {
      effective_size = effective_batch_size (record { batch_size = 10; max_parameters = 0 }) 1;
    })).1
    ≡ ok (MssqlDmlResult.failure (codes "Failed to build DELETE batch") 1)
unfolding finalize_delete build_delete effective_batch_size is_valid
no_parameters_left = refl

finalize_delete-Ends_example :
    Unfaulted (finalize_delete (build_delete digit_of orders) counts_two two_waiting).1
finalize_delete-Ends_example =
    finalize_delete-Ends digit_of counts_two orders two_waiting (λ value kind. tt)

id_row :
    (value : ℕ)
    → key_row digit_of orders.pk_columns (value ∷ []) ≡ ok (codes "(" ++ value ∷ codes ")")
unfolding key_row
id_row value = refl

finalize_delete-Drained_example :
    Drained
      (build_delete digit_of orders)
      two_waiting
      (finalize_delete (build_delete digit_of orders) counts_two two_waiting)
unfolding effective_batch_size
finalize_delete-Drained_example =
    finalize_delete-Drained digit_of counts_two orders two_waiting (λ sql. (2, refl)) refl
      (omega arith) ((codes "(7)", id_row b'7'), ((codes "(8)", id_row b'8'), tt))
