-- ===== src/Dml/DmlBatch.antt =====
-- src/include/dml: the configuration, the batches and the results that UPDATE and DELETE share.
use mssql_extension.Prelude.{
  Bool, [], false, if◌then◌else◌, ltb, not, suc, true, zero, ℕ, ◌&&◌, ◌/◌, ◌∷◌,
}
use mssql_extension.Dml.Text.{Text}

pub record MssqlDmlConfig : Type 0 where
  pub batch_size : ℕ
  pub max_parameters : ℕ

unfoldable pub effective_batch_size : MssqlDmlConfig → ℕ → ℕ
effective_batch_size config zero = config.batch_size
effective_batch_size config (suc n) =
    let param_limited_batch = config.max_parameters / suc n in
    if ltb param_limited_batch config.batch_size then param_limited_batch else config.batch_size

pub record MssqlDmlBatch : Type 0 where
  pub row_count : ℕ
  pub sql : Text

abbrev pub no_batch : MssqlDmlBatch
no_batch = record { row_count = 0; sql = [] }

is_empty : Text → Bool
is_empty [] = true
is_empty (c ∷ text) = false

-- The parameters and their types are never filled, and so equal in number.
unfoldable pub is_valid : MssqlDmlBatch → Bool
unfolding is_empty
is_valid batch = ltb 0 batch.row_count && not (is_empty batch.sql)

-- `Success(rows_affected, batch_number)` and `Failure(error_message, 0, batch_number)`
pub data MssqlDmlResult : Type 0 where
  success : ℕ → ℕ → MssqlDmlResult
  failure : Text → ℕ → MssqlDmlResult

pub data DmlError : Type 0 where
  pk_count_mismatch : ℕ → ℕ → DmlError
  serialization_failed : Text → DmlError
  statement_failed : Text → DmlError
  called_after_finalize : DmlError

-- `columns` of a primary key, with the type that a value is serialized at
pub record PkColumnInfo (Kind : Type 0) : Type 0 where
  pub name : Text
  pub duckdb_type : Kind
