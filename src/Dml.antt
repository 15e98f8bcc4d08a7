-- ===== src/Dml.antt =====
-- src/dml: the SQL text of INSERT, UPDATE and DELETE, and the batches it is sent in.
pub mod Text
pub mod ValueSerializer
pub mod InsertTarget
pub mod InsertStatement
pub mod BatchBuilder
pub mod InsertExecutor
pub mod PhysicalInsert
pub mod DmlBatch
pub mod DeleteStatement
pub mod DeleteExecutor
pub mod Examples
