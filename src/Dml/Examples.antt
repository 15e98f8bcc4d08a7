-- ===== src/Dml/Examples.antt =====
-- The theorems of Dml at concrete inputs, and tests.
pub mod Quoting
pub mod Inserts
pub mod Deletes
