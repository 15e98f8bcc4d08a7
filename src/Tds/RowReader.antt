-- ===== src/Tds/RowReader.antt =====
-- src/tds/tds_row_reader.cpp: rows of the TDS stream.
pub mod Skip
pub mod SkipRow
pub mod SkipBounds
pub mod SkipRows
pub mod SkipPrefix
pub mod SkipNbcPrefix
pub mod Read
pub mod ReadRow
pub mod Agreement
pub mod AgreementRows
pub mod ReadBounds
pub mod GuidDivergence
