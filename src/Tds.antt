-- ===== src/Tds.antt =====
-- src/tds: the protocol layer.
pub mod Types
pub mod Bytes
pub mod Utf16
pub mod ValueEncoding
pub mod Parser
pub mod ColumnMetadata
pub mod RowReader
pub mod TokenParser
pub mod Packet
pub mod Socket
pub mod ConnectionPool
pub mod Examples
