-- ===== src/Tds/Examples.antt =====
-- The theorems of Tds at concrete inputs, and tests of the definitions.
pub mod Metadata
pub mod Rows
pub mod Parser
pub mod Packets
pub mod Pool
pub mod Texts
pub mod Values
