-- ===== src/DiemTypes.antt =====
-- The data model of the chain: src/diem/diem_types.
pub mod Metadata
pub mod Transactions
pub mod State
pub mod Classes
pub mod Codec
mod Tests
