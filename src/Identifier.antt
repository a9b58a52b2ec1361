-- ===== src/Identifier.antt =====
-- Account identifiers: src/diem/identifier.
pub mod Text
pub mod Checksum
pub mod ConvertBits
pub mod Bech32
pub mod Account
pub mod DiemId
mod Tests
