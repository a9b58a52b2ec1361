-- ===== src/Bcs.antt =====
-- Binary Canonical Serialization: src/diem/bcs, src/diem/serde_binary and src/diem/serde_types.
pub mod Error
pub mod Words
pub mod Parser
pub mod Uleb
pub mod Types
pub mod Serializer
pub mod Deserializer
pub mod Fits
pub mod RoundTrip
pub mod Canonical
pub mod Ascii
mod Tests
