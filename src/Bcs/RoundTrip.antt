-- ===== src/Bcs/RoundTrip.antt =====
-- Serialization followed by deserialization (src/diem/serde_binary/__init__.py, src/diem/bcs/__init__.py).
pub mod Primitives
pub mod Formats
