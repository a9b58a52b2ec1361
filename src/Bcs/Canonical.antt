-- ===== src/Bcs/Canonical.antt =====
-- Deserialization accepts only what serialization writes (src/diem/serde_binary/__init__.py,
-- src/diem/bcs/__init__.py).
pub mod Present
pub mod Primitives
pub mod Formats
