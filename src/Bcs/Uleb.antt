-- ===== src/Bcs/Uleb.antt =====
-- Lengths and variant indices in unsigned LEB128 (src/diem/bcs/__init__.py).
pub mod Encode
pub mod Decode
pub mod RoundTrip
