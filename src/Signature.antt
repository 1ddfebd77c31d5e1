-- ===== src/Signature.antt =====
-- Signature/: hash signatures of entities, and the covering test that filters by them.
pub mod BitSet
pub mod Hash
pub mod Encode
pub mod Bounds
pub mod Cover
