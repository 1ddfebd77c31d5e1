-- ===== src/IdList.antt =====
-- Query/IDList.cpp: the lists of candidate ids.
pub mod Ops
pub mod Meet
pub mod Intersect
pub mod Union
