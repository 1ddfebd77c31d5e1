-- ===== src/Util.antt =====
-- util/util.cpp: the binary searches over ascending id arrays.
pub mod Search
pub mod Bsearch
