-- ===== src/Dictionary.antt =====
-- Database/Database.cpp, KVstore/KVstore.cpp and KVstore/HashMap.h: the ids of names.
pub mod Names
pub mod Consistent
pub mod Triples
pub mod Decoding
