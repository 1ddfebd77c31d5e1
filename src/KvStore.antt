-- ===== src/KvStore.antt =====
-- KVstore/KVstore.cpp and KVstore/HashMap.h: the id lists of the triple indexes.
pub mod Lists
pub mod Pairs
pub mod InsertX
pub mod InsertXy
pub mod Remove
pub mod Memory
pub mod Maps
pub mod Update
pub mod Holds
pub mod Aliasing
