-- ===== src/Loading.antt =====
-- Database/Database.cpp: loading the triples of the data.
pub mod Compare
pub mod Orders
pub mod Building
pub mod Groups
pub mod Opening
pub mod Storing
pub mod Rounds
pub mod Runs
pub mod Built
pub mod Predicates
pub mod PreLists
pub mod Places
pub mod Turns
pub mod Rising
pub mod ByPredicate
