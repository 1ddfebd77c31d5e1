-- ===== src/Answers.antt =====
-- Database/Database.cpp: the joins of results of parts of a query.
pub mod Merge
pub mod Columns
pub mod Names
pub mod Rows
pub mod Join
pub mod Outer
pub mod Union
pub mod Filtering
pub mod Texts
pub mod Selection
pub mod Kept
pub mod Duplicates
pub mod Compact
pub mod Order
pub mod Distinct
