-- ===== src/DfsJoin.antt =====
-- Database/Database.cpp: generateBN and dfs, the recursive join of join_basic_dfs_style, and the choice
-- of a first variable of Query/BasicQuery.cpp.
pub mod Backward
pub mod Search
pub mod Answers
pub mod Chosen
pub mod Same
pub mod Rows
pub mod Built
pub mod Found
pub mod Linked
pub mod Choice
