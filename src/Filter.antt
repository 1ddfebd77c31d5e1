-- ===== src/Filter.antt =====
-- The signature filter as a whole: entity signatures from the data (Database/Database.cpp),
-- variable signatures from the query (Query/BasicQuery.cpp), and the covering test between them.
pub mod Entity
pub mod Within
pub mod Data
pub mod Edges
pub mod Sound
pub mod Candidates
