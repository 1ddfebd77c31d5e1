-- ===== src/Query.antt =====
-- Query/BasicQuery.cpp: the query graph and the signatures of its variables; Triple/Triple.cpp: triples.
pub mod Basic
pub mod Line
pub mod Reads
pub mod RoundTrip
