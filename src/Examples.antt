-- ===== src/Examples.antt =====
-- Runs of the models on small inputs, and the theorems at inputs that meet their hypotheses.
mod Lists
mod Stores
mod Filters
mod Joins
mod Trees
mod Plans
mod Triples
mod Duplicates
mod Search
mod DfsJoin
mod Loading
mod Caches
mod Dictionaries
