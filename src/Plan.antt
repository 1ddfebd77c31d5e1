-- ===== src/Plan.antt =====
-- Database/Database.cpp: evaluation plans, their machine, and what a pattern group means.
pub mod Machine
pub mod Generate
pub mod Meaning
pub mod Shape
pub mod Run
pub mod Tests
pub mod Correct
