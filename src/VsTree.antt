-- ===== src/VsTree.antt =====
-- VSTree/: the nodes of the tree that is searched for covering signatures, and the search.
pub mod Node
pub mod Children
pub mod Adding
pub mod Tree
pub mod Sound
pub mod Rounds
pub mod Retrieval
pub mod Reading
