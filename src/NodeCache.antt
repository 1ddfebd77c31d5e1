-- ===== src/NodeCache.antt =====
-- VSTree/LRUCache.cpp: the buffer between the nodes of the tree and their file.
pub mod Defs
pub mod Links
pub mod Slots
pub mod Elem
pub mod Refresh
pub mod Store
pub mod Swapping
pub mod Memory
pub mod Client
pub mod Calls
pub mod Overflow
