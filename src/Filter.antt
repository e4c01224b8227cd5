-- ===== src/Filter.antt =====
-- The keyword filter, runtime/src/utils/trie_ac.cpp.
pub mod Utf8
pub mod Trie
pub mod Build
mod Tests
