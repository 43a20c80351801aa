-- ===== src/Lpm.antt =====
-- The two implementations of longest prefix match, src/naive.cpp and src/basicTrie.cpp, against
-- one another and against the definition of the longest matching prefix.
pub mod Prefix
pub mod Scan
pub mod Routing
pub mod Equivalence
pub mod Longest
pub mod Lookup
pub mod Paths
pub mod Indexed
