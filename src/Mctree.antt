-- ===== src/Mctree.antt =====
-- mctree: a decision tree over keys of pairs of a mask and a value.
-- Pairs is pair.go, keys on the hash table; Split is the step of mctree.go that divides the pairs of a
-- leaf between two leaves, and the step back.
pub mod Pairs
pub mod Split
