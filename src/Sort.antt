-- ===== src/Sort.antt =====
-- The comparison sorts of include/chaistl/algorithm/sort.hpp.
--
-- An array is a list. A position `current` of the source splits it: what is before, nearest first,
-- and what is from there on. A slot that was moved from keeps its old value, as a number does.
pub mod Base
pub mod Parts
pub mod Insertion
pub mod Merge
pub mod Selection
pub mod Bubble
