-- ===== src/Tree.antt =====
-- The search trees of include/chaistl/containers/tree.
--
-- A node pointer, with the parent pointers that lead from it to the header, is a node with the
-- frames above it, nearest first; the header is `none`. Its leftmost and rightmost pointers are what
-- the frames say: a node with no element before it is `header.left`.
pub mod Node
pub mod Search
pub mod Treap
pub mod Hint
pub mod Splay
pub mod OrderStatistic
pub mod BinarySearchTree
