-- ===== src/Sequence.antt =====
-- The containers of include/chaistl/containers/sequence.
pub mod LinkedList
