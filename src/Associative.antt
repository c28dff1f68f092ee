-- ===== src/Associative.antt =====
-- The flat containers of include/chaistl/containers/associative.
pub mod FlatSet
