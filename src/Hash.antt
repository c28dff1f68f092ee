-- ===== src/Hash.antt =====
-- The hash tables of include/chaistl/containers/hash.
pub mod Policy
pub mod Table
