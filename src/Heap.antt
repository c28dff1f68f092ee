-- ===== src/Heap.antt =====
-- include/chaistl/containers/heap: the node heaps.
pub mod Link
pub mod Policy
pub mod Binary
pub mod PriorityQueue
pub mod Skew
pub mod Leftist
pub mod Pairing
pub mod Binomial
