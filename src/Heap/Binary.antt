-- ===== src/Heap/Binary.antt =====
-- The two link helpers that include/chaistl/containers/heap/policy/skew_heap.hpp and
-- leftist_heap.hpp both have: a binary tree kept as a list of at most two children.
pub mod Laws
pub mod Verify
use chaistl.Heap.Link.{Link, null, node, first_child, next_sibling, set_next}

module _ {ℓ} {E : Type 0} {A : Type ℓ} where
  -- `detach_children(node)`: the left and the right child, each cut off from the list.
  unfoldable pub detach_children : Link E A → Link E A × Link E A
  unfolding first_child next_sibling set_next
  detach_children x =
      let left = first_child x in
      let right = next_sibling left in (set_next left null, set_next right null)

  -- `set_children(parent, left, right)`: a null `left` makes the list empty, whatever `right` is.
  unfoldable pub set_children : Link E A → Link E A → Link E A → Link E A
  unfolding set_next
  set_children null left right = null
  set_children (node f n e v) left right = node (set_next left (set_next right null)) n e v
