-- ===== src/Tree/Treap.antt =====
-- include/chaistl/containers/tree/policy/treap_tree.hpp and its generator of priorities,
-- policy/detail/splitmix64.hpp. The extension of a node is its priority.
pub mod Order
pub mod Laws
use chaistl.Common.{Bool, true, false, not, ◌&&◌, ℕ, ◌+◌, ltb, if◌then◌else◌, List, [], ◌∷◌}
use chaistl.Tree.Node.{
  Tree, null, node, Frame, from_left, from_right, Place, plug, node_rotate_left, node_rotate_right,
}

module _ {ℓ} {A : Type ℓ} where
  -- Whether the root of the subtree has a priority less than `p`: the tests of `verify_heap` and the
  -- loop test of `insert_and_rebalance`.
  unfoldable pub root_less : Tree ℕ A → ℕ → Bool
  root_less null p = false
  root_less (node l v q r) p = ltb q p

  -- The loop of `insert_and_rebalance`, from the node `n` with the frames above it.
  unfoldable pub rotate_up : Tree ℕ A → List (Frame ℕ A) → Tree ℕ A
  unfolding root_less plug node_rotate_left node_rotate_right
  rotate_up n [] = n
  rotate_up n (from_left v p r ∷ above) =
      let rest = rotate_up (node_rotate_right (node n v p r)) above in
      if root_less n p then rest else plug (from_left v p r ∷ above) n
  rotate_up n (from_right l v p ∷ above) =
      let rest = rotate_up (node_rotate_left (node l v p n)) above in
      if root_less n p then rest else plug (from_right l v p ∷ above) n

  -- `insert_and_rebalance(insert_left, x, parent, header)` with the value of `x`, the priority that
  -- the generator gives, and the free slot: the whole tree.
  unfoldable pub insert_and_rebalance : A → ℕ → List (Frame ℕ A) → Tree ℕ A
  unfolding rotate_up
  insert_and_rebalance x priority slot = rotate_up (node null x priority null) slot

  -- The loop of `unlink_and_rebalance` with the end of it: the node, which has these children, is
  -- rotated below the child with the smaller priority until it is a leaf, and cut off.
  unfoldable pub rotate_down : Tree ℕ A → Tree ℕ A → Tree ℕ A
  rotate_down null null = null
  rotate_down null (node b y q c) = node (rotate_down null b) y q c
  rotate_down (node a x p b) null = node a x p (rotate_down b null)
  rotate_down (node a x p b) (node b' y q c) =
      let to_right = rotate_down b (node b' y q c) in
      let to_left = rotate_down (node a x p b) b' in
      if ltb p q then node a x p to_right else node to_left y q c

  -- `unlink_and_rebalance(z, header)`: the whole tree that is left.
  unfoldable pub unlink_and_rebalance : Place ℕ A → Tree ℕ A
  unfolding rotate_down plug
  unlink_and_rebalance z = plug z.above (rotate_down z.left z.right)

  -- `verify_heap(node)`
  unfoldable pub verify_heap : Tree ℕ A → Bool
  unfolding root_less
  verify_heap null = true
  verify_heap (node l v p r) =
      (not (root_less l p) && verify_heap l) && (not (root_less r p) && verify_heap r)

  -- `verify(root)`
  unfoldable pub verify : Tree ℕ A → Bool
  unfolding verify_heap
  verify root = verify_heap root
