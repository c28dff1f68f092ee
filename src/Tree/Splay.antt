-- ===== src/Tree/Splay.antt =====
-- include/chaistl/containers/tree/policy/splay_tree.hpp. Its nodes have no state of their own, so the
-- extension is any type.
pub mod Laws
use chaistl.Common.{List, [], ◌∷◌}
use chaistl.Tree.Node.{
  Tree, null, node, Frame, from_left, from_right, Place, subtree, node_maximum, node_rotate_left,
  node_rotate_right,
}

module _ {ℓ} {E : Type 0} {A : Type ℓ} where
  -- `splay(x, header)`, from the node with the frames above it: its parent alone, or its parent and
  -- its grandparent, are rotated below it until it is the root.
  unfoldable pub splay : Tree E A → List (Frame E A) → Tree E A
  unfolding node_rotate_left node_rotate_right
  splay x [] = x
  splay x (from_left p e r ∷ []) = node_rotate_right (node x p e r)
  splay x (from_right l p e ∷ []) = node_rotate_left (node l p e x)
  splay x (from_left p e r ∷ from_left g e' r' ∷ above) =
      splay (node_rotate_right (node_rotate_right (node (node x p e r) g e' r'))) above
  splay x (from_right l p e ∷ from_right l' g e' ∷ above) =
      splay (node_rotate_left (node_rotate_left (node l' g e' (node l p e x)))) above
  splay x (from_right l p e ∷ from_left g e' r' ∷ above) =
      splay (node_rotate_right (node (node_rotate_left (node l p e x)) g e' r')) above
  splay x (from_left p e r ∷ from_right l' g e' ∷ above) =
      splay (node_rotate_left (node l' g e' (node_rotate_right (node x p e r)))) above

  -- `insert_and_rebalance(insert_left, x, parent, header)` at a free slot.
  unfoldable pub insert_and_rebalance : A → E → List (Frame E A) → Tree E A
  unfolding splay
  insert_and_rebalance x ext slot = splay (node null x ext null) slot

  -- `after_access(node, header)`
  unfoldable pub after_access : Place E A → Tree E A
  unfolding splay subtree
  after_access x = splay (subtree x) x.above

  -- `root->right = right`
  unfoldable pub set_right : Tree E A → Tree E A → Tree E A
  set_right null right = null
  set_right (node l v e r) right = node l v e right

  -- The end of `unlink_and_rebalance`: the two subtrees of the root that is taken away.
  unfoldable pub join_subtrees : Tree E A → Tree E A → Tree E A
  unfolding splay subtree node_maximum set_right
  join_subtrees null right = right
  join_subtrees (node l v e r) right =
      let left_max = node_maximum l v e r [] in
      set_right (splay (subtree left_max) left_max.above) right

  -- `unlink_and_rebalance(z, header)`
  unfoldable pub unlink_and_rebalance : Place E A → Tree E A
  unfolding splay subtree join_subtrees
  unlink_and_rebalance z = elim (splay (subtree z) z.above) [
    | null ↦ null
    | node left v e right ↦ join_subtrees left right
  ]
