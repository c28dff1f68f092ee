-- ===== src/Tree/OrderStatistic.antt =====
-- include/chaistl/containers/tree/policy/order_statistic_tree.hpp: a treap whose nodes know the size of
-- their subtree.
pub mod Sizes
pub mod Laws
use chaistl.Common.{Bool, true, false, not, ◌&&◌, ℕ, ◌+◌, ◌==◌, ltb, if◌then◌else◌, List, [], ◌∷◌}
use chaistl.Tree.Node.{Tree, null, node, Frame, from_left, from_right, Place, plug}

-- `node_extension`
pub record Ext : Type 0 where
  pub priority : ℕ
  pub subtree_size : ℕ

module _ {ℓ} {A : Type ℓ} where
  -- `subtree_size_of(node)`
  unfoldable pub subtree_size_of : Tree Ext A → ℕ
  subtree_size_of null = 0
  subtree_size_of (node l v e r) = e.subtree_size

  -- Whether the root of the subtree has a priority less than `p`.
  unfoldable pub root_less : Tree Ext A → ℕ → Bool
  root_less null p = false
  root_less (node l v e r) p = ltb e.priority p

  -- `refresh(node)`, for the node with these parts.
  unfoldable pub refresh : Tree Ext A → A → Ext → Tree Ext A → Tree Ext A
  unfolding subtree_size_of
  refresh l v e r =
      node l v (record e { subtree_size = 1 + subtree_size_of l + subtree_size_of r }) r

  -- `refresh_ancestors(node, header)` of the frames above a subtree.
  unfoldable pub refresh_ancestors : Tree Ext A → List (Frame Ext A) → List (Frame Ext A)
  unfolding subtree_size_of
  refresh_ancestors t [] = []
  refresh_ancestors t (from_left v e r ∷ above) =
      let e' : Ext = record e { subtree_size = 1 + subtree_size_of t + subtree_size_of r } in
      from_left v e' r ∷ refresh_ancestors (node t v e' r) above
  refresh_ancestors t (from_right l v e ∷ above) =
      let e' : Ext = record e { subtree_size = 1 + subtree_size_of l + subtree_size_of t } in
      from_right l v e' ∷ refresh_ancestors (node l v e' t) above

  -- `rotate_left(x, root)` and `rotate_right(x, root)`, on the subtree at `x`.
  unfoldable pub rotate_left : Tree Ext A → Tree Ext A
  unfolding refresh
  rotate_left (node a x e (node b y e' c)) = refresh (refresh a x e b) y e' c
  rotate_left t = t

  unfoldable pub rotate_right : Tree Ext A → Tree Ext A
  unfolding refresh
  rotate_right (node (node a y e' b) x e c) = refresh a y e' (refresh b x e c)
  rotate_right t = t

  -- The loop of `insert_and_rebalance`, from the node `n` with the frames above it.
  unfoldable pub rotate_up : Tree Ext A → List (Frame Ext A) → Tree Ext A
  unfolding root_less plug rotate_left rotate_right
  rotate_up n [] = n
  rotate_up n (from_left v e r ∷ above) =
      let rest = rotate_up (rotate_right (node n v e r)) above in
      if root_less n e.priority then rest else plug (from_left v e r ∷ above) n
  rotate_up n (from_right l v e ∷ above) =
      let rest = rotate_up (rotate_left (node l v e n)) above in
      if root_less n e.priority then rest else plug (from_right l v e ∷ above) n

  -- `insert_and_rebalance(insert_left, x, parent, header)` at a free slot, with the priority that the
  -- generator gives.
  unfoldable pub insert_and_rebalance : A → ℕ → List (Frame Ext A) → Tree Ext A
  unfolding rotate_up refresh_ancestors
  insert_and_rebalance x priority slot =
      let leaf = node null x (record { priority = priority; subtree_size = 1 }) null in
      rotate_up leaf (refresh_ancestors leaf slot)

  -- The loop of `unlink_and_rebalance` with the cut: the node, which has these children, is rotated
  -- down until it is a leaf. The ancestors that it got on the way have the sizes that the refresh of
  -- all ancestors at the end leaves.
  unfoldable pub rotate_down : Tree Ext A → Tree Ext A → Tree Ext A
  unfolding refresh
  rotate_down null null = null
  rotate_down null (node b y q c) = refresh (rotate_down null b) y q c
  rotate_down (node a x p b) null = refresh a x p (rotate_down b null)
  rotate_down (node a x p b) (node b' y q c) =
      let to_right = rotate_down b (node b' y q c) in
      let to_left = rotate_down (node a x p b) b' in
      if ltb p.priority q.priority then refresh a x p to_right else refresh to_left y q c

  -- `unlink_and_rebalance(z, header)`
  unfoldable pub unlink_and_rebalance : Place Ext A → Tree Ext A
  unfolding rotate_down plug refresh_ancestors
  unlink_and_rebalance z =
      let below = rotate_down z.left z.right in plug (refresh_ancestors below z.above) below

  -- `verify_node(node)`
  unfoldable pub verify_node : Tree Ext A → Bool
  unfolding subtree_size_of root_less
  verify_node null = true
  verify_node (node l v e r) =
      (e.subtree_size == 1 + subtree_size_of l + subtree_size_of r)
      && ((not (root_less l e.priority) && verify_node l)
          && (not (root_less r e.priority) && verify_node r))

  -- `verify(root)`
  unfoldable pub verify : Tree Ext A → Bool
  unfolding verify_node
  verify root = verify_node root
