-- ===== src/Tree/BinarySearchTree/Rank.antt =====
-- The order statistics of include/chaistl/containers/tree/binary_search_tree.hpp, over a policy whose
-- extension has the size of the subtree: concept `order_statistic_policy`.
pub mod Laws
use chaistl.Common.{
  Bool, true, false, ℕ, ◌+◌, ◌-◌, ◌==◌, ltb, List, [], ◌∷◌, some, none, if◌then◌else◌,
}
use chaistl.Tree.Node.{Tree, null, node, Frame, from_left, from_right}
use chaistl.Tree.BinarySearchTree.{BinarySearchTree, Iterator}

module _ {ℓ} {E : Type 0} {A : Type ℓ} (subtree_size : E → ℕ) where
  -- `node_size(node)`
  unfoldable pub node_size : Tree E A → ℕ
  node_size null = 0
  node_size (node l v e r) = subtree_size e

  -- The loop of `select_by_order(order)`, from the node with the frames above it.
  unfoldable pub select_from : ℕ → Tree E A → List (Frame E A) → Iterator E A
  unfolding node_size
  select_from order null above = none
  select_from order (node l v e r) above =
      let left_size = node_size l in
      let to_left = select_from order l (from_left v e r ∷ above) in
      let to_right = select_from (order - (left_size + 1)) r (from_right l v e ∷ above) in
      let here : Iterator E A =
        some (record { left = l; value = v; ext = e; right = r; above = above }) in
      if ltb order left_size then to_left else (if order == left_size then here else to_right)

module _ {ℓ} {S E : Type 0} {A : Type ℓ} (subtree_size : E → ℕ) where
  -- `find_by_order(order)`
  unfoldable pub find_by_order : ℕ → BinarySearchTree S E A → Iterator E A
  unfolding select_from
  find_by_order order t = select_from subtree_size order t.root []

module _ {ℓ κ} {E : Type 0} {A : Type ℓ} {K : Type κ} (kov : A → K) (comp : K → K → Bool)
    (subtree_size : E → ℕ) where
  -- The loop of `order_of_key(key)`, from a node with the order found so far.
  unfoldable pub order_from : K → ℕ → Tree E A → ℕ
  unfolding node_size
  order_from key order null = order
  order_from key order (node l v e r) =
      let to_right = order_from key (order + (node_size subtree_size l + 1)) r in
      let to_left = order_from key order l in if comp (kov v) key then to_right else to_left

module _ {ℓ κ} {S E : Type 0} {A : Type ℓ} {K : Type κ} (kov : A → K) (comp : K → K → Bool)
    (subtree_size : E → ℕ) where
  -- `order_of_key(key)`
  unfoldable pub order_of_key : K → BinarySearchTree S E A → ℕ
  unfolding order_from
  order_of_key key t = order_from kov comp subtree_size key 0 t.root
