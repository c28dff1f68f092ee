-- ===== src/Tree/BinarySearchTree/Insert.antt =====
-- The insertions of include/chaistl/containers/tree/binary_search_tree.hpp. A node handle is `none`
-- when it is empty, and else the value of the node that it owns.
pub mod Reference
pub mod Unique
pub mod Equal
use chaistl.Common.{Bool, true, false, ◌+◌, List, [], ◌∷◌, Option, some, none, length}
use chaistl.Tree.Node.{Tree, Frame, before}
use chaistl.Tree.Search.{
  InsertPosition, existing, attach, get_insert_unique_pos, get_insert_equal_pos,
}
use chaistl.Tree.Hint.{get_insert_hint_unique_pos, get_insert_hint_equal_pos}
use chaistl.Tree.BinarySearchTree.{BinarySearchTree, BalancePolicy, Iterator, place_at}

module _ {ℓ} {E : Type 0} {A : Type ℓ} where
  -- What is left in the node handle, or dropped by the guard of `emplace_unique`, after the search.
  unfoldable pub kept_at : InsertPosition E A → A → Option A
  kept_at (existing x) value = some value
  kept_at (attach slot) value = none

module _ {ℓ} {S E : Type 0} {A : Type ℓ} (P : BalancePolicy S E A) where
  -- `policy_.insert_and_rebalance(...)` and `++size_`, with the iterator to the new node.
  unfoldable pub link_node :
      A → List (Frame E A) → BinarySearchTree S E A → BinarySearchTree S E A × Iterator E A
  unfolding place_at before
  link_node x slot t =
      let (policy, root) = P.insert_and_rebalance t.policy x slot in
      (
        record { root = root; policy = policy; count = t.count + 1 },
        place_at (length (before slot)) root [],
      )

  -- What insertions do after their search: the tree, the iterator, and whether it has a new node.
  unfoldable pub insert_at :
      InsertPosition E A → A → BinarySearchTree S E A → BinarySearchTree S E A × Iterator E A × Bool
  unfolding link_node
  insert_at (existing x) value t = (t, some x, false)
  insert_at (attach slot) value t = let (u, it) = link_node value slot t in (u, it, true)

module _ {ℓ κ} {S E : Type 0} {A : Type ℓ} {K : Type κ} (kov : A → K) (comp : K → K → Bool)
    (P : BalancePolicy S E A) where
  -- `insert_unique(value)`
  unfoldable pub insert_unique :
      A → BinarySearchTree S E A → BinarySearchTree S E A × Iterator E A × Bool
  unfolding insert_at get_insert_unique_pos
  insert_unique value t = insert_at P (get_insert_unique_pos kov comp (kov value) t.root) value t

  -- `insert_node_unique(nh)`: the last component is the handle afterwards.
  unfoldable pub insert_node_unique :
      Option A → BinarySearchTree S E A → BinarySearchTree S E A × Iterator E A × Bool × Option A
  unfolding insert_at kept_at get_insert_unique_pos
  insert_node_unique none t = (t, none, false, none)
  insert_node_unique (some value) t =
      let pos = get_insert_unique_pos kov comp (kov value) t.root in
      let (u, it, inserted) = insert_at P pos value t in (u, it, inserted, kept_at pos value)

  -- `emplace_unique(args...)`, whose arguments make `value`: the last component is the node that the
  -- guard drops.
  unfoldable pub emplace_unique :
      A → BinarySearchTree S E A → BinarySearchTree S E A × Iterator E A × Bool × Option A
  unfolding insert_at kept_at get_insert_unique_pos
  emplace_unique value t =
      let pos = get_insert_unique_pos kov comp (kov value) t.root in
      let (u, it, inserted) = insert_at P pos value t in (u, it, inserted, kept_at pos value)

  -- `insert_hint_unique(hint, value)`
  unfoldable pub insert_hint_unique :
      Iterator E A → A → BinarySearchTree S E A → BinarySearchTree S E A × Iterator E A
  unfolding insert_at get_insert_hint_unique_pos
  insert_hint_unique hint value t =
      let pos = get_insert_hint_unique_pos kov comp (kov value) t.root hint in
      let (u, it, inserted) = insert_at P pos value t in (u, it)

  -- `insert_hint_node_unique(hint, nh)`
  unfoldable pub insert_hint_node_unique :
      Iterator E A
      → Option A
      → BinarySearchTree S E A
      → BinarySearchTree S E A × Iterator E A × Option A
  unfolding insert_at kept_at get_insert_hint_unique_pos
  insert_hint_node_unique hint none t = (t, none, none)
  insert_hint_node_unique hint (some value) t =
      let pos = get_insert_hint_unique_pos kov comp (kov value) t.root hint in
      let (u, it, inserted) = insert_at P pos value t in (u, it, kept_at pos value)

  -- `emplace_hint_unique(hint, args...)`
  unfoldable pub emplace_hint_unique :
      Iterator E A → A → BinarySearchTree S E A → BinarySearchTree S E A × Iterator E A × Option A
  unfolding insert_at kept_at get_insert_hint_unique_pos
  emplace_hint_unique hint value t =
      let pos = get_insert_hint_unique_pos kov comp (kov value) t.root hint in
      let (u, it, inserted) = insert_at P pos value t in (u, it, kept_at pos value)

  -- `insert_unique(first, last)`: end() is the hint of each.
  unfoldable pub insert_unique_range : List A → BinarySearchTree S E A → BinarySearchTree S E A
  unfolding insert_hint_unique
  insert_unique_range [] t = t
  insert_unique_range (value ∷ values) t =
      insert_unique_range values (insert_hint_unique none value t).0

  -- `insert_equal(value)`
  unfoldable pub insert_equal : A → BinarySearchTree S E A → BinarySearchTree S E A × Iterator E A
  unfolding insert_at get_insert_equal_pos
  insert_equal value t =
      let (u, it, inserted) =
        insert_at P (get_insert_equal_pos kov comp (kov value) t.root) value t in
      (u, it)

  -- `insert_node_equal(nh)`
  unfoldable pub insert_node_equal :
      Option A → BinarySearchTree S E A → BinarySearchTree S E A × Iterator E A
  unfolding insert_equal
  insert_node_equal none t = (t, none)
  insert_node_equal (some value) t = insert_equal value t

  -- `insert_hint_equal(hint, value)`
  unfoldable pub insert_hint_equal :
      Iterator E A → A → BinarySearchTree S E A → BinarySearchTree S E A × Iterator E A
  unfolding insert_at get_insert_hint_equal_pos
  insert_hint_equal hint value t =
      let pos = get_insert_hint_equal_pos kov comp (kov value) t.root hint in
      let (u, it, inserted) = insert_at P pos value t in (u, it)

  -- `insert_hint_node_equal(hint, nh)`
  unfoldable pub insert_hint_node_equal :
      Iterator E A → Option A → BinarySearchTree S E A → BinarySearchTree S E A × Iterator E A
  unfolding insert_hint_equal
  insert_hint_node_equal hint none t = (t, none)
  insert_hint_node_equal hint (some value) t = insert_hint_equal hint value t

  -- `insert_equal(first, last)`
  unfoldable pub insert_equal_range : List A → BinarySearchTree S E A → BinarySearchTree S E A
  unfolding insert_hint_equal
  insert_equal_range [] t = t
  insert_equal_range (value ∷ values) t =
      insert_equal_range values (insert_hint_equal none value t).0
