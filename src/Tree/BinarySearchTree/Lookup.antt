-- ===== src/Tree/BinarySearchTree/Lookup.antt =====
-- The lookups of include/chaistl/containers/tree/binary_search_tree.hpp. A lookup of a tree that is not
-- const tells the policy which node it has reached, and the policy may restructure the tree.
pub mod Laws
pub mod Ranges
use chaistl.Common.{Bool, true, false, not, ℕ, ◌-◌, List, [], Option, some, none, if◌then◌else◌}
use chaistl.Tree.Node.{Place}
use chaistl.Tree.Search.{
  LookupResult, find_search, lower_bound_search, upper_bound_search, equal_range_unique_node,
  equal_range_multi_node,
}
use chaistl.Tree.BinarySearchTree.{BinarySearchTree, BalancePolicy, Iterator, place_at, rank}

module _ {ℓ} {S E : Type 0} {A : Type ℓ} where
  -- The iterator to the node that `it` points to, after the tree is restructured.
  unfoldable pub relocate :
      Iterator E A → BinarySearchTree S E A → BinarySearchTree S E A → Iterator E A
  unfolding place_at rank
  relocate it t u = place_at (rank t.root it) u.root []

module _ {ℓ} {E : Type 0} {A : Type ℓ} where
  -- Whether an iterator is not end().
  abbrev pub is_node : Iterator E A → Bool
  is_node none = false
  is_node (some x) = true

  -- `bound_access_node(search)`
  unfoldable pub bound_access_node : LookupResult E A → Iterator E A
  bound_access_node search = elim search.result [ none ↦ search.last_visited | some x ↦ some x ]

module _ {ℓ} {S E : Type 0} {A : Type ℓ} (P : BalancePolicy S E A) where
  -- `notify_access(node)`
  unfoldable pub notify_access : Iterator E A → BinarySearchTree S E A → BinarySearchTree S E A
  notify_access node t = elim P.after_access [
    | none ↦ t
    | some access ↦ elim node [ none ↦ t | some x ↦ record t { root = access x } ]
  ]

module _ {ℓ κ} {S E : Type 0} {A : Type ℓ} {K : Type κ} (kov : A → K) (comp : K → K → Bool)
    (P : BalancePolicy S E A) where
  -- `find_mutating(key)`, which `find(key)` calls
  unfoldable pub find_mutating : K → BinarySearchTree S E A → BinarySearchTree S E A × Iterator E A
  unfolding find_search bound_access_node notify_access relocate
  find_mutating key t =
      let search = find_search kov comp key t.root in
      let u = notify_access P (bound_access_node search) t in (u, relocate search.result t u)

  -- `lower_bound(key)` and `upper_bound(key)` of a tree that is not const
  unfoldable pub lower_bound : K → BinarySearchTree S E A → BinarySearchTree S E A × Iterator E A
  unfolding lower_bound_search bound_access_node notify_access relocate
  lower_bound key t =
      let search = lower_bound_search kov comp key none t.root [] in
      let u = notify_access P (bound_access_node search) t in (u, relocate search.result t u)

  unfoldable pub upper_bound : K → BinarySearchTree S E A → BinarySearchTree S E A × Iterator E A
  unfolding upper_bound_search bound_access_node notify_access relocate
  upper_bound key t =
      let search = upper_bound_search kov comp key none t.root [] in
      let u = notify_access P (bound_access_node search) t in (u, relocate search.result t u)

module _ {ℓ κ} {S E : Type 0} {A : Type ℓ} {K : Type κ} (kov : A → K) (comp : K → K → Bool) where
  -- `find_const(key)`
  unfoldable pub find_const : K → BinarySearchTree S E A → Iterator E A
  unfolding find_search
  find_const key t = (find_search kov comp key t.root).result

  -- `contains(key)`
  unfoldable pub contains : K → BinarySearchTree S E A → Bool
  unfolding find_const
  contains key t = is_node (find_const key t)

  -- `count(key)`
  unfoldable pub count : K → BinarySearchTree S E A → ℕ
  unfolding contains
  count key t = if contains key t then 1 else 0

  -- `equal_range(key)`
  unfoldable pub equal_range : K → BinarySearchTree S E A → Iterator E A × Iterator E A
  unfolding equal_range_unique_node
  equal_range key t = equal_range_unique_node kov comp key t.root

  -- `equal_range_multi(key)`
  unfoldable pub equal_range_multi : K → BinarySearchTree S E A → Iterator E A × Iterator E A
  unfolding equal_range_multi_node
  equal_range_multi key t = equal_range_multi_node kov comp key t.root

  -- `count_multi(key)`: the distance of the two iterators.
  unfoldable pub count_multi : K → BinarySearchTree S E A → ℕ
  unfolding equal_range_multi rank
  count_multi key t =
      let (first, last) = equal_range_multi key t in rank t.root last - rank t.root first
