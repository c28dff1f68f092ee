-- ===== src/Tree/BinarySearchTree/Erase.antt =====
-- The removals of include/chaistl/containers/tree/binary_search_tree.hpp.
pub mod Laws
pub mod Keys
pub mod Extract
use chaistl.Common.{
  Bool, ℕ, zero, suc, ◌+◌, ◌-◌, ◌==◌, ◌&&◌, List, [], Option, some, none, length, if◌then◌else◌,
}
use chaistl.Tree.Node.{Place, elements, elements_before, node_successor}
use chaistl.Tree.BinarySearchTree.{BinarySearchTree, BalancePolicy, Iterator, place_at, rank, clear}
use chaistl.Tree.BinarySearchTree.Lookup.{find_mutating, equal_range_multi}

module _ {ℓ} {S E : Type 0} {A : Type ℓ} (P : BalancePolicy S E A) where
  -- `erase_node(node)`
  unfoldable pub erase_node : Place E A → BinarySearchTree S E A → BinarySearchTree S E A
  erase_node z t = record t { root = P.unlink_and_rebalance z; count = t.count - 1 }

  -- `erase(pos)` of a node: the next node has one node less before it then.
  unfoldable pub erase : Place E A → BinarySearchTree S E A → BinarySearchTree S E A × Iterator E A
  unfolding erase_node node_successor place_at elements_before
  erase z t =
      let next = node_successor z in
      let u = erase_node z t in
      (u, elim next [ none ↦ none | some y ↦ place_at (length (elements_before y) - 1) u.root [] ])

  -- The loop `while (first != last) first = erase(first)` of `erase(first, last)`, and that of
  -- `erase_equal`, for `n` nodes from `first` to `last`: the tree, and the number of nodes erased.
  unfoldable pub erase_while :
      ℕ → Iterator E A → BinarySearchTree S E A → BinarySearchTree S E A × ℕ
  unfolding erase
  erase_while zero first t = (t, 0)
  erase_while (suc n) none t = (t, 0)
  erase_while (suc n) (some z) t =
      let (u, next) = erase z t in let (v, k) = erase_while n next u in (v, suc k)

  -- `erase(first, last)`: the iterator that it returns is `last`, which has the nodes before `first`
  -- before it then.
  unfoldable pub erase_range :
      Iterator E A → Iterator E A → BinarySearchTree S E A → BinarySearchTree S E A × Iterator E A
  unfolding erase_while rank clear place_at elements
  erase_range first last t =
      let i = rank t.root first in
      let j = rank t.root last in
      let u =
        if (i == 0) && (j == length (elements t.root))
        then clear t
        else (erase_while (j - i) first t).0 in
      (u, place_at i u.root [])

  -- `extract(pos)` of a node: the node handle has its value.
  unfoldable pub extract : Place E A → BinarySearchTree S E A → BinarySearchTree S E A × Option A
  extract z t = (record t { root = P.unlink_and_rebalance z; count = t.count - 1 }, some z.value)

module _ {ℓ κ} {S E : Type 0} {A : Type ℓ} {K : Type κ} (kov : A → K) (comp : K → K → Bool)
    (P : BalancePolicy S E A) where
  -- `erase(key)`
  unfoldable pub erase_key : K → BinarySearchTree S E A → BinarySearchTree S E A × ℕ
  unfolding find_mutating erase
  erase_key key t =
      let (u, it) = find_mutating kov comp P key t in
      elim it [ none ↦ (u, 0) | some z ↦ ((erase P z u).0, 1) ]

  -- `erase_equal(key)`
  unfoldable pub erase_equal : K → BinarySearchTree S E A → BinarySearchTree S E A × ℕ
  unfolding erase_while equal_range_multi rank
  erase_equal key t =
      let (first, last) = equal_range_multi kov comp key t in
      erase_while P (rank t.root last - rank t.root first) first t

  -- `extract(key)`
  unfoldable pub extract_key : K → BinarySearchTree S E A → BinarySearchTree S E A × Option A
  unfolding find_mutating extract
  extract_key key t =
      let (u, it) = find_mutating kov comp P key t in
      elim it [ none ↦ (u, none) | some z ↦ extract P z u ]
