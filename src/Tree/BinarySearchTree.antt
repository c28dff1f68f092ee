-- ===== src/Tree/BinarySearchTree.antt =====
-- The state of include/chaistl/containers/tree/binary_search_tree.hpp, its balance policy and its
-- iterators.
--
-- The header's pointers are functions of the tree: `header_.parent` is the root, `header_.left` the
-- first node in order and `header_.right` the last. An iterator is a node with its place in the tree,
-- or `none` for end(). A node that an operation moves keeps its place in the order of the nodes, so the
-- iterator to it after the operation is the node with the same number of nodes before it. The
-- comparator and the key extractor are the sections'; an allocator has no other state.
pub mod Place
pub mod Policy
pub mod Policies
pub mod Insert
pub mod Lookup
pub mod Erase
pub mod Transfer
pub mod Copy
pub mod Validate
pub mod Rank
use chaistl.Common.{
  Bool, true, false, ℕ, ◌+◌, ◌-◌, ◌==◌, ltb, List, [], ◌∷◌, Option, some, none, length,
  if◌then◌else◌,
}
use chaistl.Tree.Node.{
  Tree, null, node, Frame, from_left, from_right, elements, elements_before, node_minimum,
}
use chaistl.Tree.Node

pub record BinarySearchTree {ℓ} (S E : Type 0) (A : Type ℓ) : Type ℓ where
  pub root : Tree E A
  pub policy : S
  pub count : ℕ

-- Concept `balance_policy`: a policy with the state `S` and the extensions `E`. Insertion takes the
-- value of the detached node and the free slot and may change the policy's state, and removal takes
-- the node; both give the whole tree. `after_access` is there for `access_rebalance_policy`.
pub record BalancePolicy {ℓ} (S E : Type 0) (A : Type ℓ) : Type ℓ where
  pub insert_and_rebalance : S → A → List (Frame E A) → S × Tree E A
  pub unlink_and_rebalance : Node.Place E A → Tree E A
  pub after_access : Option (Node.Place E A → Tree E A)
  pub verify : Tree E A → Bool

-- `iterator` and `const_iterator`
abbrev pub Iterator {ℓ} : Type 0 → Type ℓ → Type ℓ
Iterator E A = Option (Node.Place E A)

module _ {ℓ} {E : Type 0} {A : Type ℓ} where
  -- The node with `n` elements of the subtree before it.
  unfoldable pub place_at : ℕ → Tree E A → List (Frame E A) → Iterator E A
  unfolding elements
  place_at n null above = none
  place_at n (node l v e r) above =
      let k = length (elements l) in
      let to_left = place_at n l (from_left v e r ∷ above) in
      let to_right = place_at (n - (k + 1)) r (from_right l v e ∷ above) in
      let here : Iterator E A =
        some (record { left = l; value = v; ext = e; right = r; above = above }) in
      if ltb n k then to_left else (if n == k then here else to_right)

  -- The number of elements before an iterator of the tree.
  unfoldable pub rank : Tree E A → Iterator E A → ℕ
  unfolding elements elements_before
  rank t none = length (elements t)
  rank t (some x) = length (elements_before x)

module _ {ℓ} {S E : Type 0} {A : Type ℓ} where
  -- `binary_search_tree()`, with a policy in the state `policy`, and what `init_header()` leaves.
  unfoldable pub new : S → BinarySearchTree S E A
  new policy = record { root = null; policy = policy; count = 0 }

  -- `begin()`
  unfoldable pub begin : BinarySearchTree S E A → Iterator E A
  unfolding node_minimum
  begin t = elim t.root [ null ↦ none | node l v e r ↦ some (node_minimum l v e r []) ]

  -- `size()`
  unfoldable pub size : BinarySearchTree S E A → ℕ
  size t = t.count

  -- `empty()`
  unfoldable pub empty : BinarySearchTree S E A → Bool
  empty t = t.count == 0

  -- `clear()`
  unfoldable pub clear : BinarySearchTree S E A → BinarySearchTree S E A
  clear t = elim t.root [ null ↦ t | node l v e r ↦ record t { root = null; count = 0 } ]
