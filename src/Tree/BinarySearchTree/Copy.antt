-- ===== src/Tree/BinarySearchTree/Copy.antt =====
-- Copying, moving, swapping, comparing and destroying trees of
-- include/chaistl/containers/tree/binary_search_tree.hpp.
pub mod Laws
use chaistl.Common.{
  Bool, true, false, ◌&&◌, ◌==◌, ℕ, zero, suc, ◌+◌, ◌*◌, List, [], ◌∷◌, ◌++◌, Option, some, none,
  length, if◌then◌else◌,
}
use chaistl.Tree.Node.{Tree, null, node, Frame, from_left, from_right, elements}
use chaistl.Tree.BinarySearchTree.{BinarySearchTree}

module _ {ℓ} {E : Type 0} {A : Type ℓ} where
  -- `copy_tree(src, parent)`: the values and the extensions.
  unfoldable pub copy_tree : Tree E A → Tree E A
  copy_tree null = null
  copy_tree (node l v e r) = node (copy_tree l) v e (copy_tree r)

  -- The loop of `destroy_tree(root)`, from a node with the frames above it up to `root`: the values in
  -- the order in which their nodes are destroyed, after those of `done`. It is `none` without fuel.
  unfoldable pub destroy_from : ℕ → Tree E A → List (Frame E A) → List A → Option (List A)
  destroy_from zero t above done = none
  destroy_from (suc n) null above done = some done
  destroy_from (suc n) (node (node l' v' e' r') v e r) above done =
      destroy_from n (node l' v' e' r') (from_left v e r ∷ above) done
  destroy_from (suc n) (node null v e (node l' v' e' r')) above done =
      destroy_from n (node l' v' e' r') (from_right null v e ∷ above) done
  destroy_from (suc n) (node null v e null) [] done = some (done ++ (v ∷ []))
  destroy_from (suc n) (node null v e null) (from_left v' e' r' ∷ above) done =
      destroy_from n (node null v' e' r') above (done ++ (v ∷ []))
  destroy_from (suc n) (node null v e null) (from_right l' v' e' ∷ above) done =
      destroy_from n (node l' v' e' null) above (done ++ (v ∷ []))

  -- `destroy_tree(root)`: a node is reached at most once from above and once from each child.
  unfoldable pub destroy_tree : Tree E A → Option (List A)
  unfolding destroy_from elements
  destroy_tree t = destroy_from (2 * length (elements t) + 1) t [] []

module _ {ℓ} {S E : Type 0} {A : Type ℓ} where
  -- `copy_from(other)`, on an empty tree
  unfoldable pub copy_from :
      BinarySearchTree S E A → BinarySearchTree S E A → BinarySearchTree S E A
  unfolding copy_tree
  copy_from this other = elim other.root [
    | null ↦ this
    | node l v e r ↦ record this { root = copy_tree (node l v e r); count = other.count }
  ]

  -- `binary_search_tree(const binary_search_tree&)`
  unfoldable pub copy_construct : BinarySearchTree S E A → BinarySearchTree S E A
  unfolding copy_from
  copy_construct other = copy_from (record { root = null; policy = other.policy; count = 0 }) other

  -- `take_header_from(other)` on an empty tree: this tree and the other.
  unfoldable pub take_header_from :
      BinarySearchTree S E A
      → BinarySearchTree S E A
      → BinarySearchTree S E A × BinarySearchTree S E A
  take_header_from this other = elim other.root [
    | null ↦ (this, other)
    | node l v e r ↦ (record this { root = node l v e r }, record other { root = null })
  ]

  -- `binary_search_tree(binary_search_tree&&)`: the new tree and the other one.
  unfoldable pub move_construct :
      BinarySearchTree S E A → BinarySearchTree S E A × BinarySearchTree S E A
  unfolding take_header_from
  move_construct other =
      take_header_from (record { root = null; policy = other.policy; count = other.count })
        (record other { count = 0 })

  -- `swap(other)`, which exchanges the comparators too: they are the section's.
  unfoldable pub swap :
      BinarySearchTree S E A × BinarySearchTree S E A
      → BinarySearchTree S E A × BinarySearchTree S E A
  swap (this, other) = (
    record { root = other.root; policy = other.policy; count = other.count },
    record { root = this.root; policy = this.policy; count = this.count },
  )

module _ {ℓ} {A : Type ℓ} (eq : A → A → Bool) where
  -- `std::equal(first1, last1, first2)`, whose second range is not shorter.
  unfoldable pub equal : List A → List A → Bool
  equal [] ys = true
  equal (x ∷ xs) [] = false
  equal (x ∷ xs) (y ∷ ys) = eq x y && equal xs ys

module _ {ℓ} {S E : Type 0} {A : Type ℓ} (eq : A → A → Bool) where
  -- `operator==`
  unfoldable pub trees_equal : BinarySearchTree S E A → BinarySearchTree S E A → Bool
  unfolding equal elements
  trees_equal lhs rhs = (lhs.count == rhs.count) && equal eq (elements lhs.root) (elements rhs.root)
