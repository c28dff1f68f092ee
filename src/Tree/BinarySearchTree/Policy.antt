-- ===== src/Tree/BinarySearchTree/Policy.antt =====
-- The contract of concept `balance_policy` of include/chaistl/containers/tree/binary_search_tree.hpp,
-- and the invariant of a tree over a policy that keeps it.
use chaistl.Common.{Bool, ◌≡◌, List, ◌∷◌, ◌++◌, Option, some, none, length}
use chaistl.Sort.Base.{IsSorted}
use chaistl.Tree.Node.{
  Tree, null, Frame, Place, plug, root_of, elements, before, after, elements_before, elements_after,
}
use chaistl.Tree.BinarySearchTree.{BalancePolicy, BinarySearchTree}

-- A tree that is balanced as the policy asks, with these elements in order.
pub record Holds {ℓ} {E : Type 0} {A : Type ℓ} (Balanced : Tree E A → Type 0) (t : Tree E A)
    (xs : List A) : Type ℓ where
  pub balanced : Balanced t
  pub content : elements t ≡ xs

-- What `after_access` does to a tree, when the policy has it.
abbrev pub KeepsOnAccess {ℓ} :
    {E : Type 0} {A : Type ℓ} → (Tree E A → Type 0) → Option (Place E A → Tree E A) → Type ℓ
KeepsOnAccess Balanced none = Unit
KeepsOnAccess Balanced (some access) =
    (x : _) → Balanced (root_of x) → Holds Balanced (access x) (elements (root_of x))

-- The contract: the new value comes at its slot, the removed node goes, all other nodes keep their
-- order, and the invariant of the policy is kept.
pub record IsBalancePolicy {ℓ} {S E : Type 0} {A : Type ℓ} (P : BalancePolicy S E A)
    (Balanced : Tree E A → Type 0) : Type ℓ where
  pub on_null : Balanced null
  pub on_insert :
      (s : S) (x : A) (slot : List (Frame E A))
      → Balanced (plug slot null)
      → Holds Balanced (P.insert_and_rebalance s x slot).1 (before slot ++ (x ∷ after slot))
  pub on_unlink :
      (z : Place E A)
      → Balanced (root_of z)
      → Holds Balanced (P.unlink_and_rebalance z) (elements_before z ++ elements_after z)
  pub on_access : KeepsOnAccess Balanced P.after_access

-- The invariant of the container: the elements are in order, the tree is balanced, and the size is the
-- number of the elements.
pub record IsSearchTree {ℓ} {S E : Type 0} {A : Type ℓ} (Balanced : Tree E A → Type 0)
    (cmp : A → A → Bool) (t : BinarySearchTree S E A) : Type ℓ where
  pub sorted : IsSorted cmp (elements t.root)
  pub balanced : Balanced t.root
  pub counted : t.count ≡ length (elements t.root)
