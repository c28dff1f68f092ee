-- ===== src/Tree/BinarySearchTree/Validate.antt =====
-- `validate` of include/chaistl/containers/tree/binary_search_tree.hpp. The parent links and the
-- header's pointers are right by construction of the model, so their tests are left out.
pub mod Laws
use chaistl.Common.{
  Bool, true, false, not, ◌&&◌, ◌==◌, ℕ, zero, suc, List, [], ◌∷◌, Option, some, none,
  if◌then◌else◌,
}
use chaistl.Tree.Node.{Tree, null, node, Place, node_successor}
use chaistl.Tree.BinarySearchTree.{BinarySearchTree, BalancePolicy, Iterator, begin}

module _ {ℓ κ} {A : Type ℓ} {K : Type κ} (kov : A → K) (comp : K → K → Bool) where
  -- The test of the order of a node and the one before it.
  unfoldable pub in_order : Bool → Option A → A → Bool
  in_order allow_equivalent none x = true
  in_order allow_equivalent (some prev) x =
      if allow_equivalent then not (comp (kov x) (kov prev)) else comp (kov prev) (kov x)

module _ {ℓ κ} {E : Type 0} {A : Type ℓ} {K : Type κ} (kov : A → K) (comp : K → K → Bool) where
  -- The loop, with the number of nodes that may still come: `++count > size_` says that none may, and
  -- the loop ends right when none is left.
  unfoldable pub validate_from : Bool → ℕ → Option A → Iterator E A → Bool
  unfolding in_order node_successor
  validate_from allow_equivalent zero prev none = true
  validate_from allow_equivalent (suc n) prev none = false
  validate_from allow_equivalent zero prev (some x) = false
  validate_from allow_equivalent (suc n) prev (some x) =
      let rest = validate_from allow_equivalent n (some x.value) (node_successor x) in
      in_order kov comp allow_equivalent prev x.value && rest

module _ {ℓ κ} {S E : Type 0} {A : Type ℓ} {K : Type κ} (kov : A → K) (comp : K → K → Bool)
    (P : BalancePolicy S E A) where
  -- `validate(allow_equivalent)`
  unfoldable pub validate : Bool → BinarySearchTree S E A → Bool
  unfolding validate_from begin
  validate allow_equivalent t = elim t.root [
    | null ↦ t.count == 0
    | node l v e r ↦
        (not (t.count == 0) && P.verify t.root)
        && validate_from kov comp allow_equivalent t.count none (begin t)
  ]
