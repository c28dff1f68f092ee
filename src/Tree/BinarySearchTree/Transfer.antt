-- ===== src/Tree/BinarySearchTree/Transfer.antt =====
-- `merge` and `merge_equal` of include/chaistl/containers/tree/binary_search_tree.hpp, between two trees
-- with policies of the same type.
pub mod Step
pub mod Unique
pub mod Equal
use chaistl.Common.{Bool, ℕ, zero, suc, List, [], ◌∷◌, Option, some, none}
use chaistl.Tree.Node.{Place, node_successor}
use chaistl.Tree.Search.{existing, attach, get_insert_unique_pos, get_insert_equal_pos}
use chaistl.Tree.BinarySearchTree.{BinarySearchTree, BalancePolicy, Iterator, begin}
use chaistl.Tree.BinarySearchTree.Insert.{link_node, insert_at}
use chaistl.Tree.BinarySearchTree.Erase.{erase}

module _ {ℓ κ} {S E : Type 0} {A : Type ℓ} {K : Type κ} (kov : A → K) (comp : K → K → Bool)
    (P : BalancePolicy S E A) where
  -- One turn of the loop of `merge`: this tree, the source and the iterator after `current`. `it++` and
  -- `source.extract(current)` leave the tree and the iterator that `erase` leaves.
  unfoldable pub merge_step :
      Place E A
      → BinarySearchTree S E A
      → BinarySearchTree S E A
      → BinarySearchTree S E A × BinarySearchTree S E A × Iterator E A
  unfolding get_insert_unique_pos node_successor erase link_node
  merge_step current this source =
      elim (get_insert_unique_pos kov comp (kov current.value) this.root) [
        | existing y ↦ (this, source, node_successor current)
        | attach slot ↦
            let (rest, next) = erase P current source in
            ((link_node P current.value slot this).0, rest, next)
      ]

  -- The loop, for `n` nodes from the iterator on.
  unfoldable pub merge_from :
      ℕ
      → Iterator E A
      → BinarySearchTree S E A
      → BinarySearchTree S E A
      → BinarySearchTree S E A × BinarySearchTree S E A
  unfolding merge_step
  merge_from zero it this source = (this, source)
  merge_from (suc n) none this source = (this, source)
  merge_from (suc n) (some current) this source =
      let (t, s, next) = merge_step current this source in merge_from n next t s

  -- `merge(source)`: this tree and the source afterwards.
  unfoldable pub merge :
      BinarySearchTree S E A
      → BinarySearchTree S E A
      → BinarySearchTree S E A × BinarySearchTree S E A
  unfolding merge_from begin
  merge this source = merge_from source.count (begin source) this source

  unfoldable pub merge_equal_from :
      ℕ
      → Iterator E A
      → BinarySearchTree S E A
      → BinarySearchTree S E A
      → BinarySearchTree S E A × BinarySearchTree S E A
  unfolding erase insert_at get_insert_equal_pos
  merge_equal_from zero it this source = (this, source)
  merge_equal_from (suc n) none this source = (this, source)
  merge_equal_from (suc n) (some current) this source =
      let pos = get_insert_equal_pos kov comp (kov current.value) this.root in
      let (rest, next) = erase P current source in
      merge_equal_from n next (insert_at P pos current.value this).0 rest

  -- `merge_equal(source)`
  unfoldable pub merge_equal :
      BinarySearchTree S E A
      → BinarySearchTree S E A
      → BinarySearchTree S E A × BinarySearchTree S E A
  unfolding merge_equal_from begin
  merge_equal this source = merge_equal_from source.count (begin source) this source
