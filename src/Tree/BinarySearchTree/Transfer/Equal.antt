-- ===== src/Tree/BinarySearchTree/Transfer/Equal.antt =====
-- `merge_equal` of include/chaistl/containers/tree/binary_search_tree.hpp.
use chaistl.Common.{
  Bool, ℕ, zero, suc, ◌+◌, ◌≡◌, refl, sym, ap, ◌∙◌, arith, List, [], ◌∷◌, none, some, length, count,
  count-append,
}
use chaistl.Order.{IsStrictWeak}
use chaistl.Tree.Node.{Tree, elements, elements_after}
use chaistl.Tree.Search.Laws.{by_key}
use chaistl.Tree.BinarySearchTree.{BinarySearchTree, BalancePolicy, Iterator, begin}
use chaistl.Tree.BinarySearchTree.Place.{PointsAt}
use chaistl.Tree.BinarySearchTree.Policy.{IsBalancePolicy, IsSearchTree}
use chaistl.Tree.BinarySearchTree.Insert.{insert_equal}
use chaistl.Tree.BinarySearchTree.Insert.Equal.{insert_equal-InsertsEqual}
use chaistl.Tree.BinarySearchTree.Erase.{erase}
use chaistl.Tree.BinarySearchTree.Erase.Laws.{erase-PointsAt}
use chaistl.Tree.BinarySearchTree.Transfer.{merge_equal_from, merge_equal}
use chaistl.Tree.BinarySearchTree.Transfer.Step.{begin-PointsAt}

-- What a merge of equivalent keys leaves of the target and the source.
pub record MergesEqual {ℓ} {S E : Type 0} {A : Type ℓ} (Balanced : Tree E A → Type 0)
    (cmp cmp' : A → A → Bool) (xs : List A) (this t s : BinarySearchTree S E A) : Type ℓ where
  pub this_valid : IsSearchTree Balanced cmp t
  pub source_valid : IsSearchTree Balanced cmp' s
  pub this_content :
      (p : A → Bool) → count p (elements t.root) ≡ count p (elements this.root) + count p xs
  pub source_content : elements s.root ≡ []

module _ {ℓ κ} {S E : Type 0} {A : Type ℓ} {K : Type κ} (kov : A → K) {comp : K → K → Bool}
    (o : IsStrictWeak comp) {P : BalancePolicy S E A} {Balanced : Tree E A → Type 0}
    (laws : IsBalancePolicy P Balanced) (cmp : A → A → Bool) where
  merge_equal_from-MergesEqual :
      (n : ℕ) (xs : List A) (it : Iterator E A) (this source : BinarySearchTree S E A)
      → length xs ≡ n
      → PointsAt source.root [] xs it
      → elements source.root ≡ xs
      → IsSearchTree Balanced (by_key kov comp) this
      → IsSearchTree Balanced cmp source
      → MergesEqual Balanced
          (by_key kov comp)
          cmp
          xs
          this
          (merge_equal_from kov comp P n it this source).0
          (merge_equal_from kov comp P n it this source).1
  unfolding merge_equal_from insert_equal
  merge_equal_from-MergesEqual zero [] it this source k h q inv other = record {
    this_valid = inv;
    source_valid = other;
    this_content = λ p. omega arith;
    source_content = q;
  }
  merge_equal_from-MergesEqual zero (x ∷ xs) it this source k h q inv other =
      absurd (omega (arith, k))
  merge_equal_from-MergesEqual (suc n) xs none this source k h q inv other =
      absurd (omega (arith, k, ap length h.is_nil))
  merge_equal_from-MergesEqual (suc n) xs (some current) this source k h q inv other =
      let gone = erase-PointsAt laws cmp current source h.in_tree other in
      let (one, at) = insert_equal-InsertsEqual kov o laws current.value this inv in
      let t = (insert_equal kov comp P current.value this).0 in
      let (s, next) = erase P current source in
      let rest = elements_after current in
      let points : PointsAt s.root [] rest next = rw (sym h.is_before) gone.2 in
      let left : elements s.root ≡ rest = gone.1 ∙ rw h.is_before refl in
      let ih =
        merge_equal_from-MergesEqual n rest next t s (omega (arith, k, ap length h.is_from)) points
          left one.valid gone.0 in
      rw h.is_from (record {
        this_valid = ih.this_valid;
        source_valid = ih.source_valid;
        this_content = λ p. omega (
          arith,
          ih.this_content p,
          ap (count p) one.links.split,
          ap (count p) one.links.content,
          count-append p one.front one.back,
          count-append p one.front (current.value ∷ one.back),
        );
        source_content = ih.source_content;
      })

  -- Over a policy that keeps the contract, merge_equal keeps the invariants of both containers, and
  -- moves all elements of the source: every test counts in this container those that it counted there
  -- and in the source, and the source is left empty.
  pub merge_equal-MergesEqual :
      (this source : BinarySearchTree S E A)
      → IsSearchTree Balanced (by_key kov comp) this
      → IsSearchTree Balanced cmp source
      → MergesEqual Balanced
          (by_key kov comp)
          cmp
          (elements source.root)
          this
          (merge_equal kov comp P this source).0
          (merge_equal kov comp P this source).1
  unfolding merge_equal
  merge_equal-MergesEqual this source inv other =
      merge_equal_from-MergesEqual source.count (elements source.root) (begin source) this source
        (sym other.counted) (begin-PointsAt source) refl inv other
