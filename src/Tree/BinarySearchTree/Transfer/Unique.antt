-- ===== src/Tree/BinarySearchTree/Transfer/Unique.antt =====
-- `merge` of include/chaistl/containers/tree/binary_search_tree.hpp.
use chaistl.Common.{
  Bool, ℕ, zero, suc, ◌≡◌, refl, sym, ap, ◌∙◌, arith, List, [], ◌∷◌, ◌++◌, some, none, length,
  append_assoc, if◌then◌else◌, Bool-cases, inl, inr,
}
use chaistl.Order.{IsStrictWeak}
use chaistl.Tree.Node.{Tree, elements, elements_after}
use chaistl.Tree.Search.Unique.{not_after}
use chaistl.Tree.BinarySearchTree.{BinarySearchTree, BalancePolicy, Iterator, begin}
use chaistl.Tree.BinarySearchTree.Place.{PointsAt}
use chaistl.Tree.BinarySearchTree.Policy.{IsBalancePolicy, IsSearchTree}
use chaistl.Tree.BinarySearchTree.Insert.Reference.{set_insert}
use chaistl.Tree.BinarySearchTree.Transfer.{merge_step, merge_from, merge}
use chaistl.Tree.BinarySearchTree.Transfer.Step.{
  has_key, refused, merged, begin-PointsAt, merge_step-Steps,
}

-- What a merge leaves of the target and the source.
pub record Merges {ℓ κ} {S E : Type 0} {A : Type ℓ} {K : Type κ} (kov : A → K) (comp : K → K → Bool)
    (Balanced : Tree E A → Type 0) (cmp : A → A → Bool) (front xs : List A)
    (this t s : BinarySearchTree S E A) : Type ℓ where
  pub this_valid : IsSearchTree Balanced (not_after kov comp) t
  pub source_valid : IsSearchTree Balanced cmp s
  pub this_content : elements t.root ≡ merged kov comp xs (elements this.root)
  pub source_content : elements s.root ≡ front ++ refused kov comp xs (elements this.root)

module _ {ℓ κ} {A : Type ℓ} {K : Type κ} (kov : A → K) (comp : K → K → Bool) where
  refused-cons :
      (x : A) (xs ys : List A)
      → refused kov comp (x ∷ xs) ys
        ≡ (if has_key kov comp (kov x) ys then x ∷ [] else [])
          ++ refused kov comp xs (set_insert kov comp x ys)
  unfolding refused
  refused-cons x xs ys = elim (Bool-cases (has_key kov comp (kov x) ys)) [
    | inl h ↦ rw h refl
    | inr h ↦ rw h refl
  ]

module _ {ℓ κ} {S E : Type 0} {A : Type ℓ} {K : Type κ} (kov : A → K) {comp : K → K → Bool}
    (o : IsStrictWeak comp) {P : BalancePolicy S E A} {Balanced : Tree E A → Type 0}
    (laws : IsBalancePolicy P Balanced) (cmp : A → A → Bool) where
  merge_from-Merges :
      (n : ℕ) (front xs : List A) (it : Iterator E A) (this source : BinarySearchTree S E A)
      → length xs ≡ n
      → PointsAt source.root front xs it
      → elements source.root ≡ front ++ xs
      → IsSearchTree Balanced (not_after kov comp) this
      → IsSearchTree Balanced cmp source
      → Merges kov comp Balanced cmp front xs this
          (merge_from kov comp P n it this source).0
          (merge_from kov comp P n it this source).1
  unfolding merge_from merged refused
  merge_from-Merges zero front [] it this source k h q inv other = record {
    this_valid = inv;
    source_valid = other;
    this_content = refl;
    source_content = q;
  }
  merge_from-Merges zero front (x ∷ xs) it this source k h q inv other = absurd (omega (arith, k))
  merge_from-Merges (suc n) front xs none this source k h q inv other =
      absurd (omega (arith, k, ap length h.is_nil))
  merge_from-Merges (suc n) front xs (some current) this source k h q inv other =
      let st = merge_step-Steps kov o laws cmp current this source inv other h.in_tree in
      let r = merge_step kov comp P current this source in
      let ih =
        merge_from-Merges n st.front (elements_after current) r.2 r.0 r.1
          (omega (arith, k, ap length h.is_from)) st.points st.source_content st.this_valid
          st.source_valid in
      let first = current.value in
      let rest = elements_after current in
      let left : elements (merge_from kov comp P n r.2 r.0 r.1).1.root
          ≡ front ++ refused kov comp (first ∷ rest) (elements this.root) =
        ih.source_content
        ∙ rw
            (
              st.this_content,
              st.kept,
              refused-cons kov comp first rest (elements this.root),
              h.is_before,
            )
            (append_assoc front _ _) in
      rw h.is_from (record {
        this_valid = ih.this_valid;
        source_valid = ih.source_valid;
        this_content = ih.this_content ∙ ap (merged kov comp rest) st.this_content;
        source_content = left;
      })

  -- Over a policy that keeps the contract, merge keeps the invariants of both containers; it visits all
  -- elements of the source in their order: this container gets each one as set_insert says, and those
  -- whose keys it has at their turn, and no others, are left in the source.
  pub merge-Merges :
      (this source : BinarySearchTree S E A)
      → IsSearchTree Balanced (not_after kov comp) this
      → IsSearchTree Balanced cmp source
      → Merges kov comp Balanced cmp []
          (elements source.root)
          this
          (merge kov comp P this source).0
          (merge kov comp P this source).1
  unfolding merge
  merge-Merges this source inv other =
      merge_from-Merges source.count [] (elements source.root) (begin source) this source
        (sym other.counted) (begin-PointsAt source) refl inv other
