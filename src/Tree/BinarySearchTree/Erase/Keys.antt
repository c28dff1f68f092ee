-- ===== src/Tree/BinarySearchTree/Erase/Keys.antt =====
-- The removals by key of include/chaistl/containers/tree/binary_search_tree.hpp.
use chaistl.Common.{
  Bool, true, false, not, ℕ, ◌-◌, ◌≡◌, refl, sym, ap, ◌∙◌, arith, List, [], ◌∷◌, ◌++◌, some, none,
  All, length, length-append, append_assoc, append_nil, All-count_zero, count,
}
use chaistl.Order.{IsStrictWeak}
use chaistl.Sort.Base.{IsSorted, filter, filter-append, filter-keeps, filter-skips, All-mono}
use chaistl.Tree.Node.{Tree, Place, elements, elements_before, elements_after}
use chaistl.Tree.Node.Order.{elements-root_of}
use chaistl.Tree.Search.Bound.{IsSorted-split}
use chaistl.Tree.Search.Laws.{by_key}
use chaistl.Tree.Search.Unique.{not_after}
use chaistl.Tree.Search.Find.{matches, IsFound, IsHit}
use chaistl.Tree.BinarySearchTree.{BinarySearchTree, BalancePolicy, Iterator, rank}
use chaistl.Tree.BinarySearchTree.Place.{rank-PointsAt}
use chaistl.Tree.BinarySearchTree.Policy.{IsBalancePolicy, IsSearchTree}
use chaistl.Tree.BinarySearchTree.Lookup.{find_mutating, equal_range_multi}
use chaistl.Tree.BinarySearchTree.Lookup.Laws.{find_mutating-IsFound, Keeps-IsSearchTree}
use chaistl.Tree.BinarySearchTree.Lookup.Ranges.{
  KeyRange, count-KeyRange, equal_range_multi-KeyRange,
}
use chaistl.Tree.BinarySearchTree.Insert.Reference.{strict-IsSorted}
use chaistl.Tree.BinarySearchTree.Erase.{erase, erase_key, erase_equal}
use chaistl.Tree.BinarySearchTree.Erase.Laws.{erase-PointsAt, erase_while-IsSearchTree}

module _ {ℓ} {A : Type ℓ} where
  pub filter-all : (p : A → Bool) (xs : List A) → All (λ x. p x ≡ true) xs → filter p xs ≡ xs
  unfolding filter
  filter-all p [] h = refl
  filter-all p (x ∷ xs) h = filter-keeps p x xs h.0 ∙ ap (λ ys. x ∷ ys) (filter-all p xs h.1)

  pub filter-none : (p : A → Bool) (xs : List A) → All (λ x. p x ≡ false) xs → filter p xs ≡ []
  unfolding filter
  filter-none p [] h = refl
  filter-none p (x ∷ xs) h = filter-skips p x xs h.0 ∙ filter-none p xs h.1

module _ {ℓ κ} {A : Type ℓ} {K : Type κ} (kov : A → K) (comp : K → K → Bool) where
  -- The elements that do not have the key.
  abbrev pub others : K → List A → List A
  others key xs = filter (λ x. not (matches kov comp key x)) xs

  pub others-KeyRange :
      (key : K) (xs : List A) → (r : KeyRange kov comp key xs) → others key xs ≡ r.front ++ r.back
  others-KeyRange key xs r =
      let p : A → Bool = λ x. not (matches kov comp key x) in
      let low = filter-all p r.front (All-mono r.front (λ x h. ground (arith, h)) r.are_less) in
      let none_left = filter-none p r.mid (All-mono r.mid (λ x h. ground (arith, h)) r.match) in
      let high = filter-all p r.back (All-mono r.back (λ x h. ground (arith, h)) r.are_greater) in
      ap (filter p) r.split
      ∙ filter-append p r.front (r.mid ++ r.back)
      ∙ rw (filter-append p r.mid r.back, low, none_left, high) refl

  pub matching-KeyRange :
      (key : K) (xs : List A)
      → (r : KeyRange kov comp key xs) → filter (matches kov comp key) xs ≡ r.mid
  matching-KeyRange key xs r =
      let p : A → Bool = matches kov comp key in
      let low = filter-none p r.front r.are_less in
      let all = filter-all p r.mid r.match in
      let high = filter-none p r.back r.are_greater in
      ap (filter p) r.split
      ∙ filter-append p r.front (r.mid ++ r.back)
      ∙ rw (filter-append p r.mid r.back, low, all, high) (append_nil r.mid)

module _ {ℓ κ} {E : Type 0} {A : Type ℓ} {K : Type κ} (kov : A → K) {comp : K → K → Bool}
    (o : IsStrictWeak comp) where
  -- A hit in a tree without two equivalent keys is the one element with the key.
  pub hit-KeyRange :
      (key : K) (t : Tree E A) (x : Place E A)
      → IsSorted (not_after kov comp) (elements t)
      → IsHit kov comp key t x
      → (r : KeyRange kov comp key (elements t)) × (r.front ≡ elements_before x)
        × (r.mid ≡ x.value ∷ [])
        × (r.back ≡ elements_after x)
  hit-KeyRange key t x s h =
      let whole = sym (ap elements h.in_tree) ∙ elements-root_of x in
      let sorted : IsSorted (not_after kov comp)
          (elements_before x ++ (x.value ∷ elements_after x)) =
        rw (sym whole) s in
      let around = IsSorted-split _ (elements_before x) (elements_after x) x.value sorted in
      (
        record {
          front = elements_before x;
          mid = x.value ∷ [];
          back = elements_after x;
          split = whole;
          are_less =
              All-mono (elements_before x)
                (λ y k. ground (arith, k, h.equivalent, o.neg_trans (kov y) key (kov x.value)))
                around.2;
          match = (h.equivalent, tt);
          are_greater =
              All-mono (elements_after x)
                (λ y k. ground (arith, k, h.equivalent, o.neg_trans (kov x.value) key (kov y)))
                around.3;
        },
        refl,
        refl,
        refl,
      )

-- What a removal by key leaves: a tree with the invariant and all elements but those with the key,
-- and their number.
pub record ErasesKey {ℓ κ} {S E : Type 0} {A : Type ℓ} {K : Type κ} (kov : A → K)
    (comp : K → K → Bool) (Balanced : Tree E A → Type 0) (cmp : A → A → Bool) (key : K)
    (t u : BinarySearchTree S E A) (n : ℕ) : Type ℓ where
  pub valid : IsSearchTree Balanced cmp u
  pub content : elements u.root ≡ others kov comp key (elements t.root)
  pub number : n ≡ count (matches kov comp key) (elements t.root)

module _ {ℓ κ} {S E : Type 0} {A : Type ℓ} {K : Type κ} (kov : A → K) {comp : K → K → Bool}
    (o : IsStrictWeak comp) {P : BalancePolicy S E A} {Balanced : Tree E A → Type 0}
    (laws : IsBalancePolicy P Balanced) where
  pub unique-multi :
      (t : BinarySearchTree S E A)
      → IsSearchTree Balanced (not_after kov comp) t
      → IsSearchTree Balanced (by_key kov comp) t
  unique-multi t inv = record {
    sorted = strict-IsSorted kov comp o (elements t.root) inv.sorted;
    balanced = inv.balanced;
    counted = inv.counted;
  }

  erase_found :
      (key : K) (t u : BinarySearchTree S E A) (it : Iterator E A)
      → IsSearchTree Balanced (not_after kov comp) u
      → elements u.root ≡ elements t.root
      → IsFound kov comp key u.root it
      → let r = elim it as (λ _. BinarySearchTree S E A × ℕ) [
        | none ↦ (u, 0)
        | some z ↦ ((erase P z u).0, 1)
      ] in
        ErasesKey kov comp Balanced (not_after kov comp) key t r.0 r.1
  erase_found key t u none inv q f =
      let p = matches kov comp key in
      let kept =
        filter-all (λ x. not (p x)) (elements u.root)
          (All-mono (elements u.root) (λ x h. ground (arith, h)) f.absent) in
      record {
        valid = inv;
        content = sym kept ∙ ap (others kov comp key) q;
        number = sym (ap (count p) (sym q) ∙ All-count_zero p (elements u.root) f.absent);
      }
  erase_found key t u (some z) inv q f =
      let r = erase-PointsAt laws (not_after kov comp) z u f.in_tree inv in
      let (range, front, mid, back) = hit-KeyRange kov o key u.root z inv.sorted f in
      let p = matches kov comp key in
      let ends : elements_before z ++ elements_after z ≡ range.front ++ range.back =
        rw (front, back) refl in
      let counted = count-KeyRange kov comp key (elements u.root) range in
      record {
        valid = r.0;
        content =
            r.1
            ∙ ends
            ∙ sym (others-KeyRange kov comp key (elements u.root) range)
            ∙ ap (others kov comp key) q;
        number = omega (arith, counted, ap length mid, ap (count p) q);
      }

  -- Over a policy that keeps the contract, erase of a key in a container of unique keys keeps its
  -- invariant, leaves just the elements without the key in their order, and gives the number of the
  -- elements that had it.
  pub erase_key-ErasesKey :
      (key : K) (t : BinarySearchTree S E A)
      → IsSearchTree Balanced (not_after kov comp) t
      → ErasesKey kov comp Balanced
          (not_after kov comp)
          key
          t
          (erase_key kov comp P key t).0
          (erase_key kov comp P key t).1
  unfolding erase_key
  erase_key-ErasesKey key t inv =
      let (kept, found) = find_mutating-IsFound kov o laws key t (unique-multi t inv) in
      let u = (find_mutating kov comp P key t).0 in
      erase_found key t u _ (Keeps-IsSearchTree (not_after kov comp) t u kept inv) kept.content
        found

  -- Over a policy that keeps the contract, erase_equal in a container of equivalent keys keeps its
  -- invariant, leaves just the elements without the key in their order, and gives the number of the
  -- elements that had it.
  pub erase_equal-ErasesKey :
      (key : K) (t : BinarySearchTree S E A)
      → IsSearchTree Balanced (by_key kov comp) t
      → ErasesKey kov comp Balanced
          (by_key kov comp)
          key
          t
          (erase_equal kov comp P key t).0
          (erase_equal kov comp P key t).1
  unfolding erase_equal
  erase_equal-ErasesKey key t inv =
      let (r, first, last) = equal_range_multi-KeyRange kov o key t inv.sorted in
      let whole = r.split ∙ sym (append_assoc r.front r.mid r.back) in
      let range = equal_range_multi kov comp key t in
      let n : rank t.root range.1 - rank t.root range.0 ≡ length r.mid = omega (
        arith,
        rank-PointsAt t.root r.front (r.mid ++ r.back) _ r.split first,
        rank-PointsAt t.root (r.front ++ r.mid) r.back _ whole last,
        length-append r.front r.mid,
      ) in
      let e =
        erase_while-IsSearchTree laws (by_key kov comp) r.mid r.front r.back range.0 t first inv
          r.split in
      rw n (record {
        valid = e.0;
        content = e.1 ∙ sym (others-KeyRange kov comp key (elements t.root) r);
        number = e.2 ∙ sym (count-KeyRange kov comp key (elements t.root) r);
      })
