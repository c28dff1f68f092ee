-- ===== src/Tree/BinarySearchTree/Lookup/Ranges.antt =====
-- `equal_range_multi`, `count_multi` and the bounds of
-- include/chaistl/containers/tree/binary_search_tree.hpp, as positions in the sequence.
use chaistl.Common.{
  Bool, true, false, not, ◌&&◌, ℕ, ◌+◌, ◌-◌, ◌≤◌, ◌≡◌, refl, sym, ap, ◌∙◌, arith, List, [], ◌∷◌,
  ◌++◌, Option, some, none, All, bit, length, length-append, append_nil, append_assoc, count-append,
  All-count_zero, count_mono,
}
use chaistl.Common
use chaistl.Order.{IsStrictWeak}
use chaistl.Sort.Base.{IsSorted, All-mono}
use chaistl.Tree.Node.{Tree, elements, elements_before, elements_after}
use chaistl.Tree.Node.Order.{elements-root_of}
use chaistl.Tree.Search.Bound.{IsBound, All-split}
use chaistl.Tree.Search.Laws.{by_key, not_less, greater, equal_range_multi_node-IsBound}
use chaistl.Tree.Search.Find.{matches}
use chaistl.Tree.BinarySearchTree.{BinarySearchTree, Iterator}
use chaistl.Tree.BinarySearchTree.Place.{tail, head_or, PointsAt, rank-PointsAt}
use chaistl.Tree.BinarySearchTree.Lookup.{equal_range_multi, count_multi}

-- The sequence of a tree, split where a test begins to hold, and an iterator to the split.
pub record BoundAt {ℓ} {E : Type 0} {A : Type ℓ} (p : A → Bool) (t : Tree E A) (it : Iterator E A)
    : Type ℓ where
  pub front : List A
  pub back : List A
  pub split : elements t ≡ front ++ back
  pub points : PointsAt t front back it
  pub lower : All (λ x. p x ≡ false) front
  pub upper : All (λ x. p x ≡ true) back

module _ {ℓ} {E : Type 0} {A : Type ℓ} where
  pub IsBound-BoundAt :
      (p : A → Bool) (t : Tree E A) (it : Iterator E A) → IsBound p t it → BoundAt p t it
  IsBound-BoundAt p t none h = record {
    front = elements t;
    back = [];
    split = sym (append_nil (elements t));
    points = record { is_nil = refl };
    lower = h.none_passes;
    upper = tt;
  }
  IsBound-BoundAt p t (some x) h = record {
    front = elements_before x;
    back = x.value ∷ elements_after x;
    split = sym (ap elements h.in_tree) ∙ elements-root_of x;
    points = record { in_tree = h.in_tree; is_before = refl; is_from = refl };
    lower = h.lower;
    upper = (h.passes, h.upper);
  }

module _ {ℓ} {A : Type ℓ} where
  -- Two splits of a sequence, the second not before the first.
  pub split_between :
      (front back front' back' : List A)
      → front ++ back ≡ front' ++ back'
      → length front ≤ length front'
      → (mid : List A) × (front' ≡ front ++ mid) × (back ≡ mid ++ back')
  unfolding tail head_or
  split_between [] back front' back' q h = (front', refl, q)
  split_between (x ∷ front) back [] back' q h = absurd (omega (arith, h))
  split_between (x ∷ front) back (y ∷ front') back' q h =
      let (mid, f, b) = split_between front back front' back' (ap tail q) (omega (arith, h)) in
      (mid, rw (sym (ap (head_or x) q), f) refl, b)

-- The elements with a key are together: less ones before them, greater ones behind.
pub record KeyRange {ℓ κ} {A : Type ℓ} {K : Type κ} (kov : A → K) (comp : K → K → Bool) (key : K)
    (xs : List A) : Type ℓ where
  pub front : List A
  pub mid : List A
  pub back : List A
  pub split : xs ≡ front ++ (mid ++ back)
  pub are_less : All (λ x. matches kov comp key x ≡ false) front
  pub match : All (λ x. matches kov comp key x ≡ true) mid
  pub are_greater : All (λ x. matches kov comp key x ≡ false) back

module _ {ℓ} {A : Type ℓ} where
  all_counted :
      (p : A → Bool) (xs : List A) → All (λ x. p x ≡ true) xs → Common.count p xs ≡ length xs
  all_counted p [] h = refl
  all_counted p (x ∷ xs) h = ground (arith, h.0, all_counted p xs h.1)

module _ {ℓ} {E : Type 0} {A : Type ℓ} where
  count-BoundAt :
      (p : A → Bool) (t : Tree E A) (it : Iterator E A)
      → (b : BoundAt p t it) → Common.count (λ x. not (p x)) (elements t) ≡ length b.front
  count-BoundAt p t it b =
      let q : A → Bool = λ x. not (p x) in
      let low = all_counted q b.front (All-mono b.front (λ x h. ground (arith, h)) b.lower) in
      let high = All-count_zero q b.back (All-mono b.back (λ x h. ground (arith, h)) b.upper) in
      rw b.split (omega (arith, low, high, count-append q b.front b.back))

module _ {ℓ κ} {A : Type ℓ} {K : Type κ} (kov : A → K) (comp : K → K → Bool) where
  pub count-KeyRange :
      (key : K) (xs : List A)
      → (r : KeyRange kov comp key xs) → Common.count (matches kov comp key) xs ≡ length r.mid
  count-KeyRange key xs r =
      let p = matches kov comp key in
      rw r.split (
        omega (
          arith,
          count-append p r.front (r.mid ++ r.back),
          count-append p r.mid r.back,
          All-count_zero p r.front r.are_less,
          All-count_zero p r.back r.are_greater,
          all_counted p r.mid r.match,
        ))

  -- Between the two bounds of a key.
  all_match :
      (key : K) (xs : List A)
      → All (λ x. not_less kov comp key x ≡ true) xs
      → All (λ x. greater kov comp key x ≡ false) xs
      → All (λ x. matches kov comp key x ≡ true) xs
  all_match key [] h k = tt
  all_match key (x ∷ xs) h k = (ground (arith, h.0, k.0), all_match key xs h.1 k.1)

module _ {ℓ κ} {S E : Type 0} {A : Type ℓ} {K : Type κ} (kov : A → K) {comp : K → K → Bool}
    (o : IsStrictWeak comp) where
  -- On a tree in order, the two iterators of equal_range_multi enclose just the elements with the key:
  -- those before them are less, and those behind them greater.
  pub equal_range_multi-KeyRange :
      (key : K) (t : BinarySearchTree S E A)
      → IsSorted (by_key kov comp) (elements t.root)
      → (r : KeyRange kov comp key (elements t.root)) × PointsAt t.root r.front
          (r.mid ++ r.back)
          (equal_range_multi kov comp key t).0
        × PointsAt t.root (r.front ++ r.mid) r.back (equal_range_multi kov comp key t).1
  unfolding equal_range_multi
  equal_range_multi-KeyRange key t s =
      let bounds = equal_range_multi_node-IsBound kov o key t.root s in
      let b = IsBound-BoundAt _ t.root _ bounds.0 in
      let c = IsBound-BoundAt _ t.root _ bounds.1 in
      let n = count-BoundAt _ t.root _ b in
      let m = count-BoundAt _ t.root _ c in
      let order =
        count_mono (λ x. not (not_less kov comp key x)) (λ x. not (greater kov comp key x))
          (elements t.root) (λ x h. ground (arith, h, o.asym (kov x) key)) in
      let (mid, f, k) =
        split_between b.front b.back c.front c.back (sym b.split ∙ c.split)
          (omega (arith, n, m, order)) in
      let reached = All-split _ mid c.back (rw (sym k) b.upper) in
      let passed = All-split _ b.front mid (rw (sym f) c.lower) in
      (
        record {
          front = b.front;
          mid = mid;
          back = c.back;
          split = b.split ∙ ap (λ ys. b.front ++ ys) k;
          are_less = All-mono b.front (λ x h. ground (arith, h)) b.lower;
          match = all_match kov comp key mid reached.0 passed.1;
          are_greater = All-mono c.back (λ x h. ground (arith, h)) c.upper;
        },
        rw (sym k) b.points,
        rw (sym f) c.points,
      )

  -- On a tree in order, count_multi is the number of elements with the key.
  pub count_multi-count :
      (key : K) (t : BinarySearchTree S E A)
      → IsSorted (by_key kov comp) (elements t.root)
      → count_multi kov comp key t ≡ Common.count (matches kov comp key) (elements t.root)
  unfolding count_multi equal_range_multi
  count_multi-count key t s =
      let (r, first, last) = equal_range_multi-KeyRange key t s in
      let behind = sym (append_assoc r.front r.mid r.back) in
      omega (
        arith,
        rank-PointsAt t.root r.front (r.mid ++ r.back) _ r.split first,
        rank-PointsAt t.root (r.front ++ r.mid) r.back _ (r.split ∙ behind) last,
        length-append r.front r.mid,
        count-KeyRange kov comp key (elements t.root) r,
      )
