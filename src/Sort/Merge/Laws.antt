-- ===== src/Sort/Merge/Laws.antt =====
-- `merge_sort` of include/chaistl/algorithm/sort.hpp sorts, and it is stable.
use chaistl.Common.{
  append_nil, Bool, true, false, ℕ, zero, suc, ◌+◌, ◌≤◌, ◌/◌, ◌≡◌, refl, sym, ap, ◌∙◌, arith, List,
  [], ◌∷◌, ◌++◌, count, All, Bool-cases, inl, inr, ltb, length,
}
use chaistl.Order.{IsStrictWeak, irrefl}
use chaistl.Sort.Base.{
  filter, first_part, last_part, parts-append, length-parts, count-parts, length-first_part,
  filter_cong, filter-keeps, filter-skips, filter-append, All-mono, sort_equivalent, IsSorted,
  Sorts, IsStable, less-not_both,
}
use chaistl.Sort.Merge.{merge, merge_sort_upto, merge_sort}

module _ {ℓ} {A : Type ℓ} where
  filter_past :
      (p : A → Bool) (y : A) (left right : List A)
      → (p y ≡ true → filter p left ≡ [])
      → filter p (y ∷ (left ++ right)) ≡ filter p (left ++ (y ∷ right))
  filter_past p y left right h = elim (Bool-cases (p y)) [
    | inl e ↦
        rw
          (
            filter-keeps p y (left ++ right) e,
            filter-append p left right,
            filter-append p left (y ∷ right),
            filter-keeps p y right e,
            h e,
          )
          refl
    | inr e ↦
        rw
          (
            filter-skips p y (left ++ right) e,
            filter-append p left right,
            filter-append p left (y ∷ right),
            filter-skips p y right e,
          )
          refl
  ]

module _ {ℓ} {A : Type ℓ} (comp : A → A → Bool) where
  merge_right :
      (x y : A) (left right : List A)
      → comp y x ≡ true
      → merge comp (x ∷ left) (y ∷ right) ≡ y ∷ merge comp (x ∷ left) right
  unfolding merge
  merge_right x y left right h = ground arith

  merge_left :
      (x y : A) (left right : List A)
      → comp y x ≡ false
      → merge comp (x ∷ left) (y ∷ right) ≡ x ∷ merge comp left (y ∷ right)
  unfolding merge
  merge_left x y left right h = ground arith

  merge_nil : (left : List A) → merge comp left [] ≡ left
  unfolding merge
  merge_nil [] = refl
  merge_nil (x ∷ left) = refl

  nil_merge : (right : List A) → merge comp [] right ≡ right
  unfolding merge
  nil_merge right = refl

  pub count-merge :
      (p : A → Bool) (left right : List A)
      → count p (merge comp left right) ≡ count p left + count p right
  count-merge p [] right = rw nil_merge (omega arith)
  count-merge p (x ∷ left) [] = rw merge_nil (omega arith)
  count-merge p (x ∷ left) (y ∷ right) = elim (Bool-cases (comp y x)) [
    | inl e ↦ rw (merge_right x y left right e) (omega (arith, count-merge p (x ∷ left) right))
    | inr e ↦ rw (merge_left x y left right e) (omega (arith, count-merge p left (y ∷ right)))
  ]

  pub length-merge :
      (left right : List A) → length (merge comp left right) ≡ length left + length right
  length-merge [] right = rw nil_merge (omega arith)
  length-merge (x ∷ left) [] = rw merge_nil (omega arith)
  length-merge (x ∷ left) (y ∷ right) = elim (Bool-cases (comp y x)) [
    | inl e ↦ rw (merge_right x y left right e) (omega (arith, length-merge (x ∷ left) right))
    | inr e ↦ rw (merge_left x y left right e) (omega (arith, length-merge left (y ∷ right)))
  ]

  All-merge {κ} :
      (P : A → Type κ) (left right : List A)
      → All P left
      → All P right
      → All P (merge comp left right)
  All-merge P [] right h k = rw nil_merge k
  All-merge P (x ∷ left) [] h k = rw merge_nil h
  All-merge P (x ∷ left) (y ∷ right) h k = elim (Bool-cases (comp y x)) [
    | inl e ↦ rw (merge_right x y left right e) (k.0, All-merge P (x ∷ left) right h k.1)
    | inr e ↦ rw (merge_left x y left right e) (h.0, All-merge P left (y ∷ right) h.1 k)
  ]

  pub short-IsSorted : (ys : List A) → ltb (length ys) 2 ≡ true → IsSorted comp ys
  short-IsSorted [] q = tt
  short-IsSorted (y ∷ []) q = (tt, tt)
  short-IsSorted (y ∷ z ∷ ys) q = absurd (ground arith)

module _ {ℓ} {A : Type ℓ} {comp : A → A → Bool} (o : IsStrictWeak comp) where
  pub merge-IsSorted :
      (left right : List A)
      → IsSorted comp left
      → IsSorted comp right
      → IsSorted comp (merge comp left right)
  merge-IsSorted [] right s t = rw nil_merge t
  merge-IsSorted (x ∷ left) [] s t = rw merge_nil s
  merge-IsSorted (x ∷ left) (y ∷ right) s t = elim (Bool-cases (comp y x)) [
    | inl e ↦
        let low = o.asym y x e in
        let rest = All-mono left (λ z q. o.neg_trans z x y q low) s.0 in
        rw (merge_right comp x y left right e)
          (All-merge comp _ (x ∷ left) right (low, rest) t.0, merge-IsSorted (x ∷ left) right s t.1)
    | inr e ↦
        let rest = All-mono right (λ z q. o.neg_trans z y x q e) t.0 in
        rw (merge_left comp x y left right e)
          (All-merge comp _ left (y ∷ right) s.0 (e, rest), merge-IsSorted left (y ∷ right) s.1 t)
  ]

  -- No element of a sorted array is equivalent to what an element below its first one is.
  filter_none :
      (a y x : A) (left : List A)
      → comp y x ≡ true
      → sort_equivalent comp a y ≡ true
      → All (λ z. comp z x ≡ false) left
      → filter (sort_equivalent comp a) left ≡ []
  unfolding filter
  filter_none a y x [] e q s = refl
  filter_none a y x (z ∷ left) e q s =
      let r = less-not_both comp o a y z (ground (arith, o.neg_trans y z x)) q in
      rw (filter-skips _ z left r) (filter_none a y x left e q s.1)

  pub filter-merge :
      (a : A) (left right : List A)
      → IsSorted comp left
      → filter (sort_equivalent comp a) (merge comp left right)
        ≡ filter (sort_equivalent comp a) (left ++ right)
  filter-merge a [] right s = rw nil_merge refl
  filter-merge a (x ∷ left) [] s = rw (merge_nil, append_nil (x ∷ left)) refl
  filter-merge a (x ∷ left) (y ∷ right) s = elim (Bool-cases (comp y x)) [
    | inl e ↦
        let p = sort_equivalent comp a in
        rw (merge_right comp x y left right e) (
          filter_cong p y _ ((x ∷ left) ++ right) (filter-merge a (x ∷ left) right s)
          ∙ filter_past p y (x ∷ left) right
              (λ q. filter_none a y x (x ∷ left) e q (irrefl o x, s.0)))
    | inr e ↦
        let p = sort_equivalent comp a in
        rw (merge_left comp x y left right e)
          (filter_cong p x _ (left ++ (y ∷ right)) (filter-merge a left (y ∷ right) s.1))
  ]

  -- Two sorted halves of an array, merged.
  merge-Sorts :
      (n : ℕ) (xs left right : List A)
      → Sorts comp (first_part n xs) left × IsStable comp (first_part n xs) left
      → Sorts comp (last_part n xs) right × IsStable comp (last_part n xs) right
      → Sorts comp xs (merge comp left right) × IsStable comp xs (merge comp left right)
  merge-Sorts n xs left right (s, s') (t, t') = (
    record {
      sorted = merge-IsSorted left right s.sorted t.sorted;
      content = λ p.
          omega
            (arith, count-merge comp p left right, s.content p, t.content p, count-parts p n xs);
    },
    λ a.
        let p = sort_equivalent comp a in
        filter-merge a left right s.sorted
        ∙ filter-append p left right
        ∙ rw (s' a, t' a) (sym (filter-append p (first_part n xs) (last_part n xs)))
        ∙ ap (filter p) (parts-append n xs),
  )

  merge_sort_upto-Sorts :
      (k : ℕ) (xs : List A)
      → length xs ≤ k
      → Sorts comp xs (merge_sort_upto comp k xs) × IsStable comp xs (merge_sort_upto comp k xs)
  unfolding merge_sort_upto
  merge_sort_upto-Sorts zero [] h = (record { sorted = tt; content = λ p. refl }, λ a. refl)
  merge_sort_upto-Sorts zero (x ∷ xs) h = absurd (omega arith)
  merge_sort_upto-Sorts (suc k) xs h = elim (Bool-cases (ltb (length xs) 2)) [
    | inl e ↦ rw e (record { sorted = short-IsSorted comp xs e; content = λ p. refl }, λ a. refl)
    | inr e ↦
        let n = length xs / 2 in
        let size = length-parts n xs in
        let first_size = length-first_part n xs (omega arith) in
        let left = merge_sort_upto-Sorts k (first_part n xs) (ground (arith, first_size, e)) in
        let right =
          merge_sort_upto-Sorts k (last_part n xs) (ground (arith, first_size, size, e)) in
        rw e (merge-Sorts n xs _ _ left right)
  ]

  -- Over a strict weak order, merge_sort leaves the array sorted, with each element as often as
  -- before, and keeps the order of equivalent elements.
  pub merge_sort-Sorts :
      (xs : List A) → Sorts comp xs (merge_sort comp xs) × IsStable comp xs (merge_sort comp xs)
  unfolding merge_sort
  merge_sort-Sorts xs = merge_sort_upto-Sorts (length xs) xs (omega arith)
