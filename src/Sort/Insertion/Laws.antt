-- ===== src/Sort/Insertion/Laws.antt =====
-- `insertion_sort` of include/chaistl/algorithm/sort.hpp sorts, and it is stable.
use chaistl.Common.{
  Bool, true, false, ◌+◌, ◌≡◌, refl, ◌∙◌, arith, List, [], ◌∷◌, count, All, bit, Bool-cases, inl,
  inr,
}
use chaistl.Order.{IsStrictWeak}
use chaistl.Sort.Base.{
  filter, rev_onto, filter_cong, filter-keeps, filter-skips, count-rev_onto, filter-rev_onto_cong,
  All-const, All-mono, sort_equivalent, IsSortedBack, Sorts, IsStable, rev_onto-IsSorted,
  less-not_both,
}
use chaistl.Sort.Insertion.{insert_back, insertion_sort_from, insertion_sort}

module _ {ℓ} {A : Type ℓ} (comp : A → A → Bool) where
  insert_back_less :
      (value x : A) (before : List A)
      → comp value x ≡ true
      → insert_back comp value (x ∷ before) ≡ x ∷ insert_back comp value before
  unfolding insert_back
  insert_back_less value x before h = ground arith

  pub insert_back_stop :
      (value x : A) (before : List A)
      → comp value x ≡ false
      → insert_back comp value (x ∷ before) ≡ value ∷ x ∷ before
  unfolding insert_back
  insert_back_stop value x before h = ground arith

  pub count-insert_back :
      (p : A → Bool) (value : A) (before : List A)
      → count p (insert_back comp value before) ≡ bit (p value) + count p before
  unfolding insert_back
  count-insert_back p value [] = refl
  count-insert_back p value (x ∷ before) = elim (Bool-cases (comp value x)) [
    | inl e ↦
        rw (insert_back_less value x before e) (omega (arith, count-insert_back p value before))
    | inr e ↦ rw (insert_back_stop value x before e) refl
  ]

  All-insert_back {κ} :
      (P : A → Type κ) (value : A) (before : List A)
      → P value
      → All P before
      → All P (insert_back comp value before)
  unfolding insert_back
  All-insert_back P value [] v h = (v, tt)
  All-insert_back P value (x ∷ before) v h = elim (Bool-cases (comp value x)) [
    | inl e ↦ rw (insert_back_less value x before e) (h.0, All-insert_back P value before v h.1)
    | inr e ↦ rw (insert_back_stop value x before e) (v, h)
  ]

module _ {ℓ} {A : Type ℓ} {comp : A → A → Bool} (o : IsStrictWeak comp) where
  pub insert_back-IsSortedBack :
      (value : A) (before : List A)
      → IsSortedBack comp before
      → IsSortedBack comp (insert_back comp value before)
  unfolding insert_back
  insert_back-IsSortedBack value [] h = (tt, tt)
  insert_back-IsSortedBack value (x ∷ before) h = elim (Bool-cases (comp value x)) [
    | inl e ↦ rw (insert_back_less comp value x before e) (
      All-insert_back comp _ value before (o.asym value x e) h.0,
      insert_back-IsSortedBack value before h.1,
    )
    | inr e ↦
        rw (insert_back_stop comp value x before e)
          ((e, All-mono before (λ y q. o.neg_trans value x y e q) h.0), h)
  ]

  filter-insert_back :
      (a value : A) (before : List A)
      → filter (sort_equivalent comp a) (insert_back comp value before)
        ≡ filter (sort_equivalent comp a) (value ∷ before)
  unfolding insert_back
  filter-insert_back a value [] = refl
  filter-insert_back a value (x ∷ before) = elim (Bool-cases (comp value x)) [
    | inr e ↦ rw (insert_back_stop comp value x before e) refl
    | inl e ↦
        let p = sort_equivalent comp a in
        let ih =
          filter_cong p x (insert_back comp value before) (value ∷ before)
            (filter-insert_back a value before) in
        rw (insert_back_less comp value x before e) (ih ∙ swap x before e)
  ]
    where
      swap :
          (x : A) (before : List A)
          → comp value x ≡ true
          → filter (sort_equivalent comp a) (x ∷ value ∷ before)
            ≡ filter (sort_equivalent comp a) (value ∷ x ∷ before)
      swap x before e = elim (Bool-cases (sort_equivalent comp a value)) [
        | inl q ↦
            let p = sort_equivalent comp a in
            let r = less-not_both comp o a value x e q in
            rw
              (
                filter-skips p x (value ∷ before) r,
                filter-keeps p value before q,
                filter-keeps p value (x ∷ before) q,
                filter-skips p x before r,
              )
              refl
        | inr q ↦
            let p = sort_equivalent comp a in
            rw (filter-skips p value (x ∷ before) q)
              (filter_cong p x (value ∷ before) before (filter-skips p value before q))
      ]

  insertion_sort_from-Sorts :
      (before xs : List A)
      → IsSortedBack comp before
      → Sorts comp (rev_onto before xs) (insertion_sort_from comp before xs)
        × IsStable comp (rev_onto before xs) (insertion_sort_from comp before xs)
  unfolding insertion_sort_from
  insertion_sort_from-Sorts before [] b = (
    record {
      sorted = rev_onto-IsSorted comp before [] b tt (All-const before (λ _. tt));
      content = λ p. refl;
    },
    λ a. refl,
  )
  insertion_sort_from-Sorts before (x ∷ rest) b =
      let next = insert_back comp x before in
      let (s, t) = insertion_sort_from-Sorts next rest (insert_back-IsSortedBack x before b) in
      (
        record {
          sorted = s.sorted;
          content = λ p. omega (
            arith,
            s.content p,
            count-rev_onto p next rest,
            count-rev_onto p before (x ∷ rest),
            count-insert_back comp p x before,
          );
        },
        λ a. t a ∙ filter-rev_onto_cong _ next (x ∷ before) rest (filter-insert_back a x before),
      )

  -- Over a strict weak order, insertion_sort leaves the array sorted, with each element as often as
  -- before, and keeps the order of equivalent elements.
  pub insertion_sort-Sorts :
      (xs : List A)
      → Sorts comp xs (insertion_sort comp xs) × IsStable comp xs (insertion_sort comp xs)
  unfolding insertion_sort rev_onto
  insertion_sort-Sorts [] = (record { sorted = tt; content = λ p. refl }, λ a. refl)
  insertion_sort-Sorts (x ∷ xs) = insertion_sort_from-Sorts (x ∷ []) xs (tt, tt)
