-- ===== src/Sort/Merge/BottomUp.antt =====
-- `bottom_up_merge_sort` of include/chaistl/algorithm/sort.hpp sorts, and it is stable.
use chaistl.Common.{
  count_all, Bool, true, ℕ, zero, suc, ◌+◌, ◌*◌, ◌≤◌, ◌≡◌, ◌⊎◌, refl, sym, ap, ◌∙◌, arith, List, [],
  ◌∷◌, ◌++◌, count, Bool-cases, inl, inr, ltb, length, count-append, append_assoc,
}
use chaistl.Order.{IsStrictWeak}
use chaistl.Sort.Base.{
  filter, first_part, last_part, parts-append, count-parts, filter-append, sort_equivalent,
  IsSorted, Sorts, IsStable,
}
use chaistl.Sort.Merge.{
  merge, merge_pair, merge_pass, bottom_up_merge_sort_upto, bottom_up_merge_sort,
}
use chaistl.Sort.Merge.Laws.{
  count-merge, filter-merge, length-merge, merge-IsSorted, short-IsSorted,
}
use chaistl.Sort.Parts.{
  mul_suc, mul_zero, first_part_cases, last_part_le, last_part_shorter, last_part_zero,
  last_part_twice, first_part_all, parts_of,
}

module _ {ℓ} {A : Type ℓ} (comp : A → A → Bool) where
  -- Every run of that width is sorted.
  pub record HasRuns (width : ℕ) (xs : List A) : Type ℓ where
    pub run : (i : ℕ) → IsSorted comp (first_part width (last_part (i * width) xs))

  merge_pass_nil : (width k : ℕ) → merge_pass comp width k [] ≡ []
  unfolding merge_pass
  merge_pass_nil width zero = refl
  merge_pass_nil width (suc k) = refl

  merge_pair-merge : (left right : List A) → merge_pair comp left right ≡ merge comp left right
  unfolding merge_pair merge
  merge_pair-merge [] [] = refl
  merge_pair-merge (x ∷ left) [] = refl
  merge_pair-merge [] (y ∷ right) = refl
  merge_pair-merge (x ∷ left) (y ∷ right) = refl

  -- Two runs merged are twice as long, or the array ends with them.
  pair_fits :
      (width k : ℕ) (xs : List A)
      → (length (merge comp (first_part width xs) (first_part width (last_part width xs)))
          ≡ width * 2)
        ⊎ ((length (merge comp (first_part width xs) (first_part width (last_part width xs)))
              ≤ width * 2)
            × (merge_pass comp width k (last_part width (last_part width xs)) ≡ []))
  unfolding first_part last_part
  pair_fits width k xs =
      let middle = last_part width xs in
      let size = length-merge comp (first_part width xs) (first_part width middle) in
      elim (first_part_cases width xs) [
        | inr h ↦ inr (
          rw h.1 (omega (arith, h.0, length-merge comp (first_part width xs) [])),
          rw h.1 (merge_pass_nil width k),
        )
        | inl h ↦ elim (first_part_cases width middle) [
          | inl g ↦ inl (omega (arith, size, h, g))
          | inr g ↦ inr (omega (arith, size, h, g.0), rw g.1 (merge_pass_nil width k))
        ]
      ]

  HasRuns-first : (width : ℕ) (xs : List A) → HasRuns width xs → IsSorted comp (first_part width xs)
  HasRuns-first width xs r =
      let run = r.run 0 in
      sorted_at _ _
        (ap (first_part width) (ap (λ n. last_part n xs) (mul_zero width) ∙ last_part_zero xs)) run
    where
      sorted_at : (ys zs : List A) → ys ≡ zs → IsSorted comp ys → IsSorted comp zs
      sorted_at ys zs q h = rw (sym q) h

  HasRuns-last : (width : ℕ) (xs : List A) → HasRuns width xs → HasRuns width (last_part width xs)
  HasRuns-last width xs r = record {
    run = λ i. rw (last_part_twice width (i * width) xs, sym (mul_suc i width)) (r.run (suc i));
  }

  -- A sorted front of that width, before an array with sorted runs.
  HasRuns-append :
      (width : ℕ) (front back : List A)
      → (length front ≡ width) ⊎ ((length front ≤ width) × (back ≡ []))
      → IsSorted comp front
      → HasRuns width back
      → HasRuns width (front ++ back)
  HasRuns-append width front back h s r = record { run = run_at }
    where
      run_at : (i : ℕ) → IsSorted comp (first_part width (last_part (i * width) (front ++ back)))
      run_at zero =
          rw (mul_zero width, last_part_zero (front ++ back), (parts_of width front back h).0) s
      run_at (suc i) =
          rw
            (
              mul_suc i width,
              sym (last_part_twice width (i * width) (front ++ back)),
              (parts_of width front back h).1,
            )
            (r.run i)

-- What a pass leaves: runs of twice the width, the same elements, ties in their order.
record Passed {ℓ} {A : Type ℓ} (comp : A → A → Bool) (width : ℕ) (xs ys : List A) : Type ℓ where
  runs : HasRuns comp (width * 2) ys
  content : (p : A → Bool) → count p ys ≡ count p xs
  stable : IsStable comp xs ys

module _ {ℓ} {A : Type ℓ} {comp : A → A → Bool} (o : IsStrictWeak comp) where
  nil-Passed : (width : ℕ) → Passed comp width [] []
  unfolding first_part last_part
  nil-Passed width = record {
    runs = record { run = λ i. tt };
    content = λ p. refl;
    stable = λ a. refl;
  }

  merge_pass-Passed :
      (width k : ℕ) (xs : List A)
      → 1 ≤ width
      → length xs ≤ k
      → HasRuns comp width xs
      → Passed comp width xs (merge_pass comp width k xs)
  unfolding merge_pass
  merge_pass-Passed width zero [] w h r = nil-Passed width
  merge_pass-Passed width zero (x ∷ xs) w h r = absurd (omega arith)
  merge_pass-Passed width (suc k) [] w h r = nil-Passed width
  merge_pass-Passed width (suc k) (x ∷ xs) w h r =
      let whole = x ∷ xs in
      let middle = last_part width whole in
      let rest = last_part width middle in
      let left = first_part width whole in
      let right = first_part width middle in
      let after = HasRuns-last comp width whole r in
      let left_sorted = HasRuns-first comp width whole r in
      let right_sorted = HasRuns-first comp width middle after in
      let ih =
        merge_pass-Passed width k rest w
          (omega (arith, h, last_part_shorter width x xs w, last_part_le width middle))
          (HasRuns-last comp width middle after) in
      record {
        runs = rw (merge_pair-merge comp left right) (
            HasRuns-append comp (width * 2) _ _ (pair_fits comp width k whole)
              (merge-IsSorted o left right left_sorted right_sorted) ih.runs);
        content = λ p. rw (merge_pair-merge comp left right) (
            omega (
              arith,
              count-append p (merge comp left right) (merge_pass comp width k rest),
              count-merge comp p left right,
              ih.content p,
              count-parts p width whole,
              count-parts p width middle,
            ));
        stable = λ a.
            let p = sort_equivalent comp a in
            rw (merge_pair-merge comp left right) (
              filter-append p (merge comp left right) (merge_pass comp width k rest)
              ∙ rw (filter-merge o a left right left_sorted, ih.stable a)
                  (sym (filter-append p (left ++ right) rest))
              ∙ ap (filter p) (
                  append_assoc left right rest
                  ∙ ap (λ t. left ++ t) (parts-append width middle)
                  ∙ parts-append width whole));
      }

  one_run : (width : ℕ) (xs : List A) → length xs ≤ width → HasRuns comp width xs → Sorts comp xs xs
  one_run width xs h r = record {
    sorted = sorted_of _ _ (first_part_all width xs h) (HasRuns-first comp width xs r);
    content = λ p. refl;
  }
    where
      sorted_of : (ys zs : List A) → ys ≡ zs → IsSorted comp ys → IsSorted comp zs
      sorted_of ys zs q s = rw (sym q) s

  -- Runs of width 1 are sorted.
  unit-HasRuns : (xs : List A) → HasRuns comp 1 xs
  unfolding first_part
  unit-HasRuns xs = record { run = λ i. one (last_part (i * 1) xs) }
    where
      one : (ys : List A) → IsSorted comp (first_part 1 ys)
      one [] = tt
      one (y ∷ []) = (tt, tt)
      one (y ∷ z ∷ ys) = (tt, tt)

  same_length :
      (xs ys : List A) → ((p : A → Bool) → count p ys ≡ count p xs) → length ys ≡ length xs
  same_length xs ys h = sym (count_all ys) ∙ h (λ _. true) ∙ count_all xs

  -- From sorted runs, with a width that the rounds left double past the length.
  upto-Sorts :
      (k width : ℕ) (xs : List A)
      → 1 ≤ width
      → length xs ≤ width + k
      → HasRuns comp width xs
      → Sorts comp xs (bottom_up_merge_sort_upto comp k width xs)
        × IsStable comp xs (bottom_up_merge_sort_upto comp k width xs)
  unfolding bottom_up_merge_sort_upto
  upto-Sorts zero width xs w h r = (one_run width xs (omega arith) r, λ a. refl)
  upto-Sorts (suc k) width xs w h r = elim (Bool-cases (ltb width (length xs))) [
    | inr e ↦ rw e (one_run width xs (ground arith) r, λ a. refl)
    | inl e ↦
        let ys = merge_pass comp width (length xs) xs in
        let pass = merge_pass-Passed width (length xs) xs w (omega arith) r in
        let (s, t) =
          upto-Sorts k (width * 2) ys (omega arith) (omega (arith, same_length xs ys pass.content))
            pass.runs in
        rw e (
          record { sorted = s.sorted; content = λ p. s.content p ∙ pass.content p },
          λ a. t a ∙ pass.stable a,
        )
  ]

  -- Over a strict weak order, bottom_up_merge_sort leaves the array sorted, with each element as often
  -- as before, and keeps the order of equivalent elements.
  pub bottom_up_merge_sort-Sorts :
      (xs : List A)
      → Sorts comp xs (bottom_up_merge_sort comp xs)
        × IsStable comp xs (bottom_up_merge_sort comp xs)
  unfolding bottom_up_merge_sort
  bottom_up_merge_sort-Sorts xs = elim (Bool-cases (ltb (length xs) 2)) [
    | inl e ↦ rw e (record { sorted = short-IsSorted comp xs e; content = λ p. refl }, λ a. refl)
    | inr e ↦ rw e (upto-Sorts (length xs) 1 xs (omega arith) (omega arith) (unit-HasRuns xs))
  ]
