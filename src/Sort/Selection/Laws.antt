-- ===== src/Sort/Selection/Laws.antt =====
-- `selection_sort` of include/chaistl/algorithm/sort.hpp sorts.
use chaistl.Common.{
  Bool, false, ℕ, zero, suc, ◌+◌, ◌≤◌, ◌≡◌, ◌⊎◌, refl, sym, ◌∙◌, arith, List, [], ◌∷◌, count, All,
  bit, Bool-cases, inl, inr, length, All-count_zero, count_zero-All,
}
use chaistl.Order.{IsStrictWeak, irrefl}
use chaistl.Sort.Base.{All-mono, Sorts}
use chaistl.Sort.Selection.{
  swap_behind, select_from, select_round, selection_sort_upto, selection_sort,
}

module _ {ℓ} {A : Type ℓ} where
  count-swap_behind :
      (p : A → Bool) (x : A) (i : ℕ) (xs : List A)
      → bit (p (swap_behind x i xs).0) + count p (swap_behind x i xs).1 ≡ bit (p x) + count p xs
  unfolding swap_behind
  count-swap_behind p x i [] = refl
  count-swap_behind p x zero (y ∷ ys) = omega arith
  count-swap_behind p x (suc i) (y ∷ ys) = omega (arith, count-swap_behind p x i ys)

  length-swap_behind : (x : A) (i : ℕ) (xs : List A) → length (swap_behind x i xs).1 ≡ length xs
  unfolding swap_behind
  length-swap_behind x i [] = refl
  length-swap_behind x zero (y ∷ ys) = refl
  length-swap_behind x (suc i) (y ∷ ys) = omega (arith, length-swap_behind x i ys)

  All-swap_behind {κ} :
      (P : A → Type κ) (x : A) (i : ℕ) (xs : List A) → P x → All P xs → All P (swap_behind x i xs).1
  unfolding swap_behind
  All-swap_behind P x i [] h k = tt
  All-swap_behind P x zero (y ∷ ys) h k = (h, k.1)
  All-swap_behind P x (suc i) (y ∷ ys) h k = (k.0, All-swap_behind P x i ys h k.1)

-- What the loop over `candidate` found: a value that no candidate is less than, at its position.
record Found {ℓ} {A : Type ℓ} (comp : A → A → Bool) (least : A) (selected at : ℕ) (xs : List A)
    (r : A × ℕ) : Type ℓ where
  least_of : All (λ y. comp y r.0 ≡ false) xs
  below_old : comp least r.0 ≡ false
  place :
      ((r.0 ≡ least) × (r.1 ≡ selected))
      ⊎ ((i : ℕ) × (r.1 ≡ at + i) × ((z : A) → (swap_behind z i xs).0 ≡ r.0))

-- A round of the outer loop: `y` goes to the front, and `ys` stays behind it.
record Round {ℓ} {A : Type ℓ} (comp : A → A → Bool) (x : A) (xs : List A) (r : A × List A)
    : Type ℓ where
  least : All (λ z. comp z r.0 ≡ false) r.1
  content : (p : A → Bool) → bit (p r.0) + count p r.1 ≡ bit (p x) + count p xs
  same_length : length r.1 ≡ length xs

module _ {ℓ} {A : Type ℓ} {comp : A → A → Bool} (o : IsStrictWeak comp) where
  select_from-Found :
      (least : A) (selected at : ℕ) (xs : List A)
      → Found comp least selected at xs (select_from comp least selected at xs)
  unfolding select_from swap_behind
  select_from-Found least selected at [] = record {
    least_of = tt;
    below_old = irrefl o least;
    place = inl (refl, refl);
  }
  select_from-Found least selected at (y ∷ ys) = elim (Bool-cases (comp y least)) [
    | inl e ↦
        let f = select_from-Found y at (at + 1) ys in
        rw e (record {
          least_of = (f.below_old, f.least_of);
          below_old = o.neg_trans least y _ (o.asym y least e) f.below_old;
          place = elim f.place [
            | inl q ↦ inr (0, omega (arith, q.1), λ z. sym q.0)
            | inr (i, q, v) ↦ inr (suc i, omega (arith, q), v)
          ];
        })
    | inr e ↦
        let f = select_from-Found least selected (at + 1) ys in
        rw e (record {
          least_of = (o.neg_trans y least _ e f.below_old, f.least_of);
          below_old = f.below_old;
          place = elim f.place [ inl q ↦ inl q | inr (i, q, v) ↦ inr (suc i, omega (arith, q), v) ];
        })
  ]

  select_round-Round : (x : A) (xs : List A) → Round comp x xs (select_round comp x xs)
  unfolding select_round
  select_round-Round x xs = go (select_from comp x 0 1 xs) (select_from-Found x 0 1 xs)
    where
      go :
          (r : A × ℕ)
          → Found comp x 0 1 xs r
          → Round comp x xs (elim r.1 [ zero ↦ (x, xs) | suc i ↦ swap_behind x i xs ])
      go r f = elim f.place [
        | inl (v, q) ↦ rw q (record {
          least = All-mono xs (λ y h. rw (sym v) h) f.least_of;
          content = λ p. refl;
          same_length = refl;
        })
        | inr (i, q, v) ↦ rw (suc_of i q) (record {
          least = rw (v x) (All-swap_behind _ x i xs f.below_old f.least_of);
          content = λ p. count-swap_behind p x i xs;
          same_length = length-swap_behind x i xs;
        })
      ]
        where
          suc_of : (i : ℕ) → r.1 ≡ 1 + i → r.1 ≡ suc i
          suc_of i q = omega (arith, q)

  selection_sort_upto-Sorts :
      (k : ℕ) (xs : List A) → length xs ≤ k → Sorts comp xs (selection_sort_upto comp k xs)
  unfolding selection_sort_upto
  selection_sort_upto-Sorts zero [] h = record { sorted = tt; content = λ p. refl }
  selection_sort_upto-Sorts zero (x ∷ xs) h = absurd (omega arith)
  selection_sort_upto-Sorts (suc k) [] h = record { sorted = tt; content = λ p. refl }
  selection_sort_upto-Sorts (suc k) (x ∷ xs) h =
      let r = select_round-Round x xs in
      let (y, ys) = select_round comp x xs in
      let s = selection_sort_upto-Sorts k ys (omega (arith, r.same_length)) in
      let above : (z : A) → Bool = λ z. comp z y in
      record {
        sorted =
            (count_zero-All above _ (s.content above ∙ All-count_zero above ys r.least), s.sorted);
        content = λ p. omega (arith, r.content p, s.content p);
      }

  -- Over a strict weak order, selection_sort leaves the array sorted, with each element as often as
  -- before.
  pub selection_sort-Sorts : (xs : List A) → Sorts comp xs (selection_sort comp xs)
  unfolding selection_sort
  selection_sort-Sorts xs = selection_sort_upto-Sorts (length xs) xs (omega arith)
