-- ===== src/Sort/Parts.antt =====
-- The parts of an array before and behind a position, for the merges of
-- include/chaistl/algorithm/sort.hpp.
use chaistl.Common.{
  ℕ, zero, suc, ◌+◌, ◌*◌, ◌≤◌, ◌≡◌, ◌⊎◌, refl, sym, ap, ◌∙◌, arith, List, [], ◌∷◌, ◌++◌, inl, inr,
  length, append_nil,
}
use chaistl.Sort.Base.{first_part, last_part, length-parts}

pub mul_suc : (i w : ℕ) → suc i * w ≡ w + i * w
mul_suc i w = ground arith

pub mul_zero : (w : ℕ) → 0 * w ≡ 0
mul_zero w = ground arith

module _ {ℓ} {A : Type ℓ} where
  -- A first part is as long as asked for, or it is the whole array.
  pub first_part_cases :
      (n : ℕ) (xs : List A)
      → (length (first_part n xs) ≡ n) ⊎ ((length (first_part n xs) ≤ n) × (last_part n xs ≡ []))
  unfolding first_part last_part
  first_part_cases n [] = inr (omega arith, refl)
  first_part_cases zero (x ∷ xs) = inl refl
  first_part_cases (suc n) (x ∷ xs) = elim (first_part_cases n xs) [
    | inl h ↦ inl (omega (arith, h))
    | inr h ↦ inr (omega (arith, h.0), h.1)
  ]

  pub last_part_le : (n : ℕ) (xs : List A) → length (last_part n xs) ≤ length xs
  last_part_le n xs = omega (arith, length-parts n xs)

  pub last_part_shorter :
      (n : ℕ) (x : A) (xs : List A) → 1 ≤ n → length (last_part n (x ∷ xs)) ≤ length xs
  unfolding last_part
  last_part_shorter zero x xs h = absurd (omega arith)
  last_part_shorter (suc n) x xs h = last_part_le n xs

  pub last_part_zero : (xs : List A) → last_part 0 xs ≡ xs
  unfolding last_part
  last_part_zero [] = refl
  last_part_zero (x ∷ xs) = refl

  pub last_part_twice :
      (n m : ℕ) (xs : List A) → last_part m (last_part n xs) ≡ last_part (n + m) xs
  unfolding last_part
  last_part_twice n m [] = refl
  last_part_twice zero m (x ∷ xs) = ap (λ k. last_part k (x ∷ xs)) (omega arith)
  last_part_twice (suc n) m (x ∷ xs) =
      last_part_twice n m xs ∙ ap (λ k. last_part k (x ∷ xs)) (suc_plus n m)
    where
      suc_plus : (a b : ℕ) → suc (a + b) ≡ suc a + b
      suc_plus a b = omega arith

  pub first_part_all : (n : ℕ) (xs : List A) → length xs ≤ n → first_part n xs ≡ xs
  unfolding first_part
  first_part_all n [] h = refl
  first_part_all zero (x ∷ xs) h = absurd (omega arith)
  first_part_all (suc n) (x ∷ xs) h = ap (λ t. x ∷ t) (first_part_all n xs (omega arith))

  pub last_part_all : (n : ℕ) (xs : List A) → length xs ≤ n → last_part n xs ≡ []
  unfolding last_part
  last_part_all n [] h = refl
  last_part_all zero (x ∷ xs) h = absurd (omega arith)
  last_part_all (suc n) (x ∷ xs) h = last_part_all n xs (omega arith)

  -- The parts of an array that was put together from a front of that length and the rest.
  pub first_part_front : (front back : List A) → first_part (length front) (front ++ back) ≡ front
  unfolding first_part
  first_part_front [] [] = refl
  first_part_front [] (y ∷ back) = refl
  first_part_front (x ∷ front) back = ap (λ t. x ∷ t) (first_part_front front back)

  pub last_part_back : (front back : List A) → last_part (length front) (front ++ back) ≡ back
  unfolding last_part
  last_part_back [] [] = refl
  last_part_back [] (y ∷ back) = refl
  last_part_back (x ∷ front) back = last_part_back front back

  -- The same when the front is shorter and there is no rest.
  pub parts_of :
      (n : ℕ) (front back : List A)
      → (length front ≡ n) ⊎ ((length front ≤ n) × (back ≡ []))
      → (first_part n (front ++ back) ≡ front) × (last_part n (front ++ back) ≡ back)
  parts_of n front back (inl h) =
      rw (sym h) (first_part_front front back, last_part_back front back)
  parts_of n front back (inr h) =
      rw (h.1, append_nil front) (first_part_all n front h.0, last_part_all n front h.0)
