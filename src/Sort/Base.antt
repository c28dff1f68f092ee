-- ===== src/Sort/Base.antt =====
-- What a sort of include/chaistl/algorithm/sort.hpp promises of the array it leaves.
use chaistl.Common.{
  length-append, count-append, sym, ◌∙◌, ℕ, zero, suc, ◌≤◌, ap, ◌++◌, length, Bool, true, false,
  not, ◌&&◌, ◌+◌, ◌≡◌, refl, arith, List, [], ◌∷◌, count, All, if◌then◌else◌, Bool-cases, inl, inr,
}
use chaistl.Order.{IsStrictWeak}

module _ {ℓ} {A : Type ℓ} where
  -- The elements that pass the test, in their order.
  unfoldable pub filter : (A → Bool) → List A → List A
  filter p [] = []
  filter p (x ∷ xs) = let rest = filter p xs in if p x then x ∷ rest else rest

  -- The array whose part before a position, nearest first, is `before`.
  unfoldable pub rev_onto : List A → List A → List A
  rev_onto [] after = after
  rev_onto (x ∷ before) after = rev_onto before (x ∷ after)

  -- The range [first, first + n), and the range [first + n, last).
  unfoldable pub first_part : ℕ → List A → List A
  first_part n [] = []
  first_part zero (x ∷ xs) = []
  first_part (suc n) (x ∷ xs) = x ∷ first_part n xs

  unfoldable pub last_part : ℕ → List A → List A
  last_part n [] = []
  last_part zero (x ∷ xs) = x ∷ xs
  last_part (suc n) (x ∷ xs) = last_part n xs

  pub parts-append : (n : ℕ) (xs : List A) → first_part n xs ++ last_part n xs ≡ xs
  unfolding first_part last_part
  parts-append n [] = refl
  parts-append zero (x ∷ xs) = refl
  parts-append (suc n) (x ∷ xs) = ap (λ t. x ∷ t) (parts-append n xs)

  pub length-parts :
      (n : ℕ) (xs : List A) → length (first_part n xs) + length (last_part n xs) ≡ length xs
  length-parts n xs =
      sym (length-append (first_part n xs) (last_part n xs)) ∙ ap length (parts-append n xs)

  pub count-parts :
      (p : A → Bool) (n : ℕ) (xs : List A)
      → count p (first_part n xs) + count p (last_part n xs) ≡ count p xs
  count-parts p n xs =
      sym (count-append p (first_part n xs) (last_part n xs)) ∙ ap (count p) (parts-append n xs)

  pub length-first_part : (n : ℕ) (xs : List A) → n ≤ length xs → length (first_part n xs) ≡ n
  unfolding first_part
  length-first_part zero [] h = refl
  length-first_part (suc n) [] h = absurd (omega arith)
  length-first_part zero (x ∷ xs) h = refl
  length-first_part (suc n) (x ∷ xs) h = omega (arith, length-first_part n xs (omega arith))

  pub filter-keeps :
      (p : A → Bool) (x : A) (xs : List A) → p x ≡ true → filter p (x ∷ xs) ≡ x ∷ filter p xs
  unfolding filter
  filter-keeps p x xs h = ground arith

  pub filter-skips :
      (p : A → Bool) (x : A) (xs : List A) → p x ≡ false → filter p (x ∷ xs) ≡ filter p xs
  unfolding filter
  filter-skips p x xs h = ground arith

  pub filter-append :
      (p : A → Bool) (xs ys : List A) → filter p (xs ++ ys) ≡ filter p xs ++ filter p ys
  unfolding filter
  filter-append p [] ys = refl
  filter-append p (x ∷ xs) ys = elim (Bool-cases (p x)) [
    | inl e ↦ rw (filter-keeps p x (xs ++ ys) e, filter-keeps p x xs e, filter-append p xs ys) refl
    | inr e ↦ rw (filter-skips p x (xs ++ ys) e, filter-skips p x xs e, filter-append p xs ys) refl
  ]

  pub filter_cong :
      (p : A → Bool) (x : A) (xs ys : List A)
      → filter p xs ≡ filter p ys
      → filter p (x ∷ xs) ≡ filter p (x ∷ ys)
  filter_cong p x xs ys h = elim (Bool-cases (p x)) [
    | inl e ↦ rw (filter-keeps p x xs e, filter-keeps p x ys e, h) refl
    | inr e ↦ rw (filter-skips p x xs e, filter-skips p x ys e) h
  ]

  pub count-rev_onto :
      (p : A → Bool) (before after : List A)
      → count p (rev_onto before after) ≡ count p before + count p after
  unfolding rev_onto
  count-rev_onto p [] after = omega arith
  count-rev_onto p (x ∷ before) after = omega (arith, count-rev_onto p before (x ∷ after))

  filter-rev_onto :
      (p : A → Bool) (before after : List A)
      → filter p (rev_onto before after) ≡ rev_onto (filter p before) (filter p after)
  unfolding rev_onto filter
  filter-rev_onto p [] after = refl
  filter-rev_onto p (x ∷ before) after = elim (Bool-cases (p x)) [
    | inl e ↦
        rw
          (
            filter-rev_onto p before (x ∷ after),
            filter-keeps p x after e,
            filter-keeps p x before e,
          )
          refl
    | inr e ↦
        rw
          (
            filter-rev_onto p before (x ∷ after),
            filter-skips p x after e,
            filter-skips p x before e,
          )
          refl
  ]

  pub filter-rev_onto_cong :
      (p : A → Bool) (xs ys after : List A)
      → filter p xs ≡ filter p ys
      → filter p (rev_onto xs after) ≡ filter p (rev_onto ys after)
  filter-rev_onto_cong p xs ys after h =
      rw (filter-rev_onto p xs after, filter-rev_onto p ys after, h) refl

  pub All-append {κ} : (P : A → Type κ) (xs ys : List A) → All P xs → All P ys → All P (xs ++ ys)
  All-append P [] ys h k = k
  All-append P (x ∷ xs) ys h k = (h.0, All-append P xs ys h.1 k)

  pub All-equal {κ} : (P : A → Type κ) (xs ys : List A) → xs ≡ ys → All P xs → All P ys
  All-equal P xs ys q h = rw (sym q) h

  pub All-const {κ} : {P : A → Type κ} (xs : List A) → ((x : A) → P x) → All P xs
  All-const [] f = tt
  All-const (x ∷ xs) f = (f x, All-const xs f)

  pub All-mono {κ μ} :
      {P : A → Type κ} {Q : A → Type μ} (xs : List A) → ((x : A) → P x → Q x) → All P xs → All Q xs
  All-mono [] f h = tt
  All-mono (x ∷ xs) f h = (f x h.0, All-mono xs f h.1)

  -- Neither of two values is less than the other, as `sort_equivalent` tests.
  unfoldable pub sort_equivalent : (A → A → Bool) → A → A → Bool
  sort_equivalent comp lhs rhs = not (comp lhs rhs) && not (comp rhs lhs)

  -- No element is less than an earlier one.
  abbrev pub IsSorted : (A → A → Bool) → List A → Type ℓ
  IsSorted comp [] = Unit
  IsSorted comp (x ∷ xs) = All (λ y. comp y x ≡ false) xs × IsSorted comp xs

  -- No element is less than a later one: the part of a sorted array before a position.
  abbrev pub IsSortedBack : (A → A → Bool) → List A → Type ℓ
  IsSortedBack comp [] = Unit
  IsSortedBack comp (x ∷ xs) = All (λ y. comp x y ≡ false) xs × IsSortedBack comp xs

-- The array `ys` is the array `xs` sorted: in order, with each element as often.
pub record Sorts {ℓ} {A : Type ℓ} (comp : A → A → Bool) (xs ys : List A) : Type ℓ where
  pub sorted : IsSorted comp ys
  pub content : (p : A → Bool) → count p ys ≡ count p xs

-- Equivalent elements stay in the order they had.
abbrev pub IsStable {ℓ} : {A : Type ℓ} → (A → A → Bool) → List A → List A → Type ℓ
IsStable comp xs ys =
    (a : _) → filter (sort_equivalent comp a) ys ≡ filter (sort_equivalent comp a) xs

module _ {ℓ} {A : Type ℓ} (comp : A → A → Bool) where
  pub rev_onto-IsSorted :
      (before after : List A)
      → IsSortedBack comp before
      → IsSorted comp after
      → All (λ x. All (λ y. comp y x ≡ false) after) before
      → IsSorted comp (rev_onto before after)
  unfolding rev_onto
  rev_onto-IsSorted [] after b s h = s
  rev_onto-IsSorted (x ∷ before) after b s h =
      rev_onto-IsSorted before (x ∷ after) b.1 (h.0, s) (both before b.0 h.1)
    where
      both :
          (xs : List A)
          → All (λ y. comp x y ≡ false) xs
          → All (λ y. All (λ z. comp z y ≡ false) after) xs
          → All (λ y. All (λ z. comp z y ≡ false) (x ∷ after)) xs
      both [] p q = tt
      both (y ∷ ys) p q = ((p.0, q.0), both ys p.1 q.1)

  -- An element less than another is not equivalent to what the other is equivalent to.
  pub less-not_both :
      IsStrictWeak comp
      → (a x y : A) → comp x y ≡ true
      → sort_equivalent comp a x ≡ true
      → sort_equivalent comp a y ≡ false
  unfolding sort_equivalent
  less-not_both o a x y h e = ground (arith, o.neg_trans x a y)

  -- Two sorted parts, no element of the second less than one of the first.
  pub append-IsSorted :
      (xs ys : List A)
      → IsSorted comp xs
      → IsSorted comp ys
      → All (λ x. All (λ y. comp y x ≡ false) ys) xs
      → IsSorted comp (xs ++ ys)
  append-IsSorted [] ys s t h = t
  append-IsSorted (x ∷ xs) ys s t h = (All-append _ xs ys s.0 h.0, append-IsSorted xs ys s.1 t h.1)
