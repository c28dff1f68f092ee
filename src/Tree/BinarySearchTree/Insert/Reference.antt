-- ===== src/Tree/BinarySearchTree/Insert/Reference.antt =====
-- What insertion of include/chaistl/containers/tree/binary_search_tree.hpp does to the sequence of the
-- elements: a reference on sorted lists.
use chaistl.Common.{
  Bool, true, false, ◌≡◌, refl, ap, arith, List, [], ◌∷◌, ◌++◌, All, if◌then◌else◌,
}
use chaistl.Order.{IsStrictWeak}
use chaistl.Sort.Base.{IsSorted, All-mono}
use chaistl.Tree.Search.Laws.{by_key}
use chaistl.Tree.Search.Unique.{not_after}

module _ {ℓ κ} {A : Type ℓ} {K : Type κ} (kov : A → K) (comp : K → K → Bool) where
  -- A sorted list with the value added, unless it has an equivalent one.
  unfoldable pub set_insert : A → List A → List A
  set_insert x [] = x ∷ []
  set_insert x (y ∷ ys) =
      let rest = set_insert x ys in
      if comp (kov y) (kov x)
      then y ∷ rest
      else (if comp (kov x) (kov y) then x ∷ y ∷ ys else y ∷ ys)

  -- The values put in one after the other.
  unfoldable pub set_insert_all : List A → List A → List A
  set_insert_all [] ys = ys
  set_insert_all (x ∷ xs) ys = set_insert_all xs (set_insert x ys)

  pub set_insert-free :
      (x : A) (xs ys : List A)
      → All (λ y. comp (kov y) (kov x) ≡ true) xs
      → All (λ y. comp (kov y) (kov x) ≡ false) ys
      → All (λ y. comp (kov x) (kov y) ≡ true) ys
      → set_insert x (xs ++ ys) ≡ xs ++ (x ∷ ys)
  unfolding set_insert
  set_insert-free x [] [] low not_low high = refl
  set_insert-free x [] (y ∷ ys) low not_low high = rw (not_low.0, high.0) refl
  set_insert-free x (z ∷ xs) ys low not_low high =
      rw low.0 (ap (λ t. z ∷ t) (set_insert-free x xs ys low.1 not_low high))

  pub set_insert-duplicate :
      (x : A) (xs ys : List A) (y : A)
      → All (λ z. comp (kov z) (kov x) ≡ true) xs
      → comp (kov y) (kov x) ≡ false
      → comp (kov x) (kov y) ≡ false
      → set_insert x (xs ++ (y ∷ ys)) ≡ xs ++ (y ∷ ys)
  unfolding set_insert
  set_insert-duplicate x [] ys y low p q = rw (p, q) refl
  set_insert-duplicate x (z ∷ xs) ys y low p q =
      rw low.0 (ap (λ t. z ∷ t) (set_insert-duplicate x xs ys y low.1 p q))

  -- In a list where each is less than all behind it, none is less than an earlier one.
  pub strict-IsSorted :
      IsStrictWeak comp
      → (xs : List A) → IsSorted (not_after kov comp) xs
      → IsSorted (by_key kov comp) xs
  strict-IsSorted o [] s = tt
  strict-IsSorted o (x ∷ xs) s =
      (All-mono xs (λ y h. ground (arith, h, o.asym (kov x) (kov y))) s.0, strict-IsSorted o xs s.1)

module _ {ℓ} {A : Type ℓ} (cmp : A → A → Bool) where
  -- A value put into a sorted list.
  pub insert-IsSorted :
      (xs ys : List A) (x : A)
      → IsSorted cmp (xs ++ ys)
      → All (λ y. cmp x y ≡ false) xs
      → All (λ y. cmp y x ≡ false) ys
      → IsSorted cmp (xs ++ (x ∷ ys))
  insert-IsSorted [] ys x s low high = (high, s)
  insert-IsSorted (z ∷ xs) ys x s low high =
      (insert_all xs ys s.0 low.0, insert-IsSorted xs ys x s.1 low.1 high)
    where
      insert_all :
          (xs ys : List A)
          → All (λ y. cmp y z ≡ false) (xs ++ ys)
          → cmp x z ≡ false
          → All (λ y. cmp y z ≡ false) (xs ++ (x ∷ ys))
      insert_all [] ys h p = (p, h)
      insert_all (w ∷ xs) ys h p = (h.0, insert_all xs ys h.1 p)

  -- A value taken out of it.
  pub remove-IsSorted :
      (xs ys : List A) (x : A) → IsSorted cmp (xs ++ (x ∷ ys)) → IsSorted cmp (xs ++ ys)
  remove-IsSorted [] ys x s = s.1
  remove-IsSorted (z ∷ xs) ys x s = (remove_all xs ys s.0, remove-IsSorted xs ys x s.1)
    where
      remove_all :
          (xs ys : List A)
          → All (λ y. cmp y z ≡ false) (xs ++ (x ∷ ys))
          → All (λ y. cmp y z ≡ false) (xs ++ ys)
      remove_all [] ys h = h.1
      remove_all (w ∷ xs) ys h = (h.0, remove_all xs ys h.1)
