-- ===== src/Associative/FlatSet/Bulk.antt =====
-- The insertion of ranges of include/chaistl/containers/associative/flat_set.hpp.
use chaistl.Common.{
  Bool, true, false, ◌≡◌, refl, sym, ap, ◌∙◌, arith, List, [], ◌∷◌, some, All, Bool-cases, inl, inr,
  if◌then◌else◌,
}
use chaistl.Order.{IsStrictWeak}
use chaistl.Sort.Base.{All-mono, IsSorted}
use chaistl.Tree.BinarySearchTree.Insert.Reference.{set_insert, set_insert_all}
use chaistl.Associative.FlatSet.{
  equivalent, sorted_after, is_sorted_unique, unique_after, unique_erase, gather,
  normalize_appended_unique_tail, insert_sorted,
}
use chaistl.Associative.FlatSet.Bounds.{IsStrict}

module _ {ℓ} {A : Type ℓ} {comp : A → A → Bool} (o : IsStrictWeak comp) where
  below_all :
      (x y : A) (ys : List A)
      → ((z : A) → comp y z ≡ true → comp x z ≡ true)
      → IsStrict comp (y ∷ ys)
      → All (λ z. comp x z ≡ true) ys
  below_all x y ys f s = All-mono ys f s.0

  lower_trans : (x y z : A) → comp x y ≡ true → comp y z ≡ true → comp x z ≡ true
  lower_trans x y z p q = elim (Bool-cases (comp x z)) [
    | inl e ↦ e
    | inr e ↦ absurd (ground (arith, p, o.neg_trans x z y e (o.asym y z q)))
  ]

  same_trans : (x y z : A) → comp y x ≡ false → comp y z ≡ true → comp x z ≡ true
  same_trans x y z p q = elim (Bool-cases (comp x z)) [
    | inl e ↦ e
    | inr e ↦ absurd (ground (arith, q, o.neg_trans y x z p e))
  ]

  -- Values above the first one of a set are put in behind it.
  set_insert_all-above :
      (x : A) (ys xs : List A)
      → All (λ y. comp x y ≡ true) ys
      → set_insert_all (λ y. y) comp ys (x ∷ xs) ≡ x ∷ set_insert_all (λ y. y) comp ys xs
  unfolding set_insert_all set_insert
  set_insert_all-above x [] xs h = refl
  set_insert_all-above x (y ∷ ys) xs h =
      rw h.0 (set_insert_all-above x ys (set_insert (λ z. z) comp y xs) h.1)

  set_insert-first :
      (x y : A) (xs : List A)
      → comp x y ≡ false
      → set_insert (λ z. z) comp y (x ∷ xs) ≡ (if comp y x then y ∷ x ∷ xs else x ∷ xs)
  unfolding set_insert
  set_insert-first x y xs p = rw p refl

  pub set_insert_all-gather :
      (xs ys : List A) → IsStrict comp ys → set_insert_all (λ y. y) comp ys xs ≡ gather comp xs ys
  unfolding set_insert_all set_insert gather
  set_insert_all-gather [] [] s = refl
  set_insert_all-gather [] (y ∷ ys) s =
      set_insert_all-above y ys [] s.0 ∙ ap (λ t. y ∷ t) (set_insert_all-gather [] ys s.1)
  set_insert_all-gather (x ∷ xs) [] s = refl
  set_insert_all-gather (x ∷ xs) (y ∷ ys) s = elim (Bool-cases (comp x y)) [
    | inl e ↦
        let all = below_all x y ys (λ z q. lower_trans x y z e q) s in
        rw e (
          set_insert_all-above x ys (set_insert (λ z. z) comp y xs) all
          ∙ ap (λ t. x ∷ t) (set_insert_all-gather xs (y ∷ ys) s))
    | inr e ↦ elim (Bool-cases (comp y x)) [
      | inl f ↦
          rw (e, f)
            (set_insert_all-above y ys (x ∷ xs) s.0
              ∙ ap (λ t. y ∷ t) (set_insert_all-gather (x ∷ xs) ys s.1))
      | inr f ↦
          let all = below_all x y ys (λ z q. same_trans x y z f q) s in
          rw (e, f)
            (set_insert_all-above x ys xs all ∙ ap (λ t. x ∷ t) (set_insert_all-gather xs ys s.1))
    ]
  ]

  All-gather {κ} :
      (P : A → Type κ) (xs ys : List A) → All P xs → All P ys → All P (gather comp xs ys)
  unfolding gather
  All-gather P [] ys h k = k
  All-gather P (x ∷ xs) [] h k = h
  All-gather P (x ∷ xs) (y ∷ ys) h k = elim (Bool-cases (comp x y)) [
    | inl e ↦ rw e (h.0, All-gather P xs (y ∷ ys) h.1 k)
    | inr e ↦ elim (Bool-cases (comp y x)) [
      | inl f ↦ rw (e, f) (k.0, All-gather P (x ∷ xs) ys h k.1)
      | inr f ↦ rw (e, f) (h.0, All-gather P xs ys h.1 k.1)
    ]
  ]

  pub gather-IsStrict :
      (xs ys : List A) → IsStrict comp xs → IsStrict comp ys → IsStrict comp (gather comp xs ys)
  unfolding gather
  gather-IsStrict [] ys s t = t
  gather-IsStrict (x ∷ xs) [] s t = s
  gather-IsStrict (x ∷ xs) (y ∷ ys) s t = elim (Bool-cases (comp x y)) [
    | inl e ↦
        let all = below_all x y ys (λ z q. lower_trans x y z e q) t in
        rw e (
          All-gather (λ z. comp x z ≡ true) xs (y ∷ ys) s.0 (e, all),
          gather-IsStrict xs (y ∷ ys) s.1 t,
        )
    | inr e ↦ elim (Bool-cases (comp y x)) [
      | inl f ↦
          let all = below_all y x xs (λ z q. lower_trans y x z f q) s in
          rw (e, f)
            (
              All-gather (λ z. comp y z ≡ true) (x ∷ xs) ys (f, all) t.0,
              gather-IsStrict (x ∷ xs) ys s t.1,
            )
      | inr f ↦
          let all = below_all x y ys (λ z q. same_trans x y z f q) t in
          rw (e, f) (All-gather (λ z. comp x z ≡ true) xs ys s.0 all, gather-IsStrict xs ys s.1 t.1)
    ]
  ]

  sorted_after-IsStrict :
      (x : A) (xs : List A) → IsStrict comp (x ∷ xs) → sorted_after comp x xs ≡ true
  unfolding sorted_after
  sorted_after-IsStrict x [] s = refl
  sorted_after-IsStrict x (y ∷ xs) s = rw s.0.0 (sorted_after-IsStrict y xs s.1)

  -- In a sorted range, the values that stay are strictly above the last one that stayed.
  unique_after-IsStrict :
      (x : A) (xs : List A)
      → IsSorted comp (x ∷ xs)
      → All (λ y. comp x y ≡ true) (unique_after comp x xs) × IsStrict comp (unique_after comp x xs)
  unfolding unique_after
  unique_after-IsStrict x [] s = (tt, tt)
  unique_after-IsStrict x (y ∷ xs) s = elim (Bool-cases (equivalent comp x y)) [
    | inl e ↦ rw e (unique_after-IsStrict x xs (s.0.1, s.1.1))
    | inr e ↦
        let above : comp x y ≡ true = ground (arith, e, s.0.0) in
        let (rest, strict) = unique_after-IsStrict y xs s.1 in
        rw e ((above, All-mono _ (λ z q. lower_trans x y z above q) rest), (rest, strict))
  ]

  pub unique_erase-IsStrict :
      (xs : List A) → IsSorted comp xs → IsStrict comp (unique_erase comp xs)
  unfolding unique_erase
  unique_erase-IsStrict [] s = tt
  unique_erase-IsStrict (x ∷ xs) s = unique_after-IsStrict x xs s

  -- Over a strict weak order, for a set and a range that are strictly sorted, the insertion of the range
  -- as sorted_unique passes its check, keeps the set strictly sorted, and leaves what the insertion of
  -- its values one after the other leaves, as the reference set_insert does it.
  pub insert_sorted-set_insert_all :
      (sort : List A → List A) (xs ys : List A)
      → IsStrict comp xs
      → IsStrict comp ys
      → (insert_sorted comp sort ys xs ≡ some (set_insert_all (λ y. y) comp ys xs))
        × IsStrict comp (set_insert_all (λ y. y) comp ys xs)
  unfolding insert_sorted normalize_appended_unique_tail is_sorted_unique set_insert_all
  insert_sorted-set_insert_all sort xs [] s t = (refl, s)
  insert_sorted-set_insert_all sort xs (y ∷ ys) s t =
      let q = set_insert_all-gather xs (y ∷ ys) t in
      (rw (sorted_after-IsStrict y ys t) (ap some (sym q)), rw q (gather-IsStrict xs (y ∷ ys) s t))
