-- ===== src/Associative/FlatSet/Insert.antt =====
-- The insertion of one value of include/chaistl/containers/associative/flat_set.hpp.
use chaistl.Common.{
  Bool, true, false, ◌≡◌, refl, sym, ap, ◌∙◌, arith, ℕ, suc, ◌+◌, bit, length, List, [], ◌∷◌,
  Option, some, none, Bool-cases, inl, inr,
}
use chaistl.Order.{IsStrictWeak, irrefl}
use chaistl.Tree.BinarySearchTree.Insert.Reference.{set_insert, set_insert_all}
use chaistl.Associative.FlatSet.{elem_at, insert_at, equivalent, insert_bound, insert}
use chaistl.Associative.FlatSet.Bounds.{IsStrict, scan, lower_bound-scan}
use chaistl.Associative.FlatSet.Bulk.{set_insert_all-gather, gather-IsStrict}

module _ {ℓ} {A : Type ℓ} (comp : A → A → Bool) where
  -- What an insertion leaves: the set of the reference, whether there is a value more, and an iterator to
  -- an equivalent value.
  pub record Inserts (value : A) (xs : List A) (r : List A × ℕ × Bool) : Type ℓ where
    pub content : r.0 ≡ set_insert (λ y. y) comp value xs
    pub number : length r.0 ≡ length xs + bit r.2
    pub at : A
    pub points : elem_at r.1 r.0 ≡ some at
    pub same : equivalent comp value at ≡ true

  set_insert-past :
      (value x : A) (xs : List A)
      → comp x value ≡ true
      → set_insert (λ y. y) comp value (x ∷ xs) ≡ x ∷ set_insert (λ y. y) comp value xs
  unfolding set_insert
  set_insert-past value x xs e = rw e refl

  -- The answers for a set behind a value, from those for the set.
  abbrev shift : A → List A × ℕ × Bool → List A × ℕ × Bool
  shift x (ys, pos, new) = (x ∷ ys, suc pos, new)

  insert_bound-shift :
      (r : Option A) (pos : ℕ) (value x : A) (xs : List A)
      → insert_bound comp r (suc pos) value (x ∷ xs) ≡ shift x (insert_bound comp r pos value xs)
  unfolding insert_bound insert_at
  insert_bound-shift none pos value x xs = refl
  insert_bound-shift (some y) pos value x xs = elim (Bool-cases (equivalent comp value y)) [
    | inl f ↦ rw f refl
    | inr f ↦ rw f refl
  ]

  shift-Inserts :
      (value x : A) (xs : List A) (r : List A × ℕ × Bool)
      → comp x value ≡ true
      → Inserts value xs r
      → Inserts value (x ∷ xs) (shift x r)
  unfolding elem_at
  shift-Inserts value x xs r e h = record {
    content = ap (λ t. x ∷ t) h.content ∙ sym (set_insert-past value x xs e);
    number = omega (arith, h.number);
    at = h.at;
    points = h.points;
    same = h.same;
  }

  alone_Inserts :
      (value : A) → comp value value ≡ false → Inserts value [] (insert_bound comp none 0 value [])
  unfolding insert_bound insert_at elem_at set_insert
  alone_Inserts value i = record {
    content = refl;
    number = omega arith;
    at = value;
    points = refl;
    same = rw i refl;
  }

  first_Inserts :
      (value x : A) (xs : List A)
      → comp value value ≡ false
      → comp x value ≡ false
      → Inserts value (x ∷ xs) (insert_bound comp (some x) 0 value (x ∷ xs))
  unfolding insert_bound insert_at elem_at set_insert
  first_Inserts value x xs i e = elim (Bool-cases (comp value x)) [
    | inl f ↦ rw f (record {
      content = rw (f, e) refl;
      number = omega arith;
      at = value;
      points = refl;
      same = rw i refl;
    })
    | inr f ↦
        rw (f, e)
          (record {
            content = rw (f, e) refl;
            number = omega arith;
            at = x;
            points = refl;
            same = rw (f, e) refl;
          })
  ]

module _ {ℓ} {A : Type ℓ} {comp : A → A → Bool} (o : IsStrictWeak comp) where
  insert_bound-Inserts :
      (value : A) (xs : List A)
      → let pos = scan (λ x. comp x value) xs in
        Inserts comp value xs (insert_bound comp (elem_at pos xs) pos value xs)
  unfolding elem_at
  insert_bound-Inserts value [] = alone_Inserts comp value (irrefl o value)
  insert_bound-Inserts value (x ∷ xs) = elim (Bool-cases (comp x value)) [
    | inl e ↦
        let pos = scan (λ x. comp x value) xs in
        rw e (
          rw (insert_bound-shift comp (elem_at pos xs) pos value x xs)
            (shift-Inserts comp value x xs _ e (insert_bound-Inserts value xs)))
    | inr e ↦ rw e (first_Inserts comp value x xs (irrefl o value) e)
  ]

  set_insert-IsStrict :
      (value : A) (xs : List A)
      → IsStrict comp xs
      → IsStrict comp (set_insert (λ y. y) comp value xs)
  unfolding set_insert_all
  set_insert-IsStrict value xs s =
      rw (set_insert_all-gather o xs (value ∷ []) (tt, tt))
        (gather-IsStrict o xs (value ∷ []) s (tt, tt))

  -- Over a strict weak order, for a strictly sorted set, insert keeps it strictly sorted and does to the
  -- values what the reference set_insert does; its Boolean says whether there is one value more; and its
  -- iterator is to an equivalent value.
  pub insert-Inserts :
      (value : A) (xs : List A)
      → IsStrict comp xs
      → Inserts comp value xs (insert comp value xs) × IsStrict comp (insert comp value xs).0
  unfolding insert
  insert-Inserts value xs s =
      rw (lower_bound-scan o value xs s) (
        let r = insert_bound-Inserts value xs in (r, rw r.content (set_insert-IsStrict value xs s)))
