-- ===== src/Sort/Insertion/Partial.antt =====
-- `partial_insertion_sort` of include/chaistl/algorithm/sort.hpp: what it leaves on each return.
use chaistl.Common.{
  Bool, true, false, ℕ, ◌+◌, ◌≡◌, refl, sym, ap, ◌∙◌, arith, List, [], ◌∷◌, count, bit, Bool-cases,
  inl, inr, ltb, some,
}
use chaistl.Sort.Base.{rev_onto, count-rev_onto}
use chaistl.Sort.Insertion.Laws.{count-insert_back, insert_back_stop}
use chaistl.Sort.Insertion.{
  Shift, gave_up, placed, move_back, insert_back, insertion_sort_from, insertion_sort, shift_hole,
  partial_insertion_sort_from, partial_insertion_sort,
}

-- The array `ys` is `xs` with one element lost: a greater one stands there twice.
pub record LosesOne {ℓ} {A : Type ℓ} (comp : A → A → Bool) (xs ys : List A) : Type ℓ where
  pub lost : A
  pub twice : A
  pub less : comp lost twice ≡ true
  pub content : (p : A → Bool) → count p ys + bit (p lost) ≡ count p xs + bit (p twice)

module _ {ℓ} {A : Type ℓ} (comp : A → A → Bool) where
  -- What the inner loop leaves, for the value and the part before it.
  abbrev ShiftFits : A → List A → Shift A → Type ℓ
  ShiftFits value before (gave_up after) = LosesOne comp (value ∷ before) after
  ShiftFits value before (placed moves after) = after ≡ insert_back comp value before

  -- What a call leaves: sorted on true, an element lost on false.
  abbrev pub Verdict : List A → Bool × List A → Type ℓ
  Verdict xs (true, ys) = ys ≡ insertion_sort comp xs
  Verdict xs (false, ys) = LosesOne comp xs ys

  -- The same from a position on, with the part before it sorted already.
  abbrev VerdictFrom : List A → List A → Bool × List A → Type ℓ
  VerdictFrom before xs (true, ys) = ys ≡ insertion_sort_from comp before xs
  VerdictFrom before xs (false, ys) = LosesOne comp (rev_onto before xs) ys

  move_back-ShiftFits :
      (value x : A) (before : List A) (s : Shift A)
      → comp value x ≡ true
      → ShiftFits value before s
      → ShiftFits value (x ∷ before) (move_back x s)
  unfolding move_back insert_back
  move_back-ShiftFits value x before (gave_up after) e h = record {
    lost = h.lost;
    twice = h.twice;
    less = h.less;
    content = λ p. omega (arith, h.content p);
  }
  move_back-ShiftFits value x before (placed moves after) e h = ground (arith, h, e)

  shift_hole-ShiftFits :
      (moves : ℕ) (value : A) (before : List A)
      → ShiftFits value before (shift_hole comp moves value before)
  unfolding shift_hole insert_back
  shift_hole-ShiftFits moves value [] = refl
  shift_hole-ShiftFits moves value (x ∷ before) = elim (Bool-cases (comp value x)) [
    | inr e ↦ rw e (sym (insert_back_stop comp value x before e))
    | inl e ↦ elim (Bool-cases (ltb 8 (moves + 1))) [
      | inr l ↦
          let rest = shift_hole-ShiftFits (moves + 1) value before in
          rw (e, l) (move_back-ShiftFits value x before _ e rest)
      | inl l ↦ rw (e, l) (record { lost = value; twice = x; less = e; content = λ p. omega arith })
    ]
  ]

  subst_before :
      (before after rest : List A)
      → after ≡ before
      → (r : Bool × List A) → VerdictFrom after rest r
      → VerdictFrom before rest r
  subst_before before after rest q (true, ys) v = v ∙ ap (λ b. insertion_sort_from comp b rest) q
  subst_before before after rest q (false, ys) v = rw (sym q) v

  VerdictFrom-Verdict :
      (x : A) (xs : List A) (r : Bool × List A) → VerdictFrom (x ∷ []) xs r → Verdict (x ∷ xs) r
  unfolding insertion_sort rev_onto
  VerdictFrom-Verdict x xs (true, ys) v = v
  VerdictFrom-Verdict x xs (false, ys) v = v

  insert_VerdictFrom :
      (before rest : List A) (x : A) (r : Bool × List A)
      → VerdictFrom (insert_back comp x before) rest r
      → VerdictFrom before (x ∷ rest) r
  unfolding insertion_sort_from
  insert_VerdictFrom before rest x (true, ys) h = h
  insert_VerdictFrom before rest x (false, ys) h = record {
    lost = h.lost;
    twice = h.twice;
    less = h.less;
    content = λ p. omega (
      arith,
      h.content p,
      count-insert_back comp p x before,
      count-rev_onto p (insert_back comp x before) rest,
      count-rev_onto p before (x ∷ rest),
    );
  }

  partial_insertion_sort_from-VerdictFrom :
      (moves : ℕ) (before xs : List A)
      → VerdictFrom before xs (partial_insertion_sort_from comp moves before xs)
  unfolding partial_insertion_sort_from insertion_sort_from
  partial_insertion_sort_from-VerdictFrom moves before [] = refl
  partial_insertion_sort_from-VerdictFrom moves before (x ∷ rest) =
      continue (λ m b. partial_insertion_sort_from-VerdictFrom m b rest)
        (shift_hole comp moves x before) (shift_hole-ShiftFits moves x before)
    where
      continue :
          ((m : ℕ) (b : List A) → VerdictFrom b rest (partial_insertion_sort_from comp m b rest))
          → (s : Shift A) → ShiftFits x before s
          → VerdictFrom before (x ∷ rest) (elim s [
            | gave_up before' ↦ (false, rev_onto before' rest)
            | placed moves' before' ↦ partial_insertion_sort_from comp moves' before' rest
          ])
      continue ih (gave_up after) h = record {
        lost = h.lost;
        twice = h.twice;
        less = h.less;
        content = λ p.
            omega
              (arith, h.content p, count-rev_onto p after rest, count-rev_onto p before (x ∷ rest));
      }
      continue ih (placed moves' after) h =
          insert_VerdictFrom before rest x _
            (subst_before (insert_back comp x before) after rest h _ (ih moves' after))

  -- partial_insertion_sort on a range that is not empty: when it returns true, it leaves what
  -- insertion_sort leaves; when it returns false, one element is lost, and a greater one stands in
  -- the array once more than before.
  pub partial_insertion_sort_lem :
      (x : A) (xs : List A)
      → (r : Bool × List A) × (partial_insertion_sort comp (x ∷ xs) ≡ some r) × Verdict (x ∷ xs) r
  unfolding partial_insertion_sort
  partial_insertion_sort_lem x xs =
      (_, refl, VerdictFrom-Verdict x xs _ (partial_insertion_sort_from-VerdictFrom 0 (x ∷ []) xs))
