-- ===== src/Sequence/LinkedList/Remove.antt =====
-- `remove_if` and `unique` of include/chaistl/containers/sequence/list.hpp.
use chaistl.Common.{
  Bool, true, false, not, ◌≡◌, refl, sym, ap, ◌∙◌, arith, ℕ, suc, ◌+◌, ◌-◌, ltb, List, [], ◌∷◌,
  length, count, Bool-cases, inl, inr, if◌then◌else◌,
}
use chaistl.Sort.Base.{filter, filter-keeps, filter-skips, rev_onto}
use chaistl.Sequence.LinkedList.{
  LinkedList, remove_from, remove_if, unique_from, unique_nodes, unique,
}
use chaistl.Sequence.LinkedList.Merge.{IsCounted, length-rev_onto}

module _ {ℓ} {A : Type ℓ} where
  filter_nil : (p : A → Bool) → filter p [] ≡ []
  unfolding filter
  filter_nil p = refl

  rev_onto_one :
      (x : A) (before after : List A) → rev_onto (x ∷ before) after ≡ rev_onto before (x ∷ after)
  unfolding rev_onto
  rev_onto_one x before after = refl

module _ {ℓ} {A : Type ℓ} (pred : A → Bool) where
  remove_from-filter :
      (before xs : List A) (size number : ℕ)
      → size ≡ length before + length xs
      → ((remove_from pred before xs size number).0.nodes
          ≡ rev_onto before (filter (λ x. not (pred x)) xs))
        × IsCounted (remove_from pred before xs size number).0
        × ((remove_from pred before xs size number).1 ≡ number + count pred xs)
  unfolding remove_from
  remove_from-filter before [] size number q = (
    ap (rev_onto before) (sym (filter_nil (λ x. not (pred x)))),
    record { counted = omega (arith, q, length-rev_onto before []) },
    omega arith,
  )
  remove_from-filter before (x ∷ xs) size number q = elim (Bool-cases (pred x)) [
    | inl e ↦
        let r = remove_from-filter before xs (size - 1) (number + 1) (omega (arith, q)) in
        let skipped = filter-skips (λ y. not (pred y)) x xs (ap not e) in
        rw e (r.0 ∙ ap (rev_onto before) (sym skipped), r.1, omega (arith, r.2))
    | inr e ↦
        let r = remove_from-filter (x ∷ before) xs size number (omega (arith, q)) in
        let kept = filter-keeps (λ y. not (pred y)) x xs (ap not e) in
        rw e (
          r.0
              ∙ rev_onto_one x before (filter (λ y. not (pred y)) xs)
              ∙ ap (rev_onto before) (sym kept),
          r.1,
          omega (arith, r.2),
        )
  ]

  -- For a list whose size is right, remove_if leaves just the elements that fail the predicate, in their
  -- order, with a right size, and gives the number of the others.
  pub remove_if-filter :
      (t : LinkedList A)
      → IsCounted t
      → ((remove_if pred t).0.nodes ≡ filter (λ x. not (pred x)) t.nodes)
        × IsCounted (remove_if pred t).0
        × ((remove_if pred t).1 ≡ count pred t.nodes)
  unfolding remove_if rev_onto
  remove_if-filter t inv =
      let r = remove_from-filter [] t.nodes t.size 0 (omega (arith, inv.counted)) in
      (r.0, r.1, omega (arith, r.2))

module _ {ℓ} {A : Type ℓ} (pred : A → A → Bool) where
  -- The elements that differ from the element before them.
  abbrev pub heads_after : A → List A → List A
  heads_after prev [] = []
  heads_after prev (x ∷ xs) = let rest = heads_after x xs in if pred prev x then rest else x ∷ rest

  -- The first element of each run of elements that the predicate joins.
  abbrev pub heads : List A → List A
  heads [] = []
  heads (x ∷ xs) = x ∷ heads_after x xs

  -- Joined elements are joined with the same ones.
  pub record IsJoin : Type ℓ where
    pub joined : (a b c : A) → pred a b ≡ true → pred a c ≡ pred b c

  unique_from-heads :
      (before : List A) (it prev : A) (xs : List A) (size number : ℕ)
      → IsJoin
      → ((c : A) → pred it c ≡ pred prev c)
      → size ≡ length before + suc (length xs)
      → ((unique_from pred before it xs size number).0.nodes
          ≡ rev_onto before (it ∷ heads_after prev xs))
        × IsCounted (unique_from pred before it xs size number).0
        × ((unique_from pred before it xs size number).1
              + length (unique_from pred before it xs size number).0.nodes
            ≡ number + size)
  unfolding unique_from
  unique_from-heads before it prev [] size number law same q =
      let long = length-rev_onto before (it ∷ []) in
      (refl, record { counted = omega (arith, q, long) }, omega (arith, q, long))
  unique_from-heads before it prev (x ∷ xs) size number law same q = elim (Bool-cases (pred it x)) [
    | inl e ↦
        let r =
          unique_from-heads before it x xs (size - 1) (number + 1) law (λ c. law.joined it x c e)
            (omega (arith, q)) in
        let f : pred prev x ≡ true = sym (same x) ∙ e in rw (e, f) (r.0, r.1, omega (arith, r.2, q))
    | inr e ↦
        let r =
          unique_from-heads (it ∷ before) x x xs size number law (λ c. refl) (omega (arith, q)) in
        let f : pred prev x ≡ false = sym (same x) ∙ e in
        rw (e, f) (r.0 ∙ rev_onto_one it before (x ∷ heads_after x xs), r.1, r.2)
  ]

  unique_nodes-heads :
      (xs : List A) (size : ℕ)
      → IsJoin
      → size ≡ length xs
      → ((unique_nodes pred xs size).0.nodes ≡ heads xs)
        × IsCounted (unique_nodes pred xs size).0
        × ((unique_nodes pred xs size).1 + length (unique_nodes pred xs size).0.nodes ≡ length xs)
  unfolding unique_nodes rev_onto
  unique_nodes-heads [] size law q = (refl, record { counted = q }, refl)
  unique_nodes-heads (x ∷ xs) size law q =
      let r = unique_from-heads [] x x xs size 0 law (λ c. refl) (omega (arith, q)) in
      (r.0, r.1, omega (arith, r.2, q))

  -- For a predicate whose joined elements are joined with the same ones, and a list whose size is right:
  -- unique, which compares with the last element that it kept, leaves the first element of each run of
  -- joined neighbours, with a right size, and gives the number of the elements that it erased.
  pub unique-heads :
      (t : LinkedList A)
      → IsJoin
      → IsCounted t
      → ((unique pred t).0.nodes ≡ heads t.nodes)
        × IsCounted (unique pred t).0
        × ((unique pred t).1 + length (unique pred t).0.nodes ≡ length t.nodes)
  unfolding unique
  unique-heads t law inv = elim (Bool-cases (ltb t.size 2)) [
    | inl e ↦ rw e (short t.nodes (ground (arith, e, inv.counted)), inv, omega arith)
    | inr e ↦ rw e (unique_nodes-heads t.nodes t.size law inv.counted)
  ]
    where
      short : (xs : List A) → ltb (length xs) 2 ≡ true → xs ≡ heads xs
      short [] h = refl
      short (x ∷ []) h = refl
      short (x ∷ y ∷ xs) h = absurd (ground (arith, h))
