-- ===== src/Sort/Bubble/Laws.antt =====
-- `bubble_sort` of include/chaistl/algorithm/sort.hpp sorts.
use chaistl.Common.{
  Bool, false, ℕ, zero, suc, ◌+◌, ◌≤◌, ◌≡◌, refl, arith, List, [], ◌∷◌, ◌++◌, count, All, bit,
  Bool-cases, inl, inr, length, count-append,
}
use chaistl.Order.{IsStrictWeak, irrefl}
use chaistl.Sort.Base.{All-const, All-mono, IsSorted, Sorts, append-IsSorted}
use chaistl.Sort.Bubble.{Bubbled, leave, bubble, bubble_sort_upto, bubble_sort}

-- What the inner loop leaves of `x` and `xs`: a greatest element last, and, if it did not swap, the
-- slots in order.
record Rises {ℓ} {A : Type ℓ} (comp : A → A → Bool) (x : A) (xs : List A) (b : Bubbled A)
    : Type ℓ where
  content : (p : A → Bool) → count p b.front + bit (p b.last) ≡ bit (p x) + count p xs
  same_length : length b.front ≡ length xs
  last_up : comp b.last x ≡ false
  greatest : All (λ z. comp b.last z ≡ false) b.front
  in_order : b.swapped ≡ false → All (λ z. comp z x ≡ false) b.front × IsSorted comp b.front

module _ {ℓ} {A : Type ℓ} (comp : A → A → Bool) where
  All-bubble :
      (P : A → Type 0) (x : A) (xs : List A)
      → P x
      → All P xs
      → All P (bubble comp x xs).front × P (bubble comp x xs).last
  unfolding bubble leave
  All-bubble P x [] h k = (tt, h)
  All-bubble P x (y ∷ ys) h k = elim (Bool-cases (comp y x)) [
    | inl e ↦ let r = All-bubble P x ys h k.1 in rw e ((k.0, r.0), r.1)
    | inr e ↦ let r = All-bubble P y ys k.0 k.1 in rw e ((h, r.0), r.1)
  ]

module _ {ℓ} {A : Type ℓ} {comp : A → A → Bool} (o : IsStrictWeak comp) where
  bubble-Rises : (x : A) (xs : List A) → Rises comp x xs (bubble comp x xs)
  unfolding bubble leave
  bubble-Rises x [] = record {
    content = λ p. omega arith;
    same_length = refl;
    last_up = irrefl o x;
    greatest = tt;
    in_order = λ q. (tt, tt);
  }
  bubble-Rises x (y ∷ ys) = elim (Bool-cases (comp y x)) [
    | inl e ↦
        let r = bubble-Rises x ys in
        rw e (record {
          content = λ p. omega (arith, r.content p);
          same_length = omega (arith, r.same_length);
          last_up = r.last_up;
          greatest = (o.neg_trans _ x y r.last_up (o.asym y x e), r.greatest);
          in_order = λ q. cc;
        })
    | inr e ↦
        let r = bubble-Rises y ys in
        let up = o.neg_trans _ y x r.last_up e in
        rw e (record {
          content = λ p. omega (arith, r.content p);
          same_length = omega (arith, r.same_length);
          last_up = up;
          greatest = (up, r.greatest);
          in_order = λ q.
              let (low, sorted) = r.in_order q in
              let above = All-mono _ (λ z h. o.neg_trans z y x h e) low in
              ((irrefl o x, above), (above, sorted));
        })
  ]

  bubble_sort_upto-Sorts :
      (k : ℕ) (xs done : List A)
      → length xs ≤ k
      → IsSorted comp done
      → All (λ x. All (λ y. comp y x ≡ false) done) xs
      → Sorts comp (xs ++ done) (bubble_sort_upto comp k xs done)
  unfolding bubble_sort_upto
  bubble_sort_upto-Sorts zero [] done h s q = record { sorted = s; content = λ p. refl }
  bubble_sort_upto-Sorts zero (x ∷ xs) done h s q = absurd (omega arith)
  bubble_sort_upto-Sorts (suc k) [] done h s q = record { sorted = s; content = λ p. refl }
  bubble_sort_upto-Sorts (suc k) (x ∷ []) done h s q = record {
    sorted = (q.0, s);
    content = λ p. refl;
  }
  bubble_sort_upto-Sorts (suc k) (x ∷ y ∷ ys) done h s q =
      let b = bubble comp x (y ∷ ys) in
      let r = bubble-Rises x (y ∷ ys) in
      let kept = All-bubble comp (λ z. All (λ d. comp d z ≡ false) done) x (y ∷ ys) q.0 q.1 in
      let done_sorted : IsSorted comp (b.last ∷ done) = (kept.1, s) in
      let apart : All (λ z. All (λ d. comp d z ≡ false) (b.last ∷ done)) b.front =
        both b.last b.front r.greatest kept.0 in
      let ih =
        bubble_sort_upto-Sorts k b.front (b.last ∷ done) (omega (arith, r.same_length)) done_sorted
          apart in
      elim (Bool-cases b.swapped) [
        | inl e ↦ rw e (record {
          sorted = ih.sorted;
          content = λ p. omega (
            arith,
            ih.content p,
            r.content p,
            count-append p b.front (b.last ∷ done),
            count-append p (x ∷ y ∷ ys) done,
          );
        })
        | inr e ↦ rw e (record {
          sorted = append-IsSorted comp b.front (b.last ∷ done) (r.in_order e).1 done_sorted apart;
          content = λ p. omega (
            arith,
            r.content p,
            count-append p b.front (b.last ∷ done),
            count-append p (x ∷ y ∷ ys) done,
          );
        })
      ]
    where
      both :
          (last : A) (zs : List A)
          → All (λ z. comp last z ≡ false) zs
          → All (λ z. All (λ d. comp d z ≡ false) done) zs
          → All (λ z. All (λ d. comp d z ≡ false) (last ∷ done)) zs
      both last [] u v = tt
      both last (z ∷ zs) u v = ((u.0, v.0), both last zs u.1 v.1)

  -- Over a strict weak order, bubble_sort, which stops after a round without a swap, leaves the array
  -- sorted, with each element as often as before.
  pub bubble_sort-Sorts : (xs : List A) → Sorts comp xs (bubble_sort comp xs)
  unfolding bubble_sort
  bubble_sort-Sorts xs =
      let s = bubble_sort_upto-Sorts (length xs) xs [] (omega arith) tt (All-const xs (λ _. tt)) in
      record { sorted = s.sorted; content = λ p. omega (arith, s.content p, count-append p xs []) }
