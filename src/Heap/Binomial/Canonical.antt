-- ===== src/Heap/Binomial/Canonical.antt =====
-- When the carry pass of include/chaistl/containers/heap/policy/binomial_heap.hpp reaches the
-- canonical form, one tree for each binary digit, and when it does not.
use native.Mathlib.Decide.{ℕ_discrete}
use chaistl.Common.{
  Bool, true, false, ℕ, suc, ◌+◌, ◌≤◌, ◌≡◌, ◌∙◌, arith, ◌==◌, ◌&&◌, and_split, Bool-cases, inl, inr,
}
use chaistl.Heap.Link.{Link, null, node}
use chaistl.Heap.Binomial.{may_merge, coalesce_from, coalesce}
use chaistl.Heap.Binomial.Shape.{
  IsShape, IsRelaxed, IsCanonical, roots_of, roots_of_below, IsRelaxed-mono, IsCanonical-mono,
}
use chaistl.Heap.Binomial.Carry.{
  coalesce_keep, coalesce_under_next, coalesce_under_cur, coalesce_end, may_merge-IsRelaxed,
}

module _ {ℓ} {A : Type ℓ} where
  -- At most two trees of each degree.
  abbrev pub InPairs : Link ℕ A → Type 0
  InPairs h = (d : ℕ) → roots_of d h ≤ 2

  -- A pair that must wait has another tree of its degree behind it.
  blocked : (e : ℕ) (n : Link ℕ A) → may_merge e n ≡ false → 1 ≤ roots_of e n
  unfolding may_merge
  blocked e null q = cc
  blocked e (node f n e' v) q = ground arith

module _ {ℓ} {A : Type ℓ} (cmp : A → A → Bool) where
  -- A pair that merges gives a tree of the next degree, whichever root wins.
  merge_step :
      (f f' n : Link ℕ A) (e : ℕ) (v v' : A)
      → may_merge e n ≡ true
      → IsShape e f
      → IsShape e f'
      → (g : Link ℕ A) × (w : A) × IsShape (e + 1) g
        × (coalesce_from cmp f e v (node f' n e v') ≡ coalesce_from cmp g (e + 1) w n)
  merge_step f f' n e v v' t s s' = elim (Bool-cases (cmp v v')) [
    | inl c ↦ (
      node f f' e v,
      v',
      (omega arith, s, s'),
      coalesce_under_next cmp f f' n e e v v' (ground arith) c,
    )
    | inr c ↦ (
      node f' f e v',
      v,
      (omega arith, s', s),
      coalesce_under_cur cmp f f' n e e v v' (ground arith) c,
    )
  ]

  -- From the tree of degree `e`, with pairs at most behind it: the result is canonical, and starts
  -- above `e` if exactly one tree of degree `e` follows.
  coalesce_from-IsCanonical :
      (f : Link ℕ A) (e : ℕ) (v : A) (n : Link ℕ A)
      → IsShape e f
      → IsRelaxed e n
      → InPairs n
      → IsCanonical e (coalesce_from cmp f e v n)
        × (roots_of e n ≡ 1 → IsCanonical (e + 1) (coalesce_from cmp f e v n))
  coalesce_from-IsCanonical f e v null s r two =
      rw coalesce_end ((omega arith, s, tt), λ q. absurd (omega arith))
  coalesce_from-IsCanonical f e v (node f' n e' v') s r two =
      let tail : InPairs n = λ d. omega (arith, two d) in
      elim (Bool-cases (e == e' && may_merge e n)) [
        | inr t ↦
            let ih = coalesce_from-IsCanonical f' e' v' n r.1 r.2 tail in
            let one : e ≡ e' → roots_of e n ≡ 1 = λ same. ground (arith, two e, blocked e n) in
            let above : IsCanonical (suc e) (coalesce_from cmp f' e' v' n) =
              elim (ℕ_discrete e e') [
                | yes same ↦
                    IsCanonical-mono (e' + 1) (suc e) _ (omega arith)
                      (ih.1 (rw (← same) (one same)))
                | no other ↦ IsCanonical-mono e' (suc e) _ (omega arith) ih.0
              ] in
            rw (coalesce_keep cmp f f' n e e' v v' t) (
              (omega arith, s, above),
              λ q. absurd (ground (arith, two e, blocked e n, roots_of_below e' e n r.2)),
            )
        | inl t ↦
            let (same, may) = and_split (e == e') (may_merge e n) t in
            let e-eq : e ≡ e' = ground arith in
            let above : IsRelaxed (e + 1) n =
              may_merge-IsRelaxed e n (IsRelaxed-mono e' e n (omega arith) r.2) may in
            let (g, w, shape, step) = merge_step f f' n e v v' may s (rw e-eq r.1) in
            let ih = coalesce_from-IsCanonical g (e + 1) w n shape above tail in
            rw (← e-eq, step) (IsCanonical-mono (e + 1) e _ (omega arith) ih.0, λ _. ih.0)
      ]

  -- A relaxed list with at most two trees of each degree becomes canonical.
  pub coalesce-IsCanonical :
      (h : Link ℕ A) → IsRelaxed 0 h → InPairs h → IsCanonical 0 (coalesce cmp h)
  unfolding coalesce
  coalesce-IsCanonical null r two = tt
  coalesce-IsCanonical (node f n e v) r two =
      let c = coalesce_from-IsCanonical f e v n r.1 r.2 (λ d. omega (arith, two d)) in
      IsCanonical-mono e 0 _ (omega arith) c.0

  pair_eq :
      (f f' : Link ℕ A) (e : ℕ) (v v' : A)
      → (g : Link ℕ A) × (w : A) × (coalesce_from cmp f e v (node f' null e v')
          ≡ node g null (e + 1) w)
  unfolding may_merge
  pair_eq f f' e v v' = elim (Bool-cases (cmp v v')) [
    | inl c ↦ (
      node f f' e v,
      v',
      coalesce_under_next cmp f f' null e e v v' (ground arith) c ∙ coalesce_end cmp _ _ _,
    )
    | inr c ↦ (
      node f' f e v',
      v,
      coalesce_under_cur cmp f f' null e e v v' (ground arith) c ∙ coalesce_end cmp _ _ _,
    )
  ]

  -- Four trees of one degree: the first and the second wait, the last two merge, and the list ends
  -- with two trees of that degree in front.
  pub coalesce_four :
      (e : ℕ) (f₁ f₂ f₃ f₄ : Link ℕ A) (v₁ v₂ v₃ v₄ : A)
      → (roots_of e (coalesce cmp (node f₁ (node f₂ (node f₃ (node f₄ null e v₄) e v₃) e v₂) e v₁))
          ≡ 2)
        × ¬ IsCanonical 0
            (coalesce cmp (node f₁ (node f₂ (node f₃ (node f₄ null e v₄) e v₃) e v₂) e v₁))
  unfolding coalesce may_merge
  coalesce_four e f₁ f₂ f₃ f₄ v₁ v₂ v₃ v₄ =
      let (g, w, last) = pair_eq f₃ f₄ e v₃ v₄ in
      let h₃ = node f₄ null e v₄ in
      let second = coalesce_keep cmp f₂ f₃ h₃ e e v₂ v₃ (ground arith) in
      let first = coalesce_keep cmp f₁ f₂ (node f₃ h₃ e v₃) e e v₁ v₂ (ground arith) in
      rw (first, second, last) (ground arith, λ c. absurd (omega (arith, c.2.0)))
