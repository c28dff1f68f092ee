-- ===== src/Heap/Binomial/Carry.antt =====
-- The carry pass `coalesce` of include/chaistl/containers/heap/policy/binomial_heap.hpp: on every
-- relaxed root list it keeps the elements, the order and the shapes.
use chaistl.Common.{
  Bool, true, false, ℕ, ◌+◌, ◌≤◌, ◌≡◌, refl, arith, bit, ◌==◌, ◌&&◌, and_split, Bool-cases, inl,
  inr,
}
use chaistl.Order.{IsStrictWeak}
use chaistl.Heap.Link.{Link, null, node, holds}
use chaistl.Heap.Link.Order.{Below, IsHeap}
use chaistl.Heap.Binomial.{may_merge, coalesce_from, coalesce}
use chaistl.Heap.Binomial.Shape.{IsShape, IsRelaxed, IsRelaxed-mono}

module _ {ℓ} {A : Type ℓ} (cmp : A → A → Bool) where
  pub coalesce_end : (f : Link ℕ A) (e : ℕ) (v : A) → coalesce_from cmp f e v null ≡ node f null e v
  unfolding coalesce_from
  coalesce_end f e v = refl

  -- The three branches of the loop, as equations.
  module _ (f f' n : Link ℕ A) (e e' : ℕ) (v v' : A) where
    pub coalesce_keep :
        (e == e' && may_merge e n) ≡ false
        → coalesce_from cmp f e v (node f' n e' v') ≡ node f (coalesce_from cmp f' e' v' n) e v
    unfolding coalesce_from
    coalesce_keep q = ground arith

    pub coalesce_under_next :
        (e == e' && may_merge e n) ≡ true
        → cmp v v' ≡ true
        → coalesce_from cmp f e v (node f' n e' v')
          ≡ coalesce_from cmp (node f f' e v) (e' + 1) v' n
    unfolding coalesce_from
    coalesce_under_next q r = ground arith

    pub coalesce_under_cur :
        (e == e' && may_merge e n) ≡ true
        → cmp v v' ≡ false
        → coalesce_from cmp f e v (node f' n e' v')
          ≡ coalesce_from cmp (node f' f e' v') (e + 1) v n
    unfolding coalesce_from
    coalesce_under_cur q r = ground arith

module _ {ℓ} {A : Type ℓ} where
  -- Where a pair may merge, the rest of the list starts above its degree.
  pub may_merge-IsRelaxed :
      (e : ℕ) (n : Link ℕ A) → IsRelaxed e n → may_merge e n ≡ true → IsRelaxed (e + 1) n
  unfolding may_merge
  may_merge-IsRelaxed e null r q = tt
  may_merge-IsRelaxed e (node f n e' v) r q = ground arith

module _ {ℓ} {A : Type ℓ} {cmp : A → A → Bool} (o : IsStrictWeak cmp) where
  -- What the pass makes of the list that starts with the tree of `f`, `e` and `v`.
  pub record Carries (lo : ℕ) (f : Link ℕ A) (v : A) (n r : Link ℕ A) : Type ℓ where
    pub relaxed : IsRelaxed lo r
    pub heap : IsHeap cmp r
    pub content : (p : A → Bool) → holds p r ≡ bit (p v) + holds p f + holds p n

  pub coalesce_from-Carries :
      (lo : ℕ) (f : Link ℕ A) (e : ℕ) (v : A) (n : Link ℕ A)
      → lo ≤ e
      → IsShape e f
      → IsRelaxed e n
      → Below cmp v f
      → IsHeap cmp f
      → IsHeap cmp n
      → Carries lo f v n (coalesce_from cmp f e v n)
  coalesce_from-Carries lo f e v null q s r b i j =
      rw coalesce_end
        (record { relaxed = (q, s, tt); heap = (b, i, tt); content = λ p. omega arith })
  coalesce_from-Carries lo f e v (node f' n e' v') q s r b i j =
      elim (Bool-cases (e == e' && may_merge e n)) [
        | inr t ↦
            let ih = coalesce_from-Carries e f' e' v' n r.0 r.1 r.2 j.0 j.1 j.2 in
            rw (coalesce_keep cmp f f' n e e' v v' t) (record {
              relaxed = (q, s, ih.relaxed);
              heap = (b, i, ih.heap);
              content = λ p. omega (arith, ih.content p);
            })
        | inl t ↦
            let (same, may) = and_split (e == e') (may_merge e n) t in
            let e-eq : e ≡ e' = ground arith in
            let above : IsRelaxed (e + 1) n =
              may_merge-IsRelaxed e n (IsRelaxed-mono e' e n (omega arith) r.2) may in
            elim (Bool-cases (cmp v v')) [
              | inl c ↦
                  let ih =
                    coalesce_from-Carries lo (node f f' e v) (e' + 1) v' n (omega arith)
                      (omega arith, s, rw e-eq r.1)
                      (IsRelaxed-mono (e + 1) (e' + 1) n (omega arith) above) (o.asym v v' c, j.0)
                      (b, i, j.1) j.2 in
                  rw (coalesce_under_next cmp f f' n e e' v v' t c) (record {
                    relaxed = ih.relaxed;
                    heap = ih.heap;
                    content = λ p. omega (arith, ih.content p);
                  })
              | inr c ↦
                  let ih =
                    coalesce_from-Carries lo (node f' f e' v') (e + 1) v n (omega arith)
                      (omega arith, r.1, rw (← e-eq) s) above (c, b) (j.0, j.1, i) j.2 in
                  rw (coalesce_under_cur cmp f f' n e e' v v' t c) (record {
                    relaxed = ih.relaxed;
                    heap = ih.heap;
                    content = λ p. omega (arith, ih.content p);
                  })
            ]
      ]

  pub coalesce_lem :
      (lo : ℕ) (h : Link ℕ A)
      → IsRelaxed lo h
      → IsHeap cmp h
      → IsRelaxed lo (coalesce cmp h)
        × IsHeap cmp (coalesce cmp h)
        × ((p : A → Bool) → holds p (coalesce cmp h) ≡ holds p h)
  unfolding coalesce
  coalesce_lem lo null r i = (tt, tt, λ p. refl)
  coalesce_lem lo (node f n e v) r i =
      let c = coalesce_from-Carries lo f e v n r.0 r.1 r.2 i.0 i.1 i.2 in
      (c.relaxed, c.heap, c.content)
