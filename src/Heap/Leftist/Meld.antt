-- ===== src/Heap/Leftist/Meld.antt =====
-- `meld` of include/chaistl/containers/heap/policy/leftist_heap.hpp: what it keeps, and the depth of
-- its recursion.
use chaistl.Common.{
  Bool, ℕ, zero, suc, ◌+◌, ◌≤◌, ◌≡◌, ◌≢◌, refl, ap, arith, Bool-cases, inl, inr, bit, ltb,
}
use chaistl.Order.{IsStrictWeak}
use chaistl.Heap.Link.{Link, null, node, holds}
use chaistl.Heap.Link.Order.{Below}
use chaistl.Heap.Binary.{detach_children, set_children}
use chaistl.Heap.Binary.Laws.{
  IsBinaryHeap, FitsUnder, Melds, Melds-symm, Melds-null_left, FitsUnder-IsBinaryHeap, Below-tree,
  detach-FitsUnder, holds-detach, set_children-IsBinaryHeap, holds-set_children, Below-set_children,
  set_children-ne-null,
}
use chaistl.Heap.Leftist.{npl, set_npl, relink, meld}
use chaistl.Heap.Leftist.Rank.{IsRanked, detach-IsRanked, set_children-IsRanked, npl_pos}

module _ {ℓ} {A : Type ℓ} (cmp : A → A → Bool) where
  set_npl-IsBinaryHeap :
      (h : Link ℕ A) (r : ℕ) → IsBinaryHeap cmp h → IsBinaryHeap cmp (set_npl h r)
  unfolding set_npl
  set_npl-IsBinaryHeap null r s = s
  set_npl-IsBinaryHeap (node f n e v) r s = record {
    tree = s.tree;
    binary = s.binary;
    heap = s.heap;
  }

  holds-set_npl : (p : A → Bool) (h : Link ℕ A) (r : ℕ) → holds p (set_npl h r) ≡ holds p h
  unfolding set_npl
  holds-set_npl p null r = refl
  holds-set_npl p (node f n e v) r = refl

  Below-set_npl : (u : A) (h : Link ℕ A) (r : ℕ) → Below cmp u h → Below cmp u (set_npl h r)
  unfolding set_npl
  Below-set_npl u null r b = b
  Below-set_npl u (node f n e v) r b = b

  set_npl-ne-null : (h : Link ℕ A) (r : ℕ) → h ≢ null → set_npl h r ≢ null
  unfolding set_npl
  set_npl-ne-null null r q = q
  set_npl-ne-null (node f n e v) r q = λ z. cc

  -- The winner with the two trees hung under it in one order.
  linked-Melds :
      (f n b l r : Link ℕ A) (e x : ℕ) (v : A)
      → n ≡ null
      → FitsUnder cmp v l
      → FitsUnder cmp v r
      → l ≢ null
      → ((p : A → Bool) → bit (p v) + holds p l + holds p r ≡ holds p (node f n e v) + holds p b)
      → Melds cmp (node f n e v) b (set_npl (set_children (node f n e v) l r) x)
  linked-Melds f n b l r e x v z fl fr q same =
      let w = set_children (node f n e v) l r in
      let some = set_npl-ne-null w x (set_children-ne-null cmp f n l r e v) in
      record {
        heap = set_npl-IsBinaryHeap w x (set_children-IsBinaryHeap cmp f n l r e v z fl fr q);
        below = λ u s t. Below-set_npl u w x (Below-set_children cmp u f n l r e v s);
        some_left = λ _. some;
        some_right = λ _. some;
        content = λ p. omega (
          arith,
          same p,
          holds-set_npl p w x,
          holds-set_children cmp p f n l r e v z fl.tree fr.tree q,
        );
      }

  -- A leftist heap of one tree.
  pub record IsLeftist (h : Link ℕ A) : Type ℓ where
    pub shape : IsBinaryHeap cmp h
    pub ranked : IsRanked h

  npl_null : (h : Link ℕ A) → IsRanked h → h ≢ null → 1 ≤ npl h
  unfolding npl
  npl_null null r q = absurd (q refl)
  npl_null (node f n e v) r q = npl_pos f n e v r

  ne-null_of_npl : (h : Link ℕ A) → 1 ≤ npl h → h ≢ null
  unfolding npl
  ne-null_of_npl null r = absurd (omega arith)
  ne-null_of_npl (node f n e v) r = λ z. cc

  -- The step of `meld` after the swap: `m` is the right child of the winner melded with the loser.
  relink-Melds :
      (f n b m : Link ℕ A) (e : ℕ) (v : A)
      → IsLeftist (node f n e v)
      → b ≢ null
      → Below cmp v b
      → IsRanked m
      → Melds cmp (detach_children (node f n e v)).1 b m
      → Melds cmp (node f n e v) b (relink cmp (node f n e v) (detach_children (node f n e v)).0 m)
        × IsRanked (relink cmp (node f n e v) (detach_children (node f n e v)).0 m)
  unfolding relink
  relink-Melds f n b m e v h q low rm t =
      let parts = detach-FitsUnder cmp f n e v h.shape in
      let ranks = detach-IsRanked f n e v h.ranked in
      let left = (detach_children (node f n e v)).0 in
      let some = t.some_right q in
      let z = h.shape.tree in
      let fits : FitsUnder cmp v m = record {
        tree = t.heap.tree;
        binary = t.heap.binary;
        heap = t.heap.heap;
        below = t.below v parts.1.below low;
      } in
      let same = λ (p : A → Bool). holds-detach cmp p f n e v h.shape in
      elim (Bool-cases (ltb (npl left) (npl m))) [
        | inl y ↦ rw y (
          linked-Melds f n b m left e _ v z fits parts.0 some
              (λ p. omega (arith, same p, t.content p)),
          set_children-IsRanked f n m left e v z rm ranks.0 some (ground arith),
        )
        | inr y ↦
            let full = ne-null_of_npl left (ground (arith, npl_null m rm some)) in
            rw y (
              linked-Melds f n b left m e _ v z parts.0 fits full
                  (λ p. omega (arith, same p, t.content p)),
              set_children-IsRanked f n left m e v z ranks.0 rm full (ground arith),
            )
      ]

module _ {ℓ} {A : Type ℓ} {cmp : A → A → Bool} (o : IsStrictWeak cmp) where
  -- Fuel for the two null path lengths is enough: the recursion goes down the right spines.
  pub meld-Melds :
      (k : ℕ) (a b : Link ℕ A)
      → npl a + npl b ≤ k
      → IsLeftist cmp a
      → IsLeftist cmp b
      → Melds cmp a b (meld cmp k a b) × IsRanked (meld cmp k a b)
  unfolding meld npl
  meld-Melds zero null null h s t = (Melds-null_left cmp null t.shape, tt)
  meld-Melds zero (node fa na ea va) b h s t = absurd (omega (arith, npl_pos fa na ea va s.ranked))
  meld-Melds zero null (node fb nb eb vb) h s t =
      absurd (omega (arith, npl_pos fb nb eb vb t.ranked))
  meld-Melds (suc k) null b h s t = (Melds-null_left cmp b t.shape, t.ranked)
  meld-Melds (suc k) (node fa na ea va) null h s t =
      (Melds-symm cmp (Melds-null_left cmp (node fa na ea va) s.shape), s.ranked)
  meld-Melds (suc k) (node fa na ea va) (node fb nb eb vb) h s t =
      let a = node fa na ea va in
      let b = node fb nb eb vb in
      let pa = detach-FitsUnder cmp fa na ea va s.shape in
      let pb = detach-FitsUnder cmp fb nb eb vb t.shape in
      let ra = detach-IsRanked fa na ea va s.ranked in
      let rb = detach-IsRanked fb nb eb vb t.ranked in
      elim (Bool-cases (cmp va vb)) [
        | inl e ↦
            let right : IsLeftist cmp (detach_children b).1 = record {
              shape = FitsUnder-IsBinaryHeap cmp pb.1;
              ranked = rb.1;
            } in
            let ih = meld-Melds k (detach_children b).1 a (omega (arith, rb.2)) right s in
            let low = Below-tree cmp vb fa na ea va s.shape.tree (o.asym va vb e) in
            let done = relink-Melds cmp fb nb a _ eb vb t (cc) low ih.1 ih.0 in
            rw e (Melds-symm cmp done.0, done.1)
        | inr e ↦
            let right : IsLeftist cmp (detach_children a).1 = record {
              shape = FitsUnder-IsBinaryHeap cmp pa.1;
              ranked = ra.1;
            } in
            let ih = meld-Melds k (detach_children a).1 b (omega (arith, ra.2)) right t in
            let low = Below-tree cmp va fb nb eb vb t.shape.tree e in
            rw e (relink-Melds cmp fa na b _ ea va s (cc) low ih.1 ih.0)
      ]

module _ {ℓ} {A : Type ℓ} (cmp : A → A → Bool) where
  -- More fuel changes nothing: the recursion ends before the fuel does.
  pub meld-fuel :
      (j k : ℕ) (a b : Link ℕ A)
      → npl a + npl b ≤ j
      → npl a + npl b ≤ k
      → IsRanked a
      → IsRanked b
      → meld cmp j a b ≡ meld cmp k a b
  unfolding meld npl
  meld-fuel zero zero a b h g s t = refl
  meld-fuel zero (suc k) null null h g s t = refl
  meld-fuel zero (suc k) null (node fb nb eb vb) h g s t =
      absurd (omega (arith, npl_pos fb nb eb vb t))
  meld-fuel zero (suc k) (node fa na ea va) b h g s t =
      absurd (omega (arith, npl_pos fa na ea va s))
  meld-fuel (suc j) zero null null h g s t = refl
  meld-fuel (suc j) zero null (node fb nb eb vb) h g s t =
      absurd (omega (arith, npl_pos fb nb eb vb t))
  meld-fuel (suc j) zero (node fa na ea va) b h g s t =
      absurd (omega (arith, npl_pos fa na ea va s))
  meld-fuel (suc j) (suc k) null b h g s t = refl
  meld-fuel (suc j) (suc k) (node fa na ea va) null h g s t = refl
  meld-fuel (suc j) (suc k) (node fa na ea va) (node fb nb eb vb) h g s t =
      let a = node fa na ea va in
      let b = node fb nb eb vb in
      let ra = detach-IsRanked fa na ea va s in
      let rb = detach-IsRanked fb nb eb vb t in
      elim (Bool-cases (cmp va vb)) [
        | inl e ↦
            let ih =
              meld-fuel j k (detach_children b).1 a (omega (arith, rb.2)) (omega (arith, rb.2)) rb.1
                s in
            rw e (ap (relink cmp b (detach_children b).0) ih)
        | inr e ↦
            let ih =
              meld-fuel j k (detach_children a).1 b (omega (arith, ra.2)) (omega (arith, ra.2)) ra.1
                t in
            rw e (ap (relink cmp a (detach_children a).0) ih)
      ]
