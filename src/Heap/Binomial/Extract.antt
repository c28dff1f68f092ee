-- ===== src/Heap/Binomial/Extract.antt =====
-- `find_top`, `extract_root` and `zip_by_degree` of
-- include/chaistl/containers/heap/policy/binomial_heap.hpp.
use mathlib.Core.Option.{some-injective}
use chaistl.Common.{
  Bool, true, false, ℕ, zero, suc, ◌+◌, ◌≡◌, ◌⊎◌, inl, inr, refl, ap, sym, arith, bit, leb,
  Bool-cases, Option, some, none,
}
use chaistl.Order.{IsStrictWeak, irrefl}
use chaistl.Heap.Link.{Link, null, node, holds}
use chaistl.Heap.Link.Order.{Below, IsHeap}
use chaistl.Heap.Binomial.{zip_by_degree, reverse_children, unlink_root, find_top_from, find_top}
use chaistl.Heap.Binomial.Shape.{
  IsShape, IsRelaxed, IsCanonical, roots_of, IsRelaxed-mono, IsCanonical-mono,
}

none-some {ℓ} : {A : Type ℓ} (v : A) → ◌≡◌ {A = Option A} none (some v) → ⊥
none-some v h = cc

module _ {ℓ} {A : Type ℓ} where
  zip_left :
      (fa na fb nb : Link ℕ A) (ea eb : ℕ) (va vb : A)
      → leb ea eb ≡ true
      → zip_by_degree (node fa na ea va) (node fb nb eb vb)
        ≡ node fa (zip_by_degree na (node fb nb eb vb)) ea va
  unfolding zip_by_degree
  zip_left fa na fb nb ea eb va vb q = ground arith

  zip_right :
      (fa na fb nb : Link ℕ A) (ea eb : ℕ) (va vb : A)
      → leb ea eb ≡ false
      → zip_by_degree (node fa na ea va) (node fb nb eb vb)
        ≡ node fb (zip_by_degree (node fa na ea va) nb) eb vb
  unfolding zip_by_degree
  zip_right fa na fb nb ea eb va vb q = ground arith

  zip_null : (a : Link ℕ A) → zip_by_degree a null ≡ a
  unfolding zip_by_degree
  zip_null null = refl
  zip_null (node f n e v) = refl

  null_zip : (b : Link ℕ A) → zip_by_degree null b ≡ b
  unfolding zip_by_degree
  null_zip b = refl

  -- The value of the root at a position.
  unfoldable pub root_value : ℕ → Link ℕ A → Option A
  root_value i null = none
  root_value zero (node f n e v) = some v
  root_value (suc i) (node f n e v) = root_value i n

module _ {ℓ} {A : Type ℓ} (cmp : A → A → Bool) where
  -- Merging two relaxed lists: nothing is lost, and the list is relaxed.
  pub zip_lem :
      (lo : ℕ) (a b : Link ℕ A)
      → IsRelaxed lo a
      → IsRelaxed lo b
      → IsHeap cmp a
      → IsHeap cmp b
      → IsRelaxed lo (zip_by_degree a b)
        × IsHeap cmp (zip_by_degree a b)
        × ((p : A → Bool) → holds p (zip_by_degree a b) ≡ holds p a + holds p b)
        × ((d : ℕ) → roots_of d (zip_by_degree a b) ≡ roots_of d a + roots_of d b)
  zip_lem lo null b r s i j = rw null_zip (s, j, (λ p. omega arith), (λ d. omega arith))
  zip_lem lo (node fa na ea va) null r s i j =
      rw zip_null (r, i, (λ p. omega arith), (λ d. omega arith))
  zip_lem lo (node fa na ea va) (node fb nb eb vb) r s i j = elim (Bool-cases (leb ea eb)) [
    | inl q ↦
        let ih = zip_lem ea na (node fb nb eb vb) r.2 (ground arith, s.1, s.2) i.2 j in
        rw (zip_left fa na fb nb ea eb va vb q) (
          (r.0, r.1, ih.0),
          (i.0, i.1, ih.1),
          (λ p. omega (arith, ih.2 p)),
          (λ d. omega (arith, ih.3 d)),
        )
    | inr q ↦
        let ih = zip_lem eb (node fa na ea va) nb (ground arith, r.1, r.2) s.2 i j.2 in
        rw (zip_right fa na fb nb ea eb va vb q) (
          (s.0, s.1, ih.0),
          (j.0, j.1, ih.1),
          (λ p. omega (arith, ih.2 p)),
          (λ d. omega (arith, ih.3 d)),
        )
  ]

  -- The children of a tree, reversed in front of a canonical list of larger trees, are canonical.
  pub reverse_lem :
      (k : ℕ) (f acc : Link ℕ A)
      → IsShape k f
      → IsCanonical k acc
      → IsHeap cmp f
      → IsHeap cmp acc
      → IsCanonical 0 (reverse_children f acc)
        × IsHeap cmp (reverse_children f acc)
        × ((p : A → Bool) → holds p (reverse_children f acc) ≡ holds p f + holds p acc)
  unfolding reverse_children
  reverse_lem k null acc s c i j = (IsCanonical-mono k 0 acc (omega arith) c, j, λ p. omega arith)
  reverse_lem k (node f n e v) acc s c i j =
      let later = IsCanonical-mono k (suc e) acc (omega arith) c in
      let ih = reverse_lem e n (node f acc e v) s.2 (omega arith, s.1, later) i.2 (i.0, i.1, j) in
      (ih.0, ih.1, λ p. omega (arith, ih.2 p))

  -- Taking the root at a position out of the list.
  pub record Unlinks (lo i : ℕ) (v : A) (h : Link ℕ A) : Type ℓ where
    pub children : Link ℕ A
    pub rest : Link ℕ A
    pub degree : ℕ
    pub unlinked : unlink_root i h ≡ some (record { children = children; value = v }, rest)
    pub shape : IsShape degree children
    pub heap_children : IsHeap cmp children
    pub relaxed : IsRelaxed lo rest
    pub heap_rest : IsHeap cmp rest
    pub canonical : (m : ℕ) → IsCanonical m h → IsCanonical m rest
    pub content : (p : A → Bool) → holds p h ≡ bit (p v) + holds p children + holds p rest

  pub unlink_lem :
      (lo i : ℕ) (v : A) (h : Link ℕ A)
      → IsRelaxed lo h
      → IsHeap cmp h
      → root_value i h ≡ some v
      → Unlinks lo i v h
  unfolding root_value unlink_root
  unlink_lem lo i v null r j q = absurd (none-some v q)
  unlink_lem lo zero v (node f n e w) r j q = record {
    children = f;
    rest = n;
    degree = e;
    unlinked = ground (arith, q);
    shape = r.1;
    heap_children = j.1;
    relaxed = IsRelaxed-mono e lo n r.0 r.2;
    heap_rest = j.2;
    canonical = λ m c. IsCanonical-mono (suc e) m n (omega arith) c.2;
    content = λ p. omega (arith, ap (λ x. bit (p x)) (some-injective w v q));
  }
  unlink_lem lo (suc i) v (node f n e w) r j q =
      let u = unlink_lem e i v n r.2 j.2 q in
      record {
        children = u.children;
        rest = node f u.rest e w;
        degree = u.degree;
        unlinked = rw u.unlinked refl;
        shape = u.shape;
        heap_children = u.heap_children;
        relaxed = (r.0, r.1, u.relaxed);
        heap_rest = (j.0, j.1, u.heap_rest);
        canonical = λ m c. (c.0, c.1, u.canonical (suc e) c.2);
        content = λ p. omega (arith, u.content p);
      }

  find_end : (best : A) (at i : ℕ) → find_top_from cmp best at i null ≡ (best, at)
  unfolding find_top_from
  find_end best at i = refl

  find_better :
      (best v : A) (at i e : ℕ) (f n : Link ℕ A)
      → cmp best v ≡ true
      → find_top_from cmp best at i (node f n e v) ≡ find_top_from cmp v i (i + 1) n
  unfolding find_top_from
  find_better best v at i e f n q = rw q

  find_worse :
      (best v : A) (at i e : ℕ) (f n : Link ℕ A)
      → cmp best v ≡ false
      → find_top_from cmp best at i (node f n e v) ≡ find_top_from cmp best at (i + 1) n
  unfolding find_top_from
  find_worse best v at i e f n q = rw q

  -- The scan of `find_top` from a best root so far: the result is above that root and above the
  -- rest, and it is that root or stands in the rest.
  record Scans (best : A) (at i : ℕ) (n : Link ℕ A) (r : A × ℕ) : Type ℓ where
    low : cmp r.0 best ≡ false
    rest : Below cmp r.0 n
    place : ((r.0 ≡ best) × (r.1 ≡ at)) ⊎ ((k : ℕ) × (r.1 ≡ i + k) × (root_value k n ≡ some r.0))

  find_top_from-Scans :
      (o : IsStrictWeak cmp) (best : A) (at i : ℕ) (n : Link ℕ A)
      → Scans best at i n (find_top_from cmp best at i n)
  unfolding root_value
  find_top_from-Scans o best at i null =
      rw find_end (record { low = irrefl o best; rest = tt; place = inl (refl, refl) })
  find_top_from-Scans o best at i (node f n e v) = elim (Bool-cases (cmp best v)) [
    | inl better ↦
        let s = find_top_from-Scans o v i (i + 1) n in
        rw (find_better best v at i e f n better) (record {
          low = o.neg_trans _ v best s.low (o.asym best v better);
          rest = (s.low, s.rest);
          place = inr (elim s.place [
            | inl (same, here) ↦ (0, omega (arith, here), ap some (sym same))
            | inr (k, there, value) ↦ (suc k, omega (arith, there), value)
          ]);
        })
    | inr worse ↦
        let s = find_top_from-Scans o best at (i + 1) n in
        rw (find_worse best v at i e f n worse) (record {
          low = s.low;
          rest = (o.neg_trans _ best v s.low worse, s.rest);
          place = elim s.place [
            | inl here ↦ inl here
            | inr (k, there, value) ↦ inr (suc k, omega (arith, there), value)
          ];
        })
  ]

  -- `find_top` returns a root with its position, and no root is above it.
  pub find_top_lem :
      (o : IsStrictWeak cmp) (f n : Link ℕ A) (e : ℕ) (v : A)
      → (w : A) × (i : ℕ) × (find_top cmp (node f n e v) ≡ some (w, i))
        × (root_value i (node f n e v) ≡ some w)
        × Below cmp w (node f n e v)
  unfolding find_top root_value
  find_top_lem o f n e v =
      let r = find_top_from cmp v 0 1 n in
      let s = find_top_from-Scans o v 0 1 n in
      (
        r.0,
        r.1,
        refl,
        elim s.place [
          | inl (same, here) ↦ ground (arith, same, here)
          | inr (k, there, value) ↦ let at : r.1 ≡ suc k = omega (arith, there) in rw at value
        ],
        (s.low, s.rest),
      )
