-- ===== src/Heap/Pairing/Condense.antt =====
-- The two passes of include/chaistl/containers/heap/policy/pairing_heap.hpp over a child list.
use chaistl.Common.{Bool, false, ◌+◌, ◌≡◌, refl, arith}
use chaistl.Order.{IsStrictWeak}
use chaistl.Heap.Link.{Link, null, node, holds, set_next, link_first_child}
use chaistl.Heap.Link.Order.{IsTree, Below, IsHeap, Below-trans}
use chaistl.Heap.Pairing.{link_pair, pair_up_children, accumulate_children, close_gap}

module _ {ℓ} {E : Type 0} {A : Type ℓ} {cmp : A → A → Bool} (o : IsStrictWeak cmp) where
  -- Two trees into one.
  pub link_pair_lem :
      (a b : Link E A)
      → IsTree a
      → IsTree b
      → IsHeap cmp a
      → IsHeap cmp b
      → IsTree (link_pair cmp a b)
        × IsHeap cmp (link_pair cmp a b)
        × ((p : A → Bool) → holds p (link_pair cmp a b) ≡ holds p a + holds p b)
        × ((u : A) → Below cmp u a → Below cmp u b → Below cmp u (link_pair cmp a b))
  unfolding link_pair link_first_child set_next
  link_pair_lem null null s t i j = (tt, tt, (λ p. refl), (λ u x y. tt))
  link_pair_lem (node fa na ea va) null s t i j = (s, i, (λ p. omega arith), (λ u x y. x))
  link_pair_lem null (node fb nb eb vb) s t i j = (t, j, (λ p. omega arith), (λ u x y. y))
  link_pair_lem (node fa na ea va) (node fb nb eb vb) s t i j =
      (ground arith, ground (arith, o.asym va vb), (λ p. ground arith), (λ u x y. ground arith))

  pair_up_children_lem :
      (h : Link E A)
      → IsHeap cmp h
      → IsHeap cmp (pair_up_children cmp h)
        × ((p : A → Bool) → holds p (pair_up_children cmp h) ≡ holds p h)
        × ((u : A) → Below cmp u h → Below cmp u (pair_up_children cmp h))
  unfolding pair_up_children link_first_child set_next
  pair_up_children_lem null i = (tt, (λ p. refl), (λ u b. b))
  pair_up_children_lem (node fa null ea va) i = (i, (λ p. refl), (λ u b. b))
  pair_up_children_lem (node fa (node fb rest eb vb) ea va) i =
      let ih = pair_up_children_lem rest i.2.2 in
      (
        ground (arith, o.asym va vb, ih.0),
        (λ p. ground (arith, ih.1 p)),
        (λ u b. ground (arith, ih.2 u)),
      )

  accumulate_children_lem :
      (h : Link E A)
      → IsHeap cmp h
      → IsTree (accumulate_children cmp h)
        × IsHeap cmp (accumulate_children cmp h)
        × ((p : A → Bool) → holds p (accumulate_children cmp h) ≡ holds p h)
        × ((u : A) → Below cmp u h → Below cmp u (accumulate_children cmp h))
  unfolding accumulate_children
  accumulate_children_lem null i = (tt, tt, (λ p. refl), (λ u b. b))
  accumulate_children_lem (node f null e v) i = (refl, i, (λ p. refl), (λ u b. b))
  accumulate_children_lem (node f (node fn nn en vn) e v) i =
      let rest = node fn nn en vn in
      let ih = accumulate_children_lem (node fn nn en vn) i.2 in
      let l =
        link_pair_lem (node f null e v) (accumulate_children cmp rest) refl ih.0 (i.0, i.1, tt)
          ih.1 in
      (l.0, l.1, (λ p. omega (arith, l.2 p, ih.2 p)), (λ u b. l.3 u (b.0, tt) (ih.3 u b.1)))

  close_gap_lem :
      (t n : Link E A)
      → IsTree t
      → IsHeap cmp t
      → IsHeap cmp n
      → IsHeap cmp (close_gap t n)
        × ((p : A → Bool) → holds p (close_gap t n) ≡ holds p t + holds p n)
        × ((u : A) → Below cmp u t → Below cmp u n → Below cmp u (close_gap t n))
        × (n ≡ null → IsTree (close_gap t n))
  unfolding close_gap set_next
  close_gap_lem null null s i j = (j, (λ p. refl), (λ u x y. y), (λ z. tt))
  close_gap_lem null (node f n e v) s i j = (j, (λ p. omega arith), (λ u x y. y), (λ z. cc))
  close_gap_lem (node f r e v) n s i j =
      ((i.0, i.1, j), (λ p. ground (arith, s)), (λ u x y. (x.0, y)), (λ z. z))

  -- Both passes: the children of a node become one tree, which may stand in the node's place.
  pub condense_lem :
      (v : A) (f n : Link E A)
      → Below cmp v f
      → IsHeap cmp f
      → IsHeap cmp n
      → IsHeap cmp (close_gap (accumulate_children cmp (pair_up_children cmp f)) n)
        × ((p : A → Bool)
            → holds p (close_gap (accumulate_children cmp (pair_up_children cmp f)) n)
              ≡ holds p f + holds p n)
        × ((u : A)
            → cmp u v ≡ false
            → Below cmp u n
            → Below cmp u (close_gap (accumulate_children cmp (pair_up_children cmp f)) n))
        × (n ≡ null → IsTree (close_gap (accumulate_children cmp (pair_up_children cmp f)) n))
  condense_lem v f n b i j =
      let first = pair_up_children_lem f i in
      let c = pair_up_children cmp f in
      let second = accumulate_children_lem c first.0 in
      let low = second.3 v (first.2 v b) in
      let gap = close_gap_lem (accumulate_children cmp c) n second.0 second.1 j in
      (
        gap.0,
        (λ p. omega (arith, gap.1 p, second.2 p, first.1 p)),
        (λ u q r. gap.2 u (Below-trans o u v _ q low) r),
        gap.3,
      )
