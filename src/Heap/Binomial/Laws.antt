-- ===== src/Heap/Binomial/Laws.antt =====
-- include/chaistl/containers/heap/policy/binomial_heap.hpp meets the contract of a node heap policy on
-- relaxed root lists, and keeps the canonical ones canonical.
use mathlib.Core.Path.{subst}
use mathlib.Core.Option.{some-injective}
use chaistl.Common.{
  Bool, true, ℕ, ◌+◌, ◌-◌, ◌≤◌, ◌≡◌, ◌≢◌, refl, sym, ◌∙◌, arith, bit, some, none, and_split,
  and_join,
}
use chaistl.Order.{IsStrictWeak}
use chaistl.Heap.Link.{Link, null, node, holds, link_root_front, set_next, all_nodes}
use chaistl.Heap.Link.Order.{Below, IsHeap, Below-AllIn}
use chaistl.Heap.Link.Verify.{EveryNode, all_nodes_sound, all_nodes_complete}
use chaistl.Heap.Policy.{IsLawful}
use chaistl.Heap.Binomial.{
  zip_by_degree, reverse_children, unlink_root, extract_root, coalesce, insert, join, find_top, top,
  extract_top, verify, verify_node, verify_children, nondecreasing, set_degree, policy,
}
use chaistl.Heap.Binomial.Shape.{
  IsShape, IsRelaxed, IsCanonical, IsRelaxed-mono, IsCanonical-IsRelaxed, roots_of-le-one,
}
use chaistl.Heap.Binomial.Carry.{coalesce_lem}
use chaistl.Heap.Binomial.Canonical.{coalesce-IsCanonical}
use chaistl.Heap.Binomial.Extract.{zip_lem, reverse_lem, unlink_lem, root_value, find_top_lem}

module _ {ℓ} {A : Type ℓ} (cmp : A → A → Bool) where
  -- A heap-ordered forest of binomial trees in nondecreasing order of degree.
  pub record IsBinomial (h : Link ℕ A) : Type ℓ where
    pub relaxed : IsRelaxed 0 h
    pub heap : IsHeap cmp h

  -- The children that the visitor of `verify` accepts.
  children_complete :
      (v : A) (want : ℕ) (f : Link ℕ A)
      → IsShape want f
      → Below cmp v f
      → verify_children cmp v want f ≡ true
  unfolding verify_children
  children_complete v want null s b = ground arith
  children_complete v want (node f n e w) s b =
      let ih = children_complete v e n s.2 b.1 in
      let less : want - 1 ≡ e = omega (arith, s.0) in rw less (ground (arith, ih, s.0))

  children_sound :
      (v : A) (want : ℕ) (f : Link ℕ A)
      → EveryNode (λ x. verify_node cmp x ≡ true) f
      → verify_children cmp v want f ≡ true
      → IsShape want f × Below cmp v f
  unfolding verify_children verify_node
  children_sound v want null t q = (ground arith, tt)
  children_sound v want (node f n e w) t q =
      let ih = children_sound v (want - 1) n t.2 (ground arith) in
      let inner = children_sound w e f t.1 t.0 in
      let less : want - 1 ≡ e = ground arith in
      ((ground arith, inner.0, rw less at (ih.0)), (ground arith, ih.1))

  abbrev Accepted : Link ℕ A → Type 0
  Accepted x = verify_node cmp x ≡ true

  IsHeap-sound : (h : Link ℕ A) → EveryNode Accepted h → IsHeap cmp h
  unfolding verify_node
  IsHeap-sound null t = tt
  IsHeap-sound (node f n e v) t =
      ((children_sound v e f t.1 t.0).1, IsHeap-sound f t.1, IsHeap-sound n t.2)

  roots_sound :
      (f n : Link ℕ A) (e : ℕ) (v : A)
      → nondecreasing (node f n e v) ≡ true
      → EveryNode Accepted (node f n e v)
      → IsRelaxed e (node f n e v)
  unfolding nondecreasing verify_node
  roots_sound f null e v q t = (omega arith, (children_sound v e f t.1 t.0).0, tt)
  roots_sound f (node f' n' e' v') e v q t =
      let rest = roots_sound f' n' e' v' (ground arith) t.2 in
      let up : e ≤ e' = ground arith in
      (omega arith, (children_sound v e f t.1 t.0).0, (up, rest.1, rest.2))

  shape_complete : (k : ℕ) (f : Link ℕ A) → IsShape k f → IsHeap cmp f → EveryNode Accepted f
  unfolding verify_node
  shape_complete k null s i = tt
  shape_complete k (node f n e v) s i =
      (children_complete v e f s.1 i.0, shape_complete e f s.1 i.1, shape_complete e n s.2 i.2)

  forest_complete : (lo : ℕ) (h : Link ℕ A) → IsRelaxed lo h → IsHeap cmp h → EveryNode Accepted h
  unfolding verify_node
  forest_complete lo null s i = tt
  forest_complete lo (node f n e v) s i =
      (children_complete v e f s.1 i.0, shape_complete e f s.1 i.1, forest_complete e n s.2 i.2)

  nondecreasing_complete : (lo : ℕ) (h : Link ℕ A) → IsRelaxed lo h → nondecreasing h ≡ true
  unfolding nondecreasing
  nondecreasing_complete lo null s = refl
  nondecreasing_complete lo (node f null e v) s = refl
  nondecreasing_complete lo (node f (node f' n' e' v') e v) s =
      ground (arith, nondecreasing_complete e (node f' n' e' v') s.2)

  pub verify_complete : (h : Link ℕ A) → IsBinomial h → verify cmp h ≡ true
  unfolding verify
  verify_complete h s = and_join _ _ (nondecreasing_complete 0 h s.relaxed) (
      all_nodes_complete {P = Accepted} (verify_node cmp) (λ x t. t) h
        (forest_complete 0 h s.relaxed s.heap))

  pub verify_sound : (h : Link ℕ A) → verify cmp h ≡ true → IsBinomial h
  unfolding verify
  verify_sound null q = record { relaxed = tt; heap = tt }
  verify_sound (node f n e v) q =
      let h = node f n e v in
      let (sorted, nodes) = and_split (nondecreasing h) (all_nodes (verify_node cmp) h) q in
      let t = all_nodes_sound {P = Accepted} (verify_node cmp) (λ x t. t) h nodes in
      record {
        relaxed = IsRelaxed-mono e 0 h (omega arith) (roots_sound f n e v sorted t);
        heap = IsHeap-sound h t;
      }

module _ {ℓ} {A : Type ℓ} {cmp : A → A → Bool} (o : IsStrictWeak cmp) where
  join_lem :
      (a b : Link ℕ A)
      → IsBinomial cmp a
      → IsBinomial cmp b
      → IsBinomial cmp (join cmp a b)
        × ((p : A → Bool) → holds p (join cmp a b) ≡ holds p a + holds p b)
  unfolding join
  join_lem a null s t = (s, λ p. omega arith)
  join_lem a (node fb nb eb vb) s t =
      let b = node fb nb eb vb in
      let z = zip_lem cmp 0 a b s.relaxed t.relaxed s.heap t.heap in
      let c = coalesce_lem o 0 (zip_by_degree a b) z.0 z.1 in
      (record { relaxed = c.0; heap = c.1 }, λ p. omega (arith, c.2 p, z.2 p))

  -- Binary addition of two canonical heaps is canonical.
  pub join-IsCanonical :
      (a b : Link ℕ A)
      → IsBinomial cmp a
      → IsBinomial cmp b
      → IsCanonical 0 a
      → IsCanonical 0 b
      → IsCanonical 0 (join cmp a b)
  unfolding join
  join-IsCanonical a null s t c d = c
  join-IsCanonical a (node fb nb eb vb) s t c d =
      let b = node fb nb eb vb in
      let z = zip_lem cmp 0 a b s.relaxed t.relaxed s.heap t.heap in
      coalesce-IsCanonical cmp (zip_by_degree a b) z.0
        (λ k. omega (arith, z.3 k, roots_of-le-one 0 k a c, roots_of-le-one 0 k b d))

  insert_lem :
      (v : A) (h : Link ℕ A)
      → IsBinomial cmp h
      → IsBinomial cmp (insert cmp (node null null 0 v) h)
        × ((p : A → Bool) → holds p (insert cmp (node null null 0 v) h) ≡ bit (p v) + holds p h)
        × (IsCanonical 0 h → IsCanonical 0 (insert cmp (node null null 0 v) h))
  unfolding insert link_root_front set_next set_degree
  insert_lem v h s =
      let grown : Link ℕ A = node null h 0 v in
      let relaxed : IsRelaxed 0 grown = (omega arith, refl, s.relaxed) in
      let c = coalesce_lem o 0 grown relaxed (tt, tt, s.heap) in
      (
        record { relaxed = c.0; heap = c.1 },
        (λ p. omega (arith, c.2 p)),
        (λ k.
            coalesce-IsCanonical cmp grown relaxed (λ d. ground (arith, roots_of-le-one 0 d h k))),
      )

  top_of_find : (h : Link ℕ A) (w : A) (i : ℕ) → find_top cmp h ≡ some (w, i) → top cmp h ≡ some w
  unfolding top
  top_of_find h w i q = ground (arith, q)

  some_top : (h : Link ℕ A) → IsBinomial cmp h → h ≢ null → (v : A) × (top cmp h ≡ some v)
  some_top null s q = absurd (q refl)
  some_top (node f n e v) s q =
      let (w, i, found, _, _) = find_top_lem cmp o f n e v in
      (w, top_of_find (node f n e v) w i found)

  -- What `top` and `extract_top` find in a heap that is not empty.
  record Tops (h : Link ℕ A) (v : A) : Type ℓ where
    at : ℕ
    found : find_top cmp h ≡ some (v, at)
    stands : root_value at h ≡ some v
    low : Below cmp v h

  top-null : top cmp null ≡ none
  unfolding top find_top
  top-null = refl

  top-Tops : (h : Link ℕ A) (v : A) → top cmp h ≡ some v → Tops h v
  top-Tops null v q = cc top-null
  top-Tops (node f n e w) v q =
      let (x, i, found, stands, low) = find_top_lem cmp o f n e w in
      let same : x ≡ v = some-injective x v (sym (top_of_find (node f n e w) x i found) ∙ q) in
      subst (Tops (node f n e w)) same
        (record { at = i; found = found; stands = stands; low = low })

  extract_eq :
      (h rest f : Link ℕ A) (v : A) (i : ℕ)
      → find_top cmp h ≡ some (v, i)
      → unlink_root i h ≡ some (record { children = f; value = v }, rest)
      → extract_top cmp h ≡ some (v, coalesce cmp (zip_by_degree rest (reverse_children f null)))
  unfolding extract_top extract_root
  extract_eq h rest f v i q r = ground (arith, q, r)

  extract_lem :
      (h : Link ℕ A) (v : A)
      → IsBinomial cmp h
      → top cmp h ≡ some v
      → (r : Link ℕ A) × (extract_top cmp h ≡ some (v, r))
        × IsBinomial cmp r
        × ((p : A → Bool) → holds p h ≡ bit (p v) + holds p r)
        × (IsCanonical 0 h → IsCanonical 0 r)
  extract_lem h v s q =
      let t = top-Tops h v q in
      let u = unlink_lem cmp 0 t.at v h s.relaxed s.heap t.stands in
      let back = reverse_lem cmp u.degree u.children null u.shape tt u.heap_children tt in
      let reversed = reverse_children u.children null in
      let z =
        zip_lem cmp 0 u.rest reversed u.relaxed (IsCanonical-IsRelaxed 0 reversed back.0)
          u.heap_rest back.1 in
      let c = coalesce_lem o 0 (zip_by_degree u.rest reversed) z.0 z.1 in
      (
        coalesce cmp (zip_by_degree u.rest reversed),
        extract_eq h u.rest u.children v t.at t.found u.unlinked,
        record { relaxed = c.0; heap = c.1 },
        (λ p. omega (arith, u.content p, c.2 p, z.2 p, back.2 p)),
        (λ k. coalesce-IsCanonical cmp (zip_by_degree u.rest reversed) z.0 (λ d. omega (
          arith,
          z.3 d,
          roots_of-le-one 0 d u.rest (u.canonical 0 k),
          roots_of-le-one 0 d reversed back.0,
        ))),
      )

  pub IsBinomial-IsLawful : IsLawful cmp (policy cmp) (IsBinomial cmp)
  IsBinomial-IsLawful = record {
    null_valid = record { relaxed = tt; heap = tt };
    insert_valid = λ v h s. (insert_lem v h s).0;
    insert_content = λ v h p s. (insert_lem v h s).1 p;
    top_some = some_top;
    top_greatest = λ h v s q. Below-AllIn o v h (top-Tops h v q).low s.heap;
    extract_some = λ h v s q.
        let (r, out, valid, content, _) = extract_lem h v s q in (r, out, valid, content);
    join_valid = λ a b s t. (join_lem a b s t).0;
    join_content = λ a b p s t. (join_lem a b s t).1 p;
    verify_valid = verify_complete cmp;
    valid_verify = verify_sound cmp;
  }

  -- Every operation keeps a canonical heap canonical.
  pub binomial-IsCanonical :
      (v : A) (a b : Link ℕ A)
      → IsBinomial cmp a
      → IsBinomial cmp b
      → IsCanonical 0 a
      → IsCanonical 0 b
      → IsCanonical 0 (insert cmp (node null null 0 v) a)
        × IsCanonical 0 (join cmp a b)
        × ((w : A)
            → top cmp a ≡ some w
            → (r : Link ℕ A) × (extract_top cmp a ≡ some (w, r)) × IsCanonical 0 r)
  binomial-IsCanonical v a b s t c d = (
    (insert_lem v a s).2 c,
    join-IsCanonical a b s t c d,
    λ w q. let (r, out, _, _, keeps) = extract_lem a w s q in (r, out, keeps c),
  )
