-- ===== src/Heap/Pairing/Laws.antt =====
-- include/chaistl/containers/heap/policy/pairing_heap.hpp meets the contract of a mutable node heap
-- policy.
use mathlib.Core.Path.{subst}
use mathlib.Core.Option.{some-injective}
use chaistl.Common.{
  Bool, true, false, ◌+◌, ◌≡◌, ◌≢◌, refl, sym, ◌∙◌, arith, some, bit, and_split, and_join, not-true,
  List, [], ◌∷◌,
}
use chaistl.Order.{IsStrictWeak}
use chaistl.Heap.Link.{
  Link, null, node, holds, is_null, next_sibling, all_nodes, down, across, Edge,
}
use chaistl.Heap.Link.Order.{IsTree, Below, IsHeap, AllIn, root-AllIn}
use chaistl.Heap.Link.Verify.{
  Below-some_above, some_above-Below, tree_null, null-IsTree, EveryNode, all_nodes_sound,
  all_nodes_complete,
}
use chaistl.Heap.Policy.{IsLawful, IsLawfulDetach, value_at}
use chaistl.Heap.Pairing.{
  link_pair, pair_up_children, accumulate_children, close_gap, detach, join, insert, top,
  extract_top, verify, verify_node, policy,
}
use chaistl.Heap.Pairing.Condense.{link_pair_lem, condense_lem}

module _ {ℓ} {E : Type 0} {A : Type ℓ} (cmp : A → A → Bool) where
  -- A single heap-ordered tree.
  pub record IsPairing (h : Link E A) : Type ℓ where
    pub tree : IsTree h
    pub heap : IsHeap cmp h

  abbrev OrderedNode : Link E A → Type 0
  OrderedNode null = Unit
  OrderedNode (node f n e v) = Below cmp v f

  ordered_complete : (x : Link E A) → OrderedNode x → verify_node cmp x ≡ true
  unfolding verify_node
  ordered_complete null b = refl
  ordered_complete (node f n e v) b = ground (arith, Below-some_above cmp v f b)

  ordered_sound : (x : Link E A) → verify_node cmp x ≡ true → OrderedNode x
  unfolding verify_node
  ordered_sound null b = tt
  ordered_sound (node f n e v) b = some_above-Below cmp v f (not-true _ b)

  ordered-IsHeap : (h : Link E A) → EveryNode OrderedNode h → IsHeap cmp h
  ordered-IsHeap null b = tt
  ordered-IsHeap (node f n e v) b = (b.0, ordered-IsHeap f b.1, ordered-IsHeap n b.2)

  IsHeap-ordered : (h : Link E A) → IsHeap cmp h → EveryNode OrderedNode h
  IsHeap-ordered null b = tt
  IsHeap-ordered (node f n e v) b = (b.0, IsHeap-ordered f b.1, IsHeap-ordered n b.2)

  pub verify_complete : (h : Link E A) → IsPairing h → verify cmp h ≡ true
  unfolding verify
  verify_complete h s =
      and_join _ _ (tree_null h s.tree)
        (all_nodes_complete (verify_node cmp) ordered_complete h (IsHeap-ordered h s.heap))

  pub verify_sound : (h : Link E A) → verify cmp h ≡ true → IsPairing h
  unfolding verify
  verify_sound h q =
      let (single, nodes) =
        and_split (is_null (next_sibling h)) (all_nodes (verify_node cmp) h) q in
      record {
        tree = null-IsTree h single;
        heap = ordered-IsHeap h (all_nodes_sound (verify_node cmp) ordered_sound h nodes);
      }

module _ {ℓ} {E : Type 0} {A : Type ℓ} {cmp : A → A → Bool} (o : IsStrictWeak cmp) where
  join_lem :
      (a b : Link E A)
      → IsPairing cmp a
      → IsPairing cmp b
      → IsPairing cmp (join cmp a b)
        × ((p : A → Bool) → holds p (join cmp a b) ≡ holds p a + holds p b)
  unfolding join
  join_lem null null s t = (s, λ p. refl)
  join_lem (node fa na ea va) null s t = (s, λ p. omega arith)
  join_lem null (node fb nb eb vb) s t = (t, λ p. omega arith)
  join_lem (node fa na ea va) (node fb nb eb vb) s t =
      let l = link_pair_lem o (node fa na ea va) (node fb nb eb vb) s.tree t.tree s.heap t.heap in
      (record { tree = l.0; heap = l.1 }, l.2)

  insert-eq-join : (x h : Link E A) → insert cmp x h ≡ join cmp h x
  unfolding insert join link_pair
  insert-eq-join null null = refl
  insert-eq-join (node f n e v) null = refl
  insert-eq-join null (node f n e v) = refl
  insert-eq-join (node fx nx ex vx) (node f n e v) = refl

  singleton-IsPairing : (e : E) (v : A) → IsPairing cmp (node null null e v)
  singleton-IsPairing e v = record { tree = refl; heap = (tt, tt, tt) }

  some_top : (h : Link E A) → IsPairing cmp h → h ≢ null → (v : A) × (top cmp h ≡ some v)
  unfolding top
  some_top null s q = absurd (q refl)
  some_top (node f n e w) s q = (w, refl)

  top_bound :
      (h : Link E A) (v : A) → IsPairing cmp h → top cmp h ≡ some v → AllIn (λ x. cmp v x ≡ false) h
  unfolding top
  top_bound null v s q = tt
  top_bound (node f n e w) v s q =
      subst (λ u. AllIn (λ x. cmp u x ≡ false) (node f n e w)) (some-injective w v q)
        (root-AllIn o f n e w s.tree s.heap)

  value_at_null :
      (path : List Edge) (h : Link E A) (v : A) → h ≡ null → value_at path h ≡ some v → ⊥
  unfolding value_at
  value_at_null path null v z q = cc
  value_at_null path (node f n e w) v z q = cc

  -- Detaching from a heap-ordered list, wherever the handle leads.
  detach_list :
      (path : List Edge) (h : Link E A) (v : A)
      → IsHeap cmp h
      → value_at path h ≡ some v
      → (r : Link E A) × (detach cmp path h ≡ some (v, r))
        × IsHeap cmp r
        × ((p : A → Bool) → holds p h ≡ bit (p v) + holds p r)
        × ((u : A) → Below cmp u h → Below cmp u r)
        × (IsTree h → IsTree r)
  unfolding value_at detach
  detach_list path null v i q = cc
  detach_list [] (node f n e w) v i q =
      let c = condense_lem o w f n i.0 i.1 i.2 in
      let same : w ≡ v = some-injective w v q in
      (
        close_gap (accumulate_children cmp (pair_up_children cmp f)) n,
        rw same,
        c.0,
        (λ p. rw (← same) (omega (arith, c.1 p))),
        (λ u b. c.2 u b.0 b.1),
        c.3,
      )
  detach_list (down ∷ path) (node f n e w) v i q =
      let (r, out, heap, content, low, _) = detach_list path f v i.1 q in
      (
        node r n e w,
        rw out,
        (low w i.0, heap, i.2),
        (λ p. omega (arith, content p)),
        (λ u b. b),
        (λ z. z),
      )
  detach_list (across ∷ path) (node f n e w) v i q =
      let (r, out, heap, content, low, single) = detach_list path n v i.2 q in
      (
        node f r e w,
        rw out,
        (i.0, i.1, heap),
        (λ p. omega (arith, content p)),
        (λ u b. (b.0, low u b.1)),
        (λ z. absurd (value_at_null path n v z q)),
      )

  pub detach-IsLawful : IsLawfulDetach {E = E} (detach cmp) (IsPairing cmp)
  detach-IsLawful path h v s q =
      let (r, out, heap, content, _, single) = detach_list path h v s.heap q in
      (r, out, record { tree = single s.tree; heap = heap }, content)

  top-value_at : (h : Link E A) → top cmp h ≡ value_at [] h
  unfolding top value_at
  top-value_at null = refl
  top-value_at (node f n e v) = refl

  extract_lem :
      (h : Link E A) (v : A)
      → IsPairing cmp h
      → top cmp h ≡ some v
      → (r : Link E A) × (extract_top cmp h ≡ some (v, r))
        × IsPairing cmp r
        × ((p : A → Bool) → holds p h ≡ bit (p v) + holds p r)
  unfolding extract_top
  extract_lem h v s q = detach-IsLawful [] h v s (sym (top-value_at h) ∙ q)

  pub IsPairing-IsLawful : (e : E) → IsLawful cmp (policy cmp e) (IsPairing cmp)
  IsPairing-IsLawful e = record {
    null_valid = record { tree = tt; heap = tt };
    insert_valid =
        λ v h s. rw insert-eq-join (join_lem h (node null null e v) s (singleton-IsPairing e v)).0;
    insert_content = λ v h p s.
        rw insert-eq-join
          (omega (arith, (join_lem h (node null null e v) s (singleton-IsPairing e v)).1 p));
    top_some = some_top;
    top_greatest = top_bound;
    extract_some = extract_lem;
    join_valid = λ a b s t. (join_lem a b s t).0;
    join_content = λ a b p s t. (join_lem a b s t).1 p;
    verify_valid = verify_complete cmp;
    valid_verify = verify_sound cmp;
  }
