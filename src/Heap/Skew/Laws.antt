-- ===== src/Heap/Skew/Laws.antt =====
-- include/chaistl/containers/heap/policy/skew_heap.hpp meets the contract of a node heap policy.
use mathlib.Core.Path.{subst}
use mathlib.Core.Option.{some-injective}
use chaistl.Common.{
  Bool, true, false, ◌+◌, ◌≡◌, ◌≢◌, refl, arith, some, bit, and_split, and_join, not-true, not,
}
use chaistl.Order.{IsStrictWeak}
use chaistl.Heap.Link.{
  Link, null, node, holds, is_null, next_sibling, count_nodes, some_above, all_nodes,
}
use chaistl.Heap.Link.Order.{AllIn, root-AllIn, holds_all}
use chaistl.Heap.Binary.{detach_children}
use chaistl.Heap.Binary.Laws.{
  IsBinaryHeap, Melds, Melds-symm, Melds-null_left, detach-FitsUnder, holds-detach,
  FitsUnder-IsBinaryHeap,
}
use chaistl.Heap.Link.Verify.{
  Below-some_above, some_above-Below, two_null, null_two, tree_null, null-IsTree, set_next_self,
  all_nodes_sound, all_nodes_complete,
}
use chaistl.Heap.Binary.Verify.{NodeOk, NodeOk-all, all-NodeOk}
use chaistl.Heap.Policy.{IsLawful}
use chaistl.Heap.Skew.{meld, join, insert, top, extract_top, verify, verify_node, policy}
use chaistl.Heap.Skew.Meld.{meld-Melds}

module _ {ℓ} {E : Type 0} {A : Type ℓ} (cmp : A → A → Bool) where
  verify_node_complete : (x : Link E A) → NodeOk cmp x → verify_node cmp x ≡ true
  unfolding verify_node
  verify_node_complete null b = refl
  verify_node_complete (node f n e v) b =
      ground (arith, two_null f b.0, Below-some_above cmp v f b.1)

  verify_node_sound : (x : Link E A) → verify_node cmp x ≡ true → NodeOk cmp x
  unfolding verify_node
  verify_node_sound null b = tt
  verify_node_sound (node f n e v) b =
      let (two, low) =
        and_split (is_null (next_sibling (next_sibling f))) (not (some_above cmp v f)) b in
      (null_two f two, some_above-Below cmp v f (not-true _ low))

  pub verify_complete : (h : Link E A) → IsBinaryHeap cmp h → verify cmp h ≡ true
  unfolding verify
  verify_complete h s = and_join _ _ (tree_null h s.tree) (
      all_nodes_complete (verify_node cmp) verify_node_complete h
        (NodeOk-all cmp h s.binary s.heap))

  pub verify_sound : (h : Link E A) → verify cmp h ≡ true → IsBinaryHeap cmp h
  unfolding verify
  verify_sound h q =
      let (single, nodes) =
        and_split (is_null (next_sibling h)) (all_nodes (verify_node cmp) h) q in
      let ih = all-NodeOk cmp h (all_nodes_sound (verify_node cmp) verify_node_sound h nodes) in
      record { tree = null-IsTree h single; binary = ih.0; heap = ih.1 }

module _ {ℓ} {E : Type 0} {A : Type ℓ} {cmp : A → A → Bool} (o : IsStrictWeak cmp) where
  join-Melds :
      (a b : Link E A) → IsBinaryHeap cmp a → IsBinaryHeap cmp b → Melds cmp a b (join cmp a b)
  unfolding join
  join-Melds a null s t = Melds-symm cmp (Melds-null_left cmp a s)
  join-Melds null (node fb nb eb vb) s t =
      rw (set_next_self (node fb nb eb vb) t.tree) (Melds-null_left cmp (node fb nb eb vb) t)
  join-Melds (node fa na ea va) (node fb nb eb vb) s t =
      let a = node fa na ea va in
      let b = node fb nb eb vb in
      let m =
        meld-Melds o (count_nodes a + count_nodes b) a b (omega (arith, holds_all a, holds_all b)) s
          t in
      rw (set_next_self (meld cmp (count_nodes a + count_nodes b) a b) m.heap.tree) m

  singleton-IsBinaryHeap : (e : E) (v : A) → IsBinaryHeap cmp (node null null e v)
  singleton-IsBinaryHeap e v = record { tree = refl; binary = (tt, tt, tt); heap = (tt, tt, tt) }

  insert-Melds :
      (e : E) (v : A) (h : Link E A)
      → IsBinaryHeap cmp h
      → Melds cmp h (node null null e v) (insert cmp (node null null e v) h)
  unfolding insert
  insert-Melds e v h s = join-Melds h (node null null e v) s (singleton-IsBinaryHeap e v)

  some_top : (h : Link E A) → IsBinaryHeap cmp h → h ≢ null → (v : A) × (top cmp h ≡ some v)
  unfolding top
  some_top null s q = absurd (q refl)
  some_top (node f n e w) s q = (w, refl)

  top_bound :
      (h : Link E A) (v : A)
      → IsBinaryHeap cmp h
      → top cmp h ≡ some v
      → AllIn (λ x. cmp v x ≡ false) h
  unfolding top
  top_bound null v s q = tt
  top_bound (node f n e w) v s q =
      subst (λ u. AllIn (λ x. cmp u x ≡ false) (node f n e w)) (some-injective w v q)
        (root-AllIn o f n e w s.tree s.heap)

  extract_lem :
      (h : Link E A) (v : A)
      → IsBinaryHeap cmp h
      → top cmp h ≡ some v
      → (r : Link E A) × (extract_top cmp h ≡ some (v, r))
        × IsBinaryHeap cmp r
        × ((p : A → Bool) → holds p h ≡ bit (p v) + holds p r)
  unfolding top extract_top
  extract_lem null v s q = cc
  extract_lem (node f n e w) v s q =
      let left = (detach_children (node f n e w)).0 in
      let right = (detach_children (node f n e w)).1 in
      let parts = detach-FitsUnder cmp f n e w s in
      let m =
        meld-Melds o (count_nodes left + count_nodes right) left right
          (omega (arith, holds_all left, holds_all right)) (FitsUnder-IsBinaryHeap cmp parts.0)
          (FitsUnder-IsBinaryHeap cmp parts.1) in
      let same : w ≡ v = some-injective w v q in
      (
        meld cmp (count_nodes left + count_nodes right) left right,
        rw same,
        m.heap,
        λ p. rw (← same) (omega (arith, m.content p, holds-detach cmp p f n e w s)),
      )

  pub skew-IsLawful : (e : E) → IsLawful cmp (policy cmp e) (IsBinaryHeap cmp)
  skew-IsLawful e = record {
    null_valid = record { tree = tt; binary = tt; heap = tt };
    insert_valid = λ v h s. (insert-Melds e v h s).heap;
    insert_content = λ v h p s. omega (arith, (insert-Melds e v h s).content p);
    top_some = some_top;
    top_greatest = top_bound;
    extract_some = extract_lem;
    join_valid = λ a b s t. (join-Melds a b s t).heap;
    join_content = λ a b p s t. (join-Melds a b s t).content p;
    verify_valid = verify_complete cmp;
    valid_verify = verify_sound cmp;
  }
