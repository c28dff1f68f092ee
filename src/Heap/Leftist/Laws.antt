-- ===== src/Heap/Leftist/Laws.antt =====
-- include/chaistl/containers/heap/policy/leftist_heap.hpp meets the contract of a node heap policy.
use mathlib.Core.Path.{subst}
use mathlib.Core.Option.{some-injective}
use chaistl.Common.{
  Bool, true, false, ℕ, suc, ◌+◌, ◌≤◌, ◌≡◌, ◌≢◌, refl, sym, ◌∙◌, arith, ltb, ◌==◌, ◌||◌, some, bit,
  and_split, and_join, not-true, not, ◌&&◌,
}
use chaistl.Order.{IsStrictWeak}
use chaistl.Heap.Link.{
  Link, null, node, holds, is_null, set_next, next_sibling, some_above, all_nodes,
}
use chaistl.Heap.Link.Order.{IsHeap, IsBinary, AllIn, root-AllIn}
use chaistl.Heap.Binary.{detach_children}
use chaistl.Heap.Binary.Laws.{
  Melds, Melds-symm, Melds-null_left, detach-FitsUnder, holds-detach, FitsUnder-IsBinaryHeap,
}
use chaistl.Heap.Link.Verify.{
  Below-some_above, some_above-Below, two_null, null_two, tree_null, null-IsTree, set_next_self,
  EveryNode, all_nodes_sound, all_nodes_complete,
}
use chaistl.Heap.Binary.Verify.{NodeOk, all-NodeOk}
use chaistl.Heap.Policy.{IsLawful}
use chaistl.Heap.Leftist.{npl, meld, join, insert, top, extract_top, verify, verify_node, policy}
use chaistl.Heap.Leftist.Rank.{RankOk, IsRanked, detach-IsRanked}
use chaistl.Heap.Leftist.Meld.{IsLeftist, meld-Melds, meld-fuel}

module _ {ℓ} {A : Type ℓ} (cmp : A → A → Bool) where
  -- The test of the null path lengths at a node decides `RankOk`.
  rank_test : (f : Link ℕ A) (e : ℕ) → Bool
  unfolding npl next_sibling
  rank_test f e = ltb (npl f) (npl (next_sibling f)) || not (e == npl (next_sibling f) + 1)

  rank_test_complete : (f : Link ℕ A) (e : ℕ) → RankOk e f → rank_test f e ≡ false
  unfolding rank_test
  rank_test_complete null e r = ground arith
  rank_test_complete (node lf null le lv) e r = ground arith
  rank_test_complete (node lf (node rf rn re rv) le lv) e r = ground arith

  rank_test_sound : (f : Link ℕ A) (e : ℕ) → rank_test f e ≡ false → RankOk e f
  unfolding rank_test
  rank_test_sound null e r = ground arith
  rank_test_sound (node lf null le lv) e r = ground arith
  rank_test_sound (node lf (node rf rn re rv) le lv) e r = ground arith

  abbrev RankedNode : Link ℕ A → Type ℓ
  RankedNode null = Unit
  RankedNode (node f n e v) = NodeOk cmp (node f n e v) × RankOk e f

  verify_node_complete : (x : Link ℕ A) → RankedNode x → verify_node cmp x ≡ true
  unfolding verify_node rank_test
  verify_node_complete null b = refl
  verify_node_complete (node f n e v) b =
      and_join _ _ (two_null f b.0.0)
        (ground (arith, Below-some_above cmp v f b.0.1, rank_test_complete f e b.1))

  verify_node_sound : (x : Link ℕ A) → verify_node cmp x ≡ true → RankedNode x
  unfolding verify_node rank_test
  verify_node_sound null b = tt
  verify_node_sound (node f n e v) b =
      let rest = not (rank_test f e) && not (some_above cmp v f) in
      let (two, b₁) = and_split (is_null (next_sibling (next_sibling f))) rest b in
      let (rank, low) = and_split (not (rank_test f e)) (not (some_above cmp v f)) b₁ in
      (
        (null_two f two, some_above-Below cmp v f (not-true _ low)),
        rank_test_sound f e (not-true _ rank),
      )

  RankedNode-all : (h : Link ℕ A) → IsBinary h → IsHeap cmp h → IsRanked h → EveryNode RankedNode h
  RankedNode-all null b i r = tt
  RankedNode-all (node f n e v) b i r =
      (((b.0, i.0), r.0), RankedNode-all f b.1 i.1 r.1, RankedNode-all n b.2 i.2 r.2)

  all-RankedNode : (h : Link ℕ A) → EveryNode RankedNode h → EveryNode (NodeOk cmp) h × IsRanked h
  all-RankedNode null b = (tt, tt)
  all-RankedNode (node f n e v) b =
      let ih = all-RankedNode f b.1 in
      let jh = all-RankedNode n b.2 in ((b.0.0, ih.0, jh.0), (b.0.1, ih.1, jh.1))

  pub verify_complete : (h : Link ℕ A) → IsLeftist cmp h → verify cmp h ≡ true
  unfolding verify
  verify_complete h s = and_join _ _ (tree_null h s.shape.tree) (
      all_nodes_complete (verify_node cmp) verify_node_complete h
        (RankedNode-all h s.shape.binary s.shape.heap s.ranked))

  pub verify_sound : (h : Link ℕ A) → verify cmp h ≡ true → IsLeftist cmp h
  unfolding verify
  verify_sound h q =
      let (single, nodes) =
        and_split (is_null (next_sibling h)) (all_nodes (verify_node cmp) h) q in
      let every = all-RankedNode h (all_nodes_sound (verify_node cmp) verify_node_sound h nodes) in
      let shape = all-NodeOk cmp h every.0 in
      record {
        shape = record { tree = null-IsTree h single; binary = shape.0; heap = shape.1 };
        ranked = every.1;
      }

module _ {ℓ} {A : Type ℓ} {cmp : A → A → Bool} (o : IsStrictWeak cmp) where
  -- The result of `meld` with its sibling link cleared, as `join` and `extract_top` leave it.
  cut-Melds :
      (a b : Link ℕ A)
      → IsLeftist cmp a
      → IsLeftist cmp b
      → Melds cmp a b (set_next (meld cmp (npl a + npl b) a b) null)
        × IsRanked (set_next (meld cmp (npl a + npl b) a b) null)
  cut-Melds a b s t =
      let m = meld-Melds o (npl a + npl b) a b (omega arith) s t in
      rw (set_next_self (meld cmp (npl a + npl b) a b) m.0.heap.tree) m

  join-Melds :
      (a b : Link ℕ A)
      → IsLeftist cmp a
      → IsLeftist cmp b
      → Melds cmp a b (join cmp a b) × IsRanked (join cmp a b)
  unfolding join
  join-Melds a null s t = (Melds-symm cmp (Melds-null_left cmp a s.shape), s.ranked)
  join-Melds null (node fb nb eb vb) s t = (
    rw (set_next_self (node fb nb eb vb) t.shape.tree)
        (Melds-null_left cmp (node fb nb eb vb) t.shape),
    (t.ranked.0, t.ranked.1, tt),
  )
  join-Melds (node fa na ea va) (node fb nb eb vb) s t =
      cut-Melds (node fa na ea va) (node fb nb eb vb) s t

  -- Recursion to the depth of the two null path lengths gives the whole result.
  pub join-eq-meld :
      (a b : Link ℕ A) (k : ℕ)
      → IsLeftist cmp a
      → IsLeftist cmp b
      → npl a + npl b ≤ k
      → meld cmp k a b ≡ join cmp a b
  unfolding join meld
  join-eq-meld null null k s t h =
      meld-fuel cmp k 1 null null h (omega (arith, h)) s.ranked t.ranked
  join-eq-meld (node fa na ea va) null k s t h =
      meld-fuel cmp k (suc k) (node fa na ea va) null h (omega (arith, h)) s.ranked t.ranked
  join-eq-meld null (node fb nb eb vb) k s t h =
      let b = node fb nb eb vb in
      meld-fuel cmp k (suc k) null b h (omega (arith, h)) s.ranked t.ranked
      ∙ sym (set_next_self b t.shape.tree)
  join-eq-meld (node fa na ea va) (node fb nb eb vb) k s t h =
      let a = node fa na ea va in
      let b = node fb nb eb vb in
      let m = meld-Melds o (npl a + npl b) a b (omega arith) s t in
      meld-fuel cmp k (npl a + npl b) a b h (omega arith) s.ranked t.ranked
      ∙ sym (set_next_self (meld cmp (npl a + npl b) a b) m.0.heap.tree)

  singleton-IsLeftist : (v : A) → IsLeftist cmp (node null null 1 v)
  singleton-IsLeftist v = record {
    shape = record { tree = refl; binary = (tt, tt, tt); heap = (tt, tt, tt) };
    ranked = (refl, tt, tt);
  }

  insert-Melds :
      (v : A) (h : Link ℕ A)
      → IsLeftist cmp h
      → Melds cmp h (node null null 1 v) (insert cmp (node null null 1 v) h)
        × IsRanked (insert cmp (node null null 1 v) h)
  unfolding insert
  insert-Melds v h s = join-Melds h (node null null 1 v) s (singleton-IsLeftist v)

  some_top : (h : Link ℕ A) → IsLeftist cmp h → h ≢ null → (v : A) × (top cmp h ≡ some v)
  unfolding top
  some_top null s q = absurd (q refl)
  some_top (node f n e w) s q = (w, refl)

  top_bound :
      (h : Link ℕ A) (v : A) → IsLeftist cmp h → top cmp h ≡ some v → AllIn (λ x. cmp v x ≡ false) h
  unfolding top
  top_bound null v s q = tt
  top_bound (node f n e w) v s q =
      subst (λ u. AllIn (λ x. cmp u x ≡ false) (node f n e w)) (some-injective w v q)
        (root-AllIn o f n e w s.shape.tree s.shape.heap)

  extract_lem :
      (h : Link ℕ A) (v : A)
      → IsLeftist cmp h
      → top cmp h ≡ some v
      → (r : Link ℕ A) × (extract_top cmp h ≡ some (v, r))
        × IsLeftist cmp r
        × ((p : A → Bool) → holds p h ≡ bit (p v) + holds p r)
  unfolding top extract_top
  extract_lem null v s q = cc
  extract_lem (node f n e w) v s q =
      let left = (detach_children (node f n e w)).0 in
      let right = (detach_children (node f n e w)).1 in
      let parts = detach-FitsUnder cmp f n e w s.shape in
      let ranks = detach-IsRanked f n e w s.ranked in
      let m =
        cut-Melds left right
          (record { shape = FitsUnder-IsBinaryHeap cmp parts.0; ranked = ranks.0 })
          (record { shape = FitsUnder-IsBinaryHeap cmp parts.1; ranked = ranks.1 }) in
      let same : w ≡ v = some-injective w v q in
      (
        set_next (meld cmp (npl left + npl right) left right) null,
        rw same,
        record { shape = m.0.heap; ranked = m.1 },
        λ p. rw (← same) (omega (arith, m.0.content p, holds-detach cmp p f n e w s.shape)),
      )

  pub IsLeftist-IsLawful : IsLawful cmp (policy cmp) (IsLeftist cmp)
  IsLeftist-IsLawful = record {
    null_valid = record { shape = record { tree = tt; binary = tt; heap = tt }; ranked = tt };
    insert_valid = λ v h s. let m = insert-Melds v h s in record { shape = m.0.heap; ranked = m.1 };
    insert_content = λ v h p s. omega (arith, (insert-Melds v h s).0.content p);
    top_some = some_top;
    top_greatest = top_bound;
    extract_some = extract_lem;
    join_valid = λ a b s t. let m = join-Melds a b s t in record { shape = m.0.heap; ranked = m.1 };
    join_content = λ a b p s t. (join-Melds a b s t).0.content p;
    verify_valid = verify_complete cmp;
    valid_verify = verify_sound cmp;
  }
