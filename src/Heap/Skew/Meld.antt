-- ===== src/Heap/Skew/Meld.antt =====
-- `meld` of include/chaistl/containers/heap/policy/skew_heap.hpp: what it keeps.
use chaistl.Common.{Bool, ℕ, zero, suc, ◌+◌, ◌≤◌, ◌≢◌, arith, Bool-cases, inl, inr}
use chaistl.Order.{IsStrictWeak}
use chaistl.Heap.Link.{Link, null, node}
use chaistl.Heap.Link.Order.{Below}
use chaistl.Heap.Binary.{detach_children, set_children}
use chaistl.Heap.Binary.Laws.{
  IsBinaryHeap, FitsUnder, Melds, size, FitsUnder-IsBinaryHeap, Below-tree, size-detach_right,
  Melds-symm, Melds-null_left, detach-FitsUnder, holds-detach, set_children-IsBinaryHeap,
  holds-set_children, Below-set_children, set_children-ne-null,
}
use chaistl.Heap.Skew.{meld}

module _ {ℓ} {E : Type 0} {A : Type ℓ} {cmp : A → A → Bool} where
  -- The step of `meld` after the swap: `m` is the right child of the winner melded with the loser.
  hang-Melds :
      (f n b m : Link E A) (e : E) (v : A)
      → IsBinaryHeap cmp (node f n e v)
      → b ≢ null
      → Below cmp v b
      → Melds cmp (detach_children (node f n e v)).1 b m
      → Melds cmp
          (node f n e v)
          b
          (set_children (node f n e v) m (detach_children (node f n e v)).0)
  hang-Melds f n b m e v h q low t =
      let a = node f n e v in
      let parts = detach-FitsUnder cmp f n e v h in
      let some = t.some_right q in
      let fits : FitsUnder cmp v m = record {
        tree = t.heap.tree;
        binary = t.heap.binary;
        heap = t.heap.heap;
        below = t.below v parts.1.below low;
      } in
      record {
        heap = set_children-IsBinaryHeap cmp f n m _ e v h.tree fits parts.0 some;
        below = λ u x y. Below-set_children cmp u f n m _ e v x;
        some_left = λ x. set_children-ne-null cmp f n m _ e v;
        some_right = λ x. set_children-ne-null cmp f n m _ e v;
        content = λ p. omega (
          arith,
          t.content p,
          holds-detach cmp p f n e v h,
          holds-set_children cmp p f n m _ e v h.tree t.heap.tree parts.0.tree some,
        );
      }

module _ {ℓ} {E : Type 0} {A : Type ℓ} {cmp : A → A → Bool} (o : IsStrictWeak cmp) where
  pub meld-Melds :
      (k : ℕ) (a b : Link E A)
      → size a + size b ≤ k
      → IsBinaryHeap cmp a
      → IsBinaryHeap cmp b
      → Melds cmp a b (meld cmp k a b)
  unfolding meld
  meld-Melds zero null null h s t = Melds-null_left cmp null t
  meld-Melds zero (node fa na ea va) b h s t = absurd (omega arith)
  meld-Melds zero null (node fb nb eb vb) h s t = absurd (omega arith)
  meld-Melds (suc k) null b h s t = Melds-null_left cmp b t
  meld-Melds (suc k) (node fa na ea va) null h s t =
      Melds-symm cmp (Melds-null_left cmp (node fa na ea va) s)
  meld-Melds (suc k) (node fa na ea va) (node fb nb eb vb) h s t =
      let a = node fa na ea va in
      let b = node fb nb eb vb in
      let pa = detach-FitsUnder cmp fa na ea va s in
      let pb = detach-FitsUnder cmp fb nb eb vb t in
      elim (Bool-cases (cmp va vb)) [
        | inl e ↦ rw e (
            Melds-symm cmp (
              hang-Melds fb nb a _ eb vb t (cc)
                (Below-tree cmp vb fa na ea va s.tree (o.asym va vb e))
                (meld-Melds k (detach_children b).1 a
                  (omega (arith, size-detach_right cmp fb nb eb vb t))
                  (FitsUnder-IsBinaryHeap cmp pb.1) s)))
        | inr e ↦ rw e (
            hang-Melds fa na b _ ea va s (cc) (Below-tree cmp va fb nb eb vb t.tree e) (
              meld-Melds k (detach_children a).1 b
                (omega (arith, size-detach_right cmp fa na ea va s))
                (FitsUnder-IsBinaryHeap cmp pa.1) t))
      ]
