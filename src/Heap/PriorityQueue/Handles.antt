-- ===== src/Heap/PriorityQueue/Handles.antt =====
-- `erase` and `modify` of include/chaistl/containers/heap/priority_queue.hpp over any lawful mutable
-- node heap policy.
use chaistl.Common.{Bool, true, false, suc, ◌<◌, ◌+◌, ◌-◌, ◌≡◌, arith, List, some, bit}
use chaistl.Heap.Link.{Link, node, holds, Edge, count_nodes, null}
use chaistl.Heap.Link.Order.{holds_all}
use chaistl.Heap.Policy.{NodeHeapPolicy, IsLawful, IsLawfulDetach, Detach, value_at, singleton}
use chaistl.Heap.PriorityQueue.{PriorityQueue, empty, size, erase, modify}
use chaistl.Heap.PriorityQueue.Laws.{IsSound}

value_at-positive {ℓ} :
    {E : Type 0} {A : Type ℓ} (path : List Edge) (h : Link E A) (v : A)
    → value_at path h ≡ some v
    → 0 < count_nodes h
unfolding value_at count_nodes
value_at-positive path null v q = cc
value_at-positive path (node f n e w) v q = omega arith

module _ {ℓ} {E : Type 0} {A : Type ℓ} {cmp : A → A → Bool} {P : NodeHeapPolicy E A}
    {IsValid : Link E A → Type ℓ} (L : IsLawful cmp P IsValid) (detach : Detach E A)
    (D : IsLawfulDetach detach IsValid) where
  handle_nonempty :
      (it : List Edge) (q : PriorityQueue E A) (v : A)
      → IsSound IsValid q
      → value_at it q.root ≡ some v
      → empty q ≡ false
  unfolding empty size
  handle_nonempty it q v s e = ground (arith, s.counted, value_at-positive it q.root v e)

  pub erase-IsSound :
      (it : List Edge) (q : PriorityQueue E A) (v : A)
      → IsSound IsValid q
      → value_at it q.root ≡ some v
      → (r : PriorityQueue E A) × (erase cmp P detach it q ≡ some r)
        × IsSound IsValid r
        × ((p : A → Bool) → holds p q.root ≡ bit (p v) + holds p r.root)
  unfolding erase
  erase-IsSound it q v s e =
      let (r, out, valid, content) = D it q.root v s.heap e in
      (
        record q { root = r; count = q.count - 1 },
        rw (handle_nonempty it q v s e, out),
        record {
          heap = valid;
          counted = omega (arith, s.counted, holds_all q.root, holds_all r, content (λ _. true));
        },
        content,
      )

  pub modify-IsSound :
      (it : List Edge) (q : PriorityQueue E A) (v value : A)
      → IsSound IsValid q
      → value_at it q.root ≡ some v
      → (r : PriorityQueue E A) × (modify cmp P detach it value q ≡ some r)
        × IsSound IsValid r
        × ((p : A → Bool) → holds p q.root + bit (p value) ≡ bit (p v) + holds p r.root)
        × (r.count ≡ q.count)
  unfolding modify
  modify-IsSound it q v value s e =
      let (r, out, valid, content) = D it q.root v s.heap e in
      let h = P.insert (singleton cmp P value) r in
      let added = λ (p : A → Bool). L.insert_content value r p valid in
      let size_eqs : q.count ≡ suc (count_nodes r) =
        omega (arith, s.counted, holds_all q.root, holds_all r, content (λ _. true)) in
      (
        record q { root = h; count = (q.count - 1) + 1 },
        rw (handle_nonempty it q v s e, out),
        record {
          heap = L.insert_valid value r valid;
          counted = omega (arith, size_eqs, holds_all r, holds_all h, added (λ _. true));
        },
        (λ p. omega (arith, content p, added p)),
        omega (arith, size_eqs),
      )
