-- ===== src/Heap/PriorityQueue/Laws.antt =====
-- include/chaistl/containers/heap/priority_queue.hpp over any lawful node heap policy: the size
-- bookkeeping, the order and the content, for every operation.
use chaistl.Common.{
  Bool, true, false, ◌+◌, ◌-◌, ◌≡◌, ◌≢◌, refl, arith, List, [], ◌∷◌, some, none, bit, Option,
  Bool-cases, inl, inr, count,
}
use chaistl.Heap.Link.{Link, null, node, holds, count_nodes}
use chaistl.Heap.Link.Order.{AllIn, holds_all}
use chaistl.Heap.Policy.{NodeHeapPolicy, IsLawful, singleton}
use chaistl.Heap.PriorityQueue.{
  PriorityQueue, empty_queue, push, push_range, top, pop, join, empty, size,
}

pub none-ne-some {ℓ} : {A : Type ℓ} (v : A) → ◌≡◌ {A = Option A} none (some v) → ⊥
none-ne-some v h = cc

module _ {ℓ} {E : Type 0} {A : Type ℓ} where
  pub count_nodes_null : (h : Link E A) → h ≡ null → count_nodes h ≡ 0
  unfolding count_nodes
  count_nodes_null null e = refl
  count_nodes_null (node f n x v) e = cc

module _ {ℓ} {E : Type 0} {A : Type ℓ} (IsValid : Link E A → Type ℓ) where
  -- The forest is a heap of the policy, and `count` is its number of nodes.
  pub record IsSound (q : PriorityQueue E A) : Type ℓ where
    pub heap : IsValid q.root
    pub counted : q.count ≡ count_nodes q.root

module _ {ℓ} {E : Type 0} {A : Type ℓ} {cmp : A → A → Bool} {P : NodeHeapPolicy E A}
    {IsValid : Link E A → Type ℓ} (L : IsLawful cmp P IsValid) where
  pub nonempty-ne-null :
      (q : PriorityQueue E A) → IsSound IsValid q → empty q ≡ false → q.root ≢ null
  unfolding empty size
  nonempty-ne-null q s e z = ground (arith, s.counted, count_nodes_null q.root z)

  pub push-IsSound :
      (v : A) (q : PriorityQueue E A)
      → IsSound IsValid q
      → IsSound IsValid (push cmp P v q)
        × ((p : A → Bool) → holds p (push cmp P v q).root ≡ bit (p v) + holds p q.root)
  unfolding push
  push-IsSound v q s = (
    record {
      heap = L.insert_valid v q.root s.heap;
      counted = omega (
        arith,
        s.counted,
        holds_all q.root,
        holds_all (P.insert (singleton cmp P v) q.root),
        L.insert_content v q.root (λ _. true) s.heap,
      );
    },
    λ p. L.insert_content v q.root p s.heap,
  )

  pub push_range-IsSound :
      (vs : List A) (q : PriorityQueue E A)
      → IsSound IsValid q
      → IsSound IsValid (push_range cmp P vs q)
        × ((p : A → Bool) → holds p (push_range cmp P vs q).root ≡ count p vs + holds p q.root)
  unfolding push_range
  push_range-IsSound [] q s = (s, λ p. omega arith)
  push_range-IsSound (v ∷ vs) q s =
      let one = push-IsSound v q s in
      let rest = push_range-IsSound vs (push cmp P v q) one.0 in
      (rest.0, λ p. omega (arith, one.1 p, rest.1 p))

  pub top_some :
      (q : PriorityQueue E A)
      → IsSound IsValid q
      → empty q ≡ false
      → (v : A) × (top cmp P q ≡ some v)
  unfolding top
  top_some q s e =
      let (v, found) = L.top_some q.root s.heap (nonempty-ne-null q s e) in (v, rw e found)

  pub pop-some :
      (q : PriorityQueue E A) (v : A)
      → IsSound IsValid q
      → top cmp P q ≡ some v
      → (r : PriorityQueue E A) × (pop cmp P q ≡ some r)
        × IsSound IsValid r
        × ((p : A → Bool) → holds p q.root ≡ bit (p v) + holds p r.root)
        × AllIn (λ x. cmp v x ≡ false) q.root
  unfolding top pop
  pop-some q v s e = elim (Bool-cases (empty q)) [
    | inl f ↦ absurd (none-ne-some v (rw f at e))
    | inr f ↦
        let found : P.top q.root ≡ some v = rw f at e in
        let (r, out, valid, content) = L.extract_some q.root v s.heap found in
        (
          record q { root = r; count = q.count - 1 },
          rw (f, out),
          record {
            heap = valid;
            counted = omega (arith, s.counted, holds_all q.root, holds_all r, content (λ _. true));
          },
          content,
          L.top_greatest q.root v s.heap found,
        )
  ]

  pub join-IsSound :
      (q other : PriorityQueue E A)
      → IsSound IsValid q
      → IsSound IsValid other
      → IsSound IsValid (join cmp P q other).0
        × IsSound IsValid (join cmp P q other).1
        × ((p : A → Bool)
            → holds p (join cmp P q other).0.root ≡ holds p q.root + holds p other.root)
        × ((join cmp P q other).1 ≡ empty_queue)
  unfolding join count_nodes
  join-IsSound q other s t = (
    record {
      heap = L.join_valid q.root other.root s.heap t.heap;
      counted = omega (
        arith,
        s.counted,
        t.counted,
        holds_all q.root,
        holds_all other.root,
        holds_all (P.join q.root other.root),
        L.join_content q.root other.root (λ _. true) s.heap t.heap,
      );
    },
    record { heap = L.null_valid; counted = refl },
    λ p. L.join_content q.root other.root p s.heap t.heap,
    refl,
  )
