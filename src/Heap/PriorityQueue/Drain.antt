-- ===== src/Heap/PriorityQueue/Drain.antt =====
-- What a client of include/chaistl/containers/heap/priority_queue.hpp sees that calls `top` and
-- `pop` until the queue is empty.
use chaistl.Common.{
  count_all, Bool, true, false, ℕ, zero, suc, ◌≡◌, refl, sym, arith, List, [], ◌∷◌, some, none,
  count, All, length, ◌==◌, count_zero-All,
}
use chaistl.Heap.Link.{Link, null, holds}
use chaistl.Heap.Link.Order.{AllIn-holds, holds-le-count_nodes, holds_all}
use chaistl.Heap.Policy.{NodeHeapPolicy, IsLawful}
use chaistl.Heap.PriorityQueue.{
  PriorityQueue, empty_queue, push_range, from_range, top, pop, empty, size,
}
use chaistl.Heap.PriorityQueue.Laws.{
  IsSound, count_nodes_null, push_range-IsSound, top_some, pop-some,
}

empty_eq {ℓ} : {E : Type 0} {A : Type ℓ} (q : PriorityQueue E A) → empty q ≡ (q.count == 0)
unfolding empty size
empty_eq q = refl

module _ {ℓ} {E : Type 0} {A : Type ℓ} (cmp : A → A → Bool) (P : NodeHeapPolicy E A) where
  -- `while (!q.empty()) { out.push_back(q.top()); q.pop(); }`, at most so many rounds.
  unfoldable pub drain : ℕ → PriorityQueue E A → List A
  drain zero q = []
  drain (suc k) q = elim (top cmp P q) [
    | none ↦ []
    | some v ↦ elim (pop cmp P q) [ none ↦ v ∷ [] | some r ↦ v ∷ drain k r ]
  ]

  drain_step :
      (k : ℕ) (q r : PriorityQueue E A) (v : A)
      → top cmp P q ≡ some v
      → pop cmp P q ≡ some r
      → drain (suc k) q ≡ v ∷ drain k r
  unfolding drain
  drain_step k q r v t p = ground (arith, t, p)

module _ {ℓ} {A : Type ℓ} (cmp : A → A → Bool) where
  -- No value is below a later one.
  abbrev pub IsDescending : List A → Type ℓ
  IsDescending [] = Unit
  IsDescending (v ∷ vs) = All (λ x. cmp v x ≡ false) vs × IsDescending vs

module _ {ℓ} {E : Type 0} {A : Type ℓ} {cmp : A → A → Bool} {P : NodeHeapPolicy E A}
    {IsValid : Link E A → Type ℓ} (L : IsLawful cmp P IsValid) where
  pub drain_sorts :
      (k : ℕ) (q : PriorityQueue E A)
      → IsSound IsValid q
      → q.count ≡ k
      → IsDescending cmp (drain cmp P k q)
        × ((p : A → Bool) → count p (drain cmp P k q) ≡ holds p q.root)
  unfolding drain
  drain_sorts zero q s e = (tt, λ p. omega (arith, holds-le-count_nodes p q.root, s.counted))
  drain_sorts (suc k) q s e =
      let (v, greatest) = top_some L q s (ground (arith, empty_eq q)) in
      let (r, popped, sound, content, bound) = pop-some L q v s greatest in
      let fewer : r.count ≡ k = omega (
        arith,
        sound.counted,
        s.counted,
        holds_all q.root,
        holds_all r.root,
        content (λ _. true),
      ) in
      let ih = drain_sorts k r sound fewer in
      let none_above : count (cmp v) (drain cmp P k r) ≡ 0 =
        omega (arith, ih.1 (cmp v), content (cmp v), AllIn-holds (cmp v) q.root bound) in
      rw (drain_step cmp P k q r v greatest popped)
        ((count_zero-All (cmp v) _ none_above, ih.0), λ p. omega (arith, ih.1 p, content p))

  -- `from_range` followed by the loop is a sort.
  pub from_range-drain_sorts :
      (vs : List A)
      → IsDescending cmp (drain cmp P (length vs) (from_range cmp P vs))
        × ((p : A → Bool) → count p (drain cmp P (length vs) (from_range cmp P vs)) ≡ count p vs)
  unfolding from_range
  from_range-drain_sorts vs =
      let start : IsSound IsValid empty_queue = record {
        heap = L.null_valid;
        counted = sym (count_nodes_null null refl);
      } in
      let built = push_range-IsSound L vs empty_queue start in
      let q = push_range cmp P vs empty_queue in
      let full : q.count ≡ length vs =
        omega (arith, built.0.counted, holds_all q.root, built.1 (λ _. true), count_all vs) in
      let sorted = drain_sorts (length vs) q built.0 full in
      (sorted.0, λ p. omega (arith, sorted.1 p, built.1 p))
