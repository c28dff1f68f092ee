-- ===== src/Tree/Hint/Laws.antt =====
-- The hinted insert positions of include/chaistl/containers/tree/algorithm.hpp keep the order.
use chaistl.Common.{
  Bool, true, ◌≡◌, ◌⊎◌, inl, inr, sym, ◌∙◌, arith, List, [], ◌∷◌, ◌++◌, Option, some, none, All,
  Bool-cases, if◌then◌else◌,
}
use chaistl.Order.{IsStrictWeak}
use chaistl.Sort.Base.{IsSorted, All-mono, All-append, All-equal}
use chaistl.Tree.Node.{
  Tree, null, node, Frame, Place, root_of, elements, plug, before, after, elements_before,
  elements_after, node_predecessor, node_successor, node_maximum,
}
use chaistl.Tree.Node.Order.{elements-root_of, node_maximum_lem}
use chaistl.Tree.Node.Step.{
  StepsBack, StepsForward, Adjacent, node_predecessor-StepsBack, node_successor-StepsForward,
}
use chaistl.Tree.Search.{InsertPosition, attach}
use chaistl.Tree.Search.Bound.{IsSorted-split}
use chaistl.Tree.Search.Laws.{by_key}
use chaistl.Tree.Search.Insert.{
  IsFreeSlot, IsUniquePosition, get_insert_unique_pos-IsUniquePosition,
}
use chaistl.Tree.Hint.{left_slot, right_slot, slot_between, get_insert_hint_unique_pos}
use chaistl.Tree.Hint.Slots.{
  IsHint, SlotAt, FreeBefore, FreeAfter, node_predecessor-FreeBefore, node_successor-FreeAfter,
  first-SlotAt, last-SlotAt, slot_between-SlotAt,
}

module _ {ℓ κ} {E : Type 0} {A : Type ℓ} {K : Type κ} (kov : A → K) {comp : K → K → Bool}
    (o : IsStrictWeak comp) where
  pub IsSorted-at :
      (t : Tree E A) (x : Place E A)
      → root_of x ≡ t
      → IsSorted (by_key kov comp) (elements t)
      → IsSorted (by_key kov comp) (elements_before x ++ (x.value ∷ elements_after x))
  IsSorted-at t x q s = rw (sym (elements-root_of x), q) s

  -- A key above a node is above all before it, and a key below a node is below all behind it.
  less_up_to :
      (key : K) (t : Tree E A) (x : Place E A)
      → root_of x ≡ t
      → IsSorted (by_key kov comp) (elements t)
      → comp (kov x.value) key ≡ true
      → All (λ y. comp (kov y) key ≡ true) (elements_before x ++ (x.value ∷ []))
  less_up_to key t x q s h =
      let around =
        IsSorted-split _ (elements_before x) (elements_after x) x.value (IsSorted-at t x q s) in
      All-append _ (elements_before x) (x.value ∷ [])
        (All-mono (elements_before x)
          (λ y k. ground (arith, h, k, o.neg_trans (kov x.value) (kov y) key)) around.2)
        (h, tt)

  greater_from :
      (key : K) (t : Tree E A) (x : Place E A)
      → root_of x ≡ t
      → IsSorted (by_key kov comp) (elements t)
      → comp key (kov x.value) ≡ true
      → All (λ y. comp key (kov y) ≡ true) (x.value ∷ elements_after x)
  greater_from key t x q s h =
      let around =
        IsSorted-split _ (elements_before x) (elements_after x) x.value (IsSorted-at t x q s) in
      (
        h,
        All-mono (elements_after x)
            (λ y k. ground (arith, h, k, o.neg_trans key (kov y) (kov x.value))) around.3,
      )

  free_of :
      (key : K) (t u : Tree E A) (slot : List (Frame E A)) (front back : List A)
      → u ≡ t
      → SlotAt u slot front back
      → All (λ y. comp (kov y) key ≡ true) front
      → All (λ y. comp key (kov y) ≡ true) back
      → IsFreeSlot kov comp key t slot
  free_of key t u slot front back q at l g = record {
    in_tree = at.in_tree ∙ q;
    lower = All-equal _ front (before slot) (sym at.is_before) l;
    upper = All-equal _ back (after slot) (sym at.is_after) g;
  }

  between_unique :
      (key : K) (t : Tree E A) (x y : Place E A)
      → root_of x ≡ t
      → root_of y ≡ t
      → IsSorted (by_key kov comp) (elements t)
      → Adjacent x y
      → (x.right ≡ null) ⊎ (y.left ≡ null)
      → comp (kov x.value) key ≡ true
      → comp key (kov y.value) ≡ true
      → IsUniquePosition kov comp key t (slot_between x y)
  between_unique key t x y q r s n free h g =
      let (slot, e, at) = slot_between-SlotAt x y n free in
      rw e (
        free_of key t (root_of x) slot _ _ q at (less_up_to key t x q s h)
          (greater_from key t y r s g))

  -- The branch of a key below the hint.
  at_left_unique :
      (key : K) (t : Tree E A) (hint : Place E A) (pred : Option (Place E A))
      (search : InsertPosition E A)
      → root_of hint ≡ t
      → IsSorted (by_key kov comp) (elements t)
      → StepsBack hint pred
      → FreeBefore hint pred
      → comp key (kov hint.value) ≡ true
      → IsUniquePosition kov comp key t search
      → IsUniquePosition kov comp key t (elim pred as (λ _. InsertPosition E A) [
        | none ↦ attach (left_slot hint)
        | some b ↦ if comp (kov b.value) key then slot_between b hint else search
      ])
  at_left_unique key t hint none search q s step free g k =
      free_of key t (root_of hint) _ _ _ q (first-SlotAt hint step) tt
        (greater_from key t hint q s g)
  at_left_unique key t hint (some b) search q s step free g k =
      elim (Bool-cases (comp (kov b.value) key)) [
        | inr h ↦ rw h k
        | inl h ↦ rw h (between_unique key t b hint (sym step.same_tree ∙ q) q s step free h g)
      ]

  -- The branch of a key above the hint.
  at_right_unique :
      (key : K) (t : Tree E A) (hint : Place E A) (next : Option (Place E A))
      (search : InsertPosition E A)
      → root_of hint ≡ t
      → IsSorted (by_key kov comp) (elements t)
      → StepsForward hint next
      → FreeAfter hint next
      → comp (kov hint.value) key ≡ true
      → IsUniquePosition kov comp key t search
      → IsUniquePosition kov comp key t (elim next as (λ _. InsertPosition E A) [
        | none ↦ attach (right_slot hint)
        | some a ↦ if comp key (kov a.value) then slot_between hint a else search
      ])
  at_right_unique key t hint none search q s step free h k =
      free_of key t (root_of hint) _ _ _ q (last-SlotAt hint step) (less_up_to key t hint q s h) tt
  at_right_unique key t hint (some a) search q s step free h k =
      elim (Bool-cases (comp key (kov a.value))) [
        | inr g ↦ rw g k
        | inl g ↦ rw g (between_unique key t hint a q (step.same_tree ∙ q) s step free h g)
      ]

  -- The last node in order, which the header knows.
  at_end_unique :
      (key : K) (t : Tree E A) (search : InsertPosition E A)
      → IsSorted (by_key kov comp) (elements t)
      → IsUniquePosition kov comp key t search
      → IsUniquePosition kov comp key t (elim t as (λ _. InsertPosition E A) [
        | null ↦ search
        | node l v e r ↦
            let last = node_maximum l v e r [] in
            if comp (kov last.value) key then attach (right_slot last) else search
      ])
  unfolding plug after
  at_end_unique key null search s k = k
  at_end_unique key (node l v e r) search s k =
      let last = node_maximum l v e r [] in
      let m = node_maximum_lem l v e r [] in
      elim (Bool-cases (comp (kov last.value) key)) [
        | inr h ↦ rw h k
        | inl h ↦ rw h (
            free_of key (node l v e r) (root_of last) _ _ _ m.0 (last-SlotAt last m.1)
              (less_up_to key (node l v e r) last m.0 s h) tt)
      ]

  -- On a tree in order, get_insert_hint_unique_pos, with the header or any node of the tree as the
  -- hint, gives either a node of the tree with a key equivalent to the key, or a free slot of the tree
  -- with every element before it less than the key and every element behind it greater.
  pub get_insert_hint_unique_pos-IsUniquePosition :
      (key : K) (t : Tree E A) (hint : Option (Place E A))
      → IsHint t hint
      → IsSorted (by_key kov comp) (elements t)
      → IsUniquePosition kov comp key t (get_insert_hint_unique_pos kov comp key t hint)
  unfolding get_insert_hint_unique_pos
  get_insert_hint_unique_pos-IsUniquePosition key t none q s =
      at_end_unique key t _ s (get_insert_unique_pos-IsUniquePosition kov o key t s)
  get_insert_hint_unique_pos-IsUniquePosition key t (some hint) q s =
      let search = get_insert_unique_pos-IsUniquePosition kov o key t s in
      elim (Bool-cases (comp key (kov hint.value))) [
        | inl g ↦ rw g (
            at_left_unique key t hint (node_predecessor hint) _ q s
              (node_predecessor-StepsBack hint) (node_predecessor-FreeBefore hint) g search)
        | inr g ↦ elim (Bool-cases (comp (kov hint.value) key)) [
          | inl h ↦
              rw (g, h)
                (at_right_unique key t hint (node_successor hint) _ q s
                  (node_successor-StepsForward hint) (node_successor-FreeAfter hint) h search)
          | inr h ↦ rw (g, h) (record { in_tree = q; not_less = h; not_greater = g })
        ]
      ]
