-- ===== src/Tree/Hint/Equal.antt =====
-- `get_insert_hint_equal_pos` of include/chaistl/containers/tree/algorithm.hpp keeps the order.
use chaistl.Common.{
  Bool, false, not, ◌≡◌, ◌⊎◌, inl, inr, sym, ◌∙◌, List, [], ◌∷◌, ◌++◌, Option, some, none, All,
  Bool-cases, if◌then◌else◌,
}
use chaistl.Order.{IsStrictWeak}
use chaistl.Sort.Base.{IsSorted, All-mono, All-append, All-equal}
use chaistl.Tree.Node.{
  Tree, null, node, Frame, Place, root_of, elements, plug, before, after, elements_before,
  elements_after, node_predecessor, node_successor, node_maximum,
}
use chaistl.Tree.Node.Order.{node_maximum_lem}
use chaistl.Tree.Node.Step.{
  StepsBack, StepsForward, Adjacent, node_predecessor-StepsBack, node_successor-StepsForward,
}
use chaistl.Tree.Search.{InsertPosition, existing, attach, get_insert_equal_pos}
use chaistl.Tree.Search.Bound.{IsSorted-split}
use chaistl.Tree.Search.Laws.{by_key}
use chaistl.Tree.Search.Insert.{get_insert_equal_pos-IsUpperSlot}
use chaistl.Tree.Hint.{left_slot, right_slot, slot_between, get_insert_hint_equal_pos}
use chaistl.Tree.Hint.Slots.{
  IsHint, SlotAt, FreeBefore, FreeAfter, node_predecessor-FreeBefore, node_successor-FreeAfter,
  first-SlotAt, last-SlotAt, slot_between-SlotAt,
}
use chaistl.Tree.Hint.Laws.{IsSorted-at}

-- No search refuses a key here.
pub record Refused {ℓ} : Type ℓ where
  pub impossible : ⊥

module _ {ℓ κ} {E : Type 0} {A : Type ℓ} {K : Type κ} (kov : A → K) (comp : K → K → Bool) where
  -- A free slot where the key fits in order: it is less than nothing before the slot, and nothing
  -- behind the slot is less than it.
  pub record IsFittingSlot (key : K) (t : Tree E A) (slot : List (Frame E A)) : Type ℓ where
    pub in_tree : plug slot null ≡ t
    pub lower : All (λ x. comp key (kov x) ≡ false) (before slot)
    pub upper : All (λ x. comp (kov x) key ≡ false) (after slot)

  -- What `get_insert_hint_equal_pos` answers: it never refuses.
  abbrev pub IsFitting : K → Tree E A → InsertPosition E A → Type ℓ
  IsFitting key t (existing x) = Refused
  IsFitting key t (attach slot) = IsFittingSlot key t slot

module _ {ℓ κ} {E : Type 0} {A : Type ℓ} {K : Type κ} (kov : A → K) {comp : K → K → Bool}
    (o : IsStrictWeak comp) where
  not_below_up_to :
      (key : K) (t : Tree E A) (x : Place E A)
      → root_of x ≡ t
      → IsSorted (by_key kov comp) (elements t)
      → comp key (kov x.value) ≡ false
      → All (λ y. comp key (kov y) ≡ false) (elements_before x ++ (x.value ∷ []))
  not_below_up_to key t x q s h =
      let around =
        IsSorted-split _ (elements_before x) (elements_after x) x.value
          (IsSorted-at kov o t x q s) in
      All-append _ (elements_before x) (x.value ∷ [])
        (All-mono (elements_before x) (λ y k. o.neg_trans key (kov x.value) (kov y) h k) around.2)
        (h, tt)

  not_above_from :
      (key : K) (t : Tree E A) (x : Place E A)
      → root_of x ≡ t
      → IsSorted (by_key kov comp) (elements t)
      → comp (kov x.value) key ≡ false
      → All (λ y. comp (kov y) key ≡ false) (x.value ∷ elements_after x)
  not_above_from key t x q s h =
      let around =
        IsSorted-split _ (elements_before x) (elements_after x) x.value
          (IsSorted-at kov o t x q s) in
      (h, All-mono (elements_after x) (λ y k. o.neg_trans (kov y) (kov x.value) key k h) around.3)

  fitting_of :
      (key : K) (t u : Tree E A) (slot : List (Frame E A)) (front back : List A)
      → u ≡ t
      → SlotAt u slot front back
      → All (λ y. comp key (kov y) ≡ false) front
      → All (λ y. comp (kov y) key ≡ false) back
      → IsFittingSlot kov comp key t slot
  fitting_of key t u slot front back q at l g = record {
    in_tree = at.in_tree ∙ q;
    lower = All-equal _ front (before slot) (sym at.is_before) l;
    upper = All-equal _ back (after slot) (sym at.is_after) g;
  }

  between_equal :
      (key : K) (t : Tree E A) (x y : Place E A)
      → root_of x ≡ t
      → root_of y ≡ t
      → IsSorted (by_key kov comp) (elements t)
      → Adjacent x y
      → (x.right ≡ null) ⊎ (y.left ≡ null)
      → comp key (kov x.value) ≡ false
      → comp (kov y.value) key ≡ false
      → IsFitting kov comp key t (slot_between x y)
  between_equal key t x y q r s n free h g =
      let (slot, e, at) = slot_between-SlotAt x y n free in
      rw e (
        fitting_of key t (root_of x) slot _ _ q at (not_below_up_to key t x q s h)
          (not_above_from key t y r s g))

  -- The branch of a key that is not above the hint.
  at_left_equal :
      (key : K) (t : Tree E A) (hint : Place E A) (pred : Option (Place E A))
      (search : InsertPosition E A)
      → root_of hint ≡ t
      → IsSorted (by_key kov comp) (elements t)
      → StepsBack hint pred
      → FreeBefore hint pred
      → comp (kov hint.value) key ≡ false
      → IsFitting kov comp key t search
      → IsFitting kov comp key t (elim pred as (λ _. InsertPosition E A) [
        | none ↦ attach (left_slot hint)
        | some b ↦ if not (comp key (kov b.value)) then slot_between b hint else search
      ])
  at_left_equal key t hint none search q s step free g k =
      fitting_of key t (root_of hint) _ _ _ q (first-SlotAt hint step) tt
        (not_above_from key t hint q s g)
  at_left_equal key t hint (some b) search q s step free g k =
      elim (Bool-cases (comp key (kov b.value))) [
        | inl h ↦ rw h k
        | inr h ↦ rw h (between_equal key t b hint (sym step.same_tree ∙ q) q s step free h g)
      ]

  -- The branch of a key above the hint.
  at_right_equal :
      (key : K) (t : Tree E A) (hint : Place E A) (next : Option (Place E A))
      (search : InsertPosition E A)
      → root_of hint ≡ t
      → IsSorted (by_key kov comp) (elements t)
      → StepsForward hint next
      → FreeAfter hint next
      → comp key (kov hint.value) ≡ false
      → IsFitting kov comp key t search
      → IsFitting kov comp key t (elim next as (λ _. InsertPosition E A) [
        | none ↦ attach (right_slot hint)
        | some a ↦ if not (comp (kov a.value) key) then slot_between hint a else search
      ])
  at_right_equal key t hint none search q s step free h k =
      fitting_of key t (root_of hint) _ _ _ q (last-SlotAt hint step)
        (not_below_up_to key t hint q s h) tt
  at_right_equal key t hint (some a) search q s step free h k =
      elim (Bool-cases (comp (kov a.value) key)) [
        | inl g ↦ rw g k
        | inr g ↦ rw g (between_equal key t hint a q (step.same_tree ∙ q) s step free h g)
      ]

  -- The last node in order, which the header knows.
  at_end_equal :
      (key : K) (t : Tree E A) (search : InsertPosition E A)
      → IsSorted (by_key kov comp) (elements t)
      → IsFitting kov comp key t search
      → IsFitting kov comp key t (elim t as (λ _. InsertPosition E A) [
        | null ↦ search
        | node l v e r ↦
            let last = node_maximum l v e r [] in
            if not (comp key (kov last.value)) then attach (right_slot last) else search
      ])
  unfolding plug after
  at_end_equal key null search s k = k
  at_end_equal key (node l v e r) search s k =
      let last = node_maximum l v e r [] in
      let m = node_maximum_lem l v e r [] in
      elim (Bool-cases (comp key (kov last.value))) [
        | inl h ↦ rw h k
        | inr h ↦ rw h (
            fitting_of key (node l v e r) (root_of last) _ _ _ m.0 (last-SlotAt last m.1)
              (not_below_up_to key (node l v e r) last m.0 s h) tt)
      ]

  equal_pos-IsFitting :
      (key : K) (t : Tree E A)
      → IsSorted (by_key kov comp) (elements t)
      → IsFitting kov comp key t (get_insert_equal_pos kov comp key t)
  equal_pos-IsFitting key t s =
      let (slot, e, up) = get_insert_equal_pos-IsUpperSlot kov o key t s in
      rw e (record {
        in_tree = up.in_tree;
        lower = up.lower;
        upper = All-mono (after slot) (λ x h. o.asym key (kov x) h) up.upper;
      })

  -- On a tree in order, get_insert_hint_equal_pos, with the header or any node of the tree as the
  -- hint, gives a free slot of the tree where the key is less than nothing before the slot and nothing
  -- behind the slot is less than the key.
  pub get_insert_hint_equal_pos-IsFitting :
      (key : K) (t : Tree E A) (hint : Option (Place E A))
      → IsHint t hint
      → IsSorted (by_key kov comp) (elements t)
      → IsFitting kov comp key t (get_insert_hint_equal_pos kov comp key t hint)
  unfolding get_insert_hint_equal_pos
  get_insert_hint_equal_pos-IsFitting key t none q s =
      at_end_equal key t _ s (equal_pos-IsFitting key t s)
  get_insert_hint_equal_pos-IsFitting key t (some hint) q s =
      let search = equal_pos-IsFitting key t s in
      elim (Bool-cases (comp (kov hint.value) key)) [
        | inr g ↦ rw g (
            at_left_equal key t hint (node_predecessor hint) _ q s (node_predecessor-StepsBack hint)
              (node_predecessor-FreeBefore hint) g search)
        | inl g ↦ rw g (
            at_right_equal key t hint (node_successor hint) _ q s (node_successor-StepsForward hint)
              (node_successor-FreeAfter hint) (o.asym (kov hint.value) key g) search)
      ]
