-- ===== src/Tree/Search/Insert.antt =====
-- The insert positions of include/chaistl/containers/tree/algorithm.hpp.
use chaistl.Common.{
  Bool, true, false, ◌≡◌, refl, sym, ap, ◌∙◌, arith, List, [], ◌∷◌, ◌++◌, Option, some, none, All,
  Bool-cases, inl, inr, append_nil, append_assoc, if◌then◌else◌,
}
use chaistl.Order.{IsStrictWeak}
use chaistl.Sort.Base.{IsSorted, All-mono, All-append, All-equal}
use chaistl.Tree.Node.{
  Tree, null, node, Frame, from_left, from_right, Place, root_of, subtree, elements, plug, before,
  after, elements_before, node_predecessor,
}
use chaistl.Tree.Node.Order.{elements-plug}
use chaistl.Tree.Node.Step.{StepsBack, node_predecessor-StepsBack}
use chaistl.Tree.Search.{
  InsertPosition, existing, attach, descend, unique_pos_at, get_insert_unique_pos,
  get_insert_equal_pos,
}
use chaistl.Tree.Search.Bound.{IsMonotone, All-split, IsSorted-split, sorted-IsMonotone}
use chaistl.Tree.Search.Laws.{by_key, greater, greater_keeps}

module _ {ℓ κ} {E : Type 0} {A : Type ℓ} {K : Type κ} (kov : A → K) (comp : K → K → Bool) where
  -- The slot of the upper bound of a key: the key is less than no element before it, and less than
  -- all behind it.
  pub record IsUpperSlot (key : K) (t : Tree E A) (slot : List (Frame E A)) : Type ℓ where
    pub in_tree : plug slot null ≡ t
    pub lower : All (λ x. greater kov comp key x ≡ false) (before slot)
    pub upper : All (λ x. greater kov comp key x ≡ true) (after slot)

  descend-IsUpperSlot :
      (key : K) (t : Tree E A) (above : List (Frame E A))
      → IsMonotone (greater kov comp key) t
      → All (λ x. greater kov comp key x ≡ false) (before above)
      → All (λ x. greater kov comp key x ≡ true) (after above)
      → IsUpperSlot key (plug above t) (descend kov comp key t above)
  unfolding descend plug before after
  descend-IsUpperSlot key null above m b a = record { in_tree = refl; lower = b; upper = a }
  descend-IsUpperSlot key (node l v e r) above m b a = elim (Bool-cases (comp key (kov v))) [
    | inl h ↦
        let up = All-append _ (elements r) (after above) (m.0 h) a in
        rw h (descend-IsUpperSlot key l (from_left v e r ∷ above) m.2 b (h, up))
    | inr h ↦
        let low = All-append _ (elements l) (v ∷ []) (m.1 h) (h, tt) in
        rw h (
          descend-IsUpperSlot key r (from_right l v e ∷ above) m.3
            (All-append _ (before above) _ b low) a)
  ]

  -- A free slot for the key strictly between its neighbours.
  pub record IsFreeSlot (key : K) (t : Tree E A) (slot : List (Frame E A)) : Type ℓ where
    pub in_tree : plug slot null ≡ t
    pub lower : All (λ x. comp (kov x) key ≡ true) (before slot)
    pub upper : All (λ x. comp key (kov x) ≡ true) (after slot)

  pub record IsDuplicate (key : K) (t : Tree E A) (x : Place E A) : Type ℓ where
    pub in_tree : root_of x ≡ t
    pub not_less : comp (kov x.value) key ≡ false
    pub not_greater : comp key (kov x.value) ≡ false

  -- What `get_insert_unique_pos` answers.
  abbrev pub IsUniquePosition : K → Tree E A → InsertPosition E A → Type ℓ
  IsUniquePosition key t (existing x) = IsDuplicate key t x
  IsUniquePosition key t (attach slot) = IsFreeSlot key t slot

module _ {ℓ κ} {A : Type ℓ} {K : Type κ} (kov : A → K) {comp : K → K → Bool}
    (o : IsStrictWeak comp) where
  -- The key is above all that stands before an element it is above.
  below-All :
      (key : K) (v : A) (xs : List A)
      → comp (kov v) key ≡ true
      → All (λ x. comp (kov v) (kov x) ≡ false) xs
      → All (λ x. comp (kov x) key ≡ true) xs
  below-All key v xs h q =
      All-mono xs (λ x k. ground (arith, h, k, o.neg_trans (kov v) (kov x) key)) q

module _ {ℓ κ} {E : Type 0} {A : Type ℓ} {K : Type κ} (kov : A → K) {comp : K → K → Bool}
    (o : IsStrictWeak comp) where
  -- On a tree in order, get_insert_equal_pos gives a free slot of the tree behind every element that
  -- is not greater than the key and before every element that is greater.
  pub get_insert_equal_pos-IsUpperSlot :
      (key : K) (t : Tree E A)
      → IsSorted (by_key kov comp) (elements t)
      → (slot : List (Frame E A)) × (get_insert_equal_pos kov comp key t ≡ attach slot)
        × IsUpperSlot kov comp key t slot
  unfolding get_insert_equal_pos plug before after
  get_insert_equal_pos-IsUpperSlot key t s =
      let mono = sorted-IsMonotone _ _ t (greater_keeps kov o key) s in
      (_, refl, descend-IsUpperSlot kov comp key t [] mono tt tt)

  -- The last element before a slot of the upper bound decides: below the key, the slot is free.
  slot_free :
      (key : K) (t : Tree E A) (slot : List (Frame E A)) (xs : List A) (v : A)
      → IsSorted (by_key kov comp) (elements t)
      → IsUpperSlot kov comp key t slot
      → before slot ≡ xs ++ (v ∷ [])
      → comp (kov v) key ≡ true
      → IsFreeSlot kov comp key t slot
  unfolding elements
  slot_free key t slot xs v s u q h =
      let whole : elements t ≡ xs ++ (v ∷ after slot) =
        sym (ap elements u.in_tree)
        ∙ elements-plug slot null
        ∙ ap (λ b. b ++ after slot) q
        ∙ append_assoc xs (v ∷ []) (after slot) in
      let sorted : IsSorted (by_key kov comp) (xs ++ (v ∷ after slot)) = rw (sym whole) s in
      let around = IsSorted-split (by_key kov comp) xs (after slot) v sorted in
      record {
        in_tree = u.in_tree;
        lower =
            All-equal _ _ _ (sym q)
              (All-append _ xs (v ∷ []) (below-All kov o key v xs h around.2) (h, tt));
        upper = u.upper;
      }

  -- It is never greater than the key.
  slot_last :
      (key : K) (t : Tree E A) (slot : List (Frame E A)) (xs : List A) (v : A)
      → IsUpperSlot kov comp key t slot
      → before slot ≡ xs ++ (v ∷ [])
      → comp key (kov v) ≡ false
  slot_last key t slot xs v u q = (All-split _ xs (v ∷ []) (All-equal _ _ _ q u.lower)).1.0

  unique_pos_at-IsUniquePosition :
      (key : K) (t : Tree E A) (slot : List (Frame E A))
      → IsSorted (by_key kov comp) (elements t)
      → IsUpperSlot kov comp key t slot
      → IsUniquePosition kov comp key t (unique_pos_at kov comp key slot)
  unfolding unique_pos_at before root_of subtree plug elements_before elements
  unique_pos_at-IsUniquePosition key t [] s u = record {
    in_tree = u.in_tree;
    lower = tt;
    upper = u.upper;
  }
  unique_pos_at-IsUniquePosition key t (from_right l v e ∷ above) s u =
      let slot = from_right l v e ∷ above in
      let q = sym (append_assoc (before above) (elements l) (v ∷ [])) in
      elim (Bool-cases (comp (kov v) key)) [
        | inl h ↦ rw h (slot_free key t slot _ v s u q h)
        | inr h ↦ rw h (record {
          in_tree = u.in_tree;
          not_less = h;
          not_greater = slot_last key t slot _ v u q;
        })
      ]
  unique_pos_at-IsUniquePosition key t (from_left v e r ∷ above) s u =
      at_pred
        (node_predecessor (record { left = null; value = v; ext = e; right = r; above = above }))
        (node_predecessor-StepsBack
          (record { left = null; value = v; ext = e; right = r; above = above }))
    where
      at_pred :
          (pred : Option (Place E A))
          → StepsBack (record { left = null; value = v; ext = e; right = r; above = above }) pred
          → IsUniquePosition kov comp key t (elim pred as (λ _. InsertPosition E A) [
            | none ↦ attach (from_left v e r ∷ above)
            | some x ↦
                if comp (kov x.value) key then attach (from_left v e r ∷ above) else existing x
          ])
      at_pred none h = record {
        in_tree = u.in_tree;
        lower = All-equal _ [] _ (sym (sym (append_nil (before above)) ∙ h)) tt;
        upper = u.upper;
      }
      at_pred (some x) adjacent =
          let slot = from_left v e r ∷ above in
          let q = sym (append_nil (before above)) ∙ adjacent.next_before in
          elim (Bool-cases (comp (kov x.value) key)) [
            | inl h ↦ rw h (slot_free key t slot _ x.value s u q h)
            | inr h ↦ rw h (record {
              in_tree = sym adjacent.same_tree ∙ u.in_tree;
              not_less = h;
              not_greater = slot_last key t slot _ x.value u q;
            })
          ]

  -- On a tree in order, get_insert_unique_pos gives either a node of the tree with a key equivalent to
  -- the key, or a free slot of the tree with every element before it less than the key and every
  -- element behind it greater.
  pub get_insert_unique_pos-IsUniquePosition :
      (key : K) (t : Tree E A)
      → IsSorted (by_key kov comp) (elements t)
      → IsUniquePosition kov comp key t (get_insert_unique_pos kov comp key t)
  unfolding get_insert_unique_pos plug before after
  get_insert_unique_pos-IsUniquePosition key t s =
      let mono = sorted-IsMonotone _ _ t (greater_keeps kov o key) s in
      unique_pos_at-IsUniquePosition key t _ s (descend-IsUpperSlot kov comp key t [] mono tt tt)
