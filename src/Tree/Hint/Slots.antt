-- ===== src/Tree/Hint/Slots.antt =====
-- The free slots beside a node, for the hinted insert positions of
-- include/chaistl/containers/tree/algorithm.hpp.
use chaistl.Common.{
  ◌≡◌, ◌⊎◌, inl, inr, refl, sym, ◌∙◌, List, [], ◌∷◌, ◌++◌, Option, some, none, append_assoc,
  append_nil,
}
use chaistl.Tree.Node.{
  Tree, null, node, Frame, from_left, from_right, Place, plug, subtree, root_of, elements, before,
  after, elements_before, elements_after, node_minimum, node_maximum, node_successor,
  node_predecessor,
}
use chaistl.Tree.Node.Step.{Adjacent}
use chaistl.Tree.Hint.{left_slot, right_slot, slot_between}
use chaistl.Tree.Search.{InsertPosition, attach}

module _ {ℓ} {A : Type ℓ} where
  append-ne-nil : (xs : List A) (v : A) (ys : List A) → xs ++ (v ∷ ys) ≡ [] → ⊥
  append-ne-nil [] v ys h = cc
  append-ne-nil (x ∷ xs) v ys h = cc

  append_nil_left : (xs ys : List A) → xs ++ ys ≡ [] → ys ≡ []
  append_nil_left [] ys h = h
  append_nil_left (x ∷ xs) ys h = cc

  append_nil_right : (xs ys : List A) → xs ++ ys ≡ [] → xs ≡ []
  append_nil_right [] ys h = refl
  append_nil_right (x ∷ xs) ys h = cc

module _ {ℓ} {E : Type 0} {A : Type ℓ} where
  null-ne-node :
      (l : Tree E A) (v : A) (e : E) (r : Tree E A) → ◌≡◌ {A = Tree E A} null (node l v e r) → ⊥
  null-ne-node l v e r h = cc

  elements_nil : (t : Tree E A) → elements t ≡ [] → t ≡ null
  unfolding elements
  elements_nil null h = refl
  elements_nil (node l v e r) h = absurd (append-ne-nil (elements l) v (elements r) h)

  pub node_maximum-right :
      (l : Tree E A) (v : A) (e : E) (r : Tree E A) (above : List (Frame E A))
      → (node_maximum l v e r above).right ≡ null
  unfolding node_maximum
  node_maximum-right l v e null above = refl
  node_maximum-right l v e (node l' v' e' r') above =
      node_maximum-right l' v' e' r' (from_right l v e ∷ above)

  node_minimum-left :
      (l : Tree E A) (v : A) (e : E) (r : Tree E A) (above : List (Frame E A))
      → (node_minimum l v e r above).left ≡ null
  unfolding node_minimum
  node_minimum-left null v e r above = refl
  node_minimum-left (node l' v' e' r') v e r above =
      node_minimum-left l' v' e' r' (from_left v e r ∷ above)

  -- A slot on the free side of a node.
  pub plug-left_slot : (x : Place E A) → x.left ≡ null → plug (left_slot x) null ≡ root_of x
  unfolding left_slot plug root_of subtree
  plug-left_slot x h = rw h refl

  pub plug-right_slot : (x : Place E A) → x.right ≡ null → plug (right_slot x) null ≡ root_of x
  unfolding right_slot plug root_of subtree
  plug-right_slot x h = rw h refl

  -- Whether a hint may be given for the tree: the header, or a node of it.
  abbrev pub IsHint : Tree E A → Option (Place E A) → Type ℓ
  IsHint t none = Unit
  IsHint t (some hint) = root_of hint ≡ t

  -- Of two neighbours, the first has no right child or the second has no left child.
  abbrev pub FreeBefore : Place E A → Option (Place E A) → Type ℓ
  FreeBefore y none = Unit
  FreeBefore y (some x) = (x.right ≡ null) ⊎ (y.left ≡ null)

  abbrev pub FreeAfter : Place E A → Option (Place E A) → Type ℓ
  FreeAfter x none = Unit
  FreeAfter x (some y) = (x.right ≡ null) ⊎ (y.left ≡ null)

  pub node_predecessor-FreeBefore : (y : Place E A) → FreeBefore y (node_predecessor y)
  unfolding node_predecessor
  node_predecessor-FreeBefore y = go y.left y.value y.ext y.right y.above
    where
      any :
          (v : A) (e : E) (r : Tree E A) (above : List (Frame E A)) (x : Option (Place E A))
          → FreeBefore (record { left = null; value = v; ext = e; right = r; above = above }) x
      any v e r above none = tt
      any v e r above (some x) = inr refl

      go :
          (l : Tree E A) (v : A) (e : E) (r : Tree E A) (above : List (Frame E A))
          → FreeBefore
              (record { left = l; value = v; ext = e; right = r; above = above })
              (node_predecessor (record { left = l; value = v; ext = e; right = r; above = above }))
      go null v e r above = any v e r above _
      go (node l' v' e' r') v e r above =
          inl (node_maximum-right l' v' e' r' (from_left v e r ∷ above))

  pub node_successor-FreeAfter : (x : Place E A) → FreeAfter x (node_successor x)
  unfolding node_successor
  node_successor-FreeAfter x = go x.left x.value x.ext x.right x.above
    where
      any :
          (l : Tree E A) (v : A) (e : E) (above : List (Frame E A)) (y : Option (Place E A))
          → FreeAfter (record { left = l; value = v; ext = e; right = null; above = above }) y
      any l v e above none = tt
      any l v e above (some y) = inl refl

      go :
          (l : Tree E A) (v : A) (e : E) (r : Tree E A) (above : List (Frame E A))
          → FreeAfter
              (record { left = l; value = v; ext = e; right = r; above = above })
              (node_successor (record { left = l; value = v; ext = e; right = r; above = above }))
      go l v e null above = any l v e above _
      go l v e (node l' v' e' r') above =
          inr (node_minimum-left l' v' e' r' (from_right l v e ∷ above))

  -- A free slot of a tree, with what is before it and behind it in order.
  pub record SlotAt (t : Tree E A) (slot : List (Frame E A)) (front : List A) (back : List A)
      : Type ℓ where
    pub in_tree : plug slot null ≡ t
    pub is_before : before slot ≡ front
    pub is_after : after slot ≡ back

  right_slot-SlotAt :
      (x : Place E A)
      → x.right ≡ null
      → SlotAt (root_of x) (right_slot x) (elements_before x ++ (x.value ∷ [])) (elements_after x)
  unfolding right_slot elements_before elements_after before after elements
  right_slot-SlotAt x h = record {
    in_tree = plug-right_slot x h;
    is_before = sym (append_assoc (before x.above) (elements x.left) (x.value ∷ []));
    is_after = rw h refl;
  }

  left_slot-SlotAt :
      (x : Place E A)
      → x.left ≡ null
      → SlotAt (root_of x) (left_slot x) (elements_before x) (x.value ∷ elements_after x)
  unfolding left_slot elements_before elements_after before after elements
  left_slot-SlotAt x h = record {
    in_tree = plug-left_slot x h;
    is_before = rw h (sym (append_nil (before x.above)));
    is_after = refl;
  }

  -- Left of the first node in order, and right of the last.
  pub first-SlotAt :
      (x : Place E A)
      → elements_before x ≡ []
      → SlotAt (root_of x) (left_slot x) [] (x.value ∷ elements_after x)
  unfolding elements_before
  first-SlotAt x h =
      let s = left_slot-SlotAt x (elements_nil x.left (append_nil_left (before x.above) _ h)) in
      record { in_tree = s.in_tree; is_before = s.is_before ∙ h; is_after = s.is_after }

  pub last-SlotAt :
      (x : Place E A)
      → elements_after x ≡ []
      → SlotAt (root_of x) (right_slot x) (elements_before x ++ (x.value ∷ [])) []
  unfolding elements_after
  last-SlotAt x h =
      let s = right_slot-SlotAt x (elements_nil x.right (append_nil_right _ (after x.above) h)) in
      record { in_tree = s.in_tree; is_before = s.is_before; is_after = s.is_after ∙ h }

  -- The slot between two neighbours.
  pub slot_between-SlotAt :
      (x y : Place E A)
      → Adjacent x y
      → (x.right ≡ null) ⊎ (y.left ≡ null)
      → (slot : List (Frame E A)) × (slot_between x y ≡ attach slot)
        × SlotAt (root_of x) slot (elements_before x ++ (x.value ∷ [])) (y.value ∷ elements_after y)
  unfolding slot_between
  slot_between-SlotAt x y n free = go x.right refl
    where
      go :
          (r : Tree E A)
          → x.right ≡ r
          → (slot : List (Frame E A)) × ((elim r as (λ _. InsertPosition E A) [
            | null ↦ attach (right_slot x)
            | node l v e r' ↦ attach (left_slot y)
          ])
              ≡ attach slot)
            × SlotAt
                (root_of x)
                slot
                (elements_before x ++ (x.value ∷ []))
                (y.value ∷ elements_after y)
      go null q =
          let s = right_slot-SlotAt x q in
          (
            right_slot x,
            refl,
            record {
              in_tree = s.in_tree;
              is_before = s.is_before;
              is_after = s.is_after ∙ n.next_after;
            },
          )
      go (node l v e r) q =
          let s = left_slot-SlotAt y (left_free q free) in
          (
            left_slot y,
            refl,
            record {
              in_tree = s.in_tree ∙ n.same_tree;
              is_before = s.is_before ∙ n.next_before;
              is_after = s.is_after;
            },
          )
        where
          left_free : x.right ≡ node l v e r → (x.right ≡ null) ⊎ (y.left ≡ null) → y.left ≡ null
          left_free q (inl h) = absurd (null-ne-node l v e r (sym h ∙ q))
          left_free q (inr h) = h
