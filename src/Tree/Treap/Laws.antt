-- ===== src/Tree/Treap/Laws.antt =====
-- include/chaistl/containers/tree/policy/treap_tree.hpp: insertion and removal keep the heap order of
-- the priorities and the in-order sequence.
use chaistl.Common.{
  ℕ, ◌≡◌, refl, ap, ◌∙◌, ltb, List, [], ◌∷◌, ◌++◌, Bool-cases, inl, inr, append_assoc,
}
use chaistl.Tree.Node.{
  Tree, null, node, Frame, from_left, from_right, Place, plug, root_of, subtree, elements, before,
  after, elements_before, elements_after, node_rotate_left, node_rotate_right,
}
use chaistl.Tree.Node.Order.{elements-plug, elements-node_rotate_left, elements-node_rotate_right}
use chaistl.Tree.Treap.{
  root_less, rotate_up, insert_and_rebalance, rotate_down, unlink_and_rebalance,
}
use chaistl.Tree.Treap.Order.{
  ltb-le, ltb-ge, AtMost, IsTreap, Under, IsTreapAround, Under-node, node-Under, AtMost-Under,
  plug-IsTreap, plug-IsTreapAround,
}

module _ {ℓ} {A : Type ℓ} where
  plug_cong :
      (above : List (Frame ℕ A)) (t u : Tree ℕ A)
      → elements t ≡ elements u
      → elements (plug above t) ≡ elements (plug above u)
  plug_cong above t u q = rw (elements-plug above t, elements-plug above u, q) refl

  elements-rotate_up :
      (n : Tree ℕ A) (above : List (Frame ℕ A))
      → elements (rotate_up n above) ≡ elements (plug above n)
  unfolding rotate_up plug
  elements-rotate_up n [] = refl
  elements-rotate_up n (from_left v p r ∷ above) = elim (Bool-cases (root_less n p)) [
    | inl h ↦ rw h (
        elements-rotate_up (node_rotate_right (node n v p r)) above
        ∙ plug_cong above _ (node n v p r) (elements-node_rotate_right (node n v p r)))
    | inr h ↦ rw h refl
  ]
  elements-rotate_up n (from_right l v p ∷ above) = elim (Bool-cases (root_less n p)) [
    | inl h ↦ rw h (
        elements-rotate_up (node_rotate_left (node l v p n)) above
        ∙ plug_cong above _ (node l v p n) (elements-node_rotate_left (node l v p n)))
    | inr h ↦ rw h refl
  ]

  -- The node that goes up is a treap, and its children stay below the parents it passes.
  rotate_up-IsTreap :
      (l : Tree ℕ A) (v : A) (p : ℕ) (r : Tree ℕ A) (above : List (Frame ℕ A))
      → IsTreap (node l v p r)
      → Under above l
      → Under above r
      → IsTreapAround above
      → IsTreap (rotate_up (node l v p r) above)
  unfolding rotate_up node_rotate_left node_rotate_right root_less plug
  rotate_up-IsTreap l v p r [] h ul ur a = h
  rotate_up-IsTreap l v p r (from_left v' p' r' ∷ above) h ul ur a = elim (Bool-cases (ltb p p')) [
    | inl e ↦ rw e (
        rotate_up-IsTreap l v p (node r v' p' r') above (h.0, (ltb-le p p' e, ((ur, h.1.1), a.0)))
          (AtMost-Under above p' l ul a.1) (Under-node above r v' p' r' a.1) a.2)
    | inr e ↦ rw e (plug-IsTreap (from_left v' p' r' ∷ above) (node l v p r) h (ltb-ge p p' e) a)
  ]
  rotate_up-IsTreap l v p r (from_right l' v' p' ∷ above) h ul ur a = elim (Bool-cases (ltb p p')) [
    | inl e ↦ rw e (
        rotate_up-IsTreap (node l' v' p' l) v p r above ((ltb-le p p' e, (a.0, (ul, h.0.1))), h.1)
          (Under-node above l' v' p' l a.1) (AtMost-Under above p' r ur a.1) a.2)
    | inr e ↦ rw e (plug-IsTreap (from_right l' v' p' ∷ above) (node l v p r) h (ltb-ge p p' e) a)
  ]

  -- What `rotate_down` leaves of two subtrees of a removed node.
  rotate_down_lem :
      (l r : Tree ℕ A)
      → IsTreap l
      → IsTreap r
      → IsTreap (rotate_down l r)
        × ((p : ℕ) → AtMost p l → AtMost p r → AtMost p (rotate_down l r))
        × (elements (rotate_down l r) ≡ elements l ++ elements r)
  unfolding rotate_down elements
  rotate_down_lem null null h k = (tt, (λ p u w. tt), refl)
  rotate_down_lem null (node b y q c) h k =
      let ih = rotate_down_lem null b tt k.0.1 in
      (((ih.1 q tt k.0.0, ih.0), k.1), (λ p u w. w), ap (λ t. t ++ (y ∷ elements c)) ih.2)
  rotate_down_lem (node a x p b) null h k =
      let ih = rotate_down_lem b null h.1.1 tt in
      (
        (h.0, (ih.1 p h.1.0 tt, ih.0)),
        (λ q u w. u),
        ap (λ t. elements a ++ (x ∷ t)) ih.2 ∙ simp append_assoc refl,
      )
  rotate_down_lem (node a x p b) (node b' y q c) h k = elim (Bool-cases (ltb p q)) [
    | inl e ↦
        let ih = rotate_down_lem b (node b' y q c) h.1.1 k in
        rw e (
          (h.0, (ih.1 p h.1.0 (ltb-le p q e), ih.0)),
          (λ d u w. u),
          ap (λ t. elements a ++ (x ∷ t)) ih.2 ∙ simp append_assoc refl,
        )
    | inr e ↦
        let ih = rotate_down_lem (node a x p b) b' h k.0.1 in
        rw e (
          ((ih.1 q (ltb-ge p q e) k.0.0, ih.0), k.1),
          (λ d u w. w),
          ap (λ t. t ++ (y ∷ elements c)) ih.2 ∙ simp append_assoc refl,
        )
  ]

  -- On a treap, insert_and_rebalance at a free slot of it, with any priority, leaves a treap whose
  -- in-order sequence has the new value at the slot.
  pub insert_and_rebalance-IsTreap :
      (x : A) (priority : ℕ) (slot : List (Frame ℕ A))
      → IsTreap (plug slot null)
      → IsTreap (insert_and_rebalance x priority slot)
        × (elements (insert_and_rebalance x priority slot) ≡ before slot ++ (x ∷ after slot))
  unfolding insert_and_rebalance elements
  insert_and_rebalance-IsTreap x priority slot h =
      let (leaf, up, around) = plug-IsTreapAround slot null h in
      let x_node = node null x priority null in
      (
        rotate_up-IsTreap null x priority null slot ((tt, tt), (tt, tt)) up up around,
        elements-rotate_up x_node slot ∙ elements-plug slot x_node,
      )

  -- On a treap, unlink_and_rebalance of one of its nodes leaves a treap whose in-order sequence has
  -- lost just that node's value.
  pub unlink_and_rebalance-IsTreap :
      (z : Place ℕ A)
      → IsTreap (root_of z)
      → IsTreap (unlink_and_rebalance z)
        × (elements (unlink_and_rebalance z) ≡ elements_before z ++ elements_after z)
  unfolding unlink_and_rebalance root_of subtree elements_before elements_after
  unlink_and_rebalance-IsTreap z h =
      let (whole, up, around) = plug-IsTreapAround z.above (node z.left z.value z.ext z.right) h in
      let down = rotate_down_lem z.left z.right whole.0.1 whole.1.1 in
      let below =
        AtMost-Under z.above z.ext _ (down.1 z.ext whole.0.0 whole.1.0)
          (node-Under z.above z.left z.value z.ext z.right up) in
      (
        plug-IsTreap z.above _ down.0 below around,
        elements-plug z.above _ ∙ rw down.2 (simp append_assoc refl),
      )
