-- ===== src/Tree/OrderStatistic/Laws.antt =====
-- include/chaistl/containers/tree/policy/order_statistic_tree.hpp: insertion and removal keep the
-- sizes right.
use chaistl.Common.{
  ℕ, ◌≡◌, refl, ap, ◌∙◌, arith, ltb, List, [], ◌∷◌, ◌++◌, Bool-cases, inl, inr, append_assoc,
}
use chaistl.Tree.Node.{
  Tree, null, node, Frame, from_left, from_right, Place, plug, root_of, subtree, elements, before,
  after, elements_before, elements_after,
}
use chaistl.Tree.Node.Order.{elements-plug}
use chaistl.Tree.OrderStatistic.{
  Ext, root_less, refresh, refresh_ancestors, rotate_left, rotate_right, rotate_up,
  insert_and_rebalance, rotate_down, unlink_and_rebalance,
}
use chaistl.Tree.OrderStatistic.Sizes.{
  HasSizes, refresh-HasSizes, elements-refresh, plug-HasSizes, plug-HasSizesBeside,
  refresh_ancestors-HasSizesAround, rotate_up-HasSizes,
}

module _ {ℓ} {A : Type ℓ} where
  -- The in-order sequence under the same steps.
  plug-elements :
      (above : List (Frame Ext A)) (t u : Tree Ext A)
      → elements t ≡ elements u
      → elements (plug above t) ≡ elements (plug above u)
  plug-elements above t u q = rw (elements-plug above t, elements-plug above u, q) refl

  elements-rotate_right : (t : Tree Ext A) → elements (rotate_right t) ≡ elements t
  unfolding rotate_right refresh elements
  elements-rotate_right null = refl
  elements-rotate_right (node null x e c) = refl
  elements-rotate_right (node (node a y e' b) x e c) = simp append_assoc refl

  elements-rotate_left : (t : Tree Ext A) → elements (rotate_left t) ≡ elements t
  unfolding rotate_left refresh elements
  elements-rotate_left null = refl
  elements-rotate_left (node a x e null) = refl
  elements-rotate_left (node a x e (node b y e' c)) = simp append_assoc refl

  elements-rotate_up :
      (n : Tree Ext A) (above : List (Frame Ext A))
      → elements (rotate_up n above) ≡ elements (plug above n)
  unfolding rotate_up plug
  elements-rotate_up n [] = refl
  elements-rotate_up n (from_left v e r ∷ above) = elim (Bool-cases (root_less n e.priority)) [
    | inl h ↦ rw h (
        elements-rotate_up (rotate_right (node n v e r)) above
        ∙ plug-elements above _ (node n v e r) (elements-rotate_right (node n v e r)))
    | inr h ↦ rw h refl
  ]
  elements-rotate_up n (from_right l v e ∷ above) = elim (Bool-cases (root_less n e.priority)) [
    | inl h ↦ rw h (
        elements-rotate_up (rotate_left (node l v e n)) above
        ∙ plug-elements above _ (node l v e n) (elements-rotate_left (node l v e n)))
    | inr h ↦ rw h refl
  ]

  around-refresh_ancestors :
      (above : List (Frame Ext A)) (t : Tree Ext A)
      → (before (refresh_ancestors t above) ≡ before above)
        × (after (refresh_ancestors t above) ≡ after above)
  unfolding refresh_ancestors refresh before after
  around-refresh_ancestors [] t = (refl, refl)
  around-refresh_ancestors (from_left v e r ∷ above) t =
      let ih = around-refresh_ancestors above (refresh t v e r) in
      (ih.0, ap (λ a. v ∷ (elements r ++ a)) ih.1)
  around-refresh_ancestors (from_right l v e ∷ above) t =
      let ih = around-refresh_ancestors above (refresh l v e t) in
      (ap (λ b. b ++ (elements l ++ (v ∷ []))) ih.0, ih.1)

  -- On a tree whose sizes are right, insert_and_rebalance at a free slot leaves a tree whose sizes are
  -- right and whose in-order sequence has the new value at the slot.
  pub insert_and_rebalance-HasSizes :
      (x : A) (priority : ℕ) (slot : List (Frame Ext A))
      → HasSizes (plug slot null)
      → HasSizes (insert_and_rebalance x priority slot)
        × (elements (insert_and_rebalance x priority slot) ≡ before slot ++ (x ∷ after slot))
  unfolding insert_and_rebalance elements
  insert_and_rebalance-HasSizes x priority slot h =
      let e : Ext = record { priority = priority; subtree_size = 1 } in
      let leaf = node null x e null in
      let sized : HasSizes leaf = (omega arith, tt, tt) in
      let around =
        refresh_ancestors-HasSizesAround slot leaf sized (plug-HasSizesBeside slot null h).1 in
      let same = around-refresh_ancestors slot leaf in
      (
        rotate_up-HasSizes null x e null (refresh_ancestors leaf slot) sized around,
        elements-rotate_up leaf (refresh_ancestors leaf slot)
            ∙ elements-plug (refresh_ancestors leaf slot) leaf
            ∙ rw (same.0, same.1) refl,
      )

  rotate_down_lem :
      (l r : Tree Ext A)
      → HasSizes l
      → HasSizes r
      → HasSizes (rotate_down l r) × (elements (rotate_down l r) ≡ elements l ++ elements r)
  unfolding rotate_down elements
  rotate_down_lem null null h k = (tt, refl)
  rotate_down_lem null (node b y q c) h k =
      let ih = rotate_down_lem null b tt k.1 in
      (
        refresh-HasSizes (rotate_down null b) y q c ih.0 k.2,
        elements-refresh (rotate_down null b) y q c ∙ ap (λ t. t ++ (y ∷ elements c)) ih.1,
      )
  rotate_down_lem (node a x p b) null h k =
      let ih = rotate_down_lem b null h.2 tt in
      (
        refresh-HasSizes a x p (rotate_down b null) h.1 ih.0,
        elements-refresh a x p (rotate_down b null)
            ∙ ap (λ t. elements a ++ (x ∷ t)) ih.1
            ∙ simp append_assoc refl,
      )
  rotate_down_lem (node a x p b) (node b' y q c) h k =
      elim (Bool-cases (ltb p.priority q.priority)) [
        | inl e ↦
            let ih = rotate_down_lem b (node b' y q c) h.2 k in
            rw e (
              refresh-HasSizes a x p _ h.1 ih.0,
              elements-refresh a x p (rotate_down b (node b' y q c))
                  ∙ ap (λ t. elements a ++ (x ∷ t)) ih.1
                  ∙ simp append_assoc refl,
            )
        | inr e ↦
            let ih = rotate_down_lem (node a x p b) b' h k.1 in
            rw e (
              refresh-HasSizes _ y q c ih.0 k.2,
              elements-refresh (rotate_down (node a x p b) b') y q c
                  ∙ ap (λ t. t ++ (y ∷ elements c)) ih.1
                  ∙ simp append_assoc refl,
            )
      ]

  -- On a tree whose sizes are right, unlink_and_rebalance of one of its nodes leaves a tree whose sizes
  -- are right and whose in-order sequence has lost just that node's value.
  pub unlink_and_rebalance-HasSizes :
      (z : Place Ext A)
      → HasSizes (root_of z)
      → HasSizes (unlink_and_rebalance z)
        × (elements (unlink_and_rebalance z) ≡ elements_before z ++ elements_after z)
  unfolding unlink_and_rebalance root_of subtree elements_before elements_after
  unlink_and_rebalance-HasSizes z h =
      let (whole, beside) = plug-HasSizesBeside z.above (node z.left z.value z.ext z.right) h in
      let down = rotate_down_lem z.left z.right whole.1 whole.2 in
      let below = rotate_down z.left z.right in
      let around = refresh_ancestors-HasSizesAround z.above below down.0 beside in
      let same = around-refresh_ancestors z.above below in
      (
        plug-HasSizes (refresh_ancestors below z.above) below down.0 around,
        elements-plug (refresh_ancestors below z.above) below
            ∙ rw (same.0, same.1, down.1) (simp append_assoc refl),
      )
