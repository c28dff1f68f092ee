-- ===== src/Tree/OrderStatistic/Sizes.antt =====
-- include/chaistl/containers/tree/policy/order_statistic_tree.hpp: the sizes of the subtrees, in a
-- tree and around a free place.
use chaistl.Common.{
  ℕ, ◌+◌, ◌≡◌, refl, sym, arith, List, [], ◌∷◌, ◌++◌, Bool-cases, inl, inr, length, length-append,
}
use chaistl.Tree.Node.{Tree, null, node, Frame, from_left, from_right, plug, elements}
use chaistl.Tree.OrderStatistic.{
  Ext, subtree_size_of, root_less, refresh, refresh_ancestors, rotate_left, rotate_right, rotate_up,
}

module _ {ℓ} {A : Type ℓ} where
  -- Every node knows the number of elements of its subtree.
  abbrev pub HasSizes : Tree Ext A → Type 0
  HasSizes null = Unit
  HasSizes (node l v e r) =
      (e.subtree_size ≡ length (elements l) + length (elements r) + 1) × HasSizes l × HasSizes r

  -- The subtrees beside the path to a free place do.
  abbrev pub HasSizesBeside : List (Frame Ext A) → Type 0
  HasSizesBeside [] = Unit
  HasSizesBeside (from_left v e r ∷ above) = HasSizes r × HasSizesBeside above
  HasSizesBeside (from_right l v e ∷ above) = HasSizes l × HasSizesBeside above

  -- So do the nodes on the path, for a subtree with so many elements.
  abbrev pub HasSizesAround : List (Frame Ext A) → ℕ → Type 0
  HasSizesAround [] n = Unit
  HasSizesAround (from_left v e r ∷ above) n =
      HasSizes r
      × (e.subtree_size ≡ n + length (elements r) + 1)
      × HasSizesAround above (n + length (elements r) + 1)
  HasSizesAround (from_right l v e ∷ above) n =
      HasSizes l
      × (e.subtree_size ≡ length (elements l) + n + 1)
      × HasSizesAround above (length (elements l) + n + 1)

  -- The size of a subtree is the number of its elements.
  pub subtree_size-length : (t : Tree Ext A) → HasSizes t → subtree_size_of t ≡ length (elements t)
  unfolding subtree_size_of elements
  subtree_size-length null h = refl
  subtree_size-length (node l v e r) h =
      omega (arith, h.0, length-append (elements l) (v ∷ elements r))

  pub length-node :
      (l : Tree Ext A) (v : A) (e : Ext) (r : Tree Ext A)
      → length (elements (node l v e r)) ≡ length (elements l) + length (elements r) + 1
  unfolding elements
  length-node l v e r = omega (arith, length-append (elements l) (v ∷ elements r))

  pub refresh-HasSizes :
      (l : Tree Ext A) (v : A) (e : Ext) (r : Tree Ext A)
      → HasSizes l
      → HasSizes r
      → HasSizes (refresh l v e r)
  unfolding refresh
  refresh-HasSizes l v e r h k =
      (omega (arith, subtree_size-length l h, subtree_size-length r k), h, k)

  pub elements-refresh :
      (l : Tree Ext A) (v : A) (e : Ext) (r : Tree Ext A)
      → elements (refresh l v e r) ≡ elements l ++ (v ∷ elements r)
  unfolding refresh elements
  elements-refresh l v e r = refl

  pub plug-HasSizes :
      (above : List (Frame Ext A)) (t : Tree Ext A)
      → HasSizes t
      → HasSizesAround above (length (elements t))
      → HasSizes (plug above t)
  unfolding plug
  plug-HasSizes [] t h a = h
  plug-HasSizes (from_left v e r ∷ above) t h a =
      plug-HasSizes above (node t v e r) (a.1, h, a.0) (rw (length-node t v e r) a.2)
  plug-HasSizes (from_right l v e ∷ above) t h a =
      plug-HasSizes above (node l v e t) (a.1, a.0, h) (rw (length-node l v e t) a.2)

  pub plug-HasSizesBeside :
      (above : List (Frame Ext A)) (t : Tree Ext A)
      → HasSizes (plug above t)
      → HasSizes t × HasSizesBeside above
  unfolding plug
  plug-HasSizesBeside [] t h = (h, tt)
  plug-HasSizesBeside (from_left v e r ∷ above) t h =
      let w = plug-HasSizesBeside above (node t v e r) h in (w.0.1, (w.0.2, w.1))
  plug-HasSizesBeside (from_right l v e ∷ above) t h =
      let w = plug-HasSizesBeside above (node l v e t) h in (w.0.2, (w.0.1, w.1))

  pub refresh_ancestors-HasSizesAround :
      (above : List (Frame Ext A)) (t : Tree Ext A)
      → HasSizes t
      → HasSizesBeside above
      → HasSizesAround (refresh_ancestors t above) (length (elements t))
  unfolding refresh_ancestors refresh elements
  refresh_ancestors-HasSizesAround [] t h b = tt
  refresh_ancestors-HasSizesAround (from_left v e r ∷ above) t h b =
      let sized = refresh-HasSizes t v e r h b.0 in
      let rest = refresh_ancestors-HasSizesAround above (refresh t v e r) sized b.1 in
      (b.0, sized.0, rw (sym (length-node t v e r)) rest)
  refresh_ancestors-HasSizesAround (from_right l v e ∷ above) t h b =
      let sized = refresh-HasSizes l v e t b.0 h in
      let rest = refresh_ancestors-HasSizesAround above (refresh l v e t) sized b.1 in
      (b.0, sized.0, rw (sym (length-node l v e t)) rest)

  pub same_size :
      (above : List (Frame Ext A)) (n m : ℕ)
      → n ≡ m
      → HasSizesAround above n
      → HasSizesAround above m
  same_size above n m q h = rw (sym q) h

  pub length-rotated_right :
      (l : Tree Ext A) (v : A) (e : Ext) (r : Tree Ext A) (v' : A) (e' : Ext) (r' : Tree Ext A)
      → length (elements (node l v e r)) + length (elements r') + 1
        ≡ length (elements (refresh l v e (refresh r v' e' r')))
  unfolding refresh elements
  length-rotated_right l v e r v' e' r' =
      omega
        (arith, length-node l v e r, length-node l v e (refresh r v' e' r'), length-node r v' e' r')

  pub length-rotated_left :
      (l : Tree Ext A) (v : A) (e : Ext) (r : Tree Ext A) (l' : Tree Ext A) (v' : A) (e' : Ext)
      → length (elements l') + length (elements (node l v e r)) + 1
        ≡ length (elements (refresh (refresh l' v' e' l) v e r))
  unfolding refresh elements
  length-rotated_left l v e r l' v' e' =
      omega
        (arith, length-node l v e r, length-node (refresh l' v' e' l) v e r, length-node l' v' e' l)

  pub rotate_up-HasSizes :
      (l : Tree Ext A) (v : A) (e : Ext) (r : Tree Ext A) (above : List (Frame Ext A))
      → HasSizes (node l v e r)
      → HasSizesAround above (length (elements (node l v e r)))
      → HasSizes (rotate_up (node l v e r) above)
  unfolding rotate_up rotate_left rotate_right refresh
  rotate_up-HasSizes l v e r [] h a = h
  rotate_up-HasSizes l v e r (from_left v' e' r' ∷ above) h a =
      elim (Bool-cases (root_less (node l v e r) e'.priority)) [
        | inl q ↦
            let inner = refresh-HasSizes r v' e' r' h.2 a.0 in
            rw q (
              rotate_up-HasSizes l v _ (refresh r v' e' r') above
                (refresh-HasSizes l v e (refresh r v' e' r') h.1 inner)
                (same_size above _ _ (length-rotated_right l v e r v' e' r') a.2))
        | inr q ↦ rw q (plug-HasSizes (from_left v' e' r' ∷ above) (node l v e r) h a)
      ]
  rotate_up-HasSizes l v e r (from_right l' v' e' ∷ above) h a =
      elim (Bool-cases (root_less (node l v e r) e'.priority)) [
        | inl q ↦
            let inner = refresh-HasSizes l' v' e' l a.0 h.1 in
            rw q (
              rotate_up-HasSizes (refresh l' v' e' l) v _ r above
                (refresh-HasSizes (refresh l' v' e' l) v e r inner h.2)
                (same_size above _ _ (length-rotated_left l v e r l' v' e') a.2))
        | inr q ↦ rw q (plug-HasSizes (from_right l' v' e' ∷ above) (node l v e r) h a)
      ]
