-- ===== src/Tree/Splay/Laws.antt =====
-- include/chaistl/containers/tree/policy/splay_tree.hpp: every operation keeps the in-order sequence,
-- and the node it touches becomes the root.
use chaistl.Common.{◌≡◌, refl, sym, ap, ◌∙◌, List, [], ◌∷◌, ◌++◌, append_assoc, append_nil}
use chaistl.Tree.Node.{
  Tree, null, node, Frame, from_left, from_right, Place, subtree, elements, before, after,
  elements_before, elements_after, node_maximum, node_rotate_left, node_rotate_right,
}
use chaistl.Tree.Node.Order.{node_maximum_lem}
use chaistl.Tree.Splay.{
  splay, insert_and_rebalance, after_access, set_right, join_subtrees, unlink_and_rebalance,
}

module _ {ℓ} {E : Type 0} {A : Type ℓ} where
  -- The tree has this value at the root, these elements before it and these behind it.
  pub record RootIs (t : Tree E A) (front : List A) (v : A) (e : E) (back : List A) : Type ℓ where
    pub left : Tree E A
    pub right : Tree E A
    pub shape : t ≡ node left v e right
    pub is_front : elements left ≡ front
    pub is_back : elements right ≡ back

  -- One more step of the walk: the subtrees of the node after it make up what was around it.
  step-RootIs :
      (t : Tree E A) (front front' : List A) (v : A) (e : E) (back back' : List A)
      → front ≡ front'
      → back ≡ back'
      → RootIs t front v e back
      → RootIs t front' v e back'
  step-RootIs t front front' v e back back' p q r = record {
    left = r.left;
    right = r.right;
    shape = r.shape;
    is_front = r.is_front ∙ p;
    is_back = r.is_back ∙ q;
  }

  splay-RootIs :
      (l : Tree E A) (v : A) (e : E) (r : Tree E A) (above : List (Frame E A))
      → RootIs
          (splay (node l v e r) above)
          (before above ++ elements l)
          v
          e
          (elements r ++ after above)
  unfolding splay node_rotate_left node_rotate_right before after elements
  splay-RootIs l v e r [] = record {
    left = l;
    right = r;
    shape = refl;
    is_front = refl;
    is_back = sym (append_nil (elements r));
  }
  splay-RootIs l v e r (from_left p pe pr ∷ []) = record {
    left = l;
    right = node r p pe pr;
    shape = refl;
    is_front = refl;
    is_back = rw (append_nil (elements pr)) refl;
  }
  splay-RootIs l v e r (from_right pl p pe ∷ []) = record {
    left = node pl p pe l;
    right = r;
    shape = refl;
    is_front = simp append_assoc refl;
    is_back = sym (append_nil (elements r));
  }
  splay-RootIs l v e r (from_left p pe pr ∷ from_left g ge gr ∷ above) =
      step-RootIs _ _ _ v e _ _ refl (simp append_assoc refl)
        (splay-RootIs l v e (node r p pe (node pr g ge gr)) above)
  splay-RootIs l v e r (from_right pl p pe ∷ from_right gl g ge ∷ above) =
      step-RootIs _ _ _ v e _ _ (simp append_assoc refl) refl
        (splay-RootIs (node (node gl g ge pl) p pe l) v e r above)
  splay-RootIs l v e r (from_right pl p pe ∷ from_left g ge gr ∷ above) =
      step-RootIs _ _ _ v e _ _ (simp append_assoc refl) (simp append_assoc refl)
        (splay-RootIs (node pl p pe l) v e (node r g ge gr) above)
  splay-RootIs l v e r (from_left p pe pr ∷ from_right gl g ge ∷ above) =
      step-RootIs _ _ _ v e _ _ (simp append_assoc refl) (simp append_assoc refl)
        (splay-RootIs (node gl g ge l) v e (node r p pe pr) above)

  -- insert_and_rebalance at a free slot leaves a tree with the new value at the root, what was before
  -- the slot in its left subtree and what was behind it in its right subtree.
  pub insert_and_rebalance-RootIs :
      (x : A) (ext : E) (slot : List (Frame E A))
      → RootIs (insert_and_rebalance x ext slot) (before slot) x ext (after slot)
  unfolding insert_and_rebalance elements
  insert_and_rebalance-RootIs x ext slot =
      step-RootIs _ _ _ x ext _ _ (append_nil (before slot)) refl
        (splay-RootIs null x ext null slot)

  -- after_access of a node makes it the root, with what was before it in its left subtree and what was
  -- behind it in its right subtree.
  pub after_access-RootIs :
      (x : Place E A) → RootIs (after_access x) (elements_before x) x.value x.ext (elements_after x)
  unfolding after_access elements_before elements_after subtree
  after_access-RootIs x = splay-RootIs x.left x.value x.ext x.right x.above

  elements-join_subtrees :
      (left right : Tree E A)
      → elements (join_subtrees left right) ≡ elements left ++ elements right
  unfolding join_subtrees elements after_access subtree set_right before
  elements-join_subtrees null right = refl
  elements-join_subtrees (node l v e r) right =
      let m = node_maximum l v e r [] in
      let top = after_access-RootIs m in
      let shape : splay (subtree m) m.above ≡ node top.left m.value m.ext top.right = top.shape in
      let whole = (node_maximum_lem l v e r []).2 in
      rw shape (
        sym (append_assoc (elements top.left) (m.value ∷ []) (elements right))
        ∙ ap (λ t. (t ++ (m.value ∷ [])) ++ elements right) top.is_front
        ∙ ap (λ t. t ++ elements right) whole)

  -- unlink_and_rebalance of a node leaves a tree whose in-order sequence has lost just that node's
  -- value.
  pub elements-unlink_and_rebalance :
      (z : Place E A) → elements (unlink_and_rebalance z) ≡ elements_before z ++ elements_after z
  unfolding unlink_and_rebalance after_access
  elements-unlink_and_rebalance z =
      let root = after_access-RootIs z in
      let shape : splay (subtree z) z.above ≡ node root.left z.value z.ext root.right =
        root.shape in
      ap
        (λ t. elements (elim t as (λ _. Tree E A) [
          | null ↦ null
          | node left v e right ↦ join_subtrees left right
        ]))
        shape
      ∙ elements-join_subtrees root.left root.right
      ∙ rw (root.is_front, root.is_back) refl
