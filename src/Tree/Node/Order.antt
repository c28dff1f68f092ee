-- ===== src/Tree/Node/Order.antt =====
-- The in-order sequence of a tree of include/chaistl/containers/tree/node.hpp, and what keeps it.
use chaistl.Common.{append_nil, append_assoc, ◌≡◌, refl, sym, ◌∙◌, List, [], ◌∷◌, ◌++◌}
use chaistl.Tree.Node.{
  Tree, null, node, Frame, from_left, from_right, Place, plug, subtree, root_of, elements, before,
  after, elements_before, elements_after, node_minimum, node_maximum, node_rotate_left,
  node_rotate_right,
}

module _ {ℓ} {E : Type 0} {A : Type ℓ} where
  pub elements-plug :
      (above : List (Frame E A)) (t : Tree E A)
      → elements (plug above t) ≡ before above ++ (elements t ++ after above)
  unfolding plug elements before after
  elements-plug [] t = sym (append_nil (elements t))
  elements-plug (from_left v e r ∷ above) t =
      rw (elements-plug above (node t v e r)) (simp append_assoc refl)
  elements-plug (from_right l v e ∷ above) t =
      rw (elements-plug above (node l v e t)) (simp append_assoc refl)

  pub elements-node_rotate_left : (t : Tree E A) → elements (node_rotate_left t) ≡ elements t
  unfolding node_rotate_left elements
  elements-node_rotate_left null = refl
  elements-node_rotate_left (node a x e null) = refl
  elements-node_rotate_left (node a x e (node b y e' c)) =
      append_assoc (elements a) (x ∷ elements b) (y ∷ elements c)

  pub elements-node_rotate_right : (t : Tree E A) → elements (node_rotate_right t) ≡ elements t
  unfolding node_rotate_right elements
  elements-node_rotate_right null = refl
  elements-node_rotate_right (node null x e c) = refl
  elements-node_rotate_right (node (node a y e' b) x e c) =
      sym (append_assoc (elements a) (y ∷ elements b) (x ∷ elements c))

  -- Where a place is in the in-order sequence of its tree.
  pub elements-root_of :
      (x : Place E A) → elements (root_of x) ≡ elements_before x ++ (x.value ∷ elements_after x)
  unfolding root_of subtree elements_before elements_after elements
  elements-root_of x =
      rw (elements-plug x.above (node x.left x.value x.ext x.right)) (simp append_assoc refl)

  -- The node that node_minimum gives is a node of the same tree, with nothing new before it.
  pub node_minimum_lem :
      (l : Tree E A) (v : A) (e : E) (r : Tree E A) (above : List (Frame E A))
      → (root_of (node_minimum l v e r above) ≡ plug above (node l v e r))
        × (elements_before (node_minimum l v e r above) ≡ before above)
        × ((node_minimum l v e r above).value ∷ elements_after (node_minimum l v e r above)
            ≡ elements (node l v e r) ++ after above)
  unfolding node_minimum root_of subtree elements_before elements_after elements before after plug
  node_minimum_lem null v e r above = (refl, append_nil (before above), refl)
  node_minimum_lem (node l' v' e' r') v e r above =
      let ih = node_minimum_lem l' v' e' r' (from_left v e r ∷ above) in
      (ih.0, ih.1, ih.2 ∙ simp append_assoc refl)

  pub node_maximum_lem :
      (l : Tree E A) (v : A) (e : E) (r : Tree E A) (above : List (Frame E A))
      → (root_of (node_maximum l v e r above) ≡ plug above (node l v e r))
        × (elements_after (node_maximum l v e r above) ≡ after above)
        × (elements_before (node_maximum l v e r above) ++ ((node_maximum l v e r above).value ∷ [])
            ≡ before above ++ elements (node l v e r))
  unfolding node_maximum root_of subtree elements_before elements_after elements before after plug
  node_maximum_lem l v e null above =
      (refl, refl, append_assoc (before above) (elements l) (v ∷ []))
  node_maximum_lem l v e (node l' v' e' r') above =
      let ih = node_maximum_lem l' v' e' r' (from_right l v e ∷ above) in
      (ih.0, ih.1, ih.2 ∙ simp append_assoc refl)
