-- ===== src/Tree/Node/Step.antt =====
-- `node_successor` and `node_predecessor` of include/chaistl/containers/tree/node.hpp.
use chaistl.Common.{
  ◌≡◌, refl, sym, ◌∙◌, List, [], ◌∷◌, ◌++◌, Option, some, none, append_assoc, append_nil,
}
use chaistl.Tree.Node.{
  Tree, null, node, Frame, from_left, from_right, Place, plug, subtree, root_of, elements, before,
  after, elements_before, elements_after, up_to_successor, node_successor, up_to_predecessor,
  node_predecessor,
}
use chaistl.Tree.Node.Order.{node_minimum_lem, node_maximum_lem}

module _ {ℓ} {E : Type 0} {A : Type ℓ} where
  -- `y` is a node of the tree of `x`, right behind it in order.
  pub record Adjacent (x y : Place E A) : Type ℓ where
    pub same_tree : root_of y ≡ root_of x
    pub next_before : elements_before y ≡ elements_before x ++ (x.value ∷ [])
    pub next_after : elements_after x ≡ y.value ∷ elements_after y

  -- What `++it` leaves: the node behind, or the header past the last element.
  abbrev pub StepsForward : Place E A → Option (Place E A) → Type ℓ
  StepsForward x none = elements_after x ≡ []
  StepsForward x (some y) = Adjacent x y

  -- What `--it` leaves: the node before; there is none only at the first element.
  abbrev pub StepsBack : Place E A → Option (Place E A) → Type ℓ
  StepsBack x none = elements_before x ≡ []
  StepsBack x (some y) = Adjacent y x

  -- Where the walk up from a subtree ends.
  abbrev pub UpForward : Tree E A → List (Frame E A) → Option (Place E A) → Type ℓ
  UpForward t above none = after above ≡ []
  UpForward t above (some y) =
      (root_of y ≡ plug above t)
      × (elements_before y ≡ before above ++ elements t)
      × (after above ≡ y.value ∷ elements_after y)

  abbrev UpBack : Tree E A → List (Frame E A) → Option (Place E A) → Type ℓ
  UpBack t above none = before above ≡ []
  UpBack t above (some y) =
      (root_of y ≡ plug above t)
      × (elements_after y ≡ elements t ++ after above)
      × (before above ≡ elements_before y ++ (y.value ∷ []))

  -- From a right child, the walk up goes on from the parent.
  pub UpForward-from_right :
      (l : Tree E A) (v : A) (e : E) (t : Tree E A) (above : List (Frame E A))
      (y : Option (Place E A))
      → UpForward (node l v e t) above y
      → UpForward t (from_right l v e ∷ above) y
  unfolding plug before after elements
  UpForward-from_right l v e t above none h = h
  UpForward-from_right l v e t above (some y) h = (h.0, h.1 ∙ simp append_assoc refl, h.2)

  up_to_successor-UpForward :
      (t : Tree E A) (above : List (Frame E A)) → UpForward t above (up_to_successor t above)
  unfolding up_to_successor root_of subtree elements_before elements_after before after plug
      elements
  up_to_successor-UpForward t [] = refl
  up_to_successor-UpForward t (from_left v e r ∷ above) = (refl, refl, refl)
  up_to_successor-UpForward t (from_right l v e ∷ above) =
      UpForward-from_right l v e t above (up_to_successor (node l v e t) above)
        (up_to_successor-UpForward (node l v e t) above)

  up_to_predecessor-UpBack :
      (t : Tree E A) (above : List (Frame E A)) → UpBack t above (up_to_predecessor t above)
  unfolding up_to_predecessor root_of subtree elements_before elements_after before after plug
      elements
  up_to_predecessor-UpBack t [] = refl
  up_to_predecessor-UpBack t (from_right l v e ∷ above) =
      (refl, refl, sym (append_assoc (before above) (elements l) (v ∷ [])))
  up_to_predecessor-UpBack t (from_left v e r ∷ above) =
      shift (up_to_predecessor (node t v e r) above) (up_to_predecessor-UpBack (node t v e r) above)
    where
      shift :
          (y : Option (Place E A))
          → UpBack (node t v e r) above y
          → UpBack t (from_left v e r ∷ above) y
      shift none h = h
      shift (some y) h = (h.0, h.1 ∙ simp append_assoc refl, h.2)

  -- node_successor of a node gives the node right behind it in order, a node of the same tree, or the
  -- header when no element is behind it.
  pub node_successor-StepsForward : (x : Place E A) → StepsForward x (node_successor x)
  unfolding node_successor subtree root_of elements_before elements_after elements before after plug
  node_successor-StepsForward x = go x.left x.value x.ext x.right x.above
    where
      stop :
          (l : Tree E A) (v : A) (e : E) (above : List (Frame E A)) (y : Option (Place E A))
          → UpForward (node l v e null) above y
          → StepsForward (record { left = l; value = v; ext = e; right = null; above = above }) y
      stop l v e above none h = h
      stop l v e above (some y) h = record {
        same_tree = h.0;
        next_before = h.1 ∙ sym (append_assoc (before above) (elements l) (v ∷ []));
        next_after = h.2;
      }

      go :
          (l : Tree E A) (v : A) (e : E) (r : Tree E A) (above : List (Frame E A))
          → StepsForward
              (record { left = l; value = v; ext = e; right = r; above = above })
              (node_successor (record { left = l; value = v; ext = e; right = r; above = above }))
      go l v e null above =
          let t = node l v e null in
          stop l v e above (up_to_successor t above) (up_to_successor-UpForward t above)
      go l v e (node l' v' e' r') above =
          let m = node_minimum_lem l' v' e' r' (from_right l v e ∷ above) in
          record {
            same_tree = m.0;
            next_before = m.1 ∙ sym (append_assoc (before above) (elements l) (v ∷ []));
            next_after = sym m.2;
          }

  -- node_predecessor of a node gives the node right before it in order, a node of the same tree; it
  -- gives none only when no element is before it.
  pub node_predecessor-StepsBack : (x : Place E A) → StepsBack x (node_predecessor x)
  unfolding node_predecessor subtree root_of elements_before elements_after elements before after
      plug
  node_predecessor-StepsBack x = go x.left x.value x.ext x.right x.above
    where
      stop :
          (v : A) (e : E) (r : Tree E A) (above : List (Frame E A)) (y : Option (Place E A))
          → UpBack (node null v e r) above y
          → StepsBack (record { left = null; value = v; ext = e; right = r; above = above }) y
      stop v e r above none h = append_nil (before above) ∙ h
      stop v e r above (some y) h = record {
        same_tree = sym h.0;
        next_before = append_nil (before above) ∙ h.2;
        next_after = h.1;
      }

      go :
          (l : Tree E A) (v : A) (e : E) (r : Tree E A) (above : List (Frame E A))
          → StepsBack
              (record { left = l; value = v; ext = e; right = r; above = above })
              (node_predecessor (record { left = l; value = v; ext = e; right = r; above = above }))
      go null v e r above =
          let t = node null v e r in
          stop v e r above (up_to_predecessor t above) (up_to_predecessor-UpBack t above)
      go (node l' v' e' r') v e r above =
          let m = node_maximum_lem l' v' e' r' (from_left v e r ∷ above) in
          record { same_tree = sym m.0; next_before = sym m.2; next_after = m.1 }
