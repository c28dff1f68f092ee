-- ===== src/Tree/Node.antt =====
-- include/chaistl/containers/tree/node.hpp: nodes, their places, and the rotations.
pub mod Order
pub mod Step
use chaistl.Common.{Bool, true, false, List, [], ◌∷◌, ◌++◌, Option, some, none, if◌then◌else◌}

-- `bst_node*` with what hangs below it: the children, the value and the policy's extension.
pub data Tree {ℓ} (E : Type 0) (A : Type ℓ) : Type ℓ where
  null : Tree E A
  node : Tree E A → A → E → Tree E A → Tree E A

-- A parent, seen from one of its children: its value, its extension and the other child.
pub data Frame {ℓ} (E : Type 0) (A : Type ℓ) : Type ℓ where
  from_left : A → E → Tree E A → Frame E A
  from_right : Tree E A → A → E → Frame E A

-- `bst_node_base*` to a node of a tree.
pub record Place {ℓ} (E : Type 0) (A : Type ℓ) : Type ℓ where
  pub left : Tree E A
  pub value : A
  pub ext : E
  pub right : Tree E A
  pub above : List (Frame E A)

module _ {ℓ} {E : Type 0} {A : Type ℓ} where
  -- The whole tree, from a subtree and the frames above it.
  unfoldable pub plug : List (Frame E A) → Tree E A → Tree E A
  plug [] t = t
  plug (from_left v e r ∷ above) t = plug above (node t v e r)
  plug (from_right l v e ∷ above) t = plug above (node l v e t)

  unfoldable pub subtree : Place E A → Tree E A
  subtree x = node x.left x.value x.ext x.right

  -- `header.parent` of the tree that the node is in.
  unfoldable pub root_of : Place E A → Tree E A
  unfolding plug subtree
  root_of x = plug x.above (subtree x)

  unfoldable pub elements : Tree E A → List A
  elements null = []
  elements (node l v e r) = elements l ++ (v ∷ elements r)

  -- The elements of the whole tree before a subtree, and after it.
  unfoldable pub before : List (Frame E A) → List A
  unfolding elements
  before [] = []
  before (from_left v e r ∷ above) = before above
  before (from_right l v e ∷ above) = before above ++ (elements l ++ (v ∷ []))

  unfoldable pub after : List (Frame E A) → List A
  unfolding elements
  after [] = []
  after (from_left v e r ∷ above) = v ∷ (elements r ++ after above)
  after (from_right l v e ∷ above) = after above

  unfoldable pub elements_before : Place E A → List A
  unfolding before elements
  elements_before x = before x.above ++ elements x.left

  unfoldable pub elements_after : Place E A → List A
  unfolding after elements
  elements_after x = elements x.right ++ after x.above

  -- `node_minimum(x)`, for the node with these parts.
  unfoldable pub node_minimum : Tree E A → A → E → Tree E A → List (Frame E A) → Place E A
  node_minimum null v e r above = record {
    left = null;
    value = v;
    ext = e;
    right = r;
    above = above;
  }
  node_minimum (node l' v' e' r') v e r above = node_minimum l' v' e' r' (from_left v e r ∷ above)

  -- `node_maximum(x)`, for the node with these parts.
  unfoldable pub node_maximum : Tree E A → A → E → Tree E A → List (Frame E A) → Place E A
  node_maximum l v e null above = record {
    left = l;
    value = v;
    ext = e;
    right = null;
    above = above;
  }
  node_maximum l v e (node l' v' e' r') above = node_maximum l' v' e' r' (from_right l v e ∷ above)

  -- The walk up of `node_successor`: to the first parent whose left subtree the walk is in.
  unfoldable pub up_to_successor : Tree E A → List (Frame E A) → Option (Place E A)
  up_to_successor t [] = none
  up_to_successor t (from_left v e r ∷ above) =
      some (record { left = t; value = v; ext = e; right = r; above = above })
  up_to_successor t (from_right l v e ∷ above) = up_to_successor (node l v e t) above

  -- `node_successor(x)`
  unfoldable pub node_successor : Place E A → Option (Place E A)
  unfolding node_minimum up_to_successor subtree
  node_successor x = elim x.right [
    | null ↦ up_to_successor (subtree x) x.above
    | node l v e r ↦ some (node_minimum l v e r (from_right x.left x.value x.ext ∷ x.above))
  ]

  -- The walk up of `node_predecessor`.
  unfoldable pub up_to_predecessor : Tree E A → List (Frame E A) → Option (Place E A)
  up_to_predecessor t [] = none
  up_to_predecessor t (from_right l v e ∷ above) =
      some (record { left = l; value = v; ext = e; right = t; above = above })
  up_to_predecessor t (from_left v e r ∷ above) = up_to_predecessor (node t v e r) above

  -- `node_predecessor(x)` of a node: `none` at `begin()`, where the source leaves the tree.
  unfoldable pub node_predecessor : Place E A → Option (Place E A)
  unfolding node_maximum up_to_predecessor subtree
  node_predecessor x = elim x.left [
    | null ↦ up_to_predecessor (subtree x) x.above
    | node l v e r ↦ some (node_maximum l v e r (from_left x.value x.ext x.right ∷ x.above))
  ]

  -- `node_rotate_left(x, root)`, on the subtree at `x`: it needs a right child.
  unfoldable pub node_rotate_left : Tree E A → Tree E A
  node_rotate_left (node a x e (node b y e' c)) = node (node a x e b) y e' c
  node_rotate_left t = t

  -- `node_rotate_right(x, root)`, on the subtree at `x`: it needs a left child.
  unfoldable pub node_rotate_right : Tree E A → Tree E A
  node_rotate_right (node (node a y e' b) x e c) = node a y e' (node b x e c)
  node_rotate_right t = t
