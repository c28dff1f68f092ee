-- ===== src/Heap/Pairing.antt =====
-- include/chaistl/containers/heap/policy/pairing_heap.hpp: the mutable heap, for a comparator that
-- returns.
pub mod Condense
pub mod Laws
use chaistl.Common.{
  Bool, false, true, not, ◌&&◌, ℕ, ◌+◌, if◌then◌else◌, Option, some, none, List, [], ◌∷◌,
}
use chaistl.Heap.Link.{
  Link, null, node, next_sibling, set_next, link_first_child, is_null, some_above, all_nodes, Edge,
  down, across,
}
use chaistl.Heap.Policy.{NodeHeapPolicy}

module _ {ℓ} {E : Type 0} {A : Type ℓ} where
  -- `replace_in_list` with the condensed children, or `unlink_from_list` if there are none: what
  -- stands in the list at the place of the node.
  unfoldable pub close_gap : Link E A → Link E A → Link E A
  unfolding set_next
  close_gap null next = next
  close_gap (node f n e v) next = set_next (node f n e v) next

module _ {ℓ} {E : Type 0} {A : Type ℓ} (cmp : A → A → Bool) where
  -- The comparison of two detached roots: the smaller one goes under the other.
  unfoldable pub link_pair : Link E A → Link E A → Link E A
  unfolding link_first_child set_next
  link_pair a null = a
  link_pair null b = b
  link_pair (node fa na ea va) (node fb nb eb vb) =
      let a = node fa na ea va in
      let b = node fb nb eb vb in if cmp va vb then link_first_child a b else link_first_child b a

  -- `insert(node, root, cmp)`
  unfoldable pub insert : Link E A → Link E A → Link E A
  unfolding link_pair
  insert x null = x
  insert x (node f n e v) = link_pair (node f n e v) x

  -- `join(root, other, cmp)`
  unfoldable pub join : Link E A → Link E A → Link E A
  unfolding link_pair
  join root null = root
  join null other = other
  join (node fa na ea va) (node fb nb eb vb) = link_pair (node fa na ea va) (node fb nb eb vb)

  -- `top(root)`
  unfoldable pub top : Link E A → Option A
  top null = none
  top (node f n e v) = some v

  -- `pair_up_children`: melds neighbours, from the left, within the child list. The winner stays
  -- at the pair's place in the list.
  unfoldable pub pair_up_children : Link E A → Link E A
  unfolding link_first_child set_next
  pair_up_children null = null
  pair_up_children (node fa null ea va) = node fa null ea va
  pair_up_children (node fa (node fb rest eb vb) ea va) =
      let rest' = pair_up_children rest in
      if cmp va vb
      then link_first_child (node fa null ea va) (node fb rest' eb vb)
      else link_first_child (node fb null eb vb) (node fa rest' ea va)

  -- `accumulate_children`: folds what is left into one tree, from the right.
  unfoldable pub accumulate_children : Link E A → Link E A
  unfolding link_pair
  accumulate_children null = null
  accumulate_children (node f null e v) = node f null e v
  accumulate_children (node f (node fn nn en vn) e v) =
      link_pair (node f null e v) (accumulate_children (node fn nn en vn))

  -- `detach(node, root, cmp)`, the node given by its handle.
  unfoldable pub detach : List Edge → Link E A → Option (A × Link E A)
  unfolding pair_up_children accumulate_children close_gap
  detach path null = none
  detach [] (node f n e v) = some (v, close_gap (accumulate_children (pair_up_children f)) n)
  detach (down ∷ path) (node f n e v) = elim (detach path f) [
    | none ↦ none
    | some (x, f') ↦ some (x, node f' n e v)
  ]
  detach (across ∷ path) (node f n e v) = elim (detach path n) [
    | none ↦ none
    | some (x, n') ↦ some (x, node f n' e v)
  ]

  -- `extract_top(root, cmp)`
  unfoldable pub extract_top : Link E A → Option (A × Link E A)
  unfolding detach
  extract_top root = detach [] root

  -- The visitor of `verify`.
  unfoldable pub verify_node : Link E A → Bool
  unfolding some_above
  verify_node null = true
  verify_node (node f n e v) = not (some_above cmp v f)

  -- `verify(root, cmp)`, but for the back edges: the forest does not store them.
  unfoldable pub verify : Link E A → Bool
  unfolding verify_node all_nodes is_null next_sibling
  verify root = is_null (next_sibling root) && all_nodes verify_node root

  -- `pairing_heap_policy`
  abbrev pub policy : E → NodeHeapPolicy E A
  policy e = record {
    fresh = e;
    insert = insert;
    top = top;
    extract_top = extract_top;
    join = join;
    verify = verify;
  }
