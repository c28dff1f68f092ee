-- ===== src/Heap/Skew.antt =====
-- include/chaistl/containers/heap/policy/skew_heap.hpp: the self-adjusting meldable heap, for a
-- comparator that returns.
pub mod Meld
pub mod Laws
use chaistl.Common.{
  Bool, false, true, not, ◌&&◌, ◌||◌, ℕ, zero, suc, ◌+◌, if◌then◌else◌, Option, some, none,
}
use chaistl.Heap.Link.{
  Link, null, node, first_child, next_sibling, set_next, count_nodes, is_null, some_above,
  all_nodes,
}
use chaistl.Heap.Binary.{detach_children, set_children}
use chaistl.Heap.Policy.{NodeHeapPolicy}

module _ {ℓ} {E : Type 0} {A : Type ℓ} (cmp : A → A → Bool) where
  -- `meld(a, b, cmp)`, on fuel: the number of nodes of both trees is enough.
  unfoldable pub meld : ℕ → Link E A → Link E A → Link E A
  unfolding detach_children set_children
  meld zero a b = null
  meld (suc k) null b = b
  meld (suc k) (node fa na ea va) null = node fa na ea va
  meld (suc k) (node fa na ea va) (node fb nb eb vb) =
      let a = node fa na ea va in
      let b = node fb nb eb vb in
      let winner : Link E A = if cmp va vb then b else a in
      let loser : Link E A = if cmp va vb then a else b in
      let (left, right) = detach_children winner in set_children winner (meld k right loser) left

  -- `join(root, other, cmp)`
  unfoldable pub join : Link E A → Link E A → Link E A
  unfolding meld set_next count_nodes
  join root null = root
  join null (node fb nb eb vb) = set_next (node fb nb eb vb) null
  join (node fa na ea va) (node fb nb eb vb) =
      let root = node fa na ea va in
      let other = node fb nb eb vb in
      set_next (meld (count_nodes root + count_nodes other) root other) null

  -- `insert(node, root, cmp)`
  unfoldable pub insert : Link E A → Link E A → Link E A
  unfolding join
  insert x root = join root x

  -- `top(root)`: the value of the returned node.
  unfoldable pub top : Link E A → Option A
  top null = none
  top (node f n e v) = some v

  -- `extract_top(root, cmp)`: the value of the detached old root, and the new root.
  unfoldable pub extract_top : Link E A → Option (A × Link E A)
  unfolding meld detach_children count_nodes
  extract_top null = none
  extract_top (node f n e v) =
      let (left, right) = detach_children (node f n e v) in
      some (v, meld (count_nodes left + count_nodes right) left right)

  -- The visitor of `verify`: no third child, and no child above its parent.
  unfoldable pub verify_node : Link E A → Bool
  unfolding some_above is_null next_sibling
  verify_node null = true
  verify_node (node f n e v) = is_null (next_sibling (next_sibling f)) && not (some_above cmp v f)

  -- `verify(root, cmp)`
  unfoldable pub verify : Link E A → Bool
  unfolding verify_node all_nodes is_null next_sibling
  verify root = is_null (next_sibling root) && all_nodes verify_node root

  -- `skew_heap_policy`
  abbrev pub policy : E → NodeHeapPolicy E A
  policy e = record {
    fresh = e;
    insert = insert;
    top = top;
    extract_top = extract_top;
    join = join;
    verify = verify;
  }
