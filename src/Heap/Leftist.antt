-- ===== src/Heap/Leftist.antt =====
-- include/chaistl/containers/heap/policy/leftist_heap.hpp: the meldable heap with null path
-- lengths, for a comparator that returns. The extension of a node is its null path length.
pub mod Rank
pub mod Meld
pub mod Laws
use chaistl.Common.{
  Bool, false, true, not, ◌&&◌, ◌||◌, ℕ, zero, suc, ◌+◌, if◌then◌else◌, Option, some, none, ltb,
  ◌==◌,
}
use chaistl.Heap.Link.{
  Link, null, node, next_sibling, set_next, count_nodes, is_null, some_above, all_nodes,
}
use chaistl.Heap.Binary.{detach_children, set_children}
use chaistl.Heap.Policy.{NodeHeapPolicy}

module _ {ℓ} {A : Type ℓ} where
  -- `npl(node)`
  unfoldable pub npl : Link ℕ A → ℕ
  npl null = 0
  npl (node f n e v) = e

  -- `x->extension.null_path_length = r`
  unfoldable pub set_npl : Link ℕ A → ℕ → Link ℕ A
  set_npl null r = null
  set_npl (node f n e v) r = node f n r v

module _ {ℓ} {A : Type ℓ} (cmp : A → A → Bool) where
  -- The end of `meld`: the shorter null path goes to the right.
  unfoldable pub relink : Link ℕ A → Link ℕ A → Link ℕ A → Link ℕ A
  unfolding npl set_npl set_children
  relink a left right =
      let swapped = ltb (npl left) (npl right) in
      let left' : Link ℕ A = if swapped then right else left in
      let right' : Link ℕ A = if swapped then left else right in
      set_npl (set_children a left' right') (npl right' + 1)

  -- `meld(a, b, cmp)`, on fuel: the sum of the null path lengths is enough.
  unfoldable pub meld : ℕ → Link ℕ A → Link ℕ A → Link ℕ A
  unfolding detach_children relink
  meld zero a b = null
  meld (suc k) null b = b
  meld (suc k) (node fa na ea va) null = node fa na ea va
  meld (suc k) (node fa na ea va) (node fb nb eb vb) =
      let a = node fa na ea va in
      let b = node fb nb eb vb in
      let winner : Link ℕ A = if cmp va vb then b else a in
      let loser : Link ℕ A = if cmp va vb then a else b in
      let (left, right) = detach_children winner in relink winner left (meld k right loser)

  -- `join(root, other, cmp)`
  unfoldable pub join : Link ℕ A → Link ℕ A → Link ℕ A
  unfolding meld set_next npl
  join root null = root
  join null (node fb nb eb vb) = set_next (node fb nb eb vb) null
  join (node fa na ea va) (node fb nb eb vb) =
      let root = node fa na ea va in
      let other = node fb nb eb vb in set_next (meld (npl root + npl other) root other) null

  -- `insert(node, root, cmp)`
  unfoldable pub insert : Link ℕ A → Link ℕ A → Link ℕ A
  unfolding join set_npl
  insert x root = join root (set_npl x 1)

  -- `top(root)`: the value of the returned node.
  unfoldable pub top : Link ℕ A → Option A
  top null = none
  top (node f n e v) = some v

  -- `extract_top(root, cmp)`: the value of the detached old root, and the new root.
  unfoldable pub extract_top : Link ℕ A → Option (A × Link ℕ A)
  unfolding meld detach_children npl set_next
  extract_top null = none
  extract_top (node f n e v) =
      let (left, right) = detach_children (node f n e v) in
      some (v, set_next (meld (npl left + npl right) left right) null)

  -- The visitor of `verify`: no third child, the null path lengths, the order.
  unfoldable pub verify_node : Link ℕ A → Bool
  unfolding some_above is_null next_sibling npl
  verify_node null = true
  verify_node (node f n e v) =
      let left = f in
      let right = next_sibling left in
      is_null (next_sibling right)
      && (not (ltb (npl left) (npl right) || not (e == npl right + 1))
          && not (some_above cmp v left))

  -- `verify(root, cmp)`
  unfoldable pub verify : Link ℕ A → Bool
  unfolding verify_node all_nodes is_null next_sibling
  verify root = is_null (next_sibling root) && all_nodes verify_node root

  -- `leftist_heap_policy`
  abbrev pub policy : NodeHeapPolicy ℕ A
  policy = record {
    fresh = 1;
    insert = insert;
    top = top;
    extract_top = extract_top;
    join = join;
    verify = verify;
  }
