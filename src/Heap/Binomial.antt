-- ===== src/Heap/Binomial.antt =====
-- include/chaistl/containers/heap/policy/binomial_heap.hpp: the binary-counter heap, for a
-- comparator that returns. The extension of a node is its degree; a root list is a list of siblings.
--
-- A node pointer into the root list is the position of the node in it.
pub mod Shape
pub mod Carry
pub mod Canonical
pub mod Extract
pub mod Laws
use chaistl.Common.{
  Bool, false, true, not, ◌&&◌, ◌||◌, ℕ, zero, suc, ◌+◌, ◌-◌, if◌then◌else◌, Option, some, none,
  ltb, leb, ◌==◌,
}
use chaistl.Heap.Link.{
  Link, null, node, next_sibling, set_next, link_first_child, link_root_front, is_null, some_above,
  all_nodes,
}
use chaistl.Heap.Policy.{NodeHeapPolicy}

-- What `unlink_from_list` takes out of the root list: the node's children and value.
pub record Root {ℓ} (A : Type ℓ) : Type ℓ where
  pub children : Link ℕ A
  pub value : A

module _ {ℓ} {A : Type ℓ} where
  -- `zip_by_degree(a, b)`
  unfoldable pub zip_by_degree : Link ℕ A → Link ℕ A → Link ℕ A
  zip_by_degree null b = b
  zip_by_degree (node fa na ea va) null = node fa na ea va
  zip_by_degree (node fa na ea va) (node fb nb eb vb) = elim (leb ea eb) [
    | true ↦ node fa (zip_by_degree na (node fb nb eb vb)) ea va
    | false ↦ node fb (zip_by_degree (node fa na ea va) nb) eb vb
  ]

  -- The loop of `extract_root` that reverses the child list.
  unfoldable pub reverse_children : Link ℕ A → Link ℕ A → Link ℕ A
  reverse_children null reversed = reversed
  reverse_children (node f n e v) reversed = reverse_children n (node f reversed e v)

  -- `unlink_from_list(node, root)` for the root at a position.
  unfoldable pub unlink_root : ℕ → Link ℕ A → Option (Root A × Link ℕ A)
  unlink_root i null = none
  unlink_root zero (node f n e v) = some (record { children = f; value = v }, n)
  unlink_root (suc i) (node f n e v) = elim (unlink_root i n) [
    | none ↦ none
    | some (r, n') ↦ some (r, node f n' e v)
  ]

  -- `extract_root(node, root)`: the node's value and the relaxed root list.
  unfoldable pub extract_root : ℕ → Link ℕ A → Option (A × Link ℕ A)
  unfolding unlink_root reverse_children zip_by_degree
  extract_root i root = elim (unlink_root i root) [
    | none ↦ none
    | some (r, rest) ↦ some (r.value, zip_by_degree rest (reverse_children r.children null))
  ]

  -- The second half of the `mergeable` test: the tree after the pair has another degree.
  unfoldable pub may_merge : ℕ → Link ℕ A → Bool
  may_merge e null = true
  may_merge e (node f n e' v) = not (e' == e)

  -- `x->extension.degree = d`
  unfoldable pub set_degree : Link ℕ A → ℕ → Link ℕ A
  set_degree null d = null
  set_degree (node f n e v) d = node f n d v

  -- The first loop of `verify`: no root has a smaller degree than the root before it.
  unfoldable pub nondecreasing : Link ℕ A → Bool
  nondecreasing null = true
  nondecreasing (node f null e v) = true
  nondecreasing (node f (node f' n' e' v') e v) =
      let rest = nondecreasing (node f' n' e' v') in if ltb e' e then false else rest

module _ {ℓ} {A : Type ℓ} (cmp : A → A → Bool) where
  -- The carry pass `coalesce(root, cmp)` from the tree `cur`, given by its children, degree and
  -- value, with what follows it in the list.
  unfoldable pub coalesce_from : Link ℕ A → ℕ → A → Link ℕ A → Link ℕ A
  unfolding may_merge
  coalesce_from f e v null = node f null e v
  coalesce_from f e v (node f' after e' v') = elim (e == e' && may_merge e after) [
    | false ↦ node f (coalesce_from f' e' v' after) e v
    | true ↦ elim (cmp v v') [
      | true ↦ coalesce_from (node f f' e v) (e' + 1) v' after
      | false ↦ coalesce_from (node f' f e' v') (e + 1) v after
    ]
  ]

  -- `coalesce(root, cmp)`
  unfoldable pub coalesce : Link ℕ A → Link ℕ A
  unfolding coalesce_from
  coalesce null = null
  coalesce (node f n e v) = coalesce_from f e v n

  -- `insert(node, root, cmp)`
  unfoldable pub insert : Link ℕ A → Link ℕ A → Link ℕ A
  unfolding coalesce link_root_front set_degree
  insert x root = coalesce (link_root_front (set_degree x 0) root)

  -- The loop of `find_top(root, cmp)`: the greatest root so far with its position, the position of
  -- `cur`, and the list from `cur` on.
  unfoldable pub find_top_from : A → ℕ → ℕ → Link ℕ A → A × ℕ
  find_top_from best at i null = (best, at)
  find_top_from best at i (node f n e v) =
      let better = cmp best v in
      find_top_from (if better then v else best) (if better then i else at) (i + 1) n

  -- `find_top(root, cmp)`
  unfoldable pub find_top : Link ℕ A → Option (A × ℕ)
  unfolding find_top_from
  find_top null = none
  find_top (node f n e v) = some (find_top_from v 0 1 n)

  -- `top(root, cmp)`
  unfoldable pub top : Link ℕ A → Option A
  unfolding find_top
  top root = elim (find_top root) [ none ↦ none | some (v, i) ↦ some v ]

  -- `extract_top(root, cmp)`
  unfoldable pub extract_top : Link ℕ A → Option (A × Link ℕ A)
  unfolding find_top extract_root coalesce
  extract_top root = elim (find_top root) [
    | none ↦ none
    | some (v, i) ↦ elim (extract_root i root) [ none ↦ none | some (x, r) ↦ some (x, coalesce r) ]
  ]

  -- `join(root, other, cmp)`
  unfoldable pub join : Link ℕ A → Link ℕ A → Link ℕ A
  unfolding zip_by_degree coalesce
  join root null = root
  join root (node fb nb eb vb) = coalesce (zip_by_degree root (node fb nb eb vb))

  -- The loop over the children in `verify`'s visitor: `want` counts down, `v` is the parent.
  unfoldable pub verify_children : A → ℕ → Link ℕ A → Bool
  verify_children v want null = want == 0
  verify_children v want (node f n e w) =
      let rest = verify_children v (want - 1) n in
      if want == 0 || not (e == want - 1) || cmp v w then false else rest

  -- The visitor of `verify`.
  unfoldable pub verify_node : Link ℕ A → Bool
  unfolding verify_children
  verify_node null = true
  verify_node (node f n e v) = verify_children v e f

  -- `verify(root, cmp)`, but for links_consistent: the forest does not store the back edges.
  unfoldable pub verify : Link ℕ A → Bool
  unfolding verify_node all_nodes nondecreasing
  verify root = nondecreasing root && all_nodes verify_node root

  -- `binomial_heap_policy`
  abbrev pub policy : NodeHeapPolicy ℕ A
  policy = record {
    fresh = 0;
    insert = insert;
    top = top;
    extract_top = extract_top;
    join = join;
    verify = verify;
  }
