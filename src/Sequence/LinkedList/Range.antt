-- ===== src/Sequence/LinkedList/Range.antt =====
-- The copies, sizes and ranges of include/chaistl/containers/sequence/list.hpp that link node by node.
use chaistl.Common.{
  ◌≡◌, refl, sym, ap, ◌∙◌, arith, ℕ, zero, suc, ◌+◌, ◌-◌, ltb, List, [], ◌∷◌, ◌++◌, Option, some,
  none, length, append_assoc, append_nil, if◌then◌else◌,
}
use chaistl.Sort.Base.{rev_onto, first_part, last_part}
use chaistl.Sequence.LinkedList.{
  LinkedList, new, empty, link_nodes, emplace_front, emplace_back, pop_back,
}
use chaistl.Sequence.LinkedList.Splice.{link_nodes-append}

module _ {ℓ} {A : Type ℓ} where
  -- `append_range(range)`
  unfoldable pub append_range : List A → LinkedList A → LinkedList A
  unfolding emplace_back
  append_range [] t = t
  append_range (x ∷ range) t = append_range range (emplace_back x t)

  -- `prepend_range(range)`
  unfoldable pub prepend_range : List A → LinkedList A → LinkedList A
  unfolding emplace_front
  prepend_range [] t = t
  prepend_range (x ∷ range) t = prepend_range range (emplace_front x t)

  -- `list(other)`
  unfoldable pub copy : LinkedList A → LinkedList A
  unfolding append_range
  copy other = append_range other.nodes new

  -- The first loop of `resize(count, value)`, which is at the end once there are so many nodes more.
  unfoldable pub grow : ℕ → A → LinkedList A → LinkedList A
  unfolding emplace_back
  grow zero value t = t
  grow (suc more) value t = grow more value (emplace_back value t)

  -- The second loop of `resize(count, value)`.
  unfoldable pub shrink : ℕ → LinkedList A → Option (LinkedList A)
  unfolding pop_back
  shrink zero t = some t
  shrink (suc fewer) t = elim (pop_back t) [ none ↦ none | some u ↦ shrink fewer u ]

  -- `resize(count, value)`
  unfoldable pub resize : ℕ → A → LinkedList A → Option (LinkedList A)
  unfolding grow shrink
  resize n value t =
      if ltb t.size n then some (grow (n - t.size) value t) else shrink (t.size - n) t

  -- `swap(other)`, which redirects the links of the neighbours of both headers.
  unfoldable pub swap : LinkedList A → LinkedList A → LinkedList A × LinkedList A
  unfolding empty
  swap this other =
      let this_nodes = if empty other then [] else other.nodes in
      let other_nodes = if empty this then [] else this.nodes in
      (
        record { nodes = this_nodes; size = other.size },
        record { nodes = other_nodes; size = this.size },
      )

  -- `operator=(other)` with an allocator that does not propagate: a copy is made and swapped in.
  unfoldable pub assign_copy : LinkedList A → LinkedList A → LinkedList A
  unfolding copy swap
  assign_copy other this = (swap this (copy other)).0

  nodes-emplace_back : (x : A) (t : LinkedList A) → (emplace_back x t).nodes ≡ t.nodes ++ (x ∷ [])
  unfolding emplace_back
  nodes-emplace_back x t =
      ap (link_nodes (length t.nodes) (x ∷ [])) (sym (append_nil t.nodes))
      ∙ link_nodes-append t.nodes (x ∷ []) []

  nodes-append_range :
      (range : List A) (t : LinkedList A)
      → ((append_range range t).nodes ≡ t.nodes ++ range)
        × ((append_range range t).size ≡ t.size + length range)
  unfolding append_range
  nodes-append_range [] t = (sym (append_nil t.nodes), omega arith)
  nodes-append_range (x ∷ range) t =
      let rest = nodes-append_range range (emplace_back x t) in
      (
        rest.0
            ∙ ap (λ xs. xs ++ range) (nodes-emplace_back x t)
            ∙ append_assoc t.nodes (x ∷ []) range,
        rest.1 ∙ omega (arith, counted x t),
      )
    where
      counted : (x : A) (t : LinkedList A) → (emplace_back x t).size ≡ t.size + 1
      counted x t = refl

  pub nodes-copy :
      (other : LinkedList A)
      → ((copy other).nodes ≡ other.nodes) × ((copy other).size ≡ length other.nodes)
  unfolding copy
  nodes-copy other = let r = nodes-append_range other.nodes new in (r.0, omega (arith, r.1))

  -- The range is put in front in reverse order.
  pub nodes-prepend_range :
      (range : List A) (t : LinkedList A) → (prepend_range range t).nodes ≡ rev_onto range t.nodes
  unfolding prepend_range emplace_front rev_onto link_nodes first_part last_part
  nodes-prepend_range [] t = refl
  nodes-prepend_range (x ∷ range) t =
      nodes-prepend_range range (emplace_front x t) ∙ ap (rev_onto range) (front t.nodes)
    where
      front : (xs : List A) → link_nodes 0 (x ∷ []) xs ≡ x ∷ xs
      front [] = refl
      front (y ∷ xs) = refl
