-- ===== src/Tree/Search.antt =====
-- include/chaistl/containers/tree/algorithm.hpp: the searches from the root, and the insert positions.
--
-- `none` as a result is the header, that is end().
pub mod Bound
pub mod Laws
pub mod Find
pub mod Unique
pub mod Insert
use chaistl.Common.{Bool, true, false, not, List, [], ◌∷◌, Option, some, none, if◌then◌else◌}
use chaistl.Tree.Node.{
  Tree, null, node, Frame, from_left, from_right, Place, node_predecessor, node_minimum,
}

-- `lookup_result`
pub record LookupResult {ℓ} (E : Type 0) (A : Type ℓ) : Type ℓ where
  pub result : Option (Place E A)
  pub last_visited : Option (Place E A)

-- `insert_position`: the node with the key, or the free slot, whose first frame is the parent seen
-- from the side of the new child; no frame is the slot of the root.
pub data InsertPosition {ℓ} (E : Type 0) (A : Type ℓ) : Type ℓ where
  existing : Place E A → InsertPosition E A
  attach : List (Frame E A) → InsertPosition E A

module _ {ℓ} {E : Type 0} {A : Type ℓ} where
  -- The loop of `lower_bound_search`, `upper_bound_search` and `find_search`, by its test for going
  -- left, from the node with the frames above it.
  unfoldable pub search_from :
      (A → Bool)
      → Option (Place E A)
      → Option (Place E A)
      → Tree E A
      → List (Frame E A)
      → LookupResult E A
  search_from goes_left result last null above = record { result = result; last_visited = last }
  search_from goes_left result last (node l v e r) above =
      let here : Option (Place E A) =
        some (record { left = l; value = v; ext = e; right = r; above = above }) in
      let to_left = search_from goes_left here here l (from_left v e r ∷ above) in
      let to_right = search_from goes_left result here r (from_right l v e ∷ above) in
      if goes_left v then to_left else to_right

  -- The second half of the range of a hit: `node_minimum(root->right)`, or the remembered node.
  unfoldable pub range_end : Option (Place E A) → Tree E A → List (Frame E A) → Option (Place E A)
  unfolding node_minimum
  range_end result null above = result
  range_end result (node l v e r) above = some (node_minimum l v e r above)

module _ {ℓ κ} {E : Type 0} {A : Type ℓ} {K : Type κ} (kov : A → K) (comp : K → K → Bool) where
  -- `lower_bound_search(root, header, key, kov, comp)`
  unfoldable pub lower_bound_search :
      K → Option (Place E A) → Tree E A → List (Frame E A) → LookupResult E A
  unfolding search_from
  lower_bound_search key header root above =
      search_from (λ v. not (comp (kov v) key)) header none root above

  -- `upper_bound_search(root, header, key, kov, comp)`
  unfoldable pub upper_bound_search :
      K → Option (Place E A) → Tree E A → List (Frame E A) → LookupResult E A
  unfolding search_from
  upper_bound_search key header root above =
      search_from (λ v. comp key (kov v)) header none root above

  -- `find_search(root, header, key, kov, comp)`
  unfoldable pub find_search : K → Tree E A → LookupResult E A
  unfolding search_from
  find_search key root =
      let r = search_from (λ v. not (comp (kov v) key)) none none root [] in
      record r {
        result = elim r.result [
          | none ↦ none
          | some candidate ↦ if comp key (kov candidate.value) then none else some candidate
        ];
      }

  -- `equal_range_multi_node(root, header, key, kov, comp)`, from the node `x`.
  unfoldable pub equal_range_multi_from :
      K → Option (Place E A) → Tree E A → List (Frame E A) → Option (Place E A) × Option (Place E A)
  unfolding lower_bound_search upper_bound_search
  equal_range_multi_from key result null above = (result, result)
  equal_range_multi_from key result (node l v e r) above =
      let here : Option (Place E A) =
        some (record { left = l; value = v; ext = e; right = r; above = above }) in
      let to_right = equal_range_multi_from key result r (from_right l v e ∷ above) in
      let to_left = equal_range_multi_from key here l (from_left v e r ∷ above) in
      if comp (kov v) key then to_right else if comp key (kov v) then to_left else (
        (lower_bound_search key here l (from_left v e r ∷ above)).result,
        (upper_bound_search key result r (from_right l v e ∷ above)).result,
      )

  unfoldable pub equal_range_multi_node : K → Tree E A → Option (Place E A) × Option (Place E A)
  unfolding equal_range_multi_from
  equal_range_multi_node key root = equal_range_multi_from key none root []

  -- `equal_range_unique_node(root, header, key, kov, comp)`, from the node `root`.
  unfoldable pub equal_range_unique_from :
      K → Option (Place E A) → Tree E A → List (Frame E A) → Option (Place E A) × Option (Place E A)
  unfolding range_end
  equal_range_unique_from key result null above = (result, result)
  equal_range_unique_from key result (node l v e r) above =
      let here : Option (Place E A) =
        some (record { left = l; value = v; ext = e; right = r; above = above }) in
      let to_right = equal_range_unique_from key result r (from_right l v e ∷ above) in
      let to_left = equal_range_unique_from key here l (from_left v e r ∷ above) in
      if comp (kov v) key
      then to_right
      else if comp key (kov v)
      then to_left
      else (here, range_end result r (from_right l v e ∷ above))

  unfoldable pub equal_range_unique_node : K → Tree E A → Option (Place E A) × Option (Place E A)
  unfolding equal_range_unique_from
  equal_range_unique_node key root = equal_range_unique_from key none root []

  -- The descent of `get_insert_unique_pos` and `get_insert_equal_pos` to a free slot.
  unfoldable pub descend : K → Tree E A → List (Frame E A) → List (Frame E A)
  descend key null above = above
  descend key (node l v e r) above =
      let to_left = descend key l (from_left v e r ∷ above) in
      let to_right = descend key r (from_right l v e ∷ above) in
      if comp key (kov v) then to_left else to_right

  -- The end of `get_insert_unique_pos`, at the slot: `parent == header.left` says that no node
  -- precedes `parent`.
  unfoldable pub unique_pos_at : K → List (Frame E A) → InsertPosition E A
  unfolding node_predecessor
  unique_pos_at key [] = attach []
  unique_pos_at key (from_left v e r ∷ above) =
      elim (node_predecessor
        (record { left = null; value = v; ext = e; right = r; above = above })) [
          | none ↦ attach (from_left v e r ∷ above)
          | some pred ↦
              if comp (kov pred.value) key then attach (from_left v e r ∷ above) else existing pred
        ]
  unique_pos_at key (from_right l v e ∷ above) =
      if comp (kov v) key
      then attach (from_right l v e ∷ above)
      else existing (record { left = l; value = v; ext = e; right = null; above = above })

  -- `get_insert_unique_pos(root, header, key, kov, comp)`
  unfoldable pub get_insert_unique_pos : K → Tree E A → InsertPosition E A
  unfolding descend unique_pos_at
  get_insert_unique_pos key root = unique_pos_at key (descend key root [])

  -- `get_insert_equal_pos(root, header, key, kov, comp)`
  unfoldable pub get_insert_equal_pos : K → Tree E A → InsertPosition E A
  unfolding descend
  get_insert_equal_pos key root = attach (descend key root [])
