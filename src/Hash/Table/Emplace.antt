-- ===== src/Hash/Table/Emplace.antt =====
-- The other insertions of unique keys of include/chaistl/containers/hash/hash_table.hpp, its counts, and
-- its bucket interface.
use chaistl.Common.{
  Bool, true, false, ◌≡◌, refl, sym, ap, ℕ, ◌+◌, ltb, Option, some, none, length, if◌then◌else◌,
}
use chaistl.Hash.Policy.{Load}
use chaistl.Hash.Table.{
  HashNode, HashTable, find, find_node, next_in_order, bucket_at, bucket_index_for, link_unique,
  insert_unique, insert_node_unique,
}

module _ {ℓ} {A : Type ℓ} where
  -- `bucket_size(index)`
  unfoldable pub bucket_size : ℕ → HashTable A → Option ℕ
  unfolding bucket_at
  bucket_size index t =
      if ltb index (length t.buckets) then some (length (bucket_at index t.buckets)) else none

module _ {ℓ κ} {A : Type ℓ} {K : Type κ} (kov : A → K) (hasher : K → ℕ)
    (key_equal : K → K → Bool) where
  -- `bucket(key)`
  unfoldable pub bucket : K → HashTable A → Option ℕ
  unfolding bucket_index_for
  bucket key t = if ltb 0 (length t.buckets) then some (bucket_index_for (hasher key) t) else none

  -- `count(key)`
  unfoldable pub count_unique : K → HashTable A → ℕ
  unfolding find
  count_unique key t = elim (find kov hasher key_equal key t) [ none ↦ 0 | some n ↦ 1 ]

  -- `equal_range(key)`: two iterators.
  unfoldable pub equal_range : K → HashTable A → Option (HashNode A) × Option (HashNode A)
  unfolding find next_in_order
  equal_range key t = elim (find kov hasher key_equal key t) [
    | none ↦ (none, none)
    | some n ↦ (some n, next_in_order n.address t.order)
  ]

module _ {ℓ κ} {A : Type ℓ} {K : Type κ} (kov : A → K) (hasher : K → ℕ) (key_equal : K → K → Bool)
    (load : Load) where
  -- `emplace_unique(args...)`, whose node is created first, also when it is destroyed again.
  unfoldable pub emplace_unique : A → HashTable A → Option (HashTable A × HashNode A × Bool)
  unfolding find_node link_unique
  emplace_unique value t =
      let code = hasher (kov value) in
      let node : HashNode A = record {
        address = t.next_address;
        cached_hash = code;
        value = value;
      } in
      let created : HashTable A = record t { next_address = t.next_address + 1 } in
      elim (find_node kov hasher key_equal code (kov value) created) [
        | some existing ↦ some (created, existing, false)
        | none ↦ elim (link_unique kov hasher key_equal load node created) [
          | none ↦ none
          | some u ↦ some (u, node, true)
        ]
      ]

  -- `try_emplace_unique(key, args...)` and `insert_transparent_unique(key)`: the value is made of the key
  -- on a miss only.
  unfoldable pub try_emplace_unique :
      (K → A) → K → HashTable A → Option (HashTable A × HashNode A × Bool)
  unfolding find_node link_unique
  try_emplace_unique make key t =
      let code = hasher key in
      elim (find_node kov hasher key_equal code key t) [
        | some existing ↦ some (t, existing, false)
        | none ↦
            let node : HashNode A = record {
              address = t.next_address;
              cached_hash = code;
              value = make key;
            } in
            elim (link_unique kov hasher key_equal load node
              (record t { next_address = t.next_address + 1 })) [
                | none ↦ none
                | some u ↦ some (u, node, true)
              ]
      ]

  -- For values that have the keys they are made of, try_emplace_unique is the insertion of the value.
  pub try_emplace_unique-insert_unique :
      (make : K → A)
      → ((key : K) → kov (make key) ≡ key)
      → (key : K) (t : HashTable A)
      → try_emplace_unique make key t ≡ insert_unique kov hasher key_equal load (make key) t
  unfolding try_emplace_unique insert_unique
  try_emplace_unique-insert_unique make law key t = sym (ap with_key (law key))
    where
      with_key : K → Option (HashTable A × HashNode A × Bool)
      with_key k = elim (find_node kov hasher key_equal (hasher k) k t) [
        | some existing ↦ some (t, existing, false)
        | none ↦
            let node : HashNode A = record {
              address = t.next_address;
              cached_hash = hasher k;
              value = make key;
            } in
            elim (link_unique kov hasher key_equal load node
              (record t { next_address = t.next_address + 1 })) [
                | none ↦ none
                | some u ↦ some (u, node, true)
              ]
      ]

  -- The answer of the insertion of a node, from that of the insertion of its value: the handle is empty
  -- afterwards just if the node is inserted.
  abbrev pub handle_after :
      HashNode A
      → Option (HashTable A × HashNode A × Bool)
      → Option (HashTable A × Option (HashNode A) × Bool × Option (HashNode A))
  handle_after node none = none
  handle_after node (some (u, it, inserted)) =
      some (u, some it, inserted, if inserted then none else some node)

  pub insert_node_unique-insert_unique_value :
      (node : HashNode A) (t : HashTable A)
      → insert_node_unique kov hasher key_equal load (some node) t
        ≡ handle_after node (insert_unique kov hasher key_equal load node.value t)
  unfolding insert_node_unique insert_unique
  insert_node_unique-insert_unique_value node t =
      go (find_node kov hasher key_equal (hasher (kov node.value)) (kov node.value) t) (
        link_unique kov hasher key_equal load linked
          (record t { next_address = t.next_address + 1 }))
    where
      linked : HashNode A
      linked = record {
        address = t.next_address;
        cached_hash = hasher (kov node.value);
        value = node.value;
      }

      go :
          (r : Option (HashNode A)) (l : Option (HashTable A))
          → elim r
              as (λ _. Option (HashTable A × Option (HashNode A) × Bool × Option (HashNode A))) [
                | some existing ↦ some (t, some existing, false, some node)
                | none ↦ elim l [ none ↦ none | some u ↦ some (u, some linked, true, none) ]
              ]
            ≡ handle_after node (elim r [
              | some existing ↦ some (t, existing, false)
              | none ↦ elim l [ none ↦ none | some u ↦ some (u, linked, true) ]
            ])
      go (some existing) l = refl
      go none (some u) = refl
      go none none = refl
