-- ===== src/Hash/Table.antt =====
-- include/chaistl/containers/hash/hash_table.hpp over the prime rehash policy, for unique keys.
--
-- A node is linked in two structures, the list of all nodes in the order of their insertion and the
-- chain of its bucket; both have it with its address, its cached hash and its value. An address is
-- the number of nodes that were created before the node. A failed CHAI_HARDENED check is `none`.
pub mod Chains
pub mod Invariant
pub mod Grow
pub mod Insert
pub mod Erase
pub mod Clear
pub mod Copy
pub mod Merge
pub mod Emplace
use chaistl.Common.{
  Bool, true, false, not, ◌&&◌, ◌==◌, ℕ, zero, suc, ◌+◌, ◌-◌, ◌/◌, ltb, leb, List, [], ◌∷◌, ◌++◌,
  Option, some, none, length, if◌then◌else◌,
}
use chaistl.Hash.Policy.{Load, next_bucket_count, bucket_for_hash, need_rehash}

-- `hash_node`
pub record HashNode {ℓ} (A : Type ℓ) : Type ℓ where
  pub address : ℕ
  pub cached_hash : ℕ
  pub value : A

pub record HashTable {ℓ} (A : Type ℓ) : Type ℓ where
  pub buckets : List (List (HashNode A))
  pub order : List (HashNode A)
  pub count : ℕ
  pub next_address : ℕ

module _ {ℓ} {B : Type ℓ} where
  -- `buckets()[i]`
  unfoldable pub bucket_at : ℕ → List (List B) → List B
  bucket_at i [] = []
  bucket_at zero (c ∷ cs) = c
  bucket_at (suc i) (c ∷ cs) = bucket_at i cs

  unfoldable pub set_bucket : ℕ → List B → List (List B) → List (List B)
  set_bucket i chain [] = []
  set_bucket zero chain (c ∷ cs) = chain ∷ cs
  set_bucket (suc i) chain (c ∷ cs) = c ∷ set_bucket i chain cs

  -- `allocate_bucket_array(count)`
  unfoldable pub allocate_bucket_array : ℕ → List (List B)
  allocate_bucket_array zero = []
  allocate_bucket_array (suc n) = [] ∷ allocate_bucket_array n

module _ {ℓ} {A : Type ℓ} where
  -- The search for a node through a chain or through the order list, and the cut.
  unfoldable pub unlink : ℕ → List (HashNode A) → List (HashNode A)
  unlink address [] = []
  unlink address (n ∷ ns) =
      let rest = unlink address ns in if n.address == address then ns else n ∷ rest

  -- `node->next_in_order`
  unfoldable pub next_in_order : ℕ → List (HashNode A) → Option (HashNode A)
  next_in_order address [] = none
  next_in_order address (n ∷ []) = none
  next_in_order address (n ∷ m ∷ ns) =
      let rest = next_in_order address (m ∷ ns) in if n.address == address then some m else rest

  -- `bucket_index_for(code)`
  unfoldable pub bucket_index_for : ℕ → HashTable A → ℕ
  unfolding bucket_for_hash
  bucket_index_for code t = bucket_for_hash code (length t.buckets)

  -- The loop of `rebuild_bucket_array`, which walks the order list backwards.
  unfoldable pub relink : List (HashNode A) → List (List (HashNode A)) → List (List (HashNode A))
  unfolding bucket_for_hash bucket_at set_bucket
  relink [] bs = bs
  relink (n ∷ ns) bs =
      let cs = relink ns bs in
      let i = bucket_for_hash n.cached_hash (length bs) in set_bucket i (n ∷ bucket_at i cs) cs

  -- `rebuild_bucket_array(new_bucket_count)`
  unfoldable pub rebuild_bucket_array : ℕ → HashTable A → HashTable A
  unfolding relink allocate_bucket_array
  rebuild_bucket_array new_bucket_count t = record t {
    buckets = relink t.order (allocate_bucket_array new_bucket_count);
  }

  -- `link_node_at_bucket_head(node, code)`, with `link_order_tail(node)`
  unfoldable pub link_node_at_bucket_head : HashNode A → HashTable A → HashTable A
  unfolding bucket_index_for bucket_at set_bucket
  link_node_at_bucket_head node t =
      let i = bucket_index_for node.cached_hash t in
      record t {
        buckets = set_bucket i (node ∷ bucket_at i t.buckets) t.buckets;
        order = t.order ++ (node ∷ []);
        count = t.count + 1;
      }

  -- `link_node_at_bucket_tail(node, code, tail_link)` and `link_node(node, code)`
  unfoldable pub link_node_at_bucket_tail : HashNode A → HashTable A → HashTable A
  unfolding bucket_index_for bucket_at set_bucket
  link_node_at_bucket_tail node t =
      let i = bucket_index_for node.cached_hash t in
      record t {
        buckets = set_bucket i (bucket_at i t.buckets ++ (node ∷ [])) t.buckets;
        order = t.order ++ (node ∷ []);
        count = t.count + 1;
      }

  -- `unlink_node(node)`
  unfoldable pub unlink_node : HashNode A → HashTable A → HashTable A
  unfolding bucket_index_for bucket_at set_bucket unlink
  unlink_node node t =
      let i = bucket_index_for node.cached_hash t in
      record t {
        buckets = set_bucket i (unlink node.address (bucket_at i t.buckets)) t.buckets;
        order = unlink node.address t.order;
        count = t.count - 1;
      }

  -- `clear_sparse_nodes()`: the heads of the buckets that have nodes are reset.
  unfoldable pub reset_heads :
      List (HashNode A) → List (List (HashNode A)) → List (List (HashNode A))
  unfolding bucket_for_hash set_bucket
  reset_heads [] bs = bs
  reset_heads (n ∷ ns) bs =
      reset_heads ns (set_bucket (bucket_for_hash n.cached_hash (length bs)) [] bs)

  -- The loop of `clear()` over all buckets.
  unfoldable pub reset_all : List (List (HashNode A)) → List (List (HashNode A))
  reset_all [] = []
  reset_all (c ∷ cs) = [] ∷ reset_all cs

  -- `clear()`
  unfoldable pub clear : HashTable A → HashTable A
  unfolding reset_heads reset_all
  clear t =
      if ltb t.count (length t.buckets / 2)
      then record t { buckets = reset_heads t.order t.buckets; order = []; count = 0 }
      else record t { buckets = reset_all t.buckets; order = []; count = 0 }

module _ {ℓ} {A : Type ℓ} where
  -- The loop of `copy_from(other)` over the nodes of the other table: the cached hashes are used again.
  unfoldable pub copy_nodes : List (HashNode A) → HashTable A → HashTable A
  unfolding link_node_at_bucket_tail
  copy_nodes [] t = t
  copy_nodes (n ∷ ns) t =
      let node : HashNode A = record n { address = t.next_address } in
      copy_nodes ns (link_node_at_bucket_tail node (record t { next_address = t.next_address + 1 }))

  -- `copy_from(other)` of a table that owns nothing yet
  unfoldable pub copy_from : HashTable A → HashTable A
  unfolding copy_nodes allocate_bucket_array
  copy_from other = copy_nodes other.order (record {
    buckets = allocate_bucket_array (length other.buckets);
    order = [];
    count = 0;
    next_address = 0;
  })

  -- `swap(other)`, which exchanges the hash functions and the predicates too: they are the section's.
  unfoldable pub swap : HashTable A × HashTable A → HashTable A × HashTable A
  swap (this, other) = (other, this)

  -- `take_storage_from(other)` of a table that owns nothing: this table and the other.
  unfoldable pub take_storage_from : HashTable A → HashTable A × HashTable A
  take_storage_from other =
      (other, record { buckets = []; order = []; count = 0; next_address = other.next_address })

-- The loop of `minimum_bucket_count(element_count)` that repairs the rounding, for `n` turns at most.
unfoldable pub repair : Load → ℕ → ℕ → ℕ → ℕ
repair load zero element_count required = required
repair load (suc n) element_count required =
    let more = repair load n element_count (required + 1) in
    if load.exceeds element_count required then more else required

-- `minimum_bucket_count(element_count)`
unfoldable pub minimum_bucket_count : Load → ℕ → ℕ
unfolding repair
minimum_bucket_count load element_count =
    repair load load.turns element_count (load.quotient element_count)

module _ {ℓ} {A : Type ℓ} (load : Load) where
  -- `will_rehash_for_one_more()`
  unfoldable pub will_rehash_for_one_more : HashTable A → Bool
  unfolding need_rehash
  will_rehash_for_one_more t = need_rehash load t.count 1 (length t.buckets)

  -- `reserve_for_one_more()`
  unfoldable pub reserve_for_one_more : HashTable A → Option (HashTable A)
  unfolding will_rehash_for_one_more rebuild_bucket_array minimum_bucket_count next_bucket_count
  reserve_for_one_more t =
      let grown : Option (HashTable A) =
        elim (next_bucket_count (minimum_bucket_count load (t.count + 1))) [
          | none ↦ none
          | some n ↦ some (rebuild_bucket_array n t)
        ] in
      if will_rehash_for_one_more t then grown else some t

  -- `rehash(bucket_count_request)`
  unfoldable pub rehash : ℕ → HashTable A → Option (HashTable A)
  unfolding rebuild_bucket_array minimum_bucket_count next_bucket_count
  rehash bucket_count_request t =
      let least = minimum_bucket_count load t.count in
      let required = if ltb bucket_count_request least then least else bucket_count_request in
      let rebuilt : Option (HashTable A) = elim (next_bucket_count required) [
        | none ↦ none
        | some target ↦
            if target == length t.buckets then some t else some (rebuild_bucket_array target t)
      ] in
      if required == 0 then some t else rebuilt

  -- `reserve(element_count)`
  unfoldable pub reserve : ℕ → HashTable A → Option (HashTable A)
  unfolding rehash minimum_bucket_count
  reserve element_count t = rehash (minimum_bucket_count load element_count) t

module _ {ℓ κ} {A : Type ℓ} {K : Type κ} (kov : A → K) (hasher : K → ℕ)
    (key_equal : K → K → Bool) where
  -- The test of a node in `find_node` and `find_unique_insert_position`.
  abbrev pub is_match : ℕ → K → HashNode A → Bool
  is_match code key n = (n.cached_hash == code) && key_equal (kov n.value) key

  -- The loop of `find_node` and of `find_unique_insert_position` along a chain.
  unfoldable pub find_in : ℕ → K → List (HashNode A) → Option (HashNode A)
  find_in code key [] = none
  find_in code key (n ∷ ns) =
      let rest = find_in code key ns in if is_match code key n then some n else rest

  -- `find_node(code, key)`
  unfoldable pub find_node : ℕ → K → HashTable A → Option (HashNode A)
  unfolding find_in bucket_at bucket_index_for
  find_node code key t =
      let found = find_in code key (bucket_at (bucket_index_for code t) t.buckets) in
      if length t.buckets == 0 then none else found

  -- `find(key)`
  unfoldable pub find : K → HashTable A → Option (HashNode A)
  unfolding find_node
  find key t = find_node (hasher key) key t

  -- `contains(key)`
  unfoldable pub contains : K → HashTable A → Bool
  unfolding find
  contains key t = elim (find key t) [ none ↦ false | some n ↦ true ]

  -- `erase(pos)` of a node: the table and the iterator past the node.
  unfoldable pub erase : HashNode A → HashTable A → HashTable A × Option (HashNode A)
  unfolding unlink_node next_in_order
  erase node t = (unlink_node node t, next_in_order node.address t.order)

  -- `erase_key(key)`
  unfoldable pub erase_key : K → HashTable A → HashTable A × ℕ
  unfolding find unlink_node
  erase_key key t = elim (find key t) [ none ↦ (t, 0) | some n ↦ (unlink_node n t, 1) ]

  -- `extract_key(key)`: the handle has the node.
  unfoldable pub extract_key : K → HashTable A → HashTable A × Option (HashNode A)
  unfolding find unlink_node
  extract_key key t = elim (find key t) [ none ↦ (t, none) | some n ↦ (unlink_node n t, some n) ]

module _ {ℓ κ} {A : Type ℓ} {K : Type κ} (kov : A → K) (hasher : K → ℕ) (key_equal : K → K → Bool)
    (load : Load) where
  -- The end of the insertions of unique keys, after a miss: a table that must rehash gets the node at
  -- the head of its bucket, and one that need not gets it at the tail.
  unfoldable pub link_unique : HashNode A → HashTable A → Option (HashTable A)
  unfolding will_rehash_for_one_more link_node_at_bucket_head link_node_at_bucket_tail
  link_unique node t =
      let grown : Option (HashTable A) = elim (reserve_for_one_more load t) [
        | none ↦ none
        | some u ↦ some (link_node_at_bucket_head node u)
      ] in
      if will_rehash_for_one_more load t then grown else some (link_node_at_bucket_tail node t)

  -- `insert_unique(value)`: the table, the node of the iterator, and whether it is new.
  unfoldable pub insert_unique : A → HashTable A → Option (HashTable A × HashNode A × Bool)
  unfolding find_node link_unique
  insert_unique value t =
      let code = hasher (kov value) in
      elim (find_node kov hasher key_equal code (kov value) t) [
        | some existing ↦ some (t, existing, false)
        | none ↦
            let node : HashNode A = record {
              address = t.next_address;
              cached_hash = code;
              value = value;
            } in
            elim (link_unique node (record t { next_address = t.next_address + 1 })) [
              | none ↦ none
              | some u ↦ some (u, node, true)
            ]
      ]

  -- `insert_node_unique(handle)`: the table, the iterator, whether the node is inserted, and the handle
  -- afterwards. The hash is computed again, and the node gets the next address of its new table.
  unfoldable pub insert_node_unique :
      Option (HashNode A)
      → HashTable A
      → Option (HashTable A × Option (HashNode A) × Bool × Option (HashNode A))
  unfolding find_node link_unique
  insert_node_unique none t = some (t, none, false, none)
  insert_node_unique (some node) t =
      let code = hasher (kov node.value) in
      elim (find_node kov hasher key_equal code (kov node.value) t) [
        | some existing ↦ some (t, some existing, false, some node)
        | none ↦
            let linked : HashNode A = record {
              address = t.next_address;
              cached_hash = code;
              value = node.value;
            } in
            elim (link_unique linked (record t { next_address = t.next_address + 1 })) [
              | none ↦ none
              | some u ↦ some (u, some linked, true, none)
            ]
      ]

  -- The loop of `merge_unique(source)` over the nodes of the source: this table and the source. The node
  -- that changes the table gets the next address of its new table.
  unfoldable pub merge_from :
      List (HashNode A) → HashTable A → HashTable A → Option (HashTable A × HashTable A)
  unfolding insert_unique unlink_node
  merge_from [] this source = some (this, source)
  merge_from (n ∷ ns) this source = elim (insert_unique n.value this) [
    | none ↦ none
    | some (u, it, inserted) ↦
        let rest = if inserted then unlink_node n source else source in merge_from ns u rest
  ]

  -- `merge_unique(source)`
  unfoldable pub merge_unique : HashTable A → HashTable A → Option (HashTable A × HashTable A)
  unfolding merge_from
  merge_unique this source = merge_from source.order this source
