-- ===== src/Hash/Table/Insert.antt =====
-- The insertions of unique keys of include/chaistl/containers/hash/hash_table.hpp.
use chaistl.Common.{
  Bool, true, false, ◌&&◌, ◌==◌, ◌≡◌, refl, sym, ap, ◌∙◌, arith, ℕ, ◌+◌, ◌<◌, ◌≤◌, List, [], ◌∷◌,
  ◌++◌, Option, some, none, length, length-append, count, count-append, count_none, count_mono, map,
  if◌then◌else◌, Bool-cases, inl, inr,
}
use chaistl.Sort.Base.{All-append}
use chaistl.Hash.Policy.{Load, max_bucket_count, need_rehash}
use chaistl.Hash.Table.{
  HashNode, HashTable, bucket_index_for, bucket_at, link_node_at_bucket_head,
  link_node_at_bucket_tail, link_unique, insert_unique, find, will_rehash_for_one_more,
  minimum_bucket_count,
}
use chaistl.Hash.Table.Chains.{Linked, link-Linked, length-set_bucket}
use chaistl.Hash.Table.Invariant.{IsKeyEqual, IsTable, IsFound, has_key, values, find-IsFound}
use chaistl.Hash.Table.Grow.{reserve_for_one_more-Grows}

-- A node that a table can take: its hash is right, and it is not in the table.
pub record IsNewNode {ℓ κ} {A : Type ℓ} {K : Type κ} (kov : A → K) (hasher : K → ℕ)
    (key_equal : K → K → Bool) (t : HashTable A) (x : HashNode A) : Type ℓ where
  pub hashed : x.cached_hash ≡ hasher (kov x.value)
  pub created : x.address < t.next_address
  pub not_linked : count (λ y. y.address == x.address) t.order ≡ 0
  pub new_key : count (has_key kov key_equal (kov x.value)) t.order ≡ 0

module _ {ℓ κ} {A : Type ℓ} {K : Type κ} (kov : A → K) {hasher : K → ℕ} {key_equal : K → K → Bool}
    (eq : IsKeyEqual hasher key_equal) where
  -- A table with the invariant keeps it with a new node behind its order list.
  append-IsTable :
      (t u : HashTable A) (x : HashNode A)
      → IsTable kov hasher key_equal t
      → IsNewNode kov hasher key_equal t x
      → u.order ≡ t.order ++ (x ∷ [])
      → u.count ≡ t.count + 1
      → u.next_address ≡ t.next_address
      → Linked u.buckets (t.order ++ (x ∷ []))
      → 0 < length u.buckets
      → IsTable kov hasher key_equal u
  append-IsTable t u x inv new q n a l h = record {
    linked = rw q l;
    has_buckets = λ z. absurd (omega (arith, z, h));
    hashed = rw q (All-append _ t.order (x ∷ []) inv.hashed (new.hashed, tt));
    counted = rw (q, n) (omega (arith, inv.counted, length-append t.order (x ∷ [])));
    addresses = λ b. rw q (
        ground (
          arith,
          inv.addresses b,
          new.not_linked,
          same_address b,
          count-append (λ y. y.address == b) t.order (x ∷ []),
        ));
    fresh = λ b past. rw q (
        ground (
          arith,
          inv.fresh b (omega (arith, past, a)),
          new.created,
          past,
          a,
          count-append (λ y. y.address == b) t.order (x ∷ []),
        ));
    unique = λ key. rw q (
        ground (
          arith,
          inv.unique key,
          same_key key,
          count-append (has_key kov key_equal key) t.order (x ∷ []),
        ));
  }
    where
      same_address : (b : ℕ) → (x.address == b) ≡ true → count (λ y. y.address == b) t.order ≡ 0
      same_address b e =
          let at : x.address ≡ b = ground (arith, e) in
          ap (λ c. count (λ y. y.address == c) t.order) (sym at) ∙ new.not_linked

      same_key :
          (key : K)
          → has_key kov key_equal key x ≡ true
          → count (has_key kov key_equal key) t.order ≡ 0
      same_key key e =
          count_none (has_key kov key_equal key) (has_key kov key_equal (kov x.value)) t.order
            (λ y k. eq.joined (kov y.value) (kov x.value) key k e) new.new_key

  pub link_node_at_bucket_head-IsTable :
      (t : HashTable A) (x : HashNode A)
      → IsTable kov hasher key_equal t
      → IsNewNode kov hasher key_equal t x
      → 0 < length t.buckets
      → IsTable kov hasher key_equal (link_node_at_bucket_head x t)
  unfolding link_node_at_bucket_head bucket_index_for
  link_node_at_bucket_head-IsTable t x inv new h =
      let chain = x ∷ bucket_at (bucket_index_for x.cached_hash t) t.buckets in
      append-IsTable t _ x inv new refl refl refl
        (link-Linked x chain t.buckets t.order h (λ p. refl) inv.linked)
        (omega (arith, h, length-set_bucket (bucket_index_for x.cached_hash t) chain t.buckets))

  pub link_node_at_bucket_tail-IsTable :
      (t : HashTable A) (x : HashNode A)
      → IsTable kov hasher key_equal t
      → IsNewNode kov hasher key_equal t x
      → 0 < length t.buckets
      → IsTable kov hasher key_equal (link_node_at_bucket_tail x t)
  unfolding link_node_at_bucket_tail bucket_index_for
  link_node_at_bucket_tail-IsTable t x inv new h =
      let old = bucket_at (bucket_index_for x.cached_hash t) t.buckets in
      let chain = old ++ (x ∷ []) in
      append-IsTable t _ x inv new refl refl refl
        (link-Linked x chain t.buckets t.order h (λ p. omega (arith, count-append p old (x ∷ [])))
          inv.linked)
        (omega (arith, h, length-set_bucket (bucket_index_for x.cached_hash t) chain t.buckets))

-- The table with one more node, the last in the order of iteration.
pub record Links {ℓ κ} {A : Type ℓ} {K : Type κ} (kov : A → K) (hasher : K → ℕ)
    (key_equal : K → K → Bool) (x : HashNode A) (t u : HashTable A) : Type (ℓ ⊔ κ) where
  pub valid : IsTable kov hasher key_equal u
  pub appended : u.order ≡ t.order ++ (x ∷ [])

-- What an insertion of a unique key leaves: the elements in the order of iteration are those before
-- with the new one behind them, unless one had its key; the iterator is to a node with the key.
pub record AddsUnique {ℓ κ} {A : Type ℓ} {K : Type κ} (kov : A → K) (hasher : K → ℕ)
    (key_equal : K → K → Bool) (value : A) (t u : HashTable A) (it : HashNode A) (inserted : Bool)
    : Type (ℓ ⊔ κ) where
  pub valid : IsTable kov hasher key_equal u
  pub content : values u ≡ (if inserted then values t ++ (value ∷ []) else values t)
  pub answer : inserted ≡ (count (has_key kov key_equal (kov value)) t.order == 0)
  pub hit : has_key kov key_equal (kov value) it ≡ true

needs_none :
    (load : Load) (size buckets : ℕ) → need_rehash load size 1 buckets ≡ false → 0 < buckets
unfolding need_rehash
needs_none load size buckets e = ground (arith, e)

module _ {ℓ} {A : Type ℓ} where
  pub values-append :
      (xs : List (HashNode A)) (x : HashNode A)
      → map (λ y. y.value) (xs ++ (x ∷ [])) ≡ map (λ y. y.value) xs ++ (x.value ∷ [])
  values-append [] x = refl
  values-append (y ∷ ys) x = ap (λ t. y.value ∷ t) (values-append ys x)

module _ {ℓ κ} {A : Type ℓ} {K : Type κ} (kov : A → K) {hasher : K → ℕ} {key_equal : K → K → Bool}
    (eq : IsKeyEqual hasher key_equal) (load : Load) where
  link_unique-Links :
      (t : HashTable A) (x : HashNode A)
      → IsTable kov hasher key_equal t
      → IsNewNode kov hasher key_equal t x
      → minimum_bucket_count load (t.count + 1) ≤ max_bucket_count
      → (u : HashTable A) × (link_unique kov hasher key_equal load x t ≡ some u)
        × Links kov hasher key_equal x t u
  unfolding link_unique link_node_at_bucket_head link_node_at_bucket_tail will_rehash_for_one_more
  link_unique-Links t x inv new h =
      let (grown, q, g, some_bucket) =
        reserve_for_one_more-Grows kov hasher key_equal load t inv h in
      elim (Bool-cases (will_rehash_for_one_more load t)) [
        | inl e ↦
            let moved : IsNewNode kov hasher key_equal grown x = record {
              hashed = new.hashed;
              created = rw g.same.next_address new.created;
              not_linked = rw g.same.order new.not_linked;
              new_key = rw g.same.order new.new_key;
            } in
            (
              link_node_at_bucket_head x grown,
              rw (e, q) refl,
              record {
                valid = link_node_at_bucket_head-IsTable kov eq grown x g.valid moved some_bucket;
                appended = rw g.same.order refl;
              },
            )
        | inr e ↦ (
          link_node_at_bucket_tail x t,
          rw e refl,
          record {
            valid = link_node_at_bucket_tail-IsTable kov eq t x inv new (room t e);
            appended = refl;
          },
        )
      ]
    where
      room : (t : HashTable A) → will_rehash_for_one_more load t ≡ false → 0 < length t.buckets
      room t e = needs_none load t.count (length t.buckets) e

  insert_at :
      (r : Option (HashNode A)) (value : A) (t : HashTable A)
      → IsTable kov hasher key_equal t
      → IsFound kov hasher key_equal (kov value) t r
      → minimum_bucket_count load (t.count + 1) ≤ max_bucket_count
      → (u : HashTable A) × (it : HashNode A) × (inserted : Bool) × (elim r
            as (λ _. Option (HashTable A × HashNode A × Bool)) [
              | some existing ↦ some (t, existing, false)
              | none ↦
                  elim (link_unique kov hasher key_equal load
                    (record {
                      address = t.next_address;
                      cached_hash = hasher (kov value);
                      value = value;
                    })
                    (record t { next_address = t.next_address + 1 })) [
                      | none ↦ none
                      | some u ↦ some (
                        u,
                        record {
                          address = t.next_address;
                          cached_hash = hasher (kov value);
                          value = value;
                        },
                        true,
                      )
                    ]
            ]
          ≡ some (u, it, inserted))
        × AddsUnique kov hasher key_equal value t u it inserted
  insert_at (some existing) value t inv found h = (
    t,
    existing,
    false,
    refl,
    record {
      valid = inv;
      content = refl;
      answer = ground (arith, found.with_key, more_with_key existing value t);
      hit = found.has;
    },
  )
    where
      more_with_key :
          (existing : HashNode A) (value : A) (t : HashTable A)
          → count
              (λ y. has_key kov key_equal (kov value) y && (y.address == existing.address))
              t.order
            ≤ count (has_key kov key_equal (kov value)) t.order
      more_with_key existing value t =
          count_mono (λ y. has_key kov key_equal (kov value) y && (y.address == existing.address))
            (has_key kov key_equal (kov value)) t.order (λ y k. ground (arith, k))
  insert_at none value t inv found h =
      let x : HashNode A = record {
        address = t.next_address;
        cached_hash = hasher (kov value);
        value = value;
      } in
      let bumped : HashTable A = record t { next_address = t.next_address + 1 } in
      let ready : IsTable kov hasher key_equal bumped = record {
        linked = inv.linked;
        has_buckets = inv.has_buckets;
        hashed = inv.hashed;
        counted = inv.counted;
        addresses = inv.addresses;
        fresh = λ a past. inv.fresh a (omega (arith, past));
        unique = inv.unique;
      } in
      let new : IsNewNode kov hasher key_equal bumped x = record {
        hashed = refl;
        created = omega arith;
        not_linked = inv.fresh t.next_address (omega arith);
        new_key = found.missing;
      } in
      let (u, q, l) = link_unique-Links bumped x ready new h in
      (
        u,
        x,
        true,
        rw q refl,
        record {
          valid = l.valid;
          content = ap (map (λ y. y.value)) l.appended ∙ values-append t.order x;
          answer = rw found.missing refl;
          hit = eq.reflexive (kov value);
        },
      )

  -- For a hash function that gives equal keys the same hash, and a size within max_bucket_count(),
  -- insert_unique returns. It keeps the invariant of the table; it puts the value behind all elements in
  -- the order of iteration if none has its key, and else changes nothing; it says which, and gives a
  -- node with the key.
  pub insert_unique-AddsUnique :
      (value : A) (t : HashTable A)
      → IsTable kov hasher key_equal t
      → minimum_bucket_count load (t.count + 1) ≤ max_bucket_count
      → (u : HashTable A) × (it : HashNode A) × (inserted : Bool) × (insert_unique kov hasher
            key_equal load value t
          ≡ some (u, it, inserted))
        × AddsUnique kov hasher key_equal value t u it inserted
  unfolding insert_unique find
  insert_unique-AddsUnique value t inv h =
      insert_at _ value t inv (find-IsFound kov eq (kov value) t inv) h
