-- ===== src/Hash/Table/Copy.antt =====
-- `copy_from` of include/chaistl/containers/hash/hash_table.hpp.
use chaistl.Common.{
  Bool, true, ◌==◌, ◌≡◌, refl, sym, ap, ◌∙◌, arith, ℕ, ◌+◌, ◌<◌, ◌≤◌, List, [], ◌∷◌, ◌++◌, All,
  length, map, count, count-append, append_assoc, append_nil, Bool-cases, inl, inr,
}
use chaistl.Hash.Table.{
  HashNode, HashTable, allocate_bucket_array, link_node_at_bucket_tail, copy_nodes, copy_from,
}
use chaistl.Hash.Table.Chains.{length-allocate, bucket_at-allocate, length-set_bucket}
use chaistl.Hash.Table.Invariant.{IsKeyEqual, IsTable, has_key, values}
use chaistl.Hash.Table.Clear.{cleared, empty_Linked}
use chaistl.Hash.Table.Insert.{IsNewNode, link_node_at_bucket_tail-IsTable, values-append}

module _ {ℓ} {A : Type ℓ} where
  -- The table that a copy begins with.
  abbrev bare : HashTable A → HashTable A
  bare other = record {
    buckets = allocate_bucket_array (length other.buckets);
    order = [];
    count = 0;
    next_address = 0;
  }

module _ {ℓ κ} {A : Type ℓ} {K : Type κ} (kov : A → K) {hasher : K → ℕ} {key_equal : K → K → Bool}
    (eq : IsKeyEqual hasher key_equal) where
  copy_nodes-IsTable :
      (ns : List (HashNode A)) (t : HashTable A)
      → IsTable kov hasher key_equal t
      → 0 < length t.buckets
      → All (λ x. x.cached_hash ≡ hasher (kov x.value)) ns
      → ((key : K)
          → count (has_key kov key_equal key) t.order + count (has_key kov key_equal key) ns ≤ 1)
      → IsTable kov hasher key_equal (copy_nodes ns t)
        × (values (copy_nodes ns t) ≡ values t ++ map (λ x. x.value) ns)
        × (length (copy_nodes ns t).buckets ≡ length t.buckets)
  unfolding copy_nodes link_node_at_bucket_tail
  copy_nodes-IsTable [] t inv h hashed once = (inv, sym (append_nil (values t)), refl)
  copy_nodes-IsTable (n ∷ ns) t inv h hashed once =
      let x : HashNode A = record n { address = t.next_address } in
      let bumped : HashTable A = record t { next_address = t.next_address + 1 } in
      let ready : IsTable kov hasher key_equal bumped = record {
        linked = inv.linked;
        has_buckets = inv.has_buckets;
        hashed = inv.hashed;
        counted = inv.counted;
        addresses = inv.addresses;
        fresh = λ a past. inv.fresh a (omega (arith, past));
        unique = inv.unique;
      } in
      let new : IsNewNode kov hasher key_equal bumped x = record {
        hashed = hashed.0;
        created = omega arith;
        not_linked = inv.fresh t.next_address (omega arith);
        new_key = ground (arith, once (kov n.value), eq.reflexive (kov n.value));
      } in
      let u = link_node_at_bucket_tail x bumped in
      let valid = link_node_at_bucket_tail-IsTable kov eq bumped x ready new h in
      let same = length-set_bucket _ _ t.buckets in
      let rest = copy_nodes-IsTable ns u valid (omega (arith, h, same)) hashed.1 (λ key.
        ground (arith, once key, count-append (has_key kov key_equal key) t.order (x ∷ []))) in
      (
        rest.0,
        rest.1
            ∙ ap (λ ys. ys ++ map (λ y. y.value) ns) (values-append t.order x)
            ∙ append_assoc (values t) (n.value ∷ []) (map (λ y. y.value) ns),
        rest.2 ∙ same,
      )

  -- copy_from of a table with the invariant leaves a table with the invariant that has the same elements
  -- in the same order of iteration, and as many buckets.
  pub copy_from-IsTable :
      (t : HashTable A)
      → IsTable kov hasher key_equal t
      → IsTable kov hasher key_equal (copy_from t)
        × (values (copy_from t) ≡ values t)
        × (length (copy_from t).buckets ≡ length t.buckets)
  unfolding copy_from copy_nodes
  copy_from-IsTable t inv = elim (Bool-cases (length t.buckets == 0)) [
    | inl e ↦
        let none_left : t.order ≡ [] = nil_of t.order (inv.has_buckets (ground (arith, e))) in
        rw none_left (ready, refl, length-allocate (HashNode A) (length t.buckets))
    | inr e ↦
        let some_bucket : 0 < length (allocate_bucket_array {B = HashNode A} (length t.buckets)) =
          ground (arith, e, length-allocate (HashNode A) (length t.buckets)) in
        let r =
          copy_nodes-IsTable t.order (bare t) ready some_bucket inv.hashed
            (λ key. omega (arith, inv.unique key)) in
        (r.0, r.1, r.2 ∙ length-allocate (HashNode A) (length t.buckets))
  ]
    where
      nil_of : (xs : List (HashNode A)) → length xs ≡ 0 → xs ≡ []
      nil_of [] h = refl
      nil_of (x ∷ xs) h = absurd (omega (arith, h))

      ready : IsTable kov hasher key_equal (bare t)
      ready =
          cleared kov hasher key_equal (bare t)
            (empty_Linked (allocate_bucket_array (length t.buckets)) (λ i inside.
              ap (count (λ _. true)) (bucket_at-allocate (HashNode A) i (length t.buckets))))
            refl refl
