-- ===== src/Hash/Table/Erase.antt =====
-- The removals of unique keys of include/chaistl/containers/hash/hash_table.hpp.
use chaistl.Common.{
  Bool, true, false, not, ◌&&◌, ◌==◌, ◌≡◌, refl, sym, ap, ◌∙◌, arith, ℕ, ◌<◌, ◌≤◌, List, [], ◌∷◌,
  Option, some, none, All, length, count, count_all, count_mono, count_none, map, Bool-cases, inl,
  inr,
}
use chaistl.Sort.Base.{filter, filter-keeps, filter-skips}
use chaistl.Hash.Table.{HashNode, HashTable, bucket_index_for, unlink, unlink_node, erase_key}
use chaistl.Hash.Table.Chains.{unlink-Linked, count-unlink, length-set_bucket}
use chaistl.Hash.Table.Invariant.{IsKeyEqual, IsTable, IsFound, has_key, values, find-IsFound}

module _ {ℓ} {A : Type ℓ} where
  All-unlink {κ} :
      (P : HashNode A → Type κ) (address : ℕ) (ns : List (HashNode A))
      → All P ns
      → All P (unlink address ns)
  unfolding unlink
  All-unlink P address [] h = tt
  All-unlink P address (n ∷ ns) h = elim (Bool-cases (n.address == address)) [
    | inl e ↦ rw e h.1
    | inr e ↦ rw e (h.0, All-unlink P address ns h.1)
  ]

  filter-none_pass :
      (p : HashNode A → Bool) (ns : List (HashNode A))
      → count p ns ≡ 0
      → filter (λ x. not (p x)) ns ≡ ns
  unfolding filter
  filter-none_pass p [] h = refl
  filter-none_pass p (n ∷ ns) h =
      filter-keeps (λ x. not (p x)) n ns (ground (arith, h))
      ∙ ap (λ t. n ∷ t) (filter-none_pass p ns (ground (arith, h)))

  -- A node that is alone with its address, and alone in passing a test: cutting it out leaves those
  -- that fail the test.
  unlink-filter :
      (p : HashNode A → Bool) (address : ℕ) (ns : List (HashNode A))
      → count p ns ≤ 1
      → count (λ x. x.address == address) ns ≤ 1
      → 0 < count (λ x. p x && (x.address == address)) ns
      → unlink address ns ≡ filter (λ x. not (p x)) ns
  unfolding unlink filter
  unlink-filter p address [] one once h = absurd (omega (arith, h))
  unlink-filter p address (n ∷ ns) one once h = elim (Bool-cases (n.address == address)) [
    | inl e ↦
        let rest : count (λ x. p x && (x.address == address)) ns ≡ 0 =
          count_none (λ x. p x && (x.address == address)) (λ x. x.address == address) ns
            (λ x q. ground (arith, q)) (ground (arith, e, once)) in
        let passes : p n ≡ true = ground (arith, e, h, rest) in
        rw e (
          sym (filter-none_pass p ns (ground (arith, passes, one)))
          ∙ sym (filter-skips (λ x. not (p x)) n ns (ground (arith, passes))))
    | inr e ↦
        let later : 0 < count (λ x. p x && (x.address == address)) ns = ground (arith, e, h) in
        let bounded =
          count_mono (λ x. p x && (x.address == address)) p ns (λ x q. ground (arith, q)) in
        let fails : p n ≡ false = ground (arith, later, bounded, one) in
        rw e (
          ap (λ t. n ∷ t)
            (unlink-filter p address ns (ground (arith, fails, one)) (ground (arith, e, once))
              later)
          ∙ sym (filter-keeps (λ x. not (p x)) n ns (ground (arith, fails))))
  ]

  map-filter :
      (p : A → Bool) (ns : List (HashNode A))
      → map (λ x. x.value) (filter (λ x. p x.value) ns) ≡ filter p (map (λ x. x.value) ns)
  unfolding filter
  map-filter p [] = refl
  map-filter p (n ∷ ns) = elim (Bool-cases (p n.value)) [
    | inl e ↦ rw e (ap (λ t. n.value ∷ t) (map-filter p ns))
    | inr e ↦ rw e (map-filter p ns)
  ]

module _ {ℓ κ} {A : Type ℓ} {K : Type κ} (kov : A → K) (hasher : K → ℕ)
    (key_equal : K → K → Bool) where
  -- A table with the invariant keeps it when one of its nodes is unlinked.
  pub unlink_node-IsTable :
      (x : HashNode A) (t : HashTable A)
      → IsTable kov hasher key_equal t
      → 0 < count (λ y. (y.address == x.address) && (y.cached_hash == x.cached_hash)) t.order
      → IsTable kov hasher key_equal (unlink_node x t)
  unfolding unlink_node bucket_index_for
  unlink_node-IsTable x t inv member =
      let some_node =
        count_mono (λ y. (y.address == x.address) && (y.cached_hash == x.cached_hash)) (λ _. true)
          t.order (λ y q. refl) in
      let some_bucket : 0 < length t.buckets =
        nonempty t.buckets
          (λ z. omega (arith, inv.has_buckets z, member, some_node, count_all t.order)) in
      let fewer : (p : HashNode A → Bool) → count p (unlink x.address t.order) ≤ count p t.order =
        λ p. omega (arith, count-unlink p x.address t.order (inv.addresses x.address)) in
      let here =
        count_mono (λ y. (y.address == x.address) && (y.cached_hash == x.cached_hash))
          (λ y. true && (y.address == x.address)) t.order (λ y q. ground (arith, q)) in
      record {
        linked = unlink-Linked x t.buckets t.order some_bucket inv.addresses member inv.linked;
        has_buckets = λ z. absurd (omega (arith, z, some_bucket, length-set_bucket _ _ t.buckets));
        hashed = All-unlink _ x.address t.order inv.hashed;
        counted = omega (
          arith,
          inv.counted,
          here,
          member,
          inv.addresses x.address,
          count-unlink (λ _. true) x.address t.order (inv.addresses x.address),
          count_all t.order,
          count_all (unlink x.address t.order),
        );
        addresses = λ a. omega (arith, inv.addresses a, fewer (λ y. y.address == a));
        fresh = λ a past. omega (arith, inv.fresh a past, fewer (λ y. y.address == a));
        unique = λ key. omega (arith, inv.unique key, fewer (has_key kov key_equal key));
      }
    where
      nonempty : (bs : List (List (HashNode A))) → (length bs ≡ 0 → ⊥) → 0 < length bs
      nonempty [] h = absurd (h refl)
      nonempty (b ∷ bs) h = omega arith

-- What a removal by key leaves: all elements but those with the key, in their order, and their number.
pub record DropsKey {ℓ κ} {A : Type ℓ} {K : Type κ} (kov : A → K) (hasher : K → ℕ)
    (key_equal : K → K → Bool) (key : K) (t u : HashTable A) (n : ℕ) : Type (ℓ ⊔ κ) where
  pub valid : IsTable kov hasher key_equal u
  pub content : values u ≡ filter (λ x. not (key_equal (kov x) key)) (values t)
  pub number : n ≡ count (has_key kov key_equal key) t.order

module _ {ℓ κ} {A : Type ℓ} {K : Type κ} (kov : A → K) {hasher : K → ℕ} {key_equal : K → K → Bool}
    (eq : IsKeyEqual hasher key_equal) where
  erase_found :
      (key : K) (t : HashTable A) (r : Option (HashNode A))
      → IsTable kov hasher key_equal t
      → IsFound kov hasher key_equal key t r
      → let s = elim r as (λ _. HashTable A × ℕ) [
        | none ↦ (t, 0)
        | some n ↦ (unlink_node n t, 1)
      ] in
        DropsKey kov hasher key_equal key t s.0 s.1
  unfolding unlink_node
  erase_found key t none inv found = record {
    valid = inv;
    content =
        sym (
          ap (map (λ x. x.value))
            (filter-none_pass (has_key kov key_equal key) t.order found.missing))
        ∙ map-filter (λ x. not (key_equal (kov x) key)) t.order;
    number = sym found.missing;
  }
  erase_found key t (some n) inv found =
      let p = has_key kov key_equal key in
      let bounded =
        count_mono (λ y. p y && (y.address == n.address)) p t.order (λ y q. ground (arith, q)) in
      record {
        valid = unlink_node-IsTable kov hasher key_equal n t inv found.in_order;
        content =
            ap (map (λ x. x.value)) (
              unlink-filter p n.address t.order (inv.unique key) (inv.addresses n.address)
                found.with_key)
            ∙ map-filter (λ x. not (key_equal (kov x) key)) t.order;
        number = omega (arith, found.with_key, bounded, inv.unique key);
      }

  -- For a hash function that gives equal keys the same hash, erase_key keeps the invariant of the table,
  -- leaves just the elements without the key in their order of iteration, and gives the number of the
  -- elements that had it.
  pub erase_key-DropsKey :
      (key : K) (t : HashTable A)
      → IsTable kov hasher key_equal t
      → DropsKey kov hasher key_equal key t
          (erase_key kov hasher key_equal key t).0
          (erase_key kov hasher key_equal key t).1
  unfolding erase_key
  erase_key-DropsKey key t inv = erase_found key t _ inv (find-IsFound kov eq key t inv)
