-- ===== src/Hash/Table/Clear.antt =====
-- `clear` of include/chaistl/containers/hash/hash_table.hpp.
use chaistl.Common.{
  Bool, true, ◌==◌, ◌/◌, ◌≡◌, refl, sym, ap, ◌∙◌, arith, ℕ, zero, suc, ◌<◌, ◌≤◌, ltb, List, [], ◌∷◌,
  length, count, count_mono, Bool-cases, inl, inr,
}
use chaistl.Hash.Policy.{bucket_for_hash}
use chaistl.Hash.Table.{HashNode, HashTable, bucket_at, set_bucket, reset_heads, reset_all, clear}
use chaistl.Hash.Table.Chains.{
  Linked, belongs, bucket_for_hash-lt, length-set_bucket, bucket_at-set_bucket,
}
use chaistl.Hash.Table.Invariant.{IsTable}

module _ {ℓ} {A : Type ℓ} where
  length-reset_heads :
      (ns : List (HashNode A)) (bs : List (List (HashNode A)))
      → length (reset_heads ns bs) ≡ length bs
  unfolding reset_heads
  length-reset_heads [] bs = refl
  length-reset_heads (n ∷ ns) bs = length-reset_heads ns _ ∙ length-set_bucket _ [] bs

  length-reset_all : (bs : List (List (HashNode A))) → length (reset_all bs) ≡ length bs
  unfolding reset_all
  length-reset_all [] = refl
  length-reset_all (c ∷ cs) = ap suc (length-reset_all cs)

  bucket_at-reset_all : (i : ℕ) (bs : List (List (HashNode A))) → bucket_at i (reset_all bs) ≡ []
  unfolding reset_all bucket_at
  bucket_at-reset_all i [] = refl
  bucket_at-reset_all zero (c ∷ cs) = refl
  bucket_at-reset_all (suc i) (c ∷ cs) = bucket_at-reset_all i cs

  -- A bucket that a node belongs into is reset, and an empty one stays empty.
  count-reset_heads :
      (i : ℕ) (ns : List (HashNode A)) (bs : List (List (HashNode A)))
      → 0 < length bs
      → count (λ _. true) (bucket_at i bs) ≤ count (belongs (length bs) i) ns
      → count (λ _. true) (bucket_at i (reset_heads ns bs)) ≡ 0
  unfolding reset_heads
  count-reset_heads i [] bs h few = omega (arith, few)
  count-reset_heads i (n ∷ ns) bs h few =
      let j = bucket_for_hash n.cached_hash (length bs) in
      let same = length-set_bucket j [] bs in
      let at = bucket_at-set_bucket i j [] bs (bucket_for_hash-lt n.cached_hash (length bs) h) in
      count-reset_heads i ns (set_bucket j [] bs) (omega (arith, h, same)) (
        rw (same, at)
          (elim (Bool-cases (j == i)) [
            | inl e ↦ rw e (omega arith)
            | inr e ↦ rw e (ground (arith, e, few))
          ]))

  -- Buckets without nodes, and no nodes.
  pub empty_Linked :
      (bs : List (List (HashNode A)))
      → ((i : ℕ) → i < length bs → count (λ _. true) (bucket_at i bs) ≡ 0)
      → Linked bs []
  empty_Linked bs h = record {
    chains = λ i inside p.
        let few = count_mono p (λ _. true) (bucket_at i bs) (λ x q. refl) in
        omega (arith, few, h i inside);
  }

module _ {ℓ κ} {A : Type ℓ} {K : Type κ} (kov : A → K) (hasher : K → ℕ)
    (key_equal : K → K → Bool) where
  pub cleared :
      (u : HashTable A)
      → Linked u.buckets []
      → u.order ≡ []
      → u.count ≡ 0
      → IsTable kov hasher key_equal u
  cleared u l q n = record {
    linked = rw q l;
    has_buckets = λ z. ap length q;
    hashed = rw q tt;
    counted = n ∙ sym (ap length q);
    addresses = λ a. rw q (omega arith);
    fresh = λ a past. rw q refl;
    unique = λ key. rw q (omega arith);
  }

  -- clear of a table with the invariant leaves an empty one with the invariant and as many buckets, also
  -- when it resets only the buckets that the hashes of the nodes name.
  pub clear-IsTable :
      (t : HashTable A)
      → IsTable kov hasher key_equal t
      → IsTable kov hasher key_equal (clear t)
        × ((clear t).order ≡ [])
        × ((clear t).count ≡ 0)
        × (length (clear t).buckets ≡ length t.buckets)
  unfolding clear
  clear-IsTable t inv = elim (Bool-cases (ltb t.count (length t.buckets / 2))) [
    | inl e ↦
        let some_bucket : 0 < length t.buckets = ground (arith, e) in
        let same = length-reset_heads t.order t.buckets in
        let sparse : HashTable A = record t {
          buckets = reset_heads t.order t.buckets;
          order = [];
          count = 0;
        } in
        let none_left = empty_Linked (reset_heads t.order t.buckets) (λ i inside.
          count-reset_heads i t.order t.buckets some_bucket
            (omega (arith, inv.linked.chains i (omega (arith, inside, same)) (λ _. true)))) in
        rw e (cleared sparse none_left refl refl, refl, refl, same)
    | inr e ↦
        let dense : HashTable A = record t {
          buckets = reset_all t.buckets;
          order = [];
          count = 0;
        } in
        let none_left =
          empty_Linked (reset_all t.buckets)
            (λ i inside. ap (count (λ _. true)) (bucket_at-reset_all i t.buckets)) in
        rw e (cleared dense none_left refl refl, refl, refl, length-reset_all t.buckets)
  ]
