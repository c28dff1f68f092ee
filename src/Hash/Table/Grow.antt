-- ===== src/Hash/Table/Grow.antt =====
-- Rehashing of include/chaistl/containers/hash/hash_table.hpp.
use chaistl.Common.{
  Bool, false, ◌==◌, ◌≡◌, refl, ap, ◌∙◌, arith, ℕ, zero, suc, ◌+◌, ◌<◌, ◌≤◌, ltb, some, length,
  Bool-cases, inl, inr, if◌then◌else◌,
}
use chaistl.Hash.Policy.{Load, need_rehash, max_bucket_count, next_bucket_count-total}
use chaistl.Hash.Table.{
  HashNode, HashTable, rebuild_bucket_array, allocate_bucket_array, relink, rehash,
  reserve_for_one_more, will_rehash_for_one_more, minimum_bucket_count, repair,
}
use chaistl.Hash.Table.Chains.{relink-Linked, length-relink, length-allocate}
use chaistl.Hash.Table.Invariant.{IsTable}

-- The rounding is repaired in time.
pub record IsLoad (load : Load) : Type 0 where
  pub repaired :
      (element_count more : ℕ)
      → load.turns ≤ more
      → load.exceeds element_count (load.quotient element_count + more) ≡ false

repair-enough :
    (load : Load) (n element_count required : ℕ)
    → load.exceeds element_count (required + n) ≡ false
    → load.exceeds element_count (repair load n element_count required) ≡ false
unfolding repair
repair-enough load zero element_count required h =
    ap (λ m. load.exceeds element_count m) (omega arith) ∙ h
repair-enough load (suc n) element_count required h =
    elim (Bool-cases (load.exceeds element_count required)) [
      | inr e ↦ rw e e
      | inl e ↦
          let shifted : load.exceeds element_count (required + 1 + n) ≡ false =
            ap (λ m. load.exceeds element_count m) (omega arith) ∙ h in
          rw e (repair-enough load n element_count (required + 1) shifted)
    ]

-- The bucket count that minimum_bucket_count gives, with its repair of the rounding, does keep the load
-- within its bound.
pub minimum_bucket_count-enough :
    (load : Load)
    → IsLoad load
    → (element_count : ℕ)
    → load.exceeds element_count (minimum_bucket_count load element_count) ≡ false
unfolding minimum_bucket_count
minimum_bucket_count-enough load law element_count =
    repair-enough load load.turns element_count (load.quotient element_count)
      (law.repaired element_count load.turns (omega arith))

-- The table with other buckets: the nodes and their order are the same.
pub record SameOrder {ℓ} {A : Type ℓ} (t u : HashTable A) : Type ℓ where
  pub order : u.order ≡ t.order
  pub count : u.count ≡ t.count
  pub next_address : u.next_address ≡ t.next_address

module _ {ℓ κ} {A : Type ℓ} {K : Type κ} (kov : A → K) (hasher : K → ℕ)
    (key_equal : K → K → Bool) where
  pub rebuild_bucket_array-IsTable :
      (n : ℕ) (t : HashTable A)
      → 0 < n
      → IsTable kov hasher key_equal t
      → IsTable kov hasher key_equal (rebuild_bucket_array n t)
        × SameOrder t (rebuild_bucket_array n t)
        × (length (rebuild_bucket_array n t).buckets ≡ n)
  unfolding rebuild_bucket_array
  rebuild_bucket_array-IsTable n t h inv =
      let same : length (relink t.order (allocate_bucket_array n)) ≡ n =
        length-relink t.order (allocate_bucket_array n) ∙ length-allocate (HashNode A) n in
      (
        record {
          linked = relink-Linked t.order n h;
          has_buckets = λ q. absurd (omega (arith, q, same, h));
          hashed = inv.hashed;
          counted = inv.counted;
          addresses = inv.addresses;
          fresh = inv.fresh;
          unique = inv.unique;
        },
        record { order = refl; count = refl; next_address = refl },
        same,
      )

  -- What growing leaves.
  pub record Grows (t u : HashTable A) : Type (ℓ ⊔ κ) where
    pub valid : IsTable kov hasher key_equal u
    pub same : SameOrder t u

  same_Grows : (t : HashTable A) → IsTable kov hasher key_equal t → Grows t t
  same_Grows t inv = record {
    valid = inv;
    same = record { order = refl; count = refl; next_address = refl };
  }

module _ {ℓ κ} {A : Type ℓ} {K : Type κ} (kov : A → K) (hasher : K → ℕ) (key_equal : K → K → Bool)
    (load : Load) where
  pub reserve_for_one_more-Grows :
      (t : HashTable A)
      → IsTable kov hasher key_equal t
      → minimum_bucket_count load (t.count + 1) ≤ max_bucket_count
      → (u : HashTable A) × (reserve_for_one_more load t ≡ some u)
        × Grows kov hasher key_equal t u
        × (0 < length u.buckets)
  unfolding reserve_for_one_more will_rehash_for_one_more need_rehash
  reserve_for_one_more-Grows t inv h =
      let (n, q, enough, positive) =
        next_bucket_count-total (minimum_bucket_count load (t.count + 1)) h in
      let r = rebuild_bucket_array-IsTable kov hasher key_equal n t positive inv in
      elim (Bool-cases (will_rehash_for_one_more load t)) [
        | inl e ↦ (
          rebuild_bucket_array n t,
          rw (e, q) refl,
          record { valid = r.0; same = r.1 },
          omega (arith, r.2, positive),
        )
        | inr e ↦ (t, rw e refl, same_Grows kov hasher key_equal t inv, some_bucket t e)
      ]
    where
      some_bucket :
          (t : HashTable A) → will_rehash_for_one_more load t ≡ false → 0 < length t.buckets
      some_bucket t e = ground (arith, e)

  -- For a request and a size within max_bucket_count(), rehash returns a table with the same nodes in the
  -- same order of iteration, which keeps the invariant and has as many buckets as requested or more.
  pub rehash-Grows :
      (request : ℕ) (t : HashTable A)
      → IsTable kov hasher key_equal t
      → request ≤ max_bucket_count
      → minimum_bucket_count load t.count ≤ max_bucket_count
      → (u : HashTable A) × (rehash load request t ≡ some u)
        × Grows kov hasher key_equal t u
        × (request ≤ length u.buckets)
  unfolding rehash
  rehash-Grows request t inv h k =
      let least = minimum_bucket_count load t.count in
      let required = if ltb request least then least else request in
      let within : required ≤ max_bucket_count = ground (arith, h, k) in
      let over : request ≤ required = ground arith in
      let (n, q, enough, positive) = next_bucket_count-total required within in
      let r = rebuild_bucket_array-IsTable kov hasher key_equal n t positive inv in
      elim (Bool-cases (required == 0)) [
        | inl e ↦ (t, rw e refl, same_Grows kov hasher key_equal t inv, ground (arith, e, over))
        | inr e ↦ elim (Bool-cases (n == length t.buckets)) [
          | inl f ↦ (
            t,
            rw (e, q, f) refl,
            same_Grows kov hasher key_equal t inv,
            ground (arith, f, over, enough),
          )
          | inr f ↦ (
            rebuild_bucket_array n t,
            rw (e, q, f) refl,
            record { valid = r.0; same = r.1 },
            omega (arith, r.2, over, enough),
          )
        ]
      ]
