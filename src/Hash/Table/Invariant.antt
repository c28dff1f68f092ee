-- ===== src/Hash/Table/Invariant.antt =====
-- The invariant of the tables of include/chaistl/containers/hash/hash_table.hpp with unique keys, and
-- what it asks of the hash function and the predicate.
use chaistl.Common.{
  Bool, true, false, ◌&&◌, ◌==◌, ◌≡◌, refl, ◌∙◌, arith, ℕ, ◌<◌, ◌≤◌, List, [], ◌∷◌, Option, some,
  none, All, length, map, count, count_mono, count_all, Bool-cases, inl, inr,
}
use chaistl.Sort.Base.{All-mono}
use chaistl.Hash.Policy.{bucket_for_hash}
use chaistl.Hash.Table.{
  HashNode, HashTable, bucket_at, bucket_index_for, is_match, find_in, find_node, find,
}
use chaistl.Hash.Table.Chains.{Linked, belongs, bucket_for_hash-lt}

-- What the unordered containers ask: an equivalence, and equal keys have the same hash.
pub record IsKeyEqual {κ} {K : Type κ} (hasher : K → ℕ) (key_equal : K → K → Bool) : Type κ where
  pub reflexive : (a : K) → key_equal a a ≡ true
  pub joined : (a b c : K) → key_equal a c ≡ true → key_equal b c ≡ true → key_equal a b ≡ true
  pub same_hash : (a b : K) → key_equal a b ≡ true → hasher a ≡ hasher b

module _ {ℓ} {A : Type ℓ} where
  count_mono_on :
      (p q : A → Bool) (xs : List A)
      → All (λ x. p x ≡ true → q x ≡ true) xs
      → count p xs ≤ count q xs
  count_mono_on p q [] h = omega arith
  count_mono_on p q (x ∷ xs) h = ground (arith, h.0, count_mono_on p q xs h.1)

module _ {ℓ κ} {A : Type ℓ} {K : Type κ} (kov : A → K) (key_equal : K → K → Bool) where
  -- Whether a node has a key.
  abbrev pub has_key : K → HashNode A → Bool
  has_key key x = key_equal (kov x.value) key

module _ {ℓ} {A : Type ℓ} where
  -- The elements in the order of iteration.
  abbrev pub values : HashTable A → List A
  values t = map (λ x. x.value) t.order

module _ {ℓ κ} {A : Type ℓ} {K : Type κ} (kov : A → K) (hasher : K → ℕ)
    (key_equal : K → K → Bool) where
  -- The chains and the order list have the same nodes, each in the bucket of its hash; the hashes are
  -- those of the keys, the size and the addresses are right, and no two nodes have equal keys.
  pub record IsTable (t : HashTable A) : Type (ℓ ⊔ κ) where
    pub linked : Linked t.buckets t.order
    pub has_buckets : length t.buckets ≡ 0 → length t.order ≡ 0
    pub hashed : All (λ x. x.cached_hash ≡ hasher (kov x.value)) t.order
    pub counted : t.count ≡ length t.order
    pub addresses : (a : ℕ) → count (λ x. x.address == a) t.order ≤ 1
    pub fresh : (a : ℕ) → t.next_address ≤ a → count (λ x. x.address == a) t.order ≡ 0
    pub unique : (key : K) → count (has_key kov key_equal key) t.order ≤ 1

  -- No node has the key.
  pub record IsMissing (key : K) (t : HashTable A) : Type ℓ where
    pub missing : count (has_key kov key_equal key) t.order ≡ 0

  -- The node is in the table and has the key.
  pub record IsHit (key : K) (t : HashTable A) (x : HashNode A) : Type ℓ where
    pub has : has_key kov key_equal key x ≡ true
    pub in_order :
        0 < count (λ y. (y.address == x.address) && (y.cached_hash == x.cached_hash)) t.order
    pub with_key : 0 < count (λ y. has_key kov key_equal key y && (y.address == x.address)) t.order

  -- What a lookup gives.
  abbrev pub IsFound : K → HashTable A → Option (HashNode A) → Type ℓ
  IsFound key t none = IsMissing key t
  IsFound key t (some x) = IsHit key t x

  -- Along a chain.
  abbrev InChain : ℕ → K → List (HashNode A) → Option (HashNode A) → Type 0
  InChain code key chain none = count (is_match kov hasher key_equal code key) chain ≡ 0
  InChain code key chain (some x) =
      (is_match kov hasher key_equal code key x ≡ true)
      × (0
          < count (λ y. is_match kov hasher key_equal code key y && (y.address == x.address)) chain)

  chain_step :
      (code : ℕ) (key : K) (n : HashNode A) (ns : List (HashNode A)) (r : Option (HashNode A))
      → is_match kov hasher key_equal code key n ≡ false
      → InChain code key ns r
      → InChain code key (n ∷ ns) r
  chain_step code key n ns none e h = ground (arith, e, h)
  chain_step code key n ns (some x) e h = (h.0, ground (arith, e, h.1))

  find_in-InChain :
      (code : ℕ) (key : K) (chain : List (HashNode A))
      → InChain code key chain (find_in kov hasher key_equal code key chain)
  unfolding find_in
  find_in-InChain code key [] = refl
  find_in-InChain code key (n ∷ ns) = elim (Bool-cases (is_match kov hasher key_equal code key n)) [
    | inl e ↦ rw e (e, ground (arith, e))
    | inr e ↦ rw e (chain_step code key n ns _ e (find_in-InChain code key ns))
  ]

module _ {ℓ κ} {A : Type ℓ} {K : Type κ} (kov : A → K) {hasher : K → ℕ} {key_equal : K → K → Bool}
    (eq : IsKeyEqual hasher key_equal) where
  InChain-IsFound :
      (key : K) (t : HashTable A) (r : Option (HashNode A))
      → IsTable kov hasher key_equal t
      → 0 < length t.buckets
      → InChain kov hasher key_equal
          (hasher key)
          key
          (bucket_at (bucket_index_for (hasher key) t) t.buckets)
          r
      → IsFound kov hasher key_equal key t r
  unfolding bucket_index_for
  InChain-IsFound key t none inv some_bucket h =
      let code = hasher key in
      let i = bucket_for_hash code (length t.buckets) in
      let match = is_match kov hasher key_equal code key in
      let same =
        inv.linked.chains i (bucket_for_hash-lt code (length t.buckets) some_bucket) match in
      let covered =
        count_mono_on (has_key kov key_equal key) (λ x. match x && belongs (length t.buckets) i x)
          t.order (All-mono t.order in_bucket inv.hashed) in
      record { missing = omega (arith, h, same, covered) }
    where
      in_bucket :
          (x : HashNode A)
          → x.cached_hash ≡ hasher (kov x.value)
          → has_key kov key_equal key x ≡ true
          → (is_match kov hasher key_equal (hasher key) key x
              && belongs (length t.buckets) (bucket_for_hash (hasher key) (length t.buckets)) x)
            ≡ true
      in_bucket x q k =
          let code : x.cached_hash ≡ hasher key = q ∙ eq.same_hash (kov x.value) key k in
          rw (code, k) (ground arith)
  InChain-IsFound key t (some x) inv some_bucket (found, h) =
      let code = hasher key in
      let i = bucket_for_hash code (length t.buckets) in
      let match = is_match kov hasher key_equal code key in
      let hit : HashNode A → Bool = λ y. match y && (y.address == x.address) in
      let same = inv.linked.chains i (bucket_for_hash-lt code (length t.buckets) some_bucket) hit in
      record {
        has = ground (arith, found);
        in_order = omega (
          arith,
          h,
          same,
          count_mono (λ y. hit y && belongs (length t.buckets) i y)
              (λ y. (y.address == x.address) && (y.cached_hash == x.cached_hash)) t.order
              (λ y k. ground (arith, k, found)),
        );
        with_key = omega (
          arith,
          h,
          same,
          count_mono (λ y. hit y && belongs (length t.buckets) i y)
              (λ y. has_key kov key_equal key y && (y.address == x.address)) t.order
              (λ y k. ground (arith, k)),
        );
      }

  -- In a table with the invariant, find gives a node of the table with the key, or end() when no node
  -- has the key.
  pub find-IsFound :
      (key : K) (t : HashTable A)
      → IsTable kov hasher key_equal t
      → IsFound kov hasher key_equal key t (find kov hasher key_equal key t)
  unfolding find find_node
  find-IsFound key t inv = elim (Bool-cases (length t.buckets == 0)) [
    | inl e ↦
        let empty = inv.has_buckets (ground (arith, e)) in
        let few = count_mono (has_key kov key_equal key) (λ _. true) t.order (λ x h. refl) in
        rw e (record { missing = omega (arith, empty, few, count_all t.order) })
    | inr e ↦
        let chain = bucket_at (bucket_index_for (hasher key) t) t.buckets in
        let r = find_in kov hasher key_equal (hasher key) key chain in
        rw e (
          InChain-IsFound key t r inv (ground (arith, e))
            (find_in-InChain kov hasher key_equal (hasher key) key chain))
  ]
