-- ===== src/Hash/Table/Chains.antt =====
-- The chains of include/chaistl/containers/hash/hash_table.hpp against its order list.
use chaistl.Common.{
  Bool, true, false, ◌&&◌, ◌==◌, ◌≡◌, refl, ap, ◌∙◌, arith, ℕ, zero, suc, ◌+◌, ◌<◌, ◌≤◌, bit, List,
  [], ◌∷◌, ◌++◌, length, count, count-append, count_mono, count_none, count_cong, not,
  if◌then◌else◌, Bool-cases, inl, inr,
}
use chaistl.Sort.Base.{All-const}
use chaistl.Hash.Policy.{bucket_for_hash}
use chaistl.Hash.Table.{HashNode, bucket_at, set_bucket, allocate_bucket_array, unlink, relink}

pub bucket_for_hash-lt : (code n : ℕ) → 0 < n → bucket_for_hash code n < n
unfolding bucket_for_hash
bucket_for_hash-lt code n h = omega (arith, h)

module _ {ℓ} {B : Type ℓ} where
  pub length-set_bucket :
      (i : ℕ) (chain : List B) (bs : List (List B)) → length (set_bucket i chain bs) ≡ length bs
  unfolding set_bucket
  length-set_bucket i chain [] = refl
  length-set_bucket zero chain (c ∷ cs) = refl
  length-set_bucket (suc i) chain (c ∷ cs) = ap suc (length-set_bucket i chain cs)

  pub bucket_at-set_bucket :
      (i j : ℕ) (chain : List B) (bs : List (List B))
      → j < length bs
      → bucket_at i (set_bucket j chain bs) ≡ (if j == i then chain else bucket_at i bs)
  unfolding set_bucket bucket_at
  bucket_at-set_bucket i j chain [] h = absurd (omega (arith, h))
  bucket_at-set_bucket zero zero chain (c ∷ cs) h = refl
  bucket_at-set_bucket (suc i) zero chain (c ∷ cs) h = ground arith
  bucket_at-set_bucket zero (suc j) chain (c ∷ cs) h = ground arith
  bucket_at-set_bucket (suc i) (suc j) chain (c ∷ cs) h =
      bucket_at-set_bucket i j chain cs (omega (arith, h)) ∙ ground arith

module _ {ℓ} (B : Type ℓ) where
  pub bucket_at-allocate : (i n : ℕ) → bucket_at i (allocate_bucket_array {B = B} n) ≡ []
  unfolding bucket_at allocate_bucket_array
  bucket_at-allocate i zero = refl
  bucket_at-allocate zero (suc n) = refl
  bucket_at-allocate (suc i) (suc n) = bucket_at-allocate i n

  pub length-allocate : (n : ℕ) → length (allocate_bucket_array {B = B} n) ≡ n
  unfolding allocate_bucket_array
  length-allocate zero = refl
  length-allocate (suc n) = ap suc (length-allocate n)

module _ {ℓ} {A : Type ℓ} where
  -- Whether a node belongs into a bucket.
  abbrev pub belongs : ℕ → ℕ → HashNode A → Bool
  belongs n i x = bucket_for_hash x.cached_hash n == i

  -- Each chain has just the nodes of the order list that belong into its bucket: every test counts as
  -- many in both.
  pub record Linked (bs : List (List (HashNode A))) (order : List (HashNode A)) : Type ℓ where
    pub chains :
        (i : ℕ)
        → i < length bs
        → (p : HashNode A → Bool)
        → count p (bucket_at i bs) ≡ count (λ x. p x && belongs (length bs) i x) order

  pub length-relink :
      (ns : List (HashNode A)) (bs : List (List (HashNode A))) → length (relink ns bs) ≡ length bs
  unfolding relink
  length-relink [] bs = refl
  length-relink (n ∷ ns) bs = length-set_bucket _ _ (relink ns bs) ∙ length-relink ns bs

  count-relink :
      (p : HashNode A → Bool) (i : ℕ) (ns : List (HashNode A)) (bs : List (List (HashNode A)))
      → 0 < length bs
      → count p (bucket_at i (relink ns bs))
        ≡ count (λ x. p x && belongs (length bs) i x) ns + count p (bucket_at i bs)
  unfolding relink
  count-relink p i [] bs h = omega arith
  count-relink p i (n ∷ ns) bs h =
      let j = bucket_for_hash n.cached_hash (length bs) in
      let cs = relink ns bs in
      let inside : j < length cs =
        omega (arith, length-relink ns bs, bucket_for_hash-lt n.cached_hash (length bs) h) in
      let ih = count-relink p i ns bs h in
      ap (count p) (bucket_at-set_bucket i j (n ∷ bucket_at j cs) cs inside)
      ∙ elim (Bool-cases (j == i)) [
        | inl e ↦
            let same : j ≡ i = ground (arith, e) in
            rw e (ground (arith, e, ih, ap (λ k. count p (bucket_at k cs)) same))
        | inr e ↦ rw e (ground (arith, e, ih))
      ]

  -- rebuild_bucket_array
  pub relink-Linked :
      (ns : List (HashNode A)) (n : ℕ) → 0 < n → Linked (relink ns (allocate_bucket_array n)) ns
  relink-Linked ns n h =
      let same : length (relink ns (allocate_bucket_array n)) ≡ n =
        length-relink ns (allocate_bucket_array n) ∙ length-allocate (HashNode A) n in
      let some_bucket : 0 < length (allocate_bucket_array {B = HashNode A} n) =
        omega (arith, h, length-allocate (HashNode A) n) in
      record {
        chains = λ i inside p.
            count-relink p i ns (allocate_bucket_array n) some_bucket
            ∙ rw (same, length-allocate (HashNode A) n, bucket_at-allocate (HashNode A) i n)
                (omega arith);
      }

  -- A chain that gets a node, and the order list.
  pub link-Linked :
      (node : HashNode A) (chain : List (HashNode A)) (bs : List (List (HashNode A)))
      (order : List (HashNode A))
      → 0 < length bs
      → ((p : HashNode A → Bool)
          → count p chain
            ≡ bit (p node) + count p (bucket_at (bucket_for_hash node.cached_hash (length bs)) bs))
      → Linked bs order
      → Linked
          (set_bucket (bucket_for_hash node.cached_hash (length bs)) chain bs)
          (order ++ (node ∷ []))
  link-Linked node chain bs order h more l = record { chains = λ i inside p. go i inside p }
    where
      go :
          (i : ℕ)
          → i < length (set_bucket (bucket_for_hash node.cached_hash (length bs)) chain bs)
          → (p : HashNode A → Bool)
          → count p
              (bucket_at i (set_bucket (bucket_for_hash node.cached_hash (length bs)) chain bs))
            ≡ count
                (λ x.
                  p x
                  && belongs
                      (length (set_bucket (bucket_for_hash node.cached_hash (length bs)) chain bs))
                      i
                      x)
                (order ++ (node ∷ []))
      go i inside p =
          let j = bucket_for_hash node.cached_hash (length bs) in
          let same = length-set_bucket j chain bs in
          let q : HashNode A → Bool = λ x. p x && belongs (length bs) i x in
          let old = l.chains i (omega (arith, inside, same)) p in
          let both = count-append q order (node ∷ []) in
          rw (same, bucket_at-set_bucket i j chain bs (bucket_for_hash-lt node.cached_hash _ h))
            (elim (Bool-cases (j == i)) [
              | inl e ↦
                  let at : j ≡ i = ground (arith, e) in
                  rw e (ground (arith, e, old, both, more p, ap (λ k. count p (bucket_at k bs)) at))
              | inr e ↦ rw e (ground (arith, e, old, both))
            ])

  -- The node with an address is cut out of a list that has it at most once.
  pub count-unlink :
      (p : HashNode A → Bool) (address : ℕ) (ns : List (HashNode A))
      → count (λ x. x.address == address) ns ≤ 1
      → count p (unlink address ns) + count (λ x. p x && (x.address == address)) ns ≡ count p ns
  unfolding unlink
  count-unlink p address [] h = omega arith
  count-unlink p address (n ∷ ns) h = elim (Bool-cases (n.address == address)) [
    | inl e ↦
        let none_left : count (λ x. p x && (x.address == address)) ns ≡ 0 =
          count_none (λ x. p x && (x.address == address)) (λ x. x.address == address) ns
            (λ x q. ground (arith, q)) (ground (arith, e, h)) in
        rw e (ground (arith, e, none_left))
    | inr e ↦
        let ih = count-unlink p address ns (ground (arith, e, h)) in rw e (ground (arith, e, ih))
  ]

  count_split :
      (p q : HashNode A → Bool) (ns : List (HashNode A))
      → count p ns ≡ count (λ x. p x && q x) ns + count (λ x. p x && not (q x)) ns
  count_split p q [] = omega arith
  count_split p q (n ∷ ns) = ground (arith, count_split p q ns)

  and_swap :
      (p q r : HashNode A → Bool) (ns : List (HashNode A))
      → count (λ x. (p x && q x) && r x) ns ≡ count (λ x. (p x && r x) && q x) ns
  and_swap p q r ns =
      count_cong (λ x. (p x && q x) && r x) (λ x. (p x && r x) && q x) ns
        (All-const ns (λ x. ground arith))

  -- The buckets without a node.
  abbrev pub cut : HashNode A → List (List (HashNode A)) → List (List (HashNode A))
  cut node bs =
      let j = bucket_for_hash node.cached_hash (length bs) in
      set_bucket j (unlink node.address (bucket_at j bs)) bs

  -- A chain from which a node is cut out, and the order list.
  pub unlink-Linked :
      (node : HashNode A) (bs : List (List (HashNode A))) (order : List (HashNode A))
      → 0 < length bs
      → ((a : ℕ) → count (λ x. x.address == a) order ≤ 1)
      → 0 < count (λ x. (x.address == node.address) && (x.cached_hash == node.cached_hash)) order
      → Linked bs order
      → Linked (cut node bs) (unlink node.address order)
  unlink-Linked node bs order h once member l = record { chains = λ i inside p. go i inside p }
    where
      go :
          (i : ℕ)
          → i < length (cut node bs)
          → (p : HashNode A → Bool)
          → count p (bucket_at i (cut node bs))
            ≡ count (λ x. p x && belongs (length (cut node bs)) i x) (unlink node.address order)
      go i inside p =
          let j = bucket_for_hash node.cached_hash (length bs) in
          let here : HashNode A → Bool = λ x. x.address == node.address in
          let chain = bucket_at j bs in
          let same = length-set_bucket j (unlink node.address chain) bs in
          let b : HashNode A → Bool = belongs (length bs) i in
          let q : HashNode A → Bool = λ x. p x && b x in
          let from_order = count-unlink q node.address order (once node.address) in
          let old = l.chains i (omega (arith, inside, same)) in
          rw
            (
              same,
              bucket_at-set_bucket i j (unlink node.address chain) bs
                  (bucket_for_hash-lt node.cached_hash _ h),
            )
            (elim (Bool-cases (j == i)) [
              | inl e ↦
                  let at : j ≡ i = ground (arith, e) in
                  let few : count here chain ≤ 1 = omega (
                    arith,
                    once node.address,
                    ap (λ k. count here (bucket_at k bs)) at,
                    old here,
                    count_mono (λ x. here x && b x) here order (λ x k. ground (arith, k)),
                  ) in
                  let from_chain = count-unlink p node.address chain few in
                  rw e (
                    omega (
                      arith,
                      from_order,
                      from_chain,
                      old p,
                      old (λ x. p x && here x),
                      ap (λ k. count p (bucket_at k bs)) at,
                      ap (λ k. count (λ x. p x && here x) (bucket_at k bs)) at,
                      and_swap p here b order,
                    ))
              | inr e ↦
                  let right : HashNode A → Bool = λ x. x.cached_hash == node.cached_hash in
                  let others : count (λ x. here x && not (right x)) order ≡ 0 =
                    omega (arith, member, once node.address, count_split here right order) in
                  let elsewhere : count (λ x. q x && here x) order ≡ 0 =
                    count_none (λ x. q x && here x) (λ x. here x && not (right x)) order
                      (wrong_bucket i p e) others in
                  rw e (omega (arith, from_order, old p, elsewhere))
            ])
        where
          wrong_bucket :
              (i : ℕ) (p : HashNode A → Bool)
              → (bucket_for_hash node.cached_hash (length bs) == i) ≡ false
              → (x : HashNode A)
              → ((p x && belongs (length bs) i x) && (x.address == node.address)) ≡ true
              → ((x.address == node.address) && not (x.cached_hash == node.cached_hash)) ≡ true
          wrong_bucket i p e x k = elim (Bool-cases (x.cached_hash == node.cached_hash)) [
            | inr c ↦ rw c (ground (arith, k))
            | inl c ↦
                let same : x.cached_hash ≡ node.cached_hash = ground (arith, c) in
                let there = ap (λ h. bucket_for_hash h (length bs)) same in
                absurd (ground (arith, k, e, there))
          ]
