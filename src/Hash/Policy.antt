-- ===== src/Hash/Policy.antt =====
-- include/chaistl/containers/hash/prime_rehash_policy.hpp.
use chaistl.Common.{
  Bool, true, false, ℕ, ◌+◌, ◌%◌, ◌<◌, ◌≤◌, ◌==◌, ◌≡◌, refl, arith, ltb, List, [], ◌∷◌, Option,
  some, none, All, ◌&&◌, if◌then◌else◌, Bool-cases, inl, inr,
}

-- `prime_bucket_counts`
abbrev pub prime_bucket_counts : List ℕ
prime_bucket_counts =
    2 ∷ 5 ∷ 11 ∷ 23 ∷ 47 ∷ 97 ∷ 193 ∷ 389 ∷ 769 ∷ 1543 ∷ 3079 ∷ 6151 ∷ 12289 ∷ 24593 ∷ 49157 ∷ 98317
    ∷ 196613 ∷ 393241 ∷ 786433 ∷ 1572869 ∷ 3145739 ∷ 6291469 ∷ 12582917 ∷ 25165843 ∷ 50331653
    ∷ 100663319 ∷ 201326611 ∷ 402653189 ∷ 805306457 ∷ 1610612741 ∷ 3221225473 ∷ 4294967291 ∷ []

-- `std::ranges::lower_bound` of a sorted array: its first entry that is not less.
unfoldable pub lower_bound : List ℕ → ℕ → Option ℕ
lower_bound [] requested = none
lower_bound (n ∷ ns) requested =
    let rest = lower_bound ns requested in if ltb n requested then rest else some n

-- `next_bucket_count(requested)`: `none` is the failed check beyond max_bucket_count().
unfoldable pub next_bucket_count : ℕ → Option ℕ
unfolding lower_bound
next_bucket_count requested = lower_bound prime_bucket_counts requested

-- `bucket_for_hash(hash_code, bucket_count)`
unfoldable pub bucket_for_hash : ℕ → ℕ → ℕ
bucket_for_hash hash_code bucket_count = hash_code % bucket_count

-- The floating-point arithmetic with the bound on the load factor: whether a number of elements is
-- greater than the bound times a number of buckets, and the quotient of a number of elements and the
-- bound, rounded to a size; the rounding is repaired in at most `turns` steps.
pub record Load : Type 0 where
  pub exceeds : ℕ → ℕ → Bool
  pub quotient : ℕ → ℕ
  pub turns : ℕ

-- `need_rehash(current_size, incoming_count, bucket_count, max_load_factor)`
unfoldable pub need_rehash : Load → ℕ → ℕ → ℕ → Bool
need_rehash load current_size incoming_count bucket_count =
    if bucket_count == 0 then true else load.exceeds (current_size + incoming_count) bucket_count

abbrev positive : List ℕ → Bool
positive [] = true
positive (m ∷ ns) = ltb 0 m && positive ns

lower_bound-least :
    (ns : List ℕ) (requested n : ℕ) → lower_bound ns requested ≡ some n → requested ≤ n
unfolding lower_bound
lower_bound-least [] requested n h = absurd (ground (arith, h))
lower_bound-least (m ∷ ns) requested n h = ground (arith, h, lower_bound-least ns requested n)

-- next_bucket_count never gives less than it was asked for.
pub next_bucket_count-enough :
    (requested n : ℕ) → next_bucket_count requested ≡ some n → requested ≤ n
unfolding next_bucket_count
next_bucket_count-enough requested n h = lower_bound-least prime_bucket_counts requested n h

lower_bound-positive :
    (ns : List ℕ) (requested n : ℕ)
    → All (λ m. 0 < m) ns
    → lower_bound ns requested ≡ some n
    → 0 < n
unfolding lower_bound
lower_bound-positive [] requested n a h = absurd (ground (arith, h))
lower_bound-positive (m ∷ ns) requested n a h =
    ground (arith, h, a.0, lower_bound-positive ns requested n a.1)

-- A bucket array is never empty.
pub next_bucket_count-positive : (requested n : ℕ) → next_bucket_count requested ≡ some n → 0 < n
unfolding next_bucket_count
next_bucket_count-positive requested n h =
    lower_bound-positive prime_bucket_counts requested n (all_positive prime_bucket_counts refl) h
  where
    all_positive : (ns : List ℕ) → positive ns ≡ true → All (λ m. 0 < m) ns
    all_positive [] q = tt
    all_positive (m ∷ ns) q = (ground (arith, q), all_positive ns (ground (arith, q)))

last_or : ℕ → List ℕ → ℕ
last_or d [] = d
last_or d (n ∷ ns) = last_or n ns

lower_bound-total :
    (m : ℕ) (ns : List ℕ) (requested : ℕ)
    → requested ≤ last_or m ns
    → (n : ℕ) × (lower_bound (m ∷ ns) requested ≡ some n)
unfolding lower_bound last_or
lower_bound-total m [] requested h = (m, rw (below requested m h) refl)
  where
    below : (a b : ℕ) → a ≤ b → ltb b a ≡ false
    below a b h = ground arith
lower_bound-total m (k ∷ ns) requested h = elim (Bool-cases (ltb m requested)) [
  | inl e ↦ let (n, q) = lower_bound-total k ns requested h in (n, rw e q)
  | inr e ↦ (m, rw e refl)
]

-- `max_bucket_count()`
abbrev pub max_bucket_count : ℕ
max_bucket_count = 4294967291

-- Up to max_bucket_count(), there is a bucket count that is not less, and it is not zero.
pub next_bucket_count-total :
    (requested : ℕ)
    → requested ≤ max_bucket_count
    → (n : ℕ) × (next_bucket_count requested ≡ some n) × (requested ≤ n) × (0 < n)
unfolding next_bucket_count last_or
next_bucket_count-total requested h =
    let (n, q) =
      lower_bound-total 2
        (5 ∷ 11 ∷ 23 ∷ 47 ∷ 97 ∷ 193 ∷ 389 ∷ 769 ∷ 1543 ∷ 3079 ∷ 6151 ∷ 12289 ∷ 24593 ∷ 49157
          ∷ 98317 ∷ 196613 ∷ 393241 ∷ 786433 ∷ 1572869 ∷ 3145739 ∷ 6291469 ∷ 12582917 ∷ 25165843
          ∷ 50331653 ∷ 100663319 ∷ 201326611 ∷ 402653189 ∷ 805306457 ∷ 1610612741 ∷ 3221225473
          ∷ 4294967291 ∷ [])
        requested h in
    (n, q, next_bucket_count-enough requested n q, next_bucket_count-positive requested n q)
