-- ===== src/Tests/HashTests.antt =====
-- include/chaistl/containers/hash/hash_table.hpp at concrete tables of numbers, which are their own
-- hashes.
use chaistl.Common.{
  ℕ, ◌≡◌, ◌+◌, ◌==◌, ◌≤◌, Bool, true, arith, refl, [], ◌∷◌, some, length, count, ltb, ap,
}
use chaistl.Hash.Policy.{Load, max_bucket_count}
use chaistl.Hash.Table.{
  HashNode, HashTable, allocate_bucket_array, bucket_at, bucket_index_for, set_bucket,
  link_node_at_bucket_tail, insert_unique, erase_key, merge_unique, rehash, clear, copy_from, find,
  minimum_bucket_count,
}
use chaistl.Hash.Table.Chains.{bucket_at-allocate}
use chaistl.Hash.Table.Invariant.{IsKeyEqual, IsTable, IsFound, values, find-IsFound}
use chaistl.Hash.Table.Grow.{Grows, rehash-Grows}
use chaistl.Hash.Table.Insert.{
  AddsUnique, link_node_at_bucket_tail-IsTable, insert_unique-AddsUnique,
}
use chaistl.Hash.Table.Erase.{DropsKey, erase_key-DropsKey}
use chaistl.Hash.Table.Clear.{cleared, empty_Linked, clear-IsTable}
use chaistl.Hash.Table.Copy.{copy_from-IsTable}
use chaistl.Hash.Table.Merge.{Merges, merge_unique-MovesNew}

abbrev same : ℕ → ℕ
same a = a

abbrev equal : ℕ → ℕ → Bool
equal a b = a == b

-- A load factor of one.
abbrev one_each : Load
one_each = record { exceeds = λ n b. ltb b n; quotient = λ n. n; turns = 0 }

equal-IsKeyEqual : IsKeyEqual same equal
equal-IsKeyEqual = record {
  reflexive = λ a. ground arith;
  joined = λ a b c p q. ground (arith, p, q);
  same_hash = λ a b p. ground (arith, p);
}

-- Two empty buckets.
abbrev bare : HashTable ℕ
bare = record { buckets = allocate_bucket_array 2; order = []; count = 0; next_address = 2 }

abbrev four : HashNode ℕ
four = record { address = 0; cached_hash = 4; value = 4 }

abbrev six : HashNode ℕ
six = record { address = 1; cached_hash = 6; value = 6 }

-- 4 and 6, both in the first bucket.
abbrev two : HashTable ℕ
two = link_node_at_bucket_tail six (link_node_at_bucket_tail four bare)

bare-IsTable : IsTable same same equal bare
bare-IsTable =
    cleared same same equal bare
      (empty_Linked (allocate_bucket_array 2)
        (λ i inside. ap (count (λ _. true)) (bucket_at-allocate (HashNode ℕ) i 2)))
      refl refl

two-IsTable : IsTable same same equal two
unfolding link_node_at_bucket_tail bucket_index_for set_bucket bucket_at allocate_bucket_array
two-IsTable =
    link_node_at_bucket_tail-IsTable same equal-IsKeyEqual (link_node_at_bucket_tail four bare) six
      (link_node_at_bucket_tail-IsTable same equal-IsKeyEqual bare four bare-IsTable
        (record { hashed = refl; created = omega arith; not_linked = refl; new_key = refl })
        (omega arith))
      (record { hashed = refl; created = omega arith; not_linked = refl; new_key = refl })
      (omega arith)

two_buckets : two.buckets ≡ (four ∷ six ∷ []) ∷ [] ∷ []
unfolding link_node_at_bucket_tail bucket_index_for set_bucket bucket_at allocate_bucket_array
two_buckets = refl

-- The size that the number of elements asks for.
fits : (n : ℕ) → n ≤ max_bucket_count → minimum_bucket_count one_each n ≤ max_bucket_count
unfolding minimum_bucket_count
fits n h = h

insert_unique-AddsUnique_example :
    (u : HashTable ℕ) × (it : HashNode ℕ) × (inserted : Bool) × (insert_unique same same equal
        one_each 9 two
      ≡ some (u, it, inserted))
    × AddsUnique same same equal 9 two u it inserted
unfolding link_node_at_bucket_tail
insert_unique-AddsUnique_example =
    insert_unique-AddsUnique same equal-IsKeyEqual one_each 9 two two-IsTable
      (fits (two.count + 1) (omega arith))

erase_key-DropsKey_example :
    DropsKey same same equal 6 two
      (erase_key same same equal 6 two).0
      (erase_key same same equal 6 two).1
erase_key-DropsKey_example = erase_key-DropsKey same equal-IsKeyEqual 6 two two-IsTable

find-IsFound_example : IsFound same same equal 6 two (find same same equal 6 two)
find-IsFound_example = find-IsFound same equal-IsKeyEqual 6 two two-IsTable

rehash-Grows_example :
    (u : HashTable ℕ) × (rehash one_each 7 two ≡ some u)
    × Grows same same equal two u
    × (7 ≤ length u.buckets)
unfolding link_node_at_bucket_tail
rehash-Grows_example =
    rehash-Grows same same equal one_each 7 two two-IsTable (omega arith)
      (fits two.count (omega arith))

clear-IsTable_example :
    IsTable same same equal (clear two)
    × ((clear two).order ≡ [])
    × ((clear two).count ≡ 0)
    × (length (clear two).buckets ≡ length two.buckets)
clear-IsTable_example = clear-IsTable same same equal two two-IsTable

copy_from-IsTable_example :
    IsTable same same equal (copy_from two)
    × (values (copy_from two) ≡ values two)
    × (length (copy_from two).buckets ≡ length two.buckets)
copy_from-IsTable_example = copy_from-IsTable same equal-IsKeyEqual two two-IsTable

-- A table with 4 takes 6 of the other one, and leaves it 4.
abbrev one : HashTable ℕ
one = link_node_at_bucket_tail four bare

one-IsTable : IsTable same same equal one
unfolding allocate_bucket_array
one-IsTable =
    link_node_at_bucket_tail-IsTable same equal-IsKeyEqual bare four bare-IsTable
      (record { hashed = refl; created = omega arith; not_linked = refl; new_key = refl })
      (omega arith)

merge_unique-MovesNew_example :
    (t : HashTable ℕ) × (s : HashTable ℕ) × (merge_unique same same equal one_each one two
      ≡ some (t, s))
    × Merges same same equal [] (values two) one t s
unfolding link_node_at_bucket_tail
merge_unique-MovesNew_example =
    merge_unique-MovesNew same equal-IsKeyEqual one_each one two one-IsTable two-IsTable
      (λ k less. fits k (omega (arith, less)))
