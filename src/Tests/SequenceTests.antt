-- ===== src/Tests/SequenceTests.antt =====
-- include/chaistl/containers/sequence/list.hpp at concrete lists.
use chaistl.Common.{ℕ, ◌≡◌, ◌+◌, ◌/◌, ◌==◌, Bool, not, arith, refl, ap, [], ◌∷◌, length, ltb}
use chaistl.Order.{ltb-IsStrictWeak}
use chaistl.Sort.Base.{filter, Sorts, IsStable}
use chaistl.Sort.Merge as StableMerge
use chaistl.Sequence.LinkedList as Lists
use chaistl.Sequence.LinkedList.{
  LinkedList, new, remove_if, unique, splice, splice_one, splice_range,
}
use chaistl.Sequence.LinkedList.Merge.{IsCounted, merge-stable_merge}
use chaistl.Sequence.LinkedList.Sort.{sort-Sorts}
use chaistl.Sequence.LinkedList.Remove.{heads, IsJoin, remove_if-filter, unique-heads}
use chaistl.Sequence.LinkedList.Splice.{list_of, splice_range-splice_range, splice-splice_range}

abbrev mixed : LinkedList ℕ
mixed = record { nodes = 5 ∷ 3 ∷ 3 ∷ 8 ∷ 1 ∷ []; size = 5 }

abbrev low : LinkedList ℕ
low = record { nodes = 2 ∷ 3 ∷ 9 ∷ []; size = 3 }

abbrev high : LinkedList ℕ
high = record { nodes = 1 ∷ 3 ∷ 4 ∷ []; size = 3 }

sorts_five : Lists.sort ltb mixed ≡ record { nodes = 1 ∷ 3 ∷ 3 ∷ 5 ∷ 8 ∷ []; size = 5 }
unfolding Lists.sort
sorts_five = refl

joins_runs : (Lists.merge ltb low high).0 ≡ record { nodes = 1 ∷ 2 ∷ 3 ∷ 3 ∷ 4 ∷ 9 ∷ []; size = 6 }
unfolding Lists.merge
joins_runs = refl

turns_around : (Lists.reverse low).nodes ≡ 9 ∷ 3 ∷ 2 ∷ []
unfolding Lists.reverse
turns_around = refl

sort-Sorts_example :
    Sorts ltb mixed.nodes (Lists.sort ltb mixed).nodes
    × IsStable ltb mixed.nodes (Lists.sort ltb mixed).nodes
    × IsCounted (Lists.sort ltb mixed)
sort-Sorts_example = sort-Sorts ltb-IsStrictWeak mixed (record { counted = refl })

merge-stable_merge_example :
    ((Lists.merge ltb low high).0.nodes ≡ StableMerge.merge ltb low.nodes high.nodes)
    × ((Lists.merge ltb low high).0.size ≡ 6)
    × ((Lists.merge ltb low high).1 ≡ new)
merge-stable_merge_example =
    merge-stable_merge ltb low high (record { counted = refl }) (record { counted = refl })

remove_if-filter_example :
    ((remove_if (ltb 3) mixed).0.nodes ≡ filter (λ x. not (ltb 3 x)) mixed.nodes)
    × IsCounted (remove_if (ltb 3) mixed).0
    × ((remove_if (ltb 3) mixed).1 ≡ 2)
remove_if-filter_example = remove_if-filter (ltb 3) mixed (record { counted = refl })

-- Numbers with the same half are joined.
abbrev same_half : ℕ → ℕ → Bool
same_half a b = a / 2 == b / 2

same_half-IsJoin : IsJoin same_half
same_half-IsJoin = record {
  joined = λ a b c e. let q : a / 2 ≡ b / 2 = ground (arith, e) in ap (λ n. n == c / 2) q;
}

unique-heads_example :
    ((unique same_half high).0.nodes ≡ heads same_half high.nodes)
    × IsCounted (unique same_half high).0
    × ((unique same_half high).1 + length (unique same_half high).0.nodes ≡ 3)
unique-heads_example = unique-heads same_half high same_half-IsJoin (record { counted = refl })

splice_range-splice_range_example :
    let (this, other) =
      splice_range {A = ℕ} 1 1 3 (list_of (7 ∷ 8 ∷ []) 2) (list_of (1 ∷ 2 ∷ 3 ∷ 4 ∷ []) 4) in
    (this ≡ list_of (7 ∷ 2 ∷ 3 ∷ 8 ∷ []) 4)
    × (other ≡ list_of (1 ∷ 4 ∷ []) 2)
    × (splice_range 1 1 3 other this ≡ (list_of (1 ∷ 2 ∷ 3 ∷ 4 ∷ []) 4, list_of (7 ∷ 8 ∷ []) 2))
splice_range-splice_range_example =
    splice_range-splice_range (7 ∷ []) (8 ∷ []) (1 ∷ []) (2 ∷ 3 ∷ []) (4 ∷ []) 2 4 (omega arith)

splice-splice_range_example :
    (splice 1 low mixed ≡ splice_range 1 0 5 low mixed)
    × (splice_one 1 2 low mixed ≡ splice_range 1 2 3 low mixed)
splice-splice_range_example =
    splice-splice_range 1 2 low mixed (record { counted = refl }) (omega arith)
