-- ===== src/Tests/SortTests.antt =====
-- The sorts of include/chaistl/algorithm/sort.hpp at concrete inputs.
use chaistl.Common.{Bool, false, ℕ, ◌≡◌, refl, List, [], ◌∷◌, some, ltb, ◌/◌}
use chaistl.Order.{IsStrictWeak, ltb-IsStrictWeak}
use chaistl.Sort.Base.{Sorts, IsStable}
use chaistl.Sort.Insertion.{insertion_sort, partial_insertion_sort}
use chaistl.Sort.Insertion.Partial.{Verdict, partial_insertion_sort_lem}
use chaistl.Sort.Merge.{merge_sort, bottom_up_merge_sort}
use chaistl.Sort.Merge.BottomUp.{bottom_up_merge_sort-Sorts}
use chaistl.Sort.Merge.Laws.{merge_sort-Sorts}
use chaistl.Sort.Selection.{selection_sort}
use chaistl.Sort.Bubble.{bubble_sort}

abbrev mixed : List ℕ
mixed = 31 ∷ 12 ∷ 35 ∷ 11 ∷ 20 ∷ 12 ∷ []

-- Nine values in order, and a smaller one at the end.
abbrev late : List ℕ
late = 2 ∷ 3 ∷ 4 ∷ 5 ∷ 6 ∷ 7 ∷ 8 ∷ 9 ∷ 10 ∷ 1 ∷ []

-- Compares the tens only, so that 31 and 35 are equivalent.
abbrev by_tens : ℕ → ℕ → Bool
by_tens a b = ltb (a / 10) (b / 10)

by_tens-IsStrictWeak : IsStrictWeak by_tens
by_tens-IsStrictWeak = record {
  asym = λ a b. ltb-IsStrictWeak.asym (a / 10) (b / 10);
  neg_trans = λ a b c. ltb-IsStrictWeak.neg_trans (a / 10) (b / 10) (c / 10);
}

insertion_sort_run : insertion_sort ltb mixed ≡ 11 ∷ 12 ∷ 12 ∷ 20 ∷ 31 ∷ 35 ∷ []
unfolding insertion_sort
insertion_sort_run = refl

merge_sort_run : merge_sort by_tens mixed ≡ 12 ∷ 11 ∷ 12 ∷ 20 ∷ 31 ∷ 35 ∷ []
unfolding merge_sort
merge_sort_run = refl

selection_sort_run : selection_sort ltb mixed ≡ 11 ∷ 12 ∷ 12 ∷ 20 ∷ 31 ∷ 35 ∷ []
unfolding selection_sort
selection_sort_run = refl

bubble_sort_run : bubble_sort ltb mixed ≡ 11 ∷ 12 ∷ 12 ∷ 20 ∷ 31 ∷ 35 ∷ []
unfolding bubble_sort
bubble_sort_run = refl

-- The value 1 is lost, and 2 stands twice.
partial_insertion_sort_run :
    partial_insertion_sort ltb late ≡ some (false, 2 ∷ 2 ∷ 3 ∷ 4 ∷ 5 ∷ 6 ∷ 7 ∷ 8 ∷ 9 ∷ 10 ∷ [])
unfolding partial_insertion_sort
partial_insertion_sort_run = refl

partial_insertion_sort_lem_example :
    (r : Bool × List ℕ) × (partial_insertion_sort ltb late ≡ some r) × Verdict ltb late r
partial_insertion_sort_lem_example =
    partial_insertion_sort_lem ltb 2 (3 ∷ 4 ∷ 5 ∷ 6 ∷ 7 ∷ 8 ∷ 9 ∷ 10 ∷ 1 ∷ [])

merge_sort-Sorts_example :
    Sorts by_tens mixed (merge_sort by_tens mixed)
    × IsStable by_tens mixed (merge_sort by_tens mixed)
merge_sort-Sorts_example = merge_sort-Sorts by_tens-IsStrictWeak mixed

bottom_up_merge_sort_run : bottom_up_merge_sort by_tens mixed ≡ 12 ∷ 11 ∷ 12 ∷ 20 ∷ 31 ∷ 35 ∷ []
unfolding bottom_up_merge_sort
bottom_up_merge_sort_run = refl

bottom_up_merge_sort-Sorts_example :
    Sorts by_tens mixed (bottom_up_merge_sort by_tens mixed)
    × IsStable by_tens mixed (bottom_up_merge_sort by_tens mixed)
bottom_up_merge_sort-Sorts_example = bottom_up_merge_sort-Sorts by_tens-IsStrictWeak mixed
