-- ===== src/Sort/Merge.antt =====
-- `merge_sort`, `stable_sort` and `bottom_up_merge_sort` of include/chaistl/algorithm/sort.hpp.
pub mod Laws
pub mod BottomUp
use chaistl.Common.{
  ◌*◌, Bool, true, false, ℕ, zero, suc, ◌/◌, ltb, if◌then◌else◌, List, [], ◌∷◌, ◌++◌, length,
}
use chaistl.Sort.Base.{first_part, last_part}

module _ {ℓ} {A : Type ℓ} (comp : A → A → Bool) where
  -- The three loops that fill `buffer` from the two runs: the left one wins a tie.
  unfoldable pub merge : List A → List A → List A
  merge [] right = right
  merge (x ∷ left) [] = x ∷ left
  merge (x ∷ left) (y ∷ right) =
      let take_right = merge (x ∷ left) right in
      let take_left = merge left (y ∷ right) in if comp y x then y ∷ take_right else x ∷ take_left

  -- `merge_sort(first, last, comp)`, at most so many calls deep.
  unfoldable pub merge_sort_upto : ℕ → List A → List A
  unfolding merge first_part last_part
  merge_sort_upto zero xs = xs
  merge_sort_upto (suc k) xs =
      let n = length xs in
      let left = merge_sort_upto k (first_part (n / 2) xs) in
      let right = merge_sort_upto k (last_part (n / 2) xs) in
      if ltb n 2 then xs else merge left right

  -- `merge_sort(first, last, comp)`: the length of the range is deep enough.
  unfoldable pub merge_sort : List A → List A
  unfolding merge_sort_upto
  merge_sort xs = merge_sort_upto (length xs) xs

  -- `stable_sort(first, last, comp)`
  unfoldable pub stable_sort : List A → List A
  unfolding merge_sort
  stable_sort xs = merge_sort xs

  -- One pair of runs of `bottom_up_merge_sort`: `middle_index == right_index` says that the right one
  -- is empty.
  unfoldable pub merge_pair : List A → List A → List A
  unfolding merge
  merge_pair left [] = left
  merge_pair left (y ∷ right) = merge left (y ∷ right)

  -- The loop of `bottom_up_merge_sort` over `left_index`, at most so many rounds.
  unfoldable pub merge_pass : ℕ → ℕ → List A → List A
  unfolding merge_pair first_part last_part
  merge_pass width zero xs = xs
  merge_pass width (suc k) [] = []
  merge_pass width (suc k) (x ∷ xs) =
      let middle = last_part width (x ∷ xs) in
      merge_pair (first_part width (x ∷ xs)) (first_part width middle)
      ++ merge_pass width k (last_part width middle)

  -- The loop of `bottom_up_merge_sort` over `width`, at most so many rounds.
  unfoldable pub bottom_up_merge_sort_upto : ℕ → ℕ → List A → List A
  unfolding merge_pass
  bottom_up_merge_sort_upto zero width xs = xs
  bottom_up_merge_sort_upto (suc k) width xs =
      let next = bottom_up_merge_sort_upto k (width * 2) (merge_pass width (length xs) xs) in
      if ltb width (length xs) then next else xs

  -- `bottom_up_merge_sort(first, last, comp)`
  unfoldable pub bottom_up_merge_sort : List A → List A
  unfolding bottom_up_merge_sort_upto
  bottom_up_merge_sort xs =
      if ltb (length xs) 2 then xs else bottom_up_merge_sort_upto (length xs) 1 xs
