-- ===== src/Sort/Insertion.antt =====
-- `insertion_sort` and `partial_insertion_sort` of include/chaistl/algorithm/sort.hpp.
pub mod Laws
pub mod Partial
use chaistl.Common.{
  Bool, true, false, ℕ, ◌+◌, ltb, if◌then◌else◌, List, [], ◌∷◌, Option, some, none,
}
use chaistl.Sort.Base.{rev_onto}

-- How the inner loop of `partial_insertion_sort` ends, with the part of the array up to `current`:
-- it returned false, or the value is in place after so many moves.
pub data Shift {ℓ} (A : Type ℓ) : Type ℓ where
  gave_up : List A → Shift A
  placed : ℕ → List A → Shift A

-- `constexpr int move_limit = 8`
abbrev pub move_limit : ℕ
move_limit = 8

module _ {ℓ} {A : Type ℓ} where
  -- `*hole = std::move(*(hole - 1))` before the rest of the loop.
  unfoldable pub move_back : A → Shift A → Shift A
  move_back x (gave_up before) = gave_up (x ∷ before)
  move_back x (placed moves before) = placed moves (x ∷ before)

module _ {ℓ} {A : Type ℓ} (comp : A → A → Bool) where
  -- `insertion_sort`, from the value at `current`: it goes back into the part before while it is
  -- less than the element there. The test before the loop is the loop's own test.
  unfoldable pub insert_back : A → List A → List A
  insert_back value [] = value ∷ []
  insert_back value (x ∷ before) =
      let rest = insert_back value before in if comp value x then x ∷ rest else value ∷ x ∷ before

  -- The loop of `insertion_sort` over `current`.
  unfoldable pub insertion_sort_from : List A → List A → List A
  unfolding insert_back rev_onto
  insertion_sort_from before [] = rev_onto before []
  insertion_sort_from before (x ∷ rest) = insertion_sort_from (insert_back x before) rest

  -- `insertion_sort(first, last, comp)`
  unfoldable pub insertion_sort : List A → List A
  unfolding insertion_sort_from
  insertion_sort [] = []
  insertion_sort (x ∷ xs) = insertion_sort_from (x ∷ []) xs

  -- The inner loop of `partial_insertion_sort`, with its test: after the move of `x` the hole is
  -- where `x` was, so that slot still holds `x` when the loop returns.
  unfoldable pub shift_hole : ℕ → A → List A → Shift A
  unfolding move_back
  shift_hole moves value [] = placed moves (value ∷ [])
  shift_hole moves value (x ∷ before) =
      let rest = shift_hole (moves + 1) value before in
      if comp value x
      then (if ltb move_limit (moves + 1) then gave_up (x ∷ x ∷ before) else move_back x rest)
      else placed moves (value ∷ x ∷ before)

  -- The loop of `partial_insertion_sort` over `current`.
  unfoldable pub partial_insertion_sort_from : ℕ → List A → List A → Bool × List A
  unfolding shift_hole rev_onto
  partial_insertion_sort_from moves before [] = (true, rev_onto before [])
  partial_insertion_sort_from moves before (x ∷ rest) = elim (shift_hole moves x before) [
    | gave_up before' ↦ (false, rev_onto before' rest)
    | placed moves' before' ↦ partial_insertion_sort_from moves' before' rest
  ]

  -- `partial_insertion_sort(first, last, comp)`: on an empty range it reads past the end.
  unfoldable pub partial_insertion_sort : List A → Option (Bool × List A)
  unfolding partial_insertion_sort_from
  partial_insertion_sort [] = none
  partial_insertion_sort (x ∷ xs) = some (partial_insertion_sort_from 0 (x ∷ []) xs)
