-- ===== src/Sort/Selection.antt =====
-- `selection_sort` of include/chaistl/algorithm/sort.hpp.
pub mod Laws
use chaistl.Common.{Bool, true, false, ℕ, zero, suc, ◌+◌, if◌then◌else◌, List, [], ◌∷◌, length}

module _ {ℓ} {A : Type ℓ} where
  -- `std::iter_swap(current, selected)`: the array from `current` on, which holds `x` there, and
  -- the position of `selected` behind it. The first slot of the result is `current`'s.
  unfoldable pub swap_behind : A → ℕ → List A → A × List A
  swap_behind x i [] = (x, [])
  swap_behind x zero (y ∷ ys) = (y, x ∷ ys)
  swap_behind x (suc i) (y ∷ ys) = let (z, zs) = swap_behind x i ys in (z, y ∷ zs)

module _ {ℓ} {A : Type ℓ} (comp : A → A → Bool) where
  -- The loop over `candidate`: `selected` is `current` (0) or a position behind it plus 1.
  unfoldable pub select_from : A → ℕ → ℕ → List A → A × ℕ
  select_from least selected at [] = (least, selected)
  select_from least selected at (y ∷ ys) =
      let less = comp y least in
      select_from (if less then y else least) (if less then at else selected) (at + 1) ys

  -- One round: `current` holds `x`, and `xs` is behind it.
  unfoldable pub select_round : A → List A → A × List A
  unfolding select_from swap_behind
  select_round x xs =
      let (least, selected) = select_from x 0 1 xs in
      elim selected [ zero ↦ (x, xs) | suc i ↦ swap_behind x i xs ]

  -- The loop over `current`, at most so many rounds.
  unfoldable pub selection_sort_upto : ℕ → List A → List A
  unfolding select_round
  selection_sort_upto zero xs = xs
  selection_sort_upto (suc k) [] = []
  selection_sort_upto (suc k) (x ∷ xs) =
      let (y, ys) = select_round x xs in y ∷ selection_sort_upto k ys

  -- `selection_sort(first, last, comp)`
  unfoldable pub selection_sort : List A → List A
  unfolding selection_sort_upto
  selection_sort xs = selection_sort_upto (length xs) xs
