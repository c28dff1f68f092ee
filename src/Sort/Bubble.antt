-- ===== src/Sort/Bubble.antt =====
-- `bubble_sort` of include/chaistl/algorithm/sort.hpp.
pub mod Laws
use chaistl.Common.{
  Bool, true, false, ◌||◌, ℕ, zero, suc, if◌then◌else◌, List, [], ◌∷◌, ◌++◌, length,
}

-- What the inner loop leaves: the slots before its last one, that slot, and `swapped`.
pub record Bubbled {ℓ} (A : Type ℓ) : Type ℓ where
  pub front : List A
  pub last : A
  pub swapped : Bool

module _ {ℓ} {A : Type ℓ} where
  -- The slot that the loop leaves behind it, and whether it swapped there.
  unfoldable pub leave : A → Bool → Bubbled A → Bubbled A
  leave x now b = record b { front = x ∷ b.front; swapped = now || b.swapped }

module _ {ℓ} {A : Type ℓ} (comp : A → A → Bool) where
  -- The inner loop, from a `current` whose slot before holds `x`, up to `unsorted`.
  unfoldable pub bubble : A → List A → Bubbled A
  unfolding leave
  bubble x [] = record { front = []; last = x; swapped = false }
  bubble x (y ∷ ys) =
      let swap = bubble x ys in
      let go_on = bubble y ys in if comp y x then leave y true swap else leave x false go_on

  -- The outer loop, at most so many rounds: the part before `unsorted`, and the part from there on.
  unfoldable pub bubble_sort_upto : ℕ → List A → List A → List A
  unfolding bubble
  bubble_sort_upto zero xs done = xs ++ done
  bubble_sort_upto (suc k) [] done = done
  bubble_sort_upto (suc k) (x ∷ []) done = x ∷ done
  bubble_sort_upto (suc k) (x ∷ y ∷ ys) done =
      let b = bubble x (y ∷ ys) in
      let next = bubble_sort_upto k b.front (b.last ∷ done) in
      if b.swapped then next else b.front ++ (b.last ∷ done)

  -- `bubble_sort(first, last, comp)`
  unfoldable pub bubble_sort : List A → List A
  unfolding bubble_sort_upto
  bubble_sort xs = bubble_sort_upto (length xs) xs []
