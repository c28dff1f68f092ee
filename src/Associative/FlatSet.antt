-- ===== src/Associative/FlatSet.antt =====
-- include/chaistl/containers/associative/flat_set.hpp.
--
-- The set is the values of `keys_`; a position is the number of values before it. `std::ranges::sort` is
-- a function that the operations take, and `none` is the failed check of a sorted_unique input.
pub mod Bounds
pub mod Bulk
pub mod Insert
use chaistl.Common.{
  Bool, true, false, not, ◌&&◌, ◌==◌, ℕ, zero, suc, ◌+◌, ◌-◌, ◌/◌, List, [], ◌∷◌, ◌++◌, Option,
  some, none, length, if◌then◌else◌,
}
use chaistl.Sort.Base.{first_part, last_part}

module _ {ℓ} {A : Type ℓ} where
  -- `*pos`, or nothing at end()
  unfoldable pub elem_at : ℕ → List A → Option A
  elem_at i [] = none
  elem_at zero (x ∷ xs) = some x
  elem_at (suc i) (x ∷ xs) = elem_at i xs

  -- The search of std::lower_bound and std::upper_bound in the `len` values from `first` on: the half in
  -- which the test changes, in `turns` turns at most. A position out of range is not met.
  unfoldable pub partition_from : (A → Bool) → ℕ → ℕ → ℕ → List A → ℕ
  unfolding elem_at
  partition_from test zero first len xs = first
  partition_from test (suc turns) first len xs =
      let half = len / 2 in
      let upper = partition_from test turns (first + half + 1) (len - half - 1) xs in
      let lower = partition_from test turns first half xs in
      let found : ℕ = elim (elem_at (first + half) xs) [
        | none ↦ first
        | some x ↦ if test x then upper else lower
      ] in
      if len == 0 then first else found

  -- `keys_.insert(pos, value)`
  unfoldable pub insert_at : ℕ → A → List A → List A
  unfolding first_part last_part
  insert_at i value xs = first_part i xs ++ (value ∷ last_part i xs)

  -- `erase(first, last)`: the set and the iterator past the values.
  unfoldable pub erase_range : ℕ → ℕ → List A → List A × ℕ
  unfolding first_part last_part
  erase_range first last xs = (first_part first xs ++ last_part last xs, first)

module _ {ℓ} {A : Type ℓ} (comp : A → A → Bool) where
  -- `equivalent(lhs, rhs)`
  abbrev pub equivalent : A → A → Bool
  equivalent lhs rhs = not (comp lhs rhs) && not (comp rhs lhs)

  -- `lower_bound(key)`, which calls std::lower_bound: the first value that is not less.
  unfoldable pub lower_bound : A → List A → ℕ
  unfolding partition_from
  lower_bound key xs = partition_from (λ x. comp x key) (length xs) 0 (length xs) xs

  -- `upper_bound(key)`, which calls std::upper_bound: the first value that is greater.
  unfoldable pub upper_bound : A → List A → ℕ
  unfolding partition_from
  upper_bound key xs = partition_from (λ x. not (comp key x)) (length xs) 0 (length xs) xs

  -- `insert(value)` behind the search: the set, the iterator, and whether the value is new.
  unfoldable pub insert_bound : Option A → ℕ → A → List A → List A × ℕ × Bool
  unfolding insert_at
  insert_bound none pos value xs = (insert_at pos value xs, pos, true)
  insert_bound (some x) pos value xs =
      if equivalent value x then (xs, pos, false) else (insert_at pos value xs, pos, true)

  -- `insert(value)`
  unfoldable pub insert : A → List A → List A × ℕ × Bool
  unfolding insert_bound lower_bound elem_at
  insert value xs = let pos = lower_bound value xs in insert_bound (elem_at pos xs) pos value xs

  -- `is_valid_insert_hint(hint, value)`
  unfoldable pub is_valid_insert_hint : ℕ → A → List A → Bool
  unfolding elem_at
  is_valid_insert_hint hint value xs =
      elim (elem_at hint xs) [ none ↦ true | some x ↦ comp value x ]
      && (if hint == 0
          then true
          else elim (elem_at (hint - 1) xs) [ none ↦ true | some x ↦ comp x value ])

  -- `insert(hint, value)`: the set and the iterator.
  unfoldable pub insert_hint : ℕ → A → List A → List A × ℕ
  unfolding is_valid_insert_hint insert insert_at
  insert_hint hint value xs =
      let (ys, pos, new) = insert value xs in
      if is_valid_insert_hint hint value xs then (insert_at hint value xs, hint) else (ys, pos)

  -- `find(key)`
  unfoldable pub find : A → List A → ℕ
  unfolding lower_bound elem_at
  find key xs =
      let pos = lower_bound key xs in
      elim (elem_at pos xs) [
        | none ↦ length xs
        | some x ↦ if equivalent key x then pos else length xs
      ]

  -- `contains(key)`
  unfoldable pub contains : A → List A → Bool
  unfolding find
  contains key xs = not (find key xs == length xs)

  -- `erase(key)`
  unfoldable pub erase_key : A → List A → List A × ℕ
  unfolding find erase_range
  erase_key key xs =
      let pos = find key xs in
      if pos == length xs then (xs, 0) else ((erase_range pos (pos + 1) xs).0, 1)

  -- `equal_range(key)`
  unfoldable pub equal_range : A → List A → ℕ × ℕ
  unfolding lower_bound elem_at
  equal_range key xs =
      let first = lower_bound key xs in
      elim (elem_at first xs) [
        | none ↦ (first, first)
        | some x ↦ if equivalent key x then (first, first + 1) else (first, first)
      ]

  -- The loop of `is_sorted_unique(first, last)`.
  unfoldable pub sorted_after : A → List A → Bool
  sorted_after prev [] = true
  sorted_after prev (x ∷ xs) = let rest = sorted_after x xs in if comp prev x then rest else false

  -- `is_sorted_unique()` and `validate()`
  unfoldable pub is_sorted_unique : List A → Bool
  unfolding sorted_after
  is_sorted_unique [] = true
  is_sorted_unique (x ∷ xs) = sorted_after x xs

  -- `std::unique` with `equivalent`: a value stays unless the last one that stayed is equivalent.
  unfoldable pub unique_after : A → List A → List A
  unique_after kept [] = []
  unique_after kept (x ∷ xs) =
      let skipped = unique_after kept xs in
      let taken = x ∷ unique_after x xs in if equivalent kept x then skipped else taken

  -- `unique_erase()`
  unfoldable pub unique_erase : List A → List A
  unfolding unique_after
  unique_erase [] = []
  unique_erase (x ∷ xs) = x ∷ unique_after x xs

  -- The loops of `normalize_appended_unique_tail` that gather the prefix and the tail.
  unfoldable pub gather : List A → List A → List A
  gather [] tail = tail
  gather (x ∷ prefix) [] = x ∷ prefix
  gather (x ∷ prefix) (y ∷ tail) =
      let from_prefix = x ∷ gather prefix (y ∷ tail) in
      let from_tail = y ∷ gather (x ∷ prefix) tail in
      let from_both = x ∷ gather prefix tail in
      if comp x y then from_prefix else if comp y x then from_tail else from_both

  -- `normalize_appended_unique_tail(old_size, tail_is_sorted_unique)`
  unfoldable pub normalize_appended_unique_tail :
      (List A → List A) → List A → List A → Bool → Option (List A)
  unfolding unique_erase is_sorted_unique gather
  normalize_appended_unique_tail sort prefix [] tail_is_sorted_unique = some prefix
  normalize_appended_unique_tail sort prefix (y ∷ tail) tail_is_sorted_unique =
      let checked : Option (List A) =
        if is_sorted_unique (y ∷ tail) then some (gather prefix (y ∷ tail)) else none in
      if tail_is_sorted_unique
      then checked
      else some (gather prefix (unique_erase (sort (y ∷ tail))))

  -- `insert(first, last)` and `insert_range(range)`
  unfoldable pub insert_range : (List A → List A) → List A → List A → Option (List A)
  unfolding normalize_appended_unique_tail
  insert_range sort range xs = normalize_appended_unique_tail sort xs range false

  -- `insert(sorted_unique, first, last)` and `insert_range(sorted_unique, range)`
  unfoldable pub insert_sorted : (List A → List A) → List A → List A → Option (List A)
  unfolding normalize_appended_unique_tail
  insert_sorted sort range xs = normalize_appended_unique_tail sort xs range true

  -- `sort_and_unique()`, which makes the set of a container.
  unfoldable pub sort_and_unique : (List A → List A) → List A → List A
  unfolding unique_erase
  sort_and_unique sort xs = unique_erase (sort xs)

  -- `replace(cont)`
  unfoldable pub replace : List A → List A → Option (List A)
  unfolding is_sorted_unique
  replace cont xs = if is_sorted_unique cont then some cont else none
