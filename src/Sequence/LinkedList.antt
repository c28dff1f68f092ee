-- ===== src/Sequence/LinkedList.antt =====
-- include/chaistl/containers/sequence/list.hpp.
--
-- A list is the values of its nodes in order and `size_`. A position is the number of nodes before it;
-- end() is that of all nodes. The loops hold the nodes before the iterator apart, the nearest first.
pub mod Merge
pub mod Sort
pub mod Remove
pub mod Splice
pub mod Range
use chaistl.Common.{
  Bool, true, false, not, ℕ, zero, suc, ◌+◌, ◌-◌, ◌==◌, ltb, leb, List, [], ◌∷◌, ◌++◌, Option, some,
  none, length, if◌then◌else◌,
}
use chaistl.Sort.Base.{first_part, last_part, rev_onto}

-- `header_` and `size_`
pub record LinkedList {ℓ} (A : Type ℓ) : Type ℓ where
  pub nodes : List A
  pub size : ℕ

-- Where a position is when the nodes in [first, last) before it are unlinked.
abbrev pub position_without : ℕ → ℕ → ℕ → ℕ
position_without first last position =
    if leb last position then position - (last - first) else position

module _ {ℓ} {A : Type ℓ} where
  -- `link_nodes(position, first, last)`
  unfoldable pub link_nodes : ℕ → List A → List A → List A
  unfolding first_part last_part
  link_nodes position run xs = first_part position xs ++ (run ++ last_part position xs)

  -- `unlink_nodes(first, last)` of the nodes in [first, last): these and the others.
  unfoldable pub unlink_nodes : ℕ → ℕ → List A → List A × List A
  unfolding first_part last_part
  unlink_nodes first last xs =
      (first_part (last - first) (last_part first xs), first_part first xs ++ last_part last xs)

  -- `list()`
  abbrev pub new : LinkedList A
  new = record { nodes = []; size = 0 }

  -- `empty()`
  unfoldable pub empty : LinkedList A → Bool
  empty t = t.size == 0

  -- `front()`
  unfoldable pub front : LinkedList A → Option A
  front t = go t.nodes
    where
      go : List A → Option A
      go [] = none
      go (x ∷ xs) = some x

  -- `emplace_front(args...)`
  unfoldable pub emplace_front : A → LinkedList A → LinkedList A
  unfolding link_nodes
  emplace_front value t = record { nodes = link_nodes 0 (value ∷ []) t.nodes; size = t.size + 1 }

  -- `emplace_back(args...)`
  unfoldable pub emplace_back : A → LinkedList A → LinkedList A
  unfolding link_nodes
  emplace_back value t = record {
    nodes = link_nodes (length t.nodes) (value ∷ []) t.nodes;
    size = t.size + 1;
  }

  -- `pop_front()`: `none` is the failed check.
  unfoldable pub pop_front : LinkedList A → Option (LinkedList A)
  unfolding empty unlink_nodes
  pop_front t =
      if empty t
      then none
      else some (record { nodes = (unlink_nodes 0 1 t.nodes).1; size = t.size - 1 })

  -- `pop_back()`
  unfoldable pub pop_back : LinkedList A → Option (LinkedList A)
  unfolding empty unlink_nodes
  pop_back t =
      let n = length t.nodes in
      if empty t
      then none
      else some (record { nodes = (unlink_nodes (n - 1) n t.nodes).1; size = t.size - 1 })

  -- `emplace(position, args...)`: the list and the iterator.
  unfoldable pub emplace : ℕ → A → LinkedList A → LinkedList A × ℕ
  unfolding link_nodes
  emplace position value t =
      (record { nodes = link_nodes position (value ∷ []) t.nodes; size = t.size + 1 }, position)

  -- `erase(position)` of a node: the list and the iterator past it.
  unfoldable pub erase : ℕ → LinkedList A → LinkedList A × ℕ
  unfolding unlink_nodes
  erase position t = (
    record { nodes = (unlink_nodes position (position + 1) t.nodes).1; size = t.size - 1 },
    position,
  )

  -- `erase(first, last)`
  unfoldable pub erase_range : ℕ → ℕ → LinkedList A → LinkedList A × ℕ
  unfolding unlink_nodes
  erase_range first last t =
      let (run, left) = unlink_nodes first last t.nodes in
      if first == last
      then (t, first)
      else (record { nodes = left; size = t.size - length run }, first)

  -- `clear()`
  unfoldable pub clear : LinkedList A → LinkedList A
  clear t = new

  -- `splice(position, other)`: this list and the other.
  unfoldable pub splice : ℕ → LinkedList A → LinkedList A → LinkedList A × LinkedList A
  unfolding empty link_nodes
  splice position this other = if empty other then (this, other) else (
    record { nodes = link_nodes position other.nodes this.nodes; size = this.size + other.size },
    new,
  )

  -- `splice(position, other, it)` of another list than this one
  unfoldable pub splice_one : ℕ → ℕ → LinkedList A → LinkedList A → LinkedList A × LinkedList A
  unfolding unlink_nodes link_nodes
  splice_one position it this other =
      let (run, left) = unlink_nodes it (it + 1) other.nodes in
      (
        record { nodes = link_nodes position run this.nodes; size = this.size + 1 },
        record { nodes = left; size = other.size - 1 },
      )

  -- `splice(position, *this, it)`
  unfoldable pub splice_one_within : ℕ → ℕ → LinkedList A → LinkedList A
  unfolding unlink_nodes link_nodes
  splice_one_within position it this =
      let (run, left) = unlink_nodes it (it + 1) this.nodes in
      let moved : LinkedList A = record {
        nodes = link_nodes (position_without it (it + 1) position) run left;
        size = this.size - 1 + 1;
      } in
      if position == it then this else if position == it + 1 then this else moved

  -- `splice(position, other, first, last)` of another list than this one
  unfoldable pub splice_range :
      ℕ → ℕ → ℕ → LinkedList A → LinkedList A → LinkedList A × LinkedList A
  unfolding unlink_nodes link_nodes
  splice_range position first last this other =
      let (run, left) = unlink_nodes first last other.nodes in
      if first == last then (this, other) else (
        record { nodes = link_nodes position run this.nodes; size = this.size + length run },
        record { nodes = left; size = other.size - length run },
      )

  -- `splice(position, *this, first, last)`
  unfoldable pub splice_range_within : ℕ → ℕ → ℕ → LinkedList A → LinkedList A
  unfolding unlink_nodes link_nodes
  splice_range_within position first last this =
      let (run, left) = unlink_nodes first last this.nodes in
      if first == last then this else record {
        nodes = link_nodes (position_without first last position) run left;
        size = this.size;
      }

  -- `take_storage_from(other)`: this list and the other.
  unfoldable pub take_storage_from : LinkedList A → LinkedList A × LinkedList A
  unfolding empty
  take_storage_from other =
      (record { nodes = if empty other then [] else other.nodes; size = other.size }, new)

  -- The loop of `reverse()`, which exchanges the links of each node.
  unfoldable pub reverse : LinkedList A → LinkedList A
  unfolding rev_onto
  reverse t = if ltb t.size 2 then t else record { nodes = rev_onto t.nodes []; size = t.size }

module _ {ℓ} {A : Type ℓ} where
  -- The loop of `remove_if(pred)` from an iterator on: the list and the count.
  unfoldable pub remove_from : (A → Bool) → List A → List A → ℕ → ℕ → LinkedList A × ℕ
  unfolding rev_onto
  remove_from pred before [] size count =
      (record { nodes = rev_onto before []; size = size }, count)
  remove_from pred before (x ∷ xs) size count =
      let erased = remove_from pred before xs (size - 1) (count + 1) in
      let kept = remove_from pred (x ∷ before) xs size count in if pred x then erased else kept

  -- `remove_if(pred)`
  unfoldable pub remove_if : (A → Bool) → LinkedList A → LinkedList A × ℕ
  unfolding remove_from
  remove_if pred t = remove_from pred [] t.nodes t.size 0

  -- The loop of `unique(binary_pred)` from two neighbours on.
  unfoldable pub unique_from : (A → A → Bool) → List A → A → List A → ℕ → ℕ → LinkedList A × ℕ
  unfolding rev_onto
  unique_from pred before it [] size count =
      (record { nodes = rev_onto before (it ∷ []); size = size }, count)
  unique_from pred before it (next ∷ xs) size count =
      let erased = unique_from pred before it xs (size - 1) (count + 1) in
      let kept = unique_from pred (it ∷ before) next xs size count in
      if pred it next then erased else kept

  unfoldable pub unique_nodes : (A → A → Bool) → List A → ℕ → LinkedList A × ℕ
  unfolding unique_from
  unique_nodes pred [] size = (record { nodes = []; size = size }, 0)
  unique_nodes pred (it ∷ xs) size = unique_from pred [] it xs size 0

  -- `unique(binary_pred)`
  unfoldable pub unique : (A → A → Bool) → LinkedList A → LinkedList A × ℕ
  unfolding unique_nodes
  unique pred t = if ltb t.size 2 then (t, 0) else unique_nodes pred t.nodes t.size

module _ {ℓ} {A : Type ℓ} (comp : A → A → Bool) where
  -- The run at the head of the other list that belongs before a value, and what is behind it.
  unfoldable pub run_before : A → List A → List A × List A
  run_before x [] = ([], [])
  run_before x (y ∷ ys) =
      let (run, left) = run_before x ys in if comp y x then (y ∷ run, left) else ([], y ∷ ys)

  -- The loop of `merge(other, comp)`, at most so many turns.
  unfoldable pub merge_from : ℕ → List A → List A → ℕ → List A → ℕ → LinkedList A × LinkedList A
  unfolding rev_onto run_before splice
  merge_from zero before xs n ys m =
      (record { nodes = rev_onto before xs; size = n }, record { nodes = ys; size = m })
  merge_from (suc k) before [] n ys m =
      splice (length before) (record { nodes = rev_onto before []; size = n })
        (record { nodes = ys; size = m })
  merge_from (suc k) before (x ∷ xs) n [] m =
      splice (length before + length (x ∷ xs))
        (record { nodes = rev_onto before (x ∷ xs); size = n }) (record { nodes = []; size = m })
  merge_from (suc k) before (x ∷ xs) n (y ∷ ys) m =
      let (run, left) = run_before x ys in
      let taken = suc (length run) in
      let spliced =
        merge_from k (rev_onto (y ∷ run) before) (x ∷ xs) (n + taken) left (m - taken) in
      let passed = merge_from k (x ∷ before) xs n (y ∷ ys) m in if comp y x then spliced else passed

  -- `merge(other, comp)` with another list than this one: a turn passes at least one node.
  unfoldable pub merge : LinkedList A → LinkedList A → LinkedList A × LinkedList A
  unfolding merge_from
  merge this other =
      merge_from (suc (length this.nodes + length other.nodes)) [] this.nodes this.size other.nodes
        other.size

  -- The inner loop of `sort(comp)` over the counters below `fill`, and the exchange behind it.
  unfoldable pub carry_into : LinkedList A → List (LinkedList A) → List (LinkedList A)
  unfolding empty merge
  carry_into carry [] = carry ∷ []
  carry_into carry (c ∷ cs) =
      let (merged, left) = merge c carry in
      let further = carry_into merged cs in if empty c then carry ∷ cs else left ∷ further

  -- The loop of `sort(comp)` over the nodes, which the carry takes one by one.
  unfoldable pub fill_counters : List A → List (LinkedList A) → List (LinkedList A)
  unfolding carry_into
  fill_counters [] counters = counters
  fill_counters (x ∷ xs) counters =
      fill_counters xs (carry_into (record { nodes = x ∷ []; size = 1 }) counters)

  -- The last loop of `sort(comp)`: each counter takes the one below it.
  unfoldable pub collect : LinkedList A → List (LinkedList A) → LinkedList A
  unfolding merge
  collect below [] = below
  collect below (c ∷ cs) = collect (merge c below).0 cs

  -- The end of `sort(comp)`, which takes the nodes of the last counter.
  unfoldable pub take_last : List (LinkedList A) → LinkedList A
  unfolding collect
  take_last [] = new
  take_last (c ∷ cs) = collect c cs

  -- `sort(comp)`
  unfoldable pub sort : LinkedList A → LinkedList A
  unfolding fill_counters take_last
  sort t = if ltb t.size 2 then t else take_last (fill_counters t.nodes [])
