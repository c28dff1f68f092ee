-- ===== src/Heap/PriorityQueue.antt =====
-- include/chaistl/containers/heap/priority_queue.hpp over a node heap policy, which is a parameter.
--
-- The forest is `storage_.root` and `storage_.count`; a node is created with the policy's fresh
-- extension. A failed CHAI_HARDENED check, which ends the program, is `none`.
pub mod Laws
pub mod Drain
pub mod Handles
use chaistl.Common.{
  Bool, ℕ, zero, suc, ◌+◌, ◌-◌, ◌==◌, ◌&&◌, List, [], ◌∷◌, Option, some, none, if◌then◌else◌,
}
use chaistl.Heap.Link.{Link, null, count_nodes, Edge}
use chaistl.Heap.Policy.{NodeHeapPolicy, singleton, Detach}

pub record PriorityQueue {ℓ} (E : Type 0) (A : Type ℓ) : Type ℓ where
  pub root : Link E A
  pub count : ℕ

module _ {ℓ} {E : Type 0} {A : Type ℓ} where
  -- `priority_queue()`
  abbrev pub empty_queue : PriorityQueue E A
  empty_queue = record { root = null; count = 0 }

  -- `size()`
  unfoldable pub size : PriorityQueue E A → ℕ
  size q = q.count

  -- `empty()`
  unfoldable pub empty : PriorityQueue E A → Bool
  unfolding size
  empty q = size q == 0

  -- `swap(other)`, which exchanges the comparators too: they are the section's.
  unfoldable pub swap :
      PriorityQueue E A × PriorityQueue E A → PriorityQueue E A × PriorityQueue E A
  swap (this, other) = (other, this)

module _ {ℓ} {E : Type 0} {A : Type ℓ} (cmp : A → A → Bool) (P : NodeHeapPolicy E A) where
  -- `create_and_insert_node(value)`, which `push`, `emplace` and `push_value` call.
  unfoldable pub push : A → PriorityQueue E A → PriorityQueue E A
  push v q = record q { root = P.insert (singleton cmp P v) q.root; count = q.count + 1 }

  -- `push_range(range)`, and the loop of the constructor from a range.
  unfoldable pub push_range : List A → PriorityQueue E A → PriorityQueue E A
  unfolding push
  push_range [] q = q
  push_range (v ∷ vs) q = push_range vs (push v q)

  -- `priority_queue(first, last)`
  unfoldable pub from_range : List A → PriorityQueue E A
  unfolding push_range
  from_range vs = push_range vs empty_queue

  -- `top()`
  unfoldable pub top : PriorityQueue E A → Option A
  unfolding empty
  top q = if empty q then none else P.top q.root

  -- `pop()`: the extracted node is destroyed.
  unfoldable pub pop : PriorityQueue E A → Option (PriorityQueue E A)
  unfolding empty
  pop q = if empty q then none else elim (P.extract_top q.root) [
    | none ↦ none
    | some (v, r) ↦ some (record q { root = r; count = q.count - 1 })
  ]

  -- `join(other)` of two queues: the queue, and the other one, which is left empty.
  unfoldable pub join :
      PriorityQueue E A → PriorityQueue E A → PriorityQueue E A × PriorityQueue E A
  join q other = (
    record q { root = P.join q.root other.root; count = q.count + other.count },
    record other { root = null; count = 0 },
  )

  -- `verify()`
  unfoldable pub verify : PriorityQueue E A → Bool
  unfolding count_nodes
  verify q = (count_nodes q.root == q.count) && P.verify q.root

  -- `erase(it)` over a policy with `detach`.
  unfoldable pub erase : Detach E A → List Edge → PriorityQueue E A → Option (PriorityQueue E A)
  unfolding empty
  erase detach it q = if empty q then none else elim (detach it q.root) [
    | none ↦ none
    | some (v, r) ↦ some (record q { root = r; count = q.count - 1 })
  ]

  -- `modify(it, value)`: detach, assign, insert again. Assigning does not throw here.
  unfoldable pub modify :
      Detach E A → List Edge → A → PriorityQueue E A → Option (PriorityQueue E A)
  unfolding empty
  modify detach it value q = if empty q then none else elim (detach it q.root) [
    | none ↦ none
    | some (v, r) ↦
        some (record q { root = P.insert (singleton cmp P value) r; count = (q.count - 1) + 1 })
  ]
