-- ===== src/Tests/HeapTests.antt =====
-- The heaps of include/chaistl/containers/heap at concrete inputs.
use chaistl.Common.{
  Bool, false, ℕ, ◌+◌, ◌≡◌, refl, arith, List, [], ◌∷◌, some, ltb, length, count, bit,
}
use chaistl.Order.{ltb-IsStrictWeak}
use chaistl.Heap.Link.{Link, null, node, holds, count_nodes}
use chaistl.Heap.Link.Order.{AllIn}
use chaistl.Heap.Policy.{NodeHeapPolicy, IsLawful}
use chaistl.Heap.PriorityQueue.{PriorityQueue, empty_queue, push, from_range, top, pop, join}
use chaistl.Heap.PriorityQueue.Laws.{IsSound, push-IsSound, pop-some, join-IsSound}
use chaistl.Heap.PriorityQueue.Drain.{drain, IsDescending, from_range-drain_sorts}
use chaistl.Heap.PriorityQueue.{erase, modify}
use chaistl.Heap.PriorityQueue.Handles.{erase-IsSound, modify-IsSound}
use chaistl.Heap.Policy.{IsLawfulDetach, value_at}
use chaistl.Heap.Link.{down}
use chaistl.Heap.Binomial
use chaistl.Heap.Binomial.Laws.{IsBinomial, IsBinomial-IsLawful}
use chaistl.Heap.Pairing
use chaistl.Heap.Pairing.Laws.{IsPairing, IsPairing-IsLawful, detach-IsLawful}
use chaistl.Heap.Skew
use chaistl.Heap.Leftist
use chaistl.Heap.Leftist.{npl}
use chaistl.Heap.Leftist.Meld.{IsLeftist}
use chaistl.Heap.Leftist.Laws.{IsLeftist-IsLawful}

abbrev skew : NodeHeapPolicy ℕ ℕ
skew = Skew.policy ltb 0

abbrev leftist : NodeHeapPolicy ℕ ℕ
leftist = Leftist.policy ltb

abbrev values : List ℕ
values = 3 ∷ 9 ∷ 4 ∷ 9 ∷ 1 ∷ []

IsLeftist-IsLawful_example : IsLawful ltb leftist (IsLeftist ltb)
IsLeftist-IsLawful_example = IsLeftist-IsLawful ltb-IsStrictWeak

drained : drain ltb leftist 5 (from_range ltb leftist values) ≡ 9 ∷ 9 ∷ 4 ∷ 3 ∷ 1 ∷ []
unfolding drain from_range top pop Leftist.insert Leftist.top Leftist.extract_top
drained = refl

from_range-drain_sorts_example :
    IsDescending ltb (drain ltb leftist (length values) (from_range ltb leftist values))
    × ((p : ℕ → Bool)
        → count p (drain ltb leftist (length values) (from_range ltb leftist values))
          ≡ count p values)
from_range-drain_sorts_example = from_range-drain_sorts IsLeftist-IsLawful_example values

-- A leftist heap of the values 9, 4, 3.
abbrev heap_of_three : Link ℕ ℕ
heap_of_three = node (node null (node null null 1 3) 1 4) null 2 9

heap_of_three-IsLeftist : IsLeftist ltb heap_of_three
heap_of_three-IsLeftist = record {
  shape = record {
    tree = refl;
    binary = (refl, (tt, tt, (tt, tt, tt)), tt);
    heap = ((refl, (refl, tt)), (tt, tt, (tt, tt, tt)), tt);
  };
  ranked = (omega arith, (refl, tt, (refl, tt, tt)), tt);
}

abbrev queue_of_three : PriorityQueue ℕ ℕ
queue_of_three = record { root = heap_of_three; count = 3 }

queue_of_three-IsSound : IsSound (IsLeftist ltb) queue_of_three
unfolding count_nodes
queue_of_three-IsSound = record { heap = heap_of_three-IsLeftist; counted = refl }

queue_of_three_top : top ltb leftist queue_of_three ≡ some 9
unfolding top Leftist.top
queue_of_three_top = refl

pop-some_example :
    (r : PriorityQueue ℕ ℕ) × (pop ltb leftist queue_of_three ≡ some r)
    × IsSound (IsLeftist ltb) r
    × ((p : ℕ → Bool) → holds p heap_of_three ≡ bit (p 9) + holds p r.root)
    × AllIn (λ x. ltb 9 x ≡ false) heap_of_three
pop-some_example =
    pop-some IsLeftist-IsLawful_example queue_of_three 9 queue_of_three-IsSound queue_of_three_top

push-IsSound_example :
    IsSound (IsLeftist ltb) (push ltb leftist 7 queue_of_three)
    × ((p : ℕ → Bool)
        → holds p (push ltb leftist 7 queue_of_three).root ≡ bit (p 7) + holds p heap_of_three)
push-IsSound_example =
    push-IsSound IsLeftist-IsLawful_example 7 queue_of_three queue_of_three-IsSound

join-IsSound_example :
    IsSound (IsLeftist ltb) (join ltb leftist queue_of_three queue_of_three).0
    × IsSound (IsLeftist ltb) (join ltb leftist queue_of_three queue_of_three).1
    × ((p : ℕ → Bool)
        → holds p (join ltb leftist queue_of_three queue_of_three).0.root
          ≡ holds p heap_of_three + holds p heap_of_three)
    × ((join ltb leftist queue_of_three queue_of_three).1 ≡ empty_queue)
join-IsSound_example =
    join-IsSound IsLeftist-IsLawful_example queue_of_three queue_of_three queue_of_three-IsSound
      queue_of_three-IsSound

abbrev binomial : NodeHeapPolicy ℕ ℕ
binomial = Binomial.policy ltb

abbrev pairing : NodeHeapPolicy ℕ ℕ
pairing = Pairing.policy ltb 0

IsBinomial-IsLawful_example : IsLawful ltb binomial (IsBinomial ltb)
IsBinomial-IsLawful_example = IsBinomial-IsLawful ltb-IsStrictWeak

IsPairing-IsLawful_example : IsLawful ltb pairing (IsPairing ltb)
IsPairing-IsLawful_example = IsPairing-IsLawful ltb-IsStrictWeak 0

-- The numbers 7, 2 and 5 in a binomial heap: one tree of degree 0 and one of degree 1.
abbrev forest_of_three : Link ℕ ℕ
forest_of_three = node null (node (node null null 0 2) null 1 7) 0 5

forest_runs :
    Binomial.insert ltb
      (node null null 0 5)
      (Binomial.insert ltb (node null null 0 2) (Binomial.insert ltb (node null null 0 7) null))
    ≡ forest_of_three
unfolding Binomial.insert
forest_runs = refl

forest_of_three-IsBinomial : IsBinomial ltb forest_of_three
forest_of_three-IsBinomial = record {
  relaxed = omega arith;
  heap = (tt, tt, ((refl, tt), (tt, tt, tt), tt));
}

-- The numbers 9, 4, 3 and 6 in a pairing heap.
abbrev tree_of_four : Link ℕ ℕ
tree_of_four = node (node (node null null 0 3) (node null null 0 6) 0 4) null 0 9

abbrev queue_of_four : PriorityQueue ℕ ℕ
queue_of_four = record { root = tree_of_four; count = 4 }

queue_of_four-IsSound : IsSound (IsPairing ltb) queue_of_four
unfolding count_nodes
queue_of_four-IsSound = record {
  heap = record {
    tree = refl;
    heap = ((refl, (refl, tt)), ((refl, tt), (tt, tt, tt), (tt, tt, tt)), tt);
  };
  counted = refl;
}

handle_to_four : value_at (down ∷ []) tree_of_four ≡ some 4
unfolding value_at
handle_to_four = refl

handles_of_numbers : IsLawfulDetach {E = ℕ} (Pairing.detach ltb) (IsPairing ltb)
handles_of_numbers = detach-IsLawful ltb-IsStrictWeak

erase-IsSound_example :
    (r : PriorityQueue ℕ ℕ) × (erase ltb pairing (Pairing.detach ltb) (down ∷ []) queue_of_four
      ≡ some r)
    × IsSound (IsPairing ltb) r
    × ((p : ℕ → Bool) → holds p tree_of_four ≡ bit (p 4) + holds p r.root)
erase-IsSound_example =
    erase-IsSound IsPairing-IsLawful_example (Pairing.detach ltb) handles_of_numbers (down ∷ [])
      queue_of_four 4 queue_of_four-IsSound handle_to_four

modify-IsSound_example :
    (r : PriorityQueue ℕ ℕ) × (modify ltb pairing (Pairing.detach ltb) (down ∷ []) 12 queue_of_four
      ≡ some r)
    × IsSound (IsPairing ltb) r
    × ((p : ℕ → Bool) → holds p tree_of_four + bit (p 12) ≡ bit (p 4) + holds p r.root)
    × (r.count ≡ 4)
modify-IsSound_example =
    modify-IsSound IsPairing-IsLawful_example (Pairing.detach ltb) handles_of_numbers (down ∷ [])
      queue_of_four 4 12 queue_of_four-IsSound handle_to_four
