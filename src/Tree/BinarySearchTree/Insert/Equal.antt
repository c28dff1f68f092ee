-- ===== src/Tree/BinarySearchTree/Insert/Equal.antt =====
-- The insertions of equivalent keys of include/chaistl/containers/tree/binary_search_tree.hpp.
use chaistl.Common.{
  Bool, true, false, ◌≡◌, sym, ap, arith, ◌+◌, List, [], ◌∷◌, none, All, count, count-append,
}
use chaistl.Order.{IsStrictWeak}
use chaistl.Sort.Base.{All-mono}
use chaistl.Tree.Node.{Tree, null, Frame, plug, elements, before, after}
use chaistl.Tree.Search.{InsertPosition, existing, attach}
use chaistl.Tree.Search.Laws.{by_key, greater}
use chaistl.Tree.Search.Insert.{IsUpperSlot, get_insert_equal_pos-IsUpperSlot}
use chaistl.Tree.Hint.Slots.{IsHint}
use chaistl.Tree.Hint.Equal.{IsFitting, get_insert_hint_equal_pos-IsFitting}
use chaistl.Tree.BinarySearchTree.{BinarySearchTree, BalancePolicy, Iterator}
use chaistl.Tree.BinarySearchTree.Policy.{IsBalancePolicy, IsSearchTree}
use chaistl.Tree.BinarySearchTree.Insert.{
  link_node, insert_at, insert_equal, insert_hint_equal, insert_equal_range,
}
use chaistl.Tree.BinarySearchTree.Insert.Reference.{insert-IsSorted}
use chaistl.Tree.BinarySearchTree.Insert.Unique.{Links, link_node-Links}

-- What an insertion that accepts equivalent keys leaves: a tree with the invariant that has the
-- sequence it had with the value put in, and an iterator to an element that is the value.
pub record InsertsEqual {ℓ κ} {S E : Type 0} {A : Type ℓ} {K : Type κ} (kov : A → K)
    (comp : K → K → Bool) (Balanced : Tree E A → Type 0) (x : A) (t u : BinarySearchTree S E A)
    (it : Iterator E A) : Type ℓ where
  pub valid : IsSearchTree Balanced (by_key kov comp) u
  pub front : List A
  pub back : List A
  pub links : Links Balanced x front back t u it

module _ {ℓ κ} {S E : Type 0} {A : Type ℓ} {K : Type κ} (kov : A → K) (comp : K → K → Bool)
    {P : BalancePolicy S E A} {Balanced : Tree E A → Type 0}
    (laws : IsBalancePolicy P Balanced) where
  insert_fitting :
      (slot : List (Frame E A)) (x : A) (t : BinarySearchTree S E A)
      → IsSearchTree Balanced (by_key kov comp) t
      → plug slot null ≡ t.root
      → All (λ y. comp (kov x) (kov y) ≡ false) (before slot)
      → All (λ y. comp (kov y) (kov x) ≡ false) (after slot)
      → IsSearchTree Balanced (by_key kov comp) (link_node P x slot t).0
        × Links Balanced x
            (before slot)
            (after slot)
            t
            (link_node P x slot t).0
            (link_node P x slot t).1
  insert_fitting slot x t inv q low high =
      let l = link_node-Links laws x slot t q inv.balanced inv.counted in
      let sorted =
        insert-IsSorted (by_key kov comp) (before slot) (after slot) x (rw (sym l.split) inv.sorted)
          low high in
      (record { sorted = rw l.content sorted; balanced = l.balanced; counted = l.counted }, l)

  insert_hint_at :
      (pos : InsertPosition E A) (x : A) (t : BinarySearchTree S E A)
      → IsSearchTree Balanced (by_key kov comp) t
      → IsFitting kov comp (kov x) t.root pos
      → InsertsEqual kov comp Balanced x t (insert_at P pos x t).0 (insert_at P pos x t).1
  unfolding insert_at
  insert_hint_at (existing y) x t inv h = absurd h.impossible
  insert_hint_at (attach slot) x t inv h =
      let r = insert_fitting slot x t inv h.in_tree h.lower h.upper in
      record { valid = r.0; front = before slot; back = after slot; links = r.1 }

-- The upper bound of the key, as a split of the sequence.
pub record AtUpperBound {ℓ κ} {A : Type ℓ} {K : Type κ} (kov : A → K) (comp : K → K → Bool)
    (key : K) (front back : List A) : Type ℓ where
  pub not_greater : All (λ y. greater kov comp key y ≡ false) front
  pub are_greater : All (λ y. greater kov comp key y ≡ true) back

module _ {ℓ κ} {S E : Type 0} {A : Type ℓ} {K : Type κ} (kov : A → K) {comp : K → K → Bool}
    (o : IsStrictWeak comp) {P : BalancePolicy S E A} {Balanced : Tree E A → Type 0}
    (laws : IsBalancePolicy P Balanced) where
  insert_upper_at :
      (pos : InsertPosition E A) (slot : List (Frame E A)) (x : A) (t : BinarySearchTree S E A)
      → IsSearchTree Balanced (by_key kov comp) t
      → pos ≡ attach slot
      → IsUpperSlot kov comp (kov x) t.root slot
      → (r : InsertsEqual kov comp Balanced x t (insert_at P pos x t).0 (insert_at P pos x t).1)
        × AtUpperBound kov comp (kov x) r.front r.back
  unfolding insert_at
  insert_upper_at pos slot x t inv q u =
      let high = All-mono (after slot) (λ y h. o.asym (kov x) (kov y) h) u.upper in
      let r = insert_fitting kov comp laws slot x t inv u.in_tree u.lower high in
      rw q (
        record { valid = r.0; front = before slot; back = after slot; links = r.1 },
        record { not_greater = u.lower; are_greater = u.upper },
      )

  -- Over a policy that keeps the contract, insert_equal keeps the invariant of the container and puts
  -- the value into the sequence behind all elements that are not greater, so behind those with the same
  -- key; its iterator points to the value.
  pub insert_equal-InsertsEqual :
      (x : A) (t : BinarySearchTree S E A)
      → IsSearchTree Balanced (by_key kov comp) t
      → (r : InsertsEqual kov comp Balanced x t
          (insert_equal kov comp P x t).0
          (insert_equal kov comp P x t).1)
        × AtUpperBound kov comp (kov x) r.front r.back
  unfolding insert_equal
  insert_equal-InsertsEqual x t inv =
      let (slot, q, u) = get_insert_equal_pos-IsUpperSlot kov o (kov x) t.root inv.sorted in
      insert_upper_at _ slot x t inv q u

  -- Over a policy that keeps the contract, insert_hint_equal with any hint of the tree keeps the
  -- invariant of the container and puts the value into the sequence; its iterator points to the value.
  pub insert_hint_equal-InsertsEqual :
      (hint : Iterator E A) (x : A) (t : BinarySearchTree S E A)
      → IsHint t.root hint
      → IsSearchTree Balanced (by_key kov comp) t
      → InsertsEqual kov comp Balanced x t
          (insert_hint_equal kov comp P hint x t).0
          (insert_hint_equal kov comp P hint x t).1
  unfolding insert_hint_equal
  insert_hint_equal-InsertsEqual hint x t in_tree inv =
      insert_hint_at kov comp laws _ x t inv
        (get_insert_hint_equal_pos-IsFitting kov o (kov x) t.root hint in_tree inv.sorted)

  -- Over a policy that keeps the contract, the insertion of a range with equivalent keys keeps the
  -- invariant of the container and adds just the values: every test counts them more.
  pub insert_equal_range-IsSearchTree :
      (xs : List A) (t : BinarySearchTree S E A)
      → IsSearchTree Balanced (by_key kov comp) t
      → IsSearchTree Balanced (by_key kov comp) (insert_equal_range kov comp P xs t)
        × ((p : A → Bool)
            → count p (elements (insert_equal_range kov comp P xs t).root)
              ≡ count p xs + count p (elements t.root))
  unfolding insert_equal_range
  insert_equal_range-IsSearchTree [] t inv = (inv, λ p. omega arith)
  insert_equal_range-IsSearchTree (x ∷ xs) t inv =
      let one = insert_hint_equal-InsertsEqual none x t tt inv in
      let rest = insert_equal_range-IsSearchTree xs _ one.valid in
      let l = one.links in
      (
        rest.0,
        λ p. omega (
          arith,
          rest.1 p,
          ap (count p) l.split,
          ap (count p) l.content,
          count-append p one.front one.back,
          count-append p one.front (x ∷ one.back),
        ),
      )
