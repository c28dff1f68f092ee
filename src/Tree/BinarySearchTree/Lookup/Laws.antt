-- ===== src/Tree/BinarySearchTree/Lookup/Laws.antt =====
-- `find` and what it tells the policy, of include/chaistl/containers/tree/binary_search_tree.hpp.
use chaistl.Common.{
  Bool, true, false, not, ◌==◌, ◌≤◌, ◌≡◌, refl, sym, ap, ◌∙◌, arith, List, [], ◌∷◌, ◌++◌, Option,
  some, none, All, length, length-append, Bool-cases, inl, inr, if◌then◌else◌, count-append,
  All-count_zero,
}
use chaistl.Common
use chaistl.Order.{IsStrictWeak}
use chaistl.Sort.Base.{IsSorted}
use chaistl.Tree.Node.{
  Tree, null, node, Frame, from_left, from_right, Place, plug, subtree, root_of, elements,
  elements_before, elements_after,
}
use chaistl.Tree.Node.Order.{elements-root_of}
use chaistl.Tree.Search.{search_from, find_search, LookupResult}
use chaistl.Tree.Search.Laws.{by_key}
use chaistl.Tree.Search.Find.{matches, IsFound, find_search-IsFound}
use chaistl.Tree.Hint.Slots.{IsHint}
use chaistl.Tree.BinarySearchTree.{BinarySearchTree, BalancePolicy, Iterator, place_at, rank}
use chaistl.Tree.BinarySearchTree.Place.{head_or, PointsAt, place_at-PointsAt, place_at-end}
use chaistl.Tree.BinarySearchTree.Policy.{IsBalancePolicy, IsSearchTree, KeepsOnAccess}
use chaistl.Tree.BinarySearchTree.Lookup.{
  relocate, bound_access_node, notify_access, find_mutating, find_const, contains, is_node,
}

module _ {ℓ} {E : Type 0} {A : Type ℓ} where
  -- The last node that a search has visited is a node of the tree.
  search_from-IsHint :
      (p : A → Bool) (t : Tree E A) (above : List (Frame E A)) (result last : Option (Place E A))
      → IsHint (plug above t) last
      → IsHint (plug above t) (search_from p result last t above).last_visited
  unfolding search_from plug root_of subtree
  search_from-IsHint p null above result last h = h
  search_from-IsHint p (node l v e r) above result last h =
      let here : Place E A = record { left = l; value = v; ext = e; right = r; above = above } in
      elim (Bool-cases (p v)) [
        | inl c ↦
            rw c (search_from-IsHint p l (from_left v e r ∷ above) (some here) (some here) refl)
        | inr c ↦ rw c (search_from-IsHint p r (from_right l v e ∷ above) result (some here) refl)
      ]

-- The tree has the same elements after the policy has restructured it.
pub record Keeps {ℓ} {S E : Type 0} {A : Type ℓ} (Balanced : Tree E A → Type 0)
    (t u : BinarySearchTree S E A) : Type ℓ where
  pub balanced : Balanced u.root
  pub content : elements u.root ≡ elements t.root
  pub counted : u.count ≡ t.count

module _ {ℓ} {S E : Type 0} {A : Type ℓ} {Balanced : Tree E A → Type 0} where
  pub Keeps-IsSearchTree :
      (cmp : A → A → Bool) (t u : BinarySearchTree S E A)
      → Keeps Balanced t u
      → IsSearchTree Balanced cmp t
      → IsSearchTree Balanced cmp u
  Keeps-IsSearchTree cmp t u k inv = record {
    sorted = rw k.content inv.sorted;
    balanced = k.balanced;
    counted = k.counted ∙ inv.counted ∙ ap length (sym k.content);
  }

  access-Keeps :
      (access : Option (Place E A → Tree E A)) (it : Iterator E A) (t : BinarySearchTree S E A)
      → KeepsOnAccess Balanced access
      → IsHint t.root it
      → Balanced t.root
      → Keeps Balanced t (elim access as (λ _. BinarySearchTree S E A) [
        | none ↦ t
        | some f ↦ elim it as (λ _. BinarySearchTree S E A) [
          | none ↦ t
          | some x ↦ record t { root = f x }
        ]
      ])
  access-Keeps none it t law h b = record { balanced = b; content = refl; counted = refl }
  access-Keeps (some f) none t law h b = record { balanced = b; content = refl; counted = refl }
  access-Keeps (some f) (some x) t law h b =
      let held = law x (rw h b) in
      record { balanced = held.balanced; content = held.content ∙ ap elements h; counted = refl }

module _ {ℓ} {S E : Type 0} {A : Type ℓ} where
  pub relocate-PointsAt :
      (t u : BinarySearchTree S E A) (it : Iterator E A) (front back : List A)
      → elements u.root ≡ elements t.root
      → elements t.root ≡ front ++ back
      → PointsAt t.root front back it
      → PointsAt u.root front back (relocate it t u)
  unfolding relocate rank
  relocate-PointsAt t u none front back q s h =
      let past : length (elements u.root) ≤ length (elements t.root) = omega (arith, ap length q) in
      rw (place_at-end (length (elements t.root)) u.root [] past) h
  relocate-PointsAt t u (some x) front back q s h =
      rw (ap length h.is_before) (place_at-PointsAt u.root front back (q ∙ s))

module _ {ℓ κ} {S E : Type 0} {A : Type ℓ} {K : Type κ} (kov : A → K) (comp : K → K → Bool) where
  -- What a search has found is found after the policy has restructured the tree.
  relocate-IsFound :
      (key : K) (t u : BinarySearchTree S E A) (it : Iterator E A)
      → elements u.root ≡ elements t.root
      → IsFound kov comp key t.root it
      → IsFound kov comp key u.root (relocate it t u)
  unfolding relocate rank head_or
  relocate-IsFound key t u none q h =
      let past : length (elements u.root) ≤ length (elements t.root) = omega (arith, ap length q) in
      rw (place_at-end (length (elements t.root)) u.root [] past)
        (record { absent = rw q h.absent })
  relocate-IsFound key t u (some x) q h =
      let split = q ∙ sym (ap elements h.in_tree) ∙ elements-root_of x in
      hit_at (place_at (length (elements_before x)) u.root [])
        (place_at-PointsAt u.root (elements_before x) (x.value ∷ elements_after x) split)
    where
      hit_at :
          (it : Iterator E A)
          → PointsAt u.root (elements_before x) (x.value ∷ elements_after x) it
          → IsFound kov comp key u.root it
      hit_at none p = absurd (omega (arith, ap length p.is_nil))
      hit_at (some y) p = record {
        in_tree = p.in_tree;
        equivalent = rw (sym (ap (head_or x.value) p.is_from)) h.equivalent;
      }

module _ {ℓ κ} {S E : Type 0} {A : Type ℓ} {K : Type κ} (kov : A → K) {comp : K → K → Bool}
    (o : IsStrictWeak comp) {P : BalancePolicy S E A} {Balanced : Tree E A → Type 0}
    (laws : IsBalancePolicy P Balanced) where
  access_found :
      (key : K) (t : BinarySearchTree S E A) (search : LookupResult E A)
      → Balanced t.root
      → IsHint t.root search.last_visited
      → IsFound kov comp key t.root search.result
      → Keeps Balanced t (notify_access P (bound_access_node search) t)
  unfolding notify_access bound_access_node
  access_found key t search b last found =
      access-Keeps P.after_access _ t laws.on_access (visited search.result found) b
    where
      visited :
          (r : Option (Place E A))
          → IsFound kov comp key t.root r
          → IsHint t.root
              (elim r as (λ _. Option (Place E A)) [ none ↦ search.last_visited | some x ↦ some x ])
      visited none f = last
      visited (some x) f = f.in_tree

  -- Over a policy that keeps the contract, find, which may restructure the tree, leaves a balanced tree
  -- with the same elements and the same size, and gives a node of it with the key, or end() when no
  -- element has the key.
  pub find_mutating-IsFound :
      (key : K) (t : BinarySearchTree S E A)
      → IsSearchTree Balanced (by_key kov comp) t
      → Keeps Balanced t (find_mutating kov comp P key t).0
        × IsFound kov comp key
            (find_mutating kov comp P key t).0.root
            (find_mutating kov comp P key t).1
  unfolding find_mutating find_search plug
  find_mutating-IsFound key t inv =
      let found = find_search-IsFound kov o key t.root inv.sorted in
      let last = search_from-IsHint _ t.root [] none none tt in
      let kept = access_found key t (find_search kov comp key t.root) inv.balanced last found in
      (
        kept,
        relocate-IsFound kov comp key t (find_mutating kov comp P key t).0 _ kept.content found,
      )

module _ {ℓ κ} {E : Type 0} {A : Type ℓ} {K : Type κ} (kov : A → K) (comp : K → K → Bool) where
  is_node-IsFound :
      (key : K) (t : Tree E A) (it : Iterator E A)
      → IsFound kov comp key t it
      → is_node it ≡ not (Common.count (matches kov comp key) (elements t) == 0)
  is_node-IsFound key t none h =
      rw (All-count_zero (matches kov comp key) (elements t) h.absent) refl
  is_node-IsFound key t (some x) h =
      let p = matches kov comp key in
      let whole = sym (ap elements h.in_tree) ∙ elements-root_of x in
      rw whole (
        ground
          (arith, h.equivalent, count-append p (elements_before x) (x.value ∷ elements_after x)))

module _ {ℓ κ} {S E : Type 0} {A : Type ℓ} {K : Type κ} (kov : A → K) {comp : K → K → Bool}
    (o : IsStrictWeak comp) where
  -- On a tree in order, contains says whether some element has the key.
  pub contains-count :
      (key : K) (t : BinarySearchTree S E A)
      → IsSorted (by_key kov comp) (elements t.root)
      → contains kov comp key t ≡ not (Common.count (matches kov comp key) (elements t.root) == 0)
  unfolding contains find_const
  contains-count key t s =
      is_node-IsFound kov comp key t.root _ (find_search-IsFound kov o key t.root s)
