-- ===== src/Tree/Search/Laws.antt =====
-- The lookups of include/chaistl/containers/tree/algorithm.hpp find what their names say.
use chaistl.Common.{
  Bool, true, false, not, ◌≡◌, refl, arith, List, [], ◌∷◌, Option, none, All, Bool-cases, inl, inr,
}
use chaistl.Order.{IsStrictWeak}
use chaistl.Sort.Base.{IsSorted, All-mono, All-append}
use chaistl.Tree.Node.{
  Tree, null, node, Frame, from_left, from_right, Place, root_of, subtree, elements,
  elements_before, elements_after, plug, before, after,
}
use chaistl.Tree.Node.Step.{UpForward, UpForward-from_right}
use chaistl.Tree.Search.{
  equal_range_multi_from, equal_range_multi_node, lower_bound_search, upper_bound_search,
}
use chaistl.Tree.Search.Bound.{
  IsBound, IsMonotone, IsBound-here, search_from-IsBound, sorted-IsMonotone,
}

module _ {ℓ κ} {A : Type ℓ} {K : Type κ} (kov : A → K) (comp : K → K → Bool) where
  -- The comparator on the keys of elements.
  abbrev pub by_key : A → A → Bool
  by_key x y = comp (kov x) (kov y)

  -- The tests of the two bounds of a key.
  abbrev pub not_less : K → A → Bool
  not_less key v = not (comp (kov v) key)

  abbrev pub greater : K → A → Bool
  greater key v = comp key (kov v)

module _ {ℓ κ} {A : Type ℓ} {K : Type κ} (kov : A → K) {comp : K → K → Bool}
    (o : IsStrictWeak comp) where
  pub not_less_keeps :
      (key : K) (x y : A)
      → by_key kov comp y x ≡ false
      → not_less kov comp key x ≡ true
      → not_less kov comp key y ≡ true
  not_less_keeps key x y q h = ground (arith, o.neg_trans (kov y) (kov x) key)

  pub greater_keeps :
      (key : K) (x y : A)
      → by_key kov comp y x ≡ false
      → greater kov comp key x ≡ true
      → greater kov comp key y ≡ true
  greater_keeps key x y q h = ground (arith, o.neg_trans key (kov y) (kov x))

  -- What is greater than the key is not less than it.
  greater-not_less :
      (key : K) (x : A) → greater kov comp key x ≡ true → not_less kov comp key x ≡ true
  greater-not_less key x h = ground (arith, o.asym key (kov x))

  pub greater-All :
      (key : K) (xs : List A)
      → All (λ x. greater kov comp key x ≡ true) xs
      → All (λ x. not_less kov comp key x ≡ true) xs
  greater-All key xs = All-mono xs (greater-not_less key)

  pub less-All :
      (key : K) (xs : List A)
      → All (λ x. not_less kov comp key x ≡ false) xs
      → All (λ x. greater kov comp key x ≡ false) xs
  less-All key xs = All-mono xs (λ x h. ground (arith, h, greater-not_less key x))

module _ {ℓ κ} {E : Type 0} {A : Type ℓ} {K : Type κ} (kov : A → K) {comp : K → K → Bool}
    (o : IsStrictWeak comp) where
  -- On a tree in order, lower_bound_search gives the first element in order that is not less than the
  -- key: all before it are less, it and all behind it are not. It gives end() when all are less.
  pub lower_bound_search-IsBound :
      (key : K) (t : Tree E A)
      → IsSorted (by_key kov comp) (elements t)
      → IsBound (not_less kov comp key) t (lower_bound_search kov comp key none t []).result
  unfolding lower_bound_search plug before after
  lower_bound_search-IsBound key t s =
      search_from-IsBound _ t [] none none (sorted-IsMonotone _ _ t (not_less_keeps kov o key) s) tt
        tt refl

  -- On a tree in order, upper_bound_search gives the first element in order that the key is less than:
  -- the key is less than no element before it, and less than it and all behind it. It gives end()
  -- when the key is less than none.
  pub upper_bound_search-IsBound :
      (key : K) (t : Tree E A)
      → IsSorted (by_key kov comp) (elements t)
      → IsBound (greater kov comp key) t (upper_bound_search kov comp key none t []).result
  unfolding upper_bound_search plug before after
  upper_bound_search-IsBound key t s =
      search_from-IsBound _ t [] none none (sorted-IsMonotone _ _ t (greater_keeps kov o key) s) tt
        tt refl

  equal_range_multi_from-IsBound :
      (key : K) (t : Tree E A) (above : List (Frame E A)) (result : Option (Place E A))
      → IsMonotone (not_less kov comp key) t
      → IsMonotone (greater kov comp key) t
      → All (λ x. not_less kov comp key x ≡ false) (before above)
      → All (λ x. greater kov comp key x ≡ true) (after above)
      → UpForward t above result
      → IsBound
          (not_less kov comp key)
          (plug above t)
          (equal_range_multi_from kov comp key result t above).0
        × IsBound
            (greater kov comp key)
            (plug above t)
            (equal_range_multi_from kov comp key result t above).1
  unfolding equal_range_multi_from lower_bound_search upper_bound_search plug before after root_of
      subtree elements_before elements_after
  equal_range_multi_from-IsBound key null above result m n b a u = (
    IsBound-here _ above result b (greater-All kov o key _ a) u,
    IsBound-here _ above result (less-All kov o key _ b) a u,
  )
  equal_range_multi_from-IsBound key (node l v e r) above result m n b a u =
      elim (Bool-cases (comp (kov v) key)) [
        | inl h ↦
            let low =
              All-append _ (elements l) (v ∷ []) (m.1 (ground (arith, h)))
                (ground (arith, h), tt) in
            rw h (
              equal_range_multi_from-IsBound key r (from_right l v e ∷ above) result m.3 n.3
                (All-append _ (before above) _ b low) a
                (UpForward-from_right l v e r above result u))
        | inr h ↦ elim (Bool-cases (comp key (kov v))) [
          | inl g ↦
              let up = All-append _ (elements r) (after above) (n.0 g) a in
              rw (h, g)
                (equal_range_multi_from-IsBound key l (from_left v e r ∷ above) _ m.2 n.2 b (g, up)
                  (refl, refl, refl))
          | inr g ↦
              let reached : not_less kov comp key v ≡ true = ground (arith, h) in
              let up =
                All-append _ (elements r) (after above) (m.0 reached) (greater-All kov o key _ a) in
              let low = All-append _ (elements l) (v ∷ []) (n.1 g) (g, tt) in
              rw (h, g)
                (
                  search_from-IsBound _ l (from_left v e r ∷ above) _ none m.2 b (reached, up)
                      (refl, refl, refl),
                  search_from-IsBound _ r (from_right l v e ∷ above) result none n.3
                      (All-append _ (before above) _ (less-All kov o key _ b) low) a
                      (UpForward-from_right l v e r above result u),
                )
        ]
      ]

  -- On a tree in order, equal_range_multi_node gives the lower bound of the key and its upper bound.
  pub equal_range_multi_node-IsBound :
      (key : K) (t : Tree E A)
      → IsSorted (by_key kov comp) (elements t)
      → IsBound (not_less kov comp key) t (equal_range_multi_node kov comp key t).0
        × IsBound (greater kov comp key) t (equal_range_multi_node kov comp key t).1
  unfolding equal_range_multi_node plug before after
  equal_range_multi_node-IsBound key t s =
      equal_range_multi_from-IsBound key t [] none
        (sorted-IsMonotone _ _ t (not_less_keeps kov o key) s)
        (sorted-IsMonotone _ _ t (greater_keeps kov o key) s) tt tt refl
