-- ===== src/Tree/Search/Unique.antt =====
-- `equal_range_unique_node` of include/chaistl/containers/tree/algorithm.hpp, on trees without two
-- equivalent keys.
use chaistl.Common.{
  Bool, true, false, not, ◌≡◌, refl, sym, arith, List, [], ◌∷◌, Option, none, All, Bool-cases, inl,
  inr,
}
use chaistl.Order.{IsStrictWeak}
use chaistl.Sort.Base.{IsSorted, All-mono, All-append, All-equal}
use chaistl.Tree.Node.{
  Tree, null, node, Frame, from_left, from_right, Place, plug, subtree, root_of, elements, before,
  after, elements_before, elements_after,
}
use chaistl.Tree.Node.Order.{node_minimum_lem}
use chaistl.Tree.Node.Step.{UpForward, UpForward-from_right}
use chaistl.Tree.Search.{range_end, equal_range_unique_from, equal_range_unique_node}
use chaistl.Tree.Search.Bound.{IsSorted-split, IsBound, IsBound-here}
use chaistl.Tree.Search.Laws.{by_key, not_less, greater, greater-All, less-All}

module _ {ℓ κ} {A : Type ℓ} {K : Type κ} (kov : A → K) (comp : K → K → Bool) where
  -- In a sequence sorted by this, every element is less than all behind it.
  abbrev pub not_after : A → A → Bool
  not_after y x = not (by_key kov comp x y)

module _ {ℓ κ} {A : Type ℓ} {K : Type κ} (kov : A → K) {comp : K → K → Bool}
    (o : IsStrictWeak comp) where
  -- Around an element that is equivalent to the key.
  less_than_hit :
      (key : K) (v : A) (xs : List A)
      → comp key (kov v) ≡ false
      → All (λ x. not_after kov comp v x ≡ false) xs
      → All (λ x. not_less kov comp key x ≡ false) xs
  less_than_hit key v xs h q =
      All-mono xs (λ x k. ground (arith, k, h, o.neg_trans (kov x) key (kov v))) q

  greater_than_hit :
      (key : K) (v : A) (xs : List A)
      → comp (kov v) key ≡ false
      → All (λ x. not_after kov comp x v ≡ false) xs
      → All (λ x. greater kov comp key x ≡ true) xs
  greater_than_hit key v xs h q =
      All-mono xs (λ x k. ground (arith, k, h, o.neg_trans (kov v) key (kov x))) q

module _ {ℓ κ} {E : Type 0} {A : Type ℓ} {K : Type κ} (kov : A → K) {comp : K → K → Bool}
    (o : IsStrictWeak comp) where
  -- The end of the range of a hit is the upper bound.
  range_end-IsBound :
      (key : K) (result : Option (Place E A)) (r : Tree E A) (above : List (Frame E A))
      → All (λ x. greater kov comp key x ≡ false) (before above)
      → All (λ x. greater kov comp key x ≡ true) (elements r)
      → All (λ x. greater kov comp key x ≡ true) (after above)
      → UpForward r above result
      → IsBound (greater kov comp key) (plug above r) (range_end result r above)
  unfolding range_end
  range_end-IsBound key result null above b e a u = IsBound-here _ above result b a u
  range_end-IsBound key result (node l v x r) above b e a u =
      let m = node_minimum_lem l v x r above in
      let up =
        All-equal _ _ _ (sym m.2) (All-append _ (elements (node l v x r)) (after above) e a) in
      record { in_tree = m.0; lower = All-equal _ _ _ (sym m.1) b; passes = up.0; upper = up.1 }

  equal_range_unique_from-IsBound :
      (key : K) (t : Tree E A) (above : List (Frame E A)) (result : Option (Place E A))
      → IsSorted (not_after kov comp) (elements t)
      → All (λ x. not_less kov comp key x ≡ false) (before above)
      → All (λ x. greater kov comp key x ≡ true) (after above)
      → UpForward t above result
      → IsBound
          (not_less kov comp key)
          (plug above t)
          (equal_range_unique_from kov comp key result t above).0
        × IsBound
            (greater kov comp key)
            (plug above t)
            (equal_range_unique_from kov comp key result t above).1
  unfolding equal_range_unique_from plug before after root_of subtree elements_before elements_after
      elements
  equal_range_unique_from-IsBound key null above result s b a u = (
    IsBound-here _ above result b (greater-All kov o key _ a) u,
    IsBound-here _ above result (less-All kov o key _ b) a u,
  )
  equal_range_unique_from-IsBound key (node l v e r) above result s b a u =
      let around = IsSorted-split _ (elements l) (elements r) v s in
      elim (Bool-cases (comp (kov v) key)) [
        | inl h ↦
            let low = less_than_hit kov o key v (elements l) (o.asym (kov v) key h) around.2 in
            let front = All-append _ (elements l) (v ∷ []) low (ground (arith, h), tt) in
            rw h (
              equal_range_unique_from-IsBound key r (from_right l v e ∷ above) result around.1
                (All-append _ (before above) _ b front) a
                (UpForward-from_right l v e r above result u))
        | inr h ↦ elim (Bool-cases (comp key (kov v))) [
          | inl g ↦
              let high =
                greater_than_hit kov o key v (elements r) (o.asym key (kov v) g) around.3 in
              let back = All-append _ (elements r) (after above) high a in
              rw (h, g)
                (equal_range_unique_from-IsBound key l (from_left v e r ∷ above) _ around.0 b
                  (g, back) (refl, refl, refl))
          | inr g ↦
              let low = less_than_hit kov o key v (elements l) g around.2 in
              let high = greater_than_hit kov o key v (elements r) h around.3 in
              let front = All-append _ (before above) (elements l) b low in
              let back = All-append _ (elements r) (after above) high a in
              rw (h, g)
                (
                  record {
                    in_tree = refl;
                    lower = front;
                    passes = ground (arith, h);
                    upper = greater-All kov o key _ back;
                  },
                  range_end-IsBound key result r (from_right l v e ∷ above)
                      (All-append _ (before above) _ (less-All kov o key _ b)
                        (All-append _ (elements l) (v ∷ []) (less-All kov o key _ low) (g, tt)))
                      high a (UpForward-from_right l v e r above result u),
                )
        ]
      ]

  -- On a tree in order without equivalent keys, equal_range_unique_node gives the lower bound of the key
  -- and its upper bound.
  pub equal_range_unique_node-IsBound :
      (key : K) (t : Tree E A)
      → IsSorted (not_after kov comp) (elements t)
      → IsBound (not_less kov comp key) t (equal_range_unique_node kov comp key t).0
        × IsBound (greater kov comp key) t (equal_range_unique_node kov comp key t).1
  unfolding equal_range_unique_node plug before after
  equal_range_unique_node-IsBound key t s =
      equal_range_unique_from-IsBound key t [] none s tt tt refl
