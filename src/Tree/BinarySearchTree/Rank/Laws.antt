-- ===== src/Tree/BinarySearchTree/Rank/Laws.antt =====
-- The order statistics of include/chaistl/containers/tree/binary_search_tree.hpp against positions in
-- the sequence.
use chaistl.Common.{
  Bool, true, false, ℕ, ◌+◌, ◌-◌, ◌<◌, ◌≤◌, ◌≡◌, refl, sym, ap, ◌∙◌, arith, List, [], ◌∷◌, ◌++◌,
  some, none, All, length, count, count-append, All-count_zero, Bool-cases, inl, inr,
}
use chaistl.Order.{IsStrictWeak, irrefl}
use chaistl.Sort.Base.{IsSorted, All-mono}
use chaistl.Tree.Node.{
  Tree, null, node, Frame, from_left, from_right, Place, elements, elements_before, elements_after,
}
use chaistl.Tree.Node.Order.{elements-root_of}
use chaistl.Tree.Search.Bound.{IsMonotone, sorted-IsMonotone, IsSorted-split}
use chaistl.Tree.Search.Laws.{by_key, not_less, not_less_keeps}
use chaistl.Tree.Search.Unique.{not_after}
use chaistl.Tree.BinarySearchTree.{BinarySearchTree, place_at}
use chaistl.Tree.BinarySearchTree.Place.{place_at-IsAt, place_at-end, IsAt}
use chaistl.Tree.BinarySearchTree.Insert.Reference.{strict-IsSorted}
use chaistl.Tree.BinarySearchTree.Rank.{
  node_size, select_from, find_by_order, order_from, order_of_key,
}

module _ {ℓ} {E : Type 0} {A : Type ℓ} (subtree_size : E → ℕ) where
  -- The extension of every node has the number of elements of its subtree.
  abbrev pub HasSizes : Tree E A → Type 0
  HasSizes null = Unit
  HasSizes (node l v e r) =
      (subtree_size e ≡ length (elements (node l v e r))) × HasSizes l × HasSizes r

  node_size-length : (t : Tree E A) → HasSizes t → node_size subtree_size t ≡ length (elements t)
  unfolding node_size elements
  node_size-length null h = refl
  node_size-length (node l v e r) h = h.0

  select_from-place_at :
      (order : ℕ) (t : Tree E A) (above : List (Frame E A))
      → HasSizes t
      → select_from subtree_size order t above ≡ place_at order t above
  unfolding select_from place_at
  select_from-place_at order null above h = refl
  select_from-place_at order (node l v e r) above h =
      rw
        (
          node_size-length l h.1,
          select_from-place_at order l (from_left v e r ∷ above) h.1,
          select_from-place_at (order - (length (elements l) + 1)) r (from_right l v e ∷ above) h.2,
        )
        refl

module _ {ℓ κ} {E : Type 0} {A : Type ℓ} {K : Type κ} (kov : A → K) (comp : K → K → Bool)
    (subtree_size : E → ℕ) where
  order_from-count :
      (key : K) (t : Tree E A) (order : ℕ)
      → HasSizes subtree_size t
      → IsMonotone (not_less kov comp key) t
      → order_from kov comp subtree_size key order t
        ≡ order + count (λ x. comp (kov x) key) (elements t)
  unfolding order_from elements
  order_from-count key null order h m = omega arith
  order_from-count key (node l v e r) order h m = elim (Bool-cases (comp (kov v) key)) [
    | inl c ↦
        let p : A → Bool = λ x. comp (kov x) key in
        let ih = order_from-count key r (order + (node_size subtree_size l + 1)) h.2 m.3 in
        let low : count p (elements l) ≡ length (elements l) =
          all_less (elements l) (m.1 (ground (arith, c))) in
        rw c (
          ih
          ∙ ground (
            arith,
            c,
            low,
            node_size-length subtree_size l h.1,
            count-append p (elements l) (v ∷ elements r),
          ))
    | inr c ↦
        let p : A → Bool = λ x. comp (kov x) key in
        let high : count p (elements r) ≡ 0 =
          All-count_zero p (elements r)
            (All-mono (elements r) (λ x q. ground (arith, q)) (m.0 (ground (arith, c)))) in
        rw c (
          order_from-count key l order h.1 m.2
          ∙ ground (arith, c, high, count-append p (elements l) (v ∷ elements r)))
  ]
    where
      all_less :
          (xs : List A)
          → All (λ x. not_less kov comp key x ≡ false) xs
          → count (λ x. comp (kov x) key) xs ≡ length xs
      all_less [] q = refl
      all_less (x ∷ xs) q = ground (arith, q.0, all_less xs q.1)

module _ {ℓ κ} {S E : Type 0} {A : Type ℓ} {K : Type κ} (kov : A → K) {comp : K → K → Bool}
    (o : IsStrictWeak comp) (subtree_size : E → ℕ) where
  -- On a tree in order whose sizes are right, order_of_key is the number of elements less than the key.
  pub order_of_key-count :
      (key : K) (t : BinarySearchTree S E A)
      → IsSorted (by_key kov comp) (elements t.root)
      → HasSizes subtree_size t.root
      → order_of_key kov comp subtree_size key t ≡ count (λ x. comp (kov x) key) (elements t.root)
  unfolding order_of_key
  order_of_key-count key t s h =
      order_from-count kov comp subtree_size key t.root 0 h
        (sorted-IsMonotone _ _ t.root (not_less_keeps kov o key) s)
      ∙ omega arith

  -- On a tree in order without equivalent keys whose sizes are right, find_by_order gives for every
  -- order less than the size a node with so many elements before it, and order_of_key of the key of
  -- that node gives the order back; for other orders it gives end().
  pub order_of_key-find_by_order :
      (order : ℕ) (t : BinarySearchTree S E A)
      → IsSorted (not_after kov comp) (elements t.root)
      → HasSizes subtree_size t.root
      → (order < length (elements t.root)
          → (x : Place E A) × (find_by_order subtree_size order t ≡ some x)
            × IsAt t.root order x
            × (order_of_key kov comp subtree_size (kov x.value) t ≡ order))
        × (length (elements t.root) ≤ order → find_by_order subtree_size order t ≡ none)
  unfolding find_by_order
  order_of_key-find_by_order order t s h =
      let same = select_from-place_at subtree_size order t.root [] h in
      (
        λ low.
            let (x, points, at) = place_at-IsAt order t.root low in
            (x, same ∙ points, at, rank_back x at),
        λ high. same ∙ place_at-end order t.root [] high,
      )
    where
      count_less :
          (key : K) (xs : List A)
          → All (λ x. comp (kov x) key ≡ true) xs
          → count (λ x. comp (kov x) key) xs ≡ length xs
      count_less key [] q = refl
      count_less key (x ∷ xs) q = ground (arith, q.0, count_less key xs q.1)

      rank_back :
          (x : Place E A)
          → IsAt t.root order x
          → order_of_key kov comp subtree_size (kov x.value) t ≡ order
      rank_back x at =
          let whole = sym (ap elements at.in_tree) ∙ elements-root_of x in
          let key = kov x.value in
          let sorted : IsSorted (not_after kov comp)
              (elements_before x ++ (x.value ∷ elements_after x)) =
            rw (sym whole) s in
          let around = IsSorted-split _ (elements_before x) (elements_after x) x.value sorted in
          let low =
            count_less key (elements_before x)
              (All-mono (elements_before x) (λ y q. ground (arith, q)) around.2) in
          let high =
            All-count_zero (λ y. comp (kov y) key) (elements_after x)
              (All-mono (elements_after x) (λ y q. ground (arith, q, o.asym key (kov y)))
                around.3) in
          order_of_key-count key t (strict-IsSorted kov comp o (elements t.root) s) h
          ∙ ground (
            arith,
            ap (count (λ y. comp (kov y) key)) whole,
            low,
            high,
            irrefl o key,
            at.position,
            count-append (λ y. comp (kov y) key) (elements_before x) (x.value ∷ elements_after x),
          )
