-- ===== src/Tree/BinarySearchTree/Erase/Laws.antt =====
-- `erase` of nodes and ranges of include/chaistl/containers/tree/binary_search_tree.hpp.
use chaistl.Common.{
  Bool, ◌&&◌, ◌==◌, ◌≡◌, refl, sym, ap, ◌∙◌, arith, suc, ◌-◌, ℕ, List, [], ◌∷◌, ◌++◌, Option, some,
  none, length, length-append, append_assoc, Bool-cases, inl, inr, if◌then◌else◌,
}
use chaistl.Sort.Base.{IsSorted}
use chaistl.Tree.Node.{
  Tree, null, node, Place, root_of, elements, elements_before, elements_after, node_successor,
}
use chaistl.Tree.Node.Order.{elements-root_of}
use chaistl.Tree.Node.Step.{StepsForward, node_successor-StepsForward}
use chaistl.Tree.BinarySearchTree.{BinarySearchTree, BalancePolicy, Iterator, place_at, rank, clear}
use chaistl.Tree.BinarySearchTree.Place.{
  tail, rank-PointsAt, PointsAt, place_at-PointsAt, place_at-PointsAt_of,
}
use chaistl.Tree.BinarySearchTree.Policy.{IsBalancePolicy, IsSearchTree}
use chaistl.Tree.BinarySearchTree.Erase.{erase_node, erase, erase_while, erase_range}
use chaistl.Tree.BinarySearchTree.Insert.Reference.{remove-IsSorted}

module _ {ℓ} {S E : Type 0} {A : Type ℓ} {P : BalancePolicy S E A} {Balanced : Tree E A → Type 0}
    (laws : IsBalancePolicy P Balanced) (cmp : A → A → Bool) where
  pub erase_node-IsSearchTree :
      (z : Place E A) (t : BinarySearchTree S E A)
      → root_of z ≡ t.root
      → IsSearchTree Balanced cmp t
      → IsSearchTree Balanced cmp (erase_node P z t)
        × (elements (erase_node P z t).root ≡ elements_before z ++ elements_after z)
  unfolding erase_node
  erase_node-IsSearchTree z t q inv =
      let held = laws.on_unlink z (rw q inv.balanced) in
      let whole = sym (ap elements q) ∙ elements-root_of z in
      let sorted : IsSorted cmp (elements_before z ++ (z.value ∷ elements_after z)) =
        rw (sym whole) inv.sorted in
      (
        record {
          sorted =
              rw held.content
                (remove-IsSorted cmp (elements_before z) (elements_after z) z.value sorted);
          balanced = held.balanced;
          counted = omega (
            arith,
            inv.counted,
            ap length whole,
            ap length held.content,
            length-append (elements_before z) (elements_after z),
            length-append (elements_before z) (z.value ∷ elements_after z),
          );
        },
        held.content,
      )

  -- Over a policy that keeps the contract, erase of a node keeps the invariant of the container, takes
  -- just that element out of the sequence, and gives the iterator to the one that was behind it.
  pub erase-PointsAt :
      (z : Place E A) (t : BinarySearchTree S E A)
      → root_of z ≡ t.root
      → IsSearchTree Balanced cmp t
      → IsSearchTree Balanced cmp (erase P z t).0
        × (elements (erase P z t).0.root ≡ elements_before z ++ elements_after z)
        × PointsAt (erase P z t).0.root (elements_before z) (elements_after z) (erase P z t).1
  unfolding erase
  erase-PointsAt z t q inv =
      let r = erase_node-IsSearchTree z t q inv in
      (r.0, r.1, next_at (node_successor z) (node_successor-StepsForward z) r.1)
    where
      next_at :
          (next : Option (Place E A))
          → StepsForward z next
          → elements (erase_node P z t).root ≡ elements_before z ++ elements_after z
          → PointsAt
              (erase_node P z t).root
              (elements_before z)
              (elements_after z)
              (elim next as (λ _. Iterator E A) [
                | none ↦ none
                | some y ↦ place_at (length (elements_before y) - 1) (erase_node P z t).root []
              ])
      next_at none h c = record { is_nil = h }
      next_at (some y) h c =
          let same : length (elements_before y) - 1 ≡ length (elements_before z) =
            omega
              (arith, ap length h.next_before, length-append (elements_before z) (z.value ∷ [])) in
          rw same (place_at-PointsAt _ (elements_before z) (elements_after z) c)

  -- The erasing loop takes out what is between two iterators.
  pub erase_while-IsSearchTree :
      (mid front back : List A) (it : Iterator E A) (t : BinarySearchTree S E A)
      → PointsAt t.root front (mid ++ back) it
      → IsSearchTree Balanced cmp t
      → elements t.root ≡ front ++ (mid ++ back)
      → IsSearchTree Balanced cmp (erase_while P (length mid) it t).0
        × (elements (erase_while P (length mid) it t).0.root ≡ front ++ back)
        × ((erase_while P (length mid) it t).1 ≡ length mid)
  unfolding erase_while tail
  erase_while-IsSearchTree [] front back it t h inv q = (inv, q, refl)
  erase_while-IsSearchTree (m ∷ mid) front back none t h inv q =
      absurd (omega (arith, ap length h.is_nil))
  erase_while-IsSearchTree (m ∷ mid) front back (some z) t h inv q =
      let one = erase-PointsAt z t h.in_tree inv in
      let behind : elements_after z ≡ mid ++ back = sym (ap tail h.is_from) in
      let next : PointsAt (erase P z t).0.root front (mid ++ back) (erase P z t).1 =
        rw (sym h.is_before, sym behind) one.2 in
      let rest =
        erase_while-IsSearchTree mid front back (erase P z t).1 (erase P z t).0 next one.0
          (one.1 ∙ rw (h.is_before, behind) refl) in
      (rest.0, rest.1, ap suc rest.2)

  -- `clear()`
  pub clear-IsSearchTree :
      (t : BinarySearchTree S E A)
      → IsSearchTree Balanced cmp t
      → IsSearchTree Balanced cmp (clear t) × (elements (clear t).root ≡ [])
  unfolding clear elements
  clear-IsSearchTree t inv = go t.root t.policy t.count inv
    where
      go :
          (root : Tree E A) (s : S) (n : ℕ)
          → IsSearchTree Balanced cmp (record { root = root; policy = s; count = n })
          → IsSearchTree Balanced cmp (clear (record { root = root; policy = s; count = n }))
            × (elements (clear (record { root = root; policy = s; count = n })).root ≡ [])
      go null s n h = (h, refl)
      go (node l v e r) s n h =
          (record { sorted = tt; balanced = laws.on_null; counted = refl }, refl)

  -- Over a policy that keeps the contract, erase of the nodes from one iterator to a later one keeps the
  -- invariant of the container and takes just the elements between the two out of the sequence, also
  -- when they are all its elements; the iterator that it gives points where the last one did.
  pub erase_range-PointsAt :
      (front mid back : List A) (first last : Iterator E A) (t : BinarySearchTree S E A)
      → IsSearchTree Balanced cmp t
      → elements t.root ≡ front ++ (mid ++ back)
      → PointsAt t.root front (mid ++ back) first
      → PointsAt t.root (front ++ mid) back last
      → IsSearchTree Balanced cmp (erase_range P first last t).0
        × (elements (erase_range P first last t).0.root ≡ front ++ back)
        × PointsAt (erase_range P first last t).0.root front back (erase_range P first last t).1
  unfolding erase_range
  erase_range-PointsAt front mid back first last t inv q f l =
      let i : rank t.root first ≡ length front =
        rank-PointsAt t.root front (mid ++ back) first q f in
      let j : rank t.root last ≡ length (front ++ mid) =
        rank-PointsAt t.root (front ++ mid) back last (q ∙ sym (append_assoc front mid back)) l in
      let n : rank t.root last - rank t.root first ≡ length mid =
        omega (arith, i, j, length-append front mid) in
      let all = (rank t.root first == 0) && (rank t.root last == length (elements t.root)) in
      let erased : IsSearchTree Balanced cmp (
            if all
            then clear t
            else (erase_while P (rank t.root last - rank t.root first) first t).0)
          × (elements
                (if all
                  then clear t
                  else (erase_while P (rank t.root last - rank t.root first) first t).0).root
              ≡ front ++ back) =
        elim (Bool-cases all) [
          | inr c ↦
              let r = erase_while-IsSearchTree mid front back first t f inv q in
              rw (c, n) (r.0, r.1)
          | inl c ↦
              let none_left : front ++ back ≡ [] = nil_of (front ++ back) (
                ground (
                  arith,
                  c,
                  i,
                  j,
                  ap length q,
                  length-append front mid,
                  length-append front back,
                  length-append front (mid ++ back),
                  length-append mid back,
                )) in
              let r = clear-IsSearchTree t inv in rw (c, none_left) r
        ] in
      (erased.0, erased.1, place_at-PointsAt_of _ _ front back i erased.1)
    where
      nil_of : (xs : List A) → length xs ≡ 0 → xs ≡ []
      nil_of [] h = refl
      nil_of (x ∷ xs) h = absurd (omega (arith, h))
