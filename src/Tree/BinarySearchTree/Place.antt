-- ===== src/Tree/BinarySearchTree/Place.antt =====
-- The node with a number of nodes before it in a tree of
-- include/chaistl/containers/tree/binary_search_tree.hpp.
use chaistl.Common.{
  false, ◌≡◌, refl, sym, ap, ◌∙◌, arith, ℕ, ◌+◌, ◌-◌, ◌<◌, ◌≤◌, ltb, ◌==◌, List, [], ◌∷◌, ◌++◌,
  Option, some, none, length, length-append, Bool-cases, inl, inr,
}
use chaistl.Tree.Node.{
  Tree, null, node, Frame, from_left, from_right, Place, plug, subtree, root_of, elements, before,
  elements_before, elements_after,
}
use chaistl.Tree.Node.Order.{elements-root_of}
use chaistl.Tree.BinarySearchTree.{place_at, rank, Iterator}

module _ {ℓ} {A : Type ℓ} where
  unfoldable pub tail : List A → List A
  tail [] = []
  tail (x ∷ xs) = xs

  unfoldable pub head_or : A → List A → A
  head_or d [] = d
  head_or d (x ∷ xs) = x

  -- Two splits of the same sequence at the same position.
  pub split_unique :
      (xs ys xs' ys' : List A) (v v' : A)
      → xs ++ (v ∷ ys) ≡ xs' ++ (v' ∷ ys')
      → length xs ≡ length xs'
      → (xs ≡ xs') × (v ≡ v') × (ys ≡ ys')
  unfolding tail head_or
  split_unique [] ys [] ys' v v' q n = (refl, ap (head_or v) q, ap tail q)
  split_unique [] ys (x' ∷ xs') ys' v v' q n = absurd (omega (arith, n))
  split_unique (x ∷ xs) ys [] ys' v v' q n = absurd (omega (arith, n))
  split_unique (x ∷ xs) ys (x' ∷ xs') ys' v v' q n =
      let ih = split_unique xs ys xs' ys' v v' (ap tail q) (omega (arith, n)) in
      (rw (ap (head_or x) q, ih.0) refl, ih.1, ih.2)

module _ {ℓ} {A : Type ℓ} where
  -- Nothing is behind an iterator.
  pub record IsAtEnd (back : List A) : Type ℓ where
    pub is_nil : back ≡ []

module _ {ℓ} {E : Type 0} {A : Type ℓ} where
  -- The node is in the tree with `n` elements before it.
  pub record IsAt (t : Tree E A) (n : ℕ) (x : Place E A) : Type ℓ where
    pub in_tree : root_of x ≡ t
    pub position : length (elements_before x) ≡ n

  place_at-IsAt_from :
      (n : ℕ) (t : Tree E A) (above : List (Frame E A))
      → n < length (elements t)
      → (x : Place E A) × (place_at n t above ≡ some x)
        × IsAt (plug above t) (length (before above) + n) x
  unfolding place_at elements plug before root_of subtree elements_before
  place_at-IsAt_from n null above h = absurd (omega (arith, h))
  place_at-IsAt_from n (node l v e r) above h = elim (Bool-cases (ltb n (length (elements l)))) [
    | inl c ↦ rw c (place_at-IsAt_from n l (from_left v e r ∷ above) (ground (arith, c)))
    | inr c ↦ elim (Bool-cases (n == length (elements l))) [
      | inl d ↦
          rw (c, d)
            (
              _,
              refl,
              record {
                in_tree = refl;
                position = ground (arith, d, length-append (before above) (elements l));
              },
            )
      | inr d ↦
          let k = length (elements l) in
          let low : n - (k + 1) < length (elements r) =
            ground (arith, c, d, h, length-append (elements l) (v ∷ elements r)) in
          let (x, q, at) = place_at-IsAt_from (n - (k + 1)) r (from_right l v e ∷ above) low in
          rw (c, d)
            (
              x,
              q,
              record {
                in_tree = at.in_tree;
                position =
                    at.position
                    ∙ ground (
                      arith,
                      c,
                      d,
                      length-append (before above) (elements l ++ (v ∷ [])),
                      length-append (elements l) (v ∷ []),
                    );
              },
            )
    ]
  ]

  -- The node at a position of a tree that has so many.
  pub place_at-IsAt :
      (n : ℕ) (t : Tree E A)
      → n < length (elements t)
      → (x : Place E A) × (place_at n t [] ≡ some x) × IsAt t n x
  unfolding plug before
  place_at-IsAt n t h =
      let (x, q, at) = place_at-IsAt_from n t [] h in
      (x, q, record { in_tree = at.in_tree; position = omega (arith, at.position) })

  pub place_at-end :
      (n : ℕ) (t : Tree E A) (above : List (Frame E A))
      → length (elements t) ≤ n
      → place_at n t above ≡ none
  unfolding place_at elements
  place_at-end n null above h = refl
  place_at-end n (node l v e r) above h =
      let whole = length-append (elements l) (v ∷ elements r) in
      let k = length (elements l) in
      let c : ltb n k ≡ false = ground (arith, h, whole) in
      let d : (n == k) ≡ false = ground (arith, h, whole) in
      let more : length (elements r) ≤ n - (k + 1) = ground (arith, h, whole) in
      rw (c, d) (place_at-end (n - (k + 1)) r (from_right l v e ∷ above) more)

  -- A split of the sequence of a tree at a node of it.
  pub IsAt-split :
      (t : Tree E A) (x : Place E A) (xs ys : List A) (v : A)
      → elements t ≡ xs ++ (v ∷ ys)
      → IsAt t (length xs) x
      → (elements_before x ≡ xs) × (x.value ≡ v) × (elements_after x ≡ ys)
  IsAt-split t x xs ys v q at =
      split_unique (elements_before x) (elements_after x) xs ys x.value v
        (sym (elements-root_of x) ∙ ap elements at.in_tree ∙ q) at.position

  -- The node that has the split's first part before it.
  pub place_at-split :
      (t : Tree E A) (xs ys : List A) (v : A)
      → elements t ≡ xs ++ (v ∷ ys)
      → (x : Place E A) × (place_at (length xs) t [] ≡ some x)
        × (root_of x ≡ t)
        × (elements_before x ≡ xs)
        × (x.value ≡ v)
        × (elements_after x ≡ ys)
  place_at-split t xs ys v q =
      let inside : length xs < length (elements t) =
        omega (arith, ap length q, length-append xs (v ∷ ys)) in
      let (x, r, at) = place_at-IsAt (length xs) t inside in
      let s = IsAt-split t x xs ys v q at in (x, r, at.in_tree, s.0, s.1, s.2)

  -- The node is in the tree, with these elements before it and, from it on, these.
  pub record IsAtSplit (t : Tree E A) (front back : List A) (x : Place E A) : Type ℓ where
    pub in_tree : root_of x ≡ t
    pub is_before : elements_before x ≡ front
    pub is_from : back ≡ x.value ∷ elements_after x

  -- Where an iterator points in the sequence of its tree.
  abbrev pub PointsAt : Tree E A → List A → List A → Option (Place E A) → Type ℓ
  PointsAt t front back none = IsAtEnd back
  PointsAt t front back (some x) = IsAtSplit t front back x

  pub place_at-PointsAt :
      (t : Tree E A) (front back : List A)
      → elements t ≡ front ++ back
      → PointsAt t front back (place_at (length front) t [])
  place_at-PointsAt t front [] q =
      let past : length (elements t) ≤ length front =
        omega (arith, ap length q, length-append front []) in
      rw (place_at-end (length front) t [] past) (record { is_nil = refl })
  place_at-PointsAt t front (v ∷ back) q =
      let (x, points, inside, b, w, a) = place_at-split t front back v q in
      rw points (record { in_tree = inside; is_before = b; is_from = rw (w, a) refl })

  pub place_at-PointsAt_of :
      (n : ℕ) (t : Tree E A) (front back : List A)
      → n ≡ length front
      → elements t ≡ front ++ back
      → PointsAt t front back (place_at n t [])
  place_at-PointsAt_of n t front back h q = rw h (place_at-PointsAt t front back q)

  pub PointsAt-in_tree :
      (t : Tree E A) (front back : List A) (x : Place E A)
      → PointsAt t front back (some x)
      → elements t ≡ front ++ back
  PointsAt-in_tree t front back x h =
      sym (ap elements h.in_tree) ∙ elements-root_of x ∙ rw (h.is_before, sym h.is_from) refl

  -- An iterator says how the sequence of its tree splits.
  pub rank-PointsAt :
      (t : Tree E A) (front back : List A) (it : Iterator E A)
      → elements t ≡ front ++ back
      → PointsAt t front back it
      → rank t it ≡ length front
  unfolding rank
  rank-PointsAt t front back none q h =
      omega (arith, ap length q, ap length h.is_nil, length-append front back)
  rank-PointsAt t front back (some x) q h = ap length h.is_before
