-- ===== src/Tree/Treap/Order.antt =====
-- include/chaistl/containers/tree/policy/treap_tree.hpp: the heap order of the priorities, in a tree and
-- around a free place, and its test.
use chaistl.Common.{
  and_split, not-true, true, false, not, ◌&&◌, ℕ, ◌≤◌, ◌≡◌, ◌↔◌, refl, arith, ltb, List, [], ◌∷◌,
}
use chaistl.Tree.Node.{Tree, null, node, Frame, from_left, from_right, plug}
use chaistl.Tree.Treap.{root_less, verify_heap}

pub ltb-le : (p q : ℕ) → ltb p q ≡ true → p ≤ q
ltb-le p q h = ground arith

pub ltb-ge : (p q : ℕ) → ltb p q ≡ false → q ≤ p
ltb-ge p q h = ground arith

module _ {ℓ} {A : Type ℓ} where
  -- The root of the subtree, if there is one, has no smaller priority.
  abbrev pub AtMost : ℕ → Tree ℕ A → Type 0
  AtMost p null = Unit
  AtMost p (node l v q r) = p ≤ q

  -- No child has a smaller priority than its parent.
  abbrev pub IsTreap : Tree ℕ A → Type 0
  IsTreap null = Unit
  IsTreap (node l v p r) = (AtMost p l × IsTreap l) × (AtMost p r × IsTreap r)

  -- The parent that the frames begin with has no greater priority.
  abbrev pub UnderFrame : List (Frame ℕ A) → ℕ → Type 0
  UnderFrame [] p = Unit
  UnderFrame (from_left v q r ∷ above) p = q ≤ p
  UnderFrame (from_right l v q ∷ above) p = q ≤ p

  -- The same for the root of a subtree.
  abbrev pub Under : List (Frame ℕ A) → Tree ℕ A → Type 0
  Under [] t = Unit
  Under (from_left v q r ∷ above) t = AtMost q t
  Under (from_right l v q ∷ above) t = AtMost q t

  -- The heap order around a free place.
  abbrev pub IsTreapAround : List (Frame ℕ A) → Type 0
  IsTreapAround [] = Unit
  IsTreapAround (from_left v p r ∷ above) =
      (AtMost p r × IsTreap r) × UnderFrame above p × IsTreapAround above
  IsTreapAround (from_right l v p ∷ above) =
      (AtMost p l × IsTreap l) × UnderFrame above p × IsTreapAround above

  pub AtMost-trans : (q p : ℕ) (t : Tree ℕ A) → q ≤ p → AtMost p t → AtMost q t
  AtMost-trans q p null u h = tt
  AtMost-trans q p (node l v k r) u h = omega arith

  pub root_less-AtMost : (p : ℕ) (t : Tree ℕ A) → root_less t p ≡ false → AtMost p t
  unfolding root_less
  root_less-AtMost p null h = tt
  root_less-AtMost p (node l v q r) h = ground arith

  pub Under-node :
      (above : List (Frame ℕ A)) (l : Tree ℕ A) (v : A) (p : ℕ) (r : Tree ℕ A)
      → UnderFrame above p
      → Under above (node l v p r)
  Under-node [] l v p r h = tt
  Under-node (from_left v' q r' ∷ above) l v p r h = h
  Under-node (from_right l' v' q ∷ above) l v p r h = h

  pub node-Under :
      (above : List (Frame ℕ A)) (l : Tree ℕ A) (v : A) (p : ℕ) (r : Tree ℕ A)
      → Under above (node l v p r)
      → UnderFrame above p
  node-Under [] l v p r h = tt
  node-Under (from_left v' q r' ∷ above) l v p r h = h
  node-Under (from_right l' v' q ∷ above) l v p r h = h

  pub AtMost-Under :
      (above : List (Frame ℕ A)) (p : ℕ) (t : Tree ℕ A)
      → AtMost p t
      → UnderFrame above p
      → Under above t
  AtMost-Under [] p t h u = tt
  AtMost-Under (from_left v' q r' ∷ above) p t h u = AtMost-trans q p t u h
  AtMost-Under (from_right l' v' q ∷ above) p t h u = AtMost-trans q p t u h

  pub plug-IsTreap :
      (above : List (Frame ℕ A)) (t : Tree ℕ A)
      → IsTreap t
      → Under above t
      → IsTreapAround above
      → IsTreap (plug above t)
  unfolding plug
  plug-IsTreap [] t h u a = h
  plug-IsTreap (from_left v p r ∷ above) t h u a =
      plug-IsTreap above (node t v p r) ((u, h), a.0) (Under-node above t v p r a.1) a.2
  plug-IsTreap (from_right l v p ∷ above) t h u a =
      plug-IsTreap above (node l v p t) (a.0, (u, h)) (Under-node above l v p t a.1) a.2

  -- And back: what a treap is around one of its subtrees.
  pub plug-IsTreapAround :
      (above : List (Frame ℕ A)) (t : Tree ℕ A)
      → IsTreap (plug above t)
      → IsTreap t × Under above t × IsTreapAround above
  unfolding plug
  plug-IsTreapAround [] t h = (h, tt, tt)
  plug-IsTreapAround (from_left v p r ∷ above) t h =
      let (whole, up, around) = plug-IsTreapAround above (node t v p r) h in
      (whole.0.1, whole.0.0, (whole.1, node-Under above t v p r up, around))
  plug-IsTreapAround (from_right l v p ∷ above) t h =
      let (whole, up, around) = plug-IsTreapAround above (node l v p t) h in
      (whole.1.1, whole.1.0, (whole.0, node-Under above l v p t up, around))

  AtMost-root_less : (p : ℕ) (t : Tree ℕ A) → AtMost p t → root_less t p ≡ false
  unfolding root_less
  AtMost-root_less p null h = refl
  AtMost-root_less p (node l v q r) h = ground arith

  verify_heap-IsTreap : (t : Tree ℕ A) → verify_heap t ≡ true → IsTreap t
  unfolding verify_heap
  verify_heap-IsTreap null h = tt
  verify_heap-IsTreap (node l v p r) h =
      let sides =
        and_split (not (root_less l p) && verify_heap l) (not (root_less r p) && verify_heap r) h in
      let left = and_split (not (root_less l p)) (verify_heap l) sides.0 in
      let right = and_split (not (root_less r p)) (verify_heap r) sides.1 in
      (
        (root_less-AtMost p l (not-true _ left.0), verify_heap-IsTreap l left.1),
        (root_less-AtMost p r (not-true _ right.0), verify_heap-IsTreap r right.1),
      )

  IsTreap-verify_heap : (t : Tree ℕ A) → IsTreap t → verify_heap t ≡ true
  unfolding verify_heap
  IsTreap-verify_heap null h = refl
  IsTreap-verify_heap (node l v p r) h = ground (
    arith,
    AtMost-root_less p l h.0.0,
    AtMost-root_less p r h.1.0,
    IsTreap-verify_heap l h.0.1,
    IsTreap-verify_heap r h.1.1,
  )

  -- verify_heap returns true exactly on the trees in which no child has a smaller priority than its
  -- parent.
  pub verify_heap_decides : (t : Tree ℕ A) → (verify_heap t ≡ true) ↔ IsTreap t
  verify_heap_decides t = (verify_heap-IsTreap t, IsTreap-verify_heap t)
