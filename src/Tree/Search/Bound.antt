-- ===== src/Tree/Search/Bound.antt =====
-- The loop of the searches of include/chaistl/containers/tree/algorithm.hpp finds a boundary.
use chaistl.Common.{
  arith, Bool, true, false, ◌≡◌, refl, List, [], ◌∷◌, ◌++◌, Option, some, none, All, Bool-cases,
  inl, inr, append_nil,
}
use chaistl.Sort.Base.{IsSorted, All-append, All-equal, All-mono}
use chaistl.Tree.Node.{
  Tree, null, node, Frame, from_left, from_right, Place, plug, subtree, root_of, elements, before,
  after, elements_before, elements_after,
}
use chaistl.Tree.Node.Order.{elements-plug}
use chaistl.Tree.Node.Step.{UpForward, UpForward-from_right}
use chaistl.Tree.Search.{search_from}

module _ {ℓ} {A : Type ℓ} where
  pub All-split {κ} : (P : A → Type κ) (xs ys : List A) → All P (xs ++ ys) → All P xs × All P ys
  All-split P [] ys h = (tt, h)
  All-split P (x ∷ xs) ys h = let r = All-split P xs ys h.1 in ((h.0, r.0), r.1)

module _ {ℓ} {A : Type ℓ} (comp : A → A → Bool) where
  -- A sorted sequence around one of its elements.
  pub IsSorted-split :
      (xs ys : List A) (v : A)
      → IsSorted comp (xs ++ (v ∷ ys))
      → IsSorted comp xs
        × IsSorted comp ys
        × All (λ x. comp v x ≡ false) xs
        × All (λ y. comp y v ≡ false) ys
  IsSorted-split [] ys v h = (tt, h.1, tt, h.0)
  IsSorted-split (x ∷ xs) ys v h =
      let r = IsSorted-split xs ys v h.1 in
      let s = All-split _ xs (v ∷ ys) h.0 in ((s.0, r.0), r.1, (s.1.0, r.2), r.3)

module _ {ℓ} {E : Type 0} {A : Type ℓ} (p : A → Bool) where
  -- Where the test holds, it holds for all that is later in order.
  abbrev pub IsMonotone : Tree E A → Type ℓ
  IsMonotone null = Unit
  IsMonotone (node l v e r) =
      (p v ≡ true → All (λ x. p x ≡ true) (elements r))
      × (p v ≡ false → All (λ x. p x ≡ false) (elements l))
      × IsMonotone l
      × IsMonotone r

  -- No element passes the test.
  pub record AllBelow (root : Tree E A) : Type ℓ where
    pub none_passes : All (λ x. p x ≡ false) (elements root)

  -- The node is the first in order that passes the test, and all behind it pass too.
  pub record IsFirst (root : Tree E A) (x : Place E A) : Type ℓ where
    pub in_tree : root_of x ≡ root
    pub lower : All (λ y. p y ≡ false) (elements_before x)
    pub passes : p x.value ≡ true
    pub upper : All (λ y. p y ≡ true) (elements_after x)

  -- The first element in order of the tree that passes the test, or the header if none does.
  abbrev pub IsBound : Tree E A → Option (Place E A) → Type ℓ
  IsBound root none = AllBelow root
  IsBound root (some x) = IsFirst root x

  pub IsBound-here :
      (above : List (Frame E A)) (result : Option (Place E A))
      → All (λ x. p x ≡ false) (before above)
      → All (λ x. p x ≡ true) (after above)
      → UpForward null above result
      → IsBound (plug above null) result
  unfolding elements
  IsBound-here above none b a u = record {
    none_passes = rw (elements-plug above null, u, append_nil (before above)) b;
  }
  IsBound-here above (some y) b a u =
      let up = All-equal _ (after above) (y.value ∷ elements_after y) u.2 a in
      record {
        in_tree = u.0;
        lower = rw (u.1, append_nil (before above)) b;
        passes = up.0;
        upper = up.1;
      }

  -- From a node with only failing elements before it and passing elements after it, the loop ends
  -- at the boundary of the whole tree.
  pub search_from-IsBound :
      (t : Tree E A) (above : List (Frame E A)) (result last : Option (Place E A))
      → IsMonotone t
      → All (λ x. p x ≡ false) (before above)
      → All (λ x. p x ≡ true) (after above)
      → UpForward t above result
      → IsBound (plug above t) (search_from p result last t above).result
  unfolding search_from plug before after root_of subtree elements_before elements_after
  search_from-IsBound null above result last m b a u = IsBound-here above result b a u
  search_from-IsBound (node l v e r) above result last m b a u = elim (Bool-cases (p v)) [
    | inl h ↦
        let up = All-append _ (elements r) (after above) (m.0 h) a in
        rw h (search_from-IsBound l (from_left v e r ∷ above) _ _ m.2 b (h, up) (refl, refl, refl))
    | inr h ↦
        let low = All-append _ (elements l) (v ∷ []) (m.1 h) (h, tt) in
        rw h (
          search_from-IsBound r (from_right l v e ∷ above) result _ m.3
            (All-append _ (before above) _ b low) a (UpForward-from_right l v e r above result u))
  ]

  -- On a sorted tree a test that keeps to the order is monotone.
  pub sorted-IsMonotone :
      (cmp : A → A → Bool) (t : Tree E A)
      → ((x y : A) → cmp y x ≡ false → p x ≡ true → p y ≡ true)
      → IsSorted cmp (elements t)
      → IsMonotone t
  unfolding elements
  sorted-IsMonotone cmp null keeps s = tt
  sorted-IsMonotone cmp (node l v e r) keeps s =
      let (sl, sr, low, high) = IsSorted-split cmp (elements l) (elements r) v s in
      (
        (λ h. All-mono (elements r) (λ y q. keeps v y q h) high),
        (λ h. All-mono (elements l) (λ x q. ground (arith, keeps x v q, h)) low),
        sorted-IsMonotone cmp l keeps sl,
        sorted-IsMonotone cmp r keeps sr,
      )
