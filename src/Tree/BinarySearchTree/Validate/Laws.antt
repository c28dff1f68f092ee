-- ===== src/Tree/BinarySearchTree/Validate/Laws.antt =====
-- `validate` of include/chaistl/containers/tree/binary_search_tree.hpp accepts just the trees with the
-- invariant of the container.
use chaistl.Common.{
  Bool, true, false, not, ◌&&◌, ◌==◌, ℕ, zero, suc, ◌+◌, ◌≡◌, refl, sym, ◌∙◌, arith, List, [], ◌∷◌,
  Option, some, none, All, length, length-append, and_split,
}
use chaistl.Order.{IsStrictWeak}
use chaistl.Sort.Base.{IsSorted, All-mono}
use chaistl.Tree.Node.{Tree, null, node, root_of, elements}
use chaistl.Tree.Search.Laws.{by_key}
use chaistl.Tree.Search.Unique.{not_after}
use chaistl.Tree.BinarySearchTree.{BinarySearchTree, BalancePolicy, Iterator, begin}
use chaistl.Tree.BinarySearchTree.Place.{PointsAt}
use chaistl.Tree.BinarySearchTree.Policy.{IsSearchTree}
use chaistl.Tree.BinarySearchTree.Transfer.Step.{begin-PointsAt, successor-PointsAt}
use chaistl.Tree.BinarySearchTree.Validate.{in_order, validate_from, validate}

module _ {ℓ κ} {A : Type ℓ} {K : Type κ} (kov : A → K) (comp : K → K → Bool) where
  -- The order that the flag asks for.
  abbrev pub order_of : Bool → A → A → Bool
  order_of true = by_key kov comp
  order_of false = not_after kov comp

  -- The tests of neighbours along a sequence.
  chain : Bool → Option A → List A → Bool
  unfolding in_order
  chain allow prev [] = true
  chain allow prev (x ∷ xs) =
      let rest = chain allow (some x) xs in in_order kov comp allow prev x && rest

  in_order-order_of :
      (allow : Bool) (prev x : A)
      → in_order kov comp allow (some prev) x ≡ not (order_of allow x prev)
  unfolding in_order
  in_order-order_of true prev x = refl
  in_order-order_of false prev x = ground arith

module _ {ℓ κ} {A : Type ℓ} {K : Type κ} (kov : A → K) {comp : K → K → Bool}
    (o : IsStrictWeak comp) where
  order_of_trans :
      (allow : Bool) (a b c : A)
      → order_of kov comp allow a b ≡ false
      → order_of kov comp allow b c ≡ false
      → order_of kov comp allow a c ≡ false
  order_of_trans true a b c h k = o.neg_trans (kov a) (kov b) (kov c) h k
  order_of_trans false a b c h k = ground (
    arith,
    h,
    k,
    o.asym (kov c) (kov b),
    o.neg_trans (kov c) (kov a) (kov b),
    o.asym (kov b) (kov a),
  )

  -- Tests of neighbours are enough.
  chain-IsSorted :
      (allow : Bool) (x : A) (xs : List A)
      → chain kov comp allow (some x) xs ≡ true
      → All (λ y. order_of kov comp allow y x ≡ false) xs × IsSorted (order_of kov comp allow) xs
  unfolding chain
  chain-IsSorted allow x [] h = (tt, tt)
  chain-IsSorted allow x (y ∷ ys) h =
      let (first, rest) =
        and_split (in_order kov comp allow (some x) y) (chain kov comp allow (some y) ys) h in
      let ih = chain-IsSorted allow y ys rest in
      let below : order_of kov comp allow y x ≡ false =
        ground (arith, first, in_order-order_of kov comp allow x y) in
      ((below, All-mono ys (λ z q. order_of_trans allow z y x q below) ih.0), ih)

module _ {ℓ κ} {A : Type ℓ} {K : Type κ} (kov : A → K) (comp : K → K → Bool) where
  sorted-chain :
      (allow : Bool) (x : A) (xs : List A)
      → All (λ y. order_of kov comp allow y x ≡ false) xs
      → IsSorted (order_of kov comp allow) xs
      → chain kov comp allow (some x) xs ≡ true
  unfolding chain
  sorted-chain allow x [] h s = refl
  sorted-chain allow x (y ∷ ys) h s =
      ground (arith, h.0, in_order-order_of kov comp allow x y, sorted-chain allow y ys s.0 s.1)

module _ {ℓ κ} {E : Type 0} {A : Type ℓ} {K : Type κ} (kov : A → K) (comp : K → K → Bool) where
  -- The loop tests the neighbours and counts.
  validate_from-chain :
      (allow : Bool) (n : ℕ) (root : Tree E A) (front xs : List A) (prev : Option A)
      (it : Iterator E A)
      → PointsAt root front xs it
      → validate_from kov comp allow n prev it ≡ (chain kov comp allow prev xs && (length xs == n))
  unfolding validate_from chain
  validate_from-chain allow zero root front xs prev none h = rw h.is_nil refl
  validate_from-chain allow (suc n) root front xs prev none h = rw h.is_nil (ground arith)
  validate_from-chain allow zero root front xs prev (some x) h = rw h.is_from (ground arith)
  validate_from-chain allow (suc n) root front xs prev (some x) h =
      let rest =
        validate_from-chain allow n (root_of x) _ _ (some x.value) _ (successor-PointsAt x) in
      rw (h.is_from, rest) (ground arith)

module _ {ℓ} {E : Type 0} {A : Type ℓ} where
  nonempty_elements :
      (l : Tree E A) (v : A) (e : E) (r : Tree E A)
      → length (elements (node l v e r)) ≡ length (elements l) + length (elements r) + 1
  unfolding elements
  nonempty_elements l v e r = omega (arith, length-append (elements l) (v ∷ elements r))

module _ {ℓ κ} {A : Type ℓ} {K : Type κ} (kov : A → K) {comp : K → K → Bool}
    (o : IsStrictWeak comp) where
  whole_chain :
      (allow : Bool) (xs : List A)
      → IsSorted (order_of kov comp allow) xs
      → chain kov comp allow none xs ≡ true
  unfolding chain in_order
  whole_chain allow [] s = refl
  whole_chain allow (x ∷ xs) s = ground (arith, sorted-chain kov comp allow x xs s.0 s.1)

  whole_sorted :
      (allow : Bool) (xs : List A)
      → chain kov comp allow none xs ≡ true
      → IsSorted (order_of kov comp allow) xs
  unfolding chain in_order
  whole_sorted allow [] h = tt
  whole_sorted allow (x ∷ xs) h = chain-IsSorted kov o allow x xs h

module _ {ℓ κ} {S E : Type 0} {A : Type ℓ} {K : Type κ} (kov : A → K) {comp : K → K → Bool}
    (o : IsStrictWeak comp) (P : BalancePolicy S E A) {Balanced : Tree E A → Type 0}
    (on_verify : (t : Tree E A) → Balanced t → P.verify t ≡ true) where
  -- Over a policy whose verify accepts the balanced trees, validate accepts every container with the
  -- invariant; and what it accepts is in order, strictly unless equivalent keys are allowed, and has its size right.
  pub validate-IsSearchTree :
      (allow : Bool) (t : BinarySearchTree S E A)
      → (IsSearchTree Balanced (order_of kov comp allow) t → validate kov comp P allow t ≡ true)
        × (validate kov comp P allow t ≡ true
            → IsSorted (order_of kov comp allow) (elements t.root)
              × (t.count ≡ length (elements t.root)))
  unfolding validate elements
  validate-IsSearchTree allow t = go t.root t.policy t.count
    where
      go :
          (root : Tree E A) (s : S) (n : ℕ)
          → let t : BinarySearchTree S E A = record { root = root; policy = s; count = n } in
            (IsSearchTree Balanced (order_of kov comp allow) t → validate kov comp P allow t ≡ true)
            × (validate kov comp P allow t ≡ true
                → IsSorted (order_of kov comp allow) (elements root) × (n ≡ length (elements root)))
      go null s n = (λ inv. ground (arith, inv.counted), λ h. (tt, ground (arith, h)))
      go (node l v e r) s n =
          let root = node l v e r in
          let t : BinarySearchTree S E A = record { root = root; policy = s; count = n } in
          let walk =
            validate_from-chain kov comp allow n root [] (elements root) none (begin t)
              (begin-PointsAt t) in
          (
            λ inv.
                let nonempty : (n == 0) ≡ false =
                  ground (arith, inv.counted, nonempty_elements l v e r) in
                rw
                  (
                    walk,
                    nonempty,
                    on_verify root inv.balanced,
                    whole_chain kov o allow (elements root) inv.sorted,
                  )
                  (ground (arith, inv.counted)),
            λ h.
                let (a, b) = and_split _ _ h in
                let (c, d) = and_split _ _ (sym walk ∙ b) in
                (whole_sorted kov o allow (elements root) c, ground (arith, d)),
          )
