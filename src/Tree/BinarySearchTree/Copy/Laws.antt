-- ===== src/Tree/BinarySearchTree/Copy/Laws.antt =====
-- What copying, moving and destroying trees of
-- include/chaistl/containers/tree/binary_search_tree.hpp leaves.
use chaistl.Common.{
  Bool, ℕ, zero, suc, ◌+◌, ◌*◌, ◌≡◌, refl, sym, ap, ◌∙◌, arith, List, [], ◌∷◌, ◌++◌, Option, some,
  length, length-append, append_assoc, count, count-append,
}
use chaistl.Tree.Node.{Tree, null, node, Frame, from_left, from_right, elements}
use chaistl.Tree.BinarySearchTree.{BinarySearchTree}
use chaistl.Tree.BinarySearchTree.Copy.{
  copy_tree, copy_construct, copy_from, move_construct, take_header_from, destroy_from,
  destroy_tree,
}

module _ {ℓ} {E : Type 0} {A : Type ℓ} where
  -- The values of a tree, each after those of the subtrees below it.
  unfoldable pub post_order : Tree E A → List A
  post_order null = []
  post_order (node l v e r) = post_order l ++ (post_order r ++ (v ∷ []))

  count-post_order : (p : A → Bool) (t : Tree E A) → count p (post_order t) ≡ count p (elements t)
  unfolding post_order elements
  count-post_order p null = refl
  count-post_order p (node l v e r) = omega (
    arith,
    count-post_order p l,
    count-post_order p r,
    count-append p (post_order l) (post_order r ++ (v ∷ [])),
    count-append p (post_order r) (v ∷ []),
    count-append p (elements l) (v ∷ elements r),
  )

  -- Where the walk goes on after a subtree is destroyed.
  after_subtree : ℕ → List (Frame E A) → List A → Option (List A)
  unfolding destroy_from
  after_subtree n [] done = some done
  after_subtree n (from_left v e r ∷ above) done = destroy_from n (node null v e r) above done
  after_subtree n (from_right l v e ∷ above) done = destroy_from n (node l v e null) above done

  -- Twice the number of nodes.
  steps : Tree E A → ℕ
  steps null = 0
  steps (node l v e r) = steps l + steps r + 2

  steps-length : (t : Tree E A) → steps t ≡ 2 * length (elements t)
  unfolding steps elements
  steps-length null = refl
  steps-length (node l v e r) =
      omega (arith, steps-length l, steps-length r, length-append (elements l) (v ∷ elements r))

  -- The walk through a subtree destroys it in post order and goes on above it.
  abbrev WalksThrough : Tree E A → Type ℓ
  WalksThrough null = Unit
  WalksThrough (node l v e r) =
      (n k : ℕ) (above : List (Frame E A)) (done : List A)
      → n + 1 ≡ steps (node l v e r) + k
      → destroy_from n (node l v e r) above done
        ≡ after_subtree k above (done ++ post_order (node l v e r))

  leaf_walk :
      (n : ℕ) (v : A) (e : E) (above : List (Frame E A)) (done : List A)
      → destroy_from (suc n) (node null v e null) above done
        ≡ after_subtree n above (done ++ (v ∷ []))
  unfolding destroy_from after_subtree
  leaf_walk n v e [] done = refl
  leaf_walk n v e (from_left v' e' r' ∷ above) done = refl
  leaf_walk n v e (from_right l' v' e' ∷ above) done = refl

  right_walk :
      (r : Tree E A) (v : A) (e : E) (n k : ℕ) (above : List (Frame E A)) (done : List A)
      → WalksThrough r
      → n + 1 ≡ steps r + 2 + k
      → destroy_from n (node null v e r) above done
        ≡ after_subtree k above (done ++ (post_order r ++ (v ∷ [])))
  unfolding destroy_from after_subtree steps post_order
  right_walk r v e zero k above done w h = absurd (omega (arith, h))
  right_walk null v e (suc n) k above done w h =
      let same : n ≡ k = omega (arith, h) in rw (sym same) (leaf_walk n v e above done)
  right_walk (node l' v' e' r') v e (suc n) k above done w h =
      let r = node l' v' e' r' in
      w n (suc k) (from_right null v e ∷ above) done (omega (arith, h))
      ∙ leaf_walk k v e above (done ++ post_order r)
      ∙ ap (after_subtree k above) (append_assoc done (post_order r) (v ∷ []))

  tree_walk : (t : Tree E A) → WalksThrough t
  unfolding destroy_from after_subtree steps post_order
  tree_walk null = tt
  tree_walk (node null v e r) =
      λ n k above done h. right_walk r v e n k above done (tree_walk r) (omega (arith, h))
  tree_walk (node (node l' v' e' r') v e r) =
      λ n k above done h. at n k above done h (tree_walk (node l' v' e' r')) (tree_walk r)
    where
      at :
          (n k : ℕ) (above : List (Frame E A)) (done : List A)
          → n + 1 ≡ steps (node (node l' v' e' r') v e r) + k
          → WalksThrough (node l' v' e' r')
          → WalksThrough r
          → destroy_from n (node (node l' v' e' r') v e r) above done
            ≡ after_subtree k above (done ++ post_order (node (node l' v' e' r') v e r))
      at zero k above done h wl wr = absurd (omega (arith, h))
      at (suc n) k above done h wl wr =
          let l = node l' v' e' r' in
          wl n (steps r + 1 + k) (from_left v e r ∷ above) done (omega (arith, h))
          ∙ right_walk r v e (steps r + 1 + k) k above (done ++ post_order l) wr (omega arith)
          ∙ ap (after_subtree k above) (append_assoc done (post_order l) (post_order r ++ (v ∷ [])))

  -- destroy_tree terminates, on a tree of any shape, within two turns of its loop for each node, and
  -- destroys every node once, each after the nodes below it.
  pub destroy_tree-post_order :
      (t : Tree E A)
      → (destroy_tree t ≡ some (post_order t))
        × ((p : A → Bool) → count p (post_order t) ≡ count p (elements t))
  unfolding destroy_tree destroy_from after_subtree post_order
  destroy_tree-post_order t = (whole t, λ p. count-post_order p t)
    where
      whole : (t : Tree E A) → destroy_tree t ≡ some (post_order t)
      whole null = refl
      whole (node l v e r) =
          let t = node l v e r in
          tree_walk t (2 * length (elements t) + 1) 2 [] [] (omega (arith, steps-length t))

  copy_tree_same : (t : Tree E A) → copy_tree t ≡ t
  unfolding copy_tree
  copy_tree_same null = refl
  copy_tree_same (node l v e r) = rw (copy_tree_same l, copy_tree_same r) refl

-- The two trees hold the same nodes in the same shape.
pub record SameTree {ℓ} {S E : Type 0} {A : Type ℓ} (t u : BinarySearchTree S E A) : Type ℓ where
  pub same_root : u.root ≡ t.root
  pub same_policy : u.policy ≡ t.policy
  pub same_count : u.count ≡ t.count

module _ {ℓ} {S E : Type 0} {A : Type ℓ} where
  -- The copy of a container whose size is right has the same nodes in the same shape, with the same
  -- extensions, and a move leaves them in the new container and the old one empty.
  pub copy_construct-SameTree :
      (t : BinarySearchTree S E A)
      → t.count ≡ length (elements t.root)
      → SameTree t (copy_construct t)
        × SameTree t (move_construct t).0
        × ((move_construct t).1.root ≡ null)
        × ((move_construct t).1.count ≡ 0)
  unfolding copy_construct copy_from move_construct take_header_from elements
  copy_construct-SameTree t = go t.root t.policy t.count
    where
      go :
          (root : Tree E A) (s : S) (n : ℕ)
          → n ≡ length (elements root)
          → let t : BinarySearchTree S E A = record { root = root; policy = s; count = n } in
            SameTree t (copy_construct t)
            × SameTree t (move_construct t).0
            × ((move_construct t).1.root ≡ null)
            × ((move_construct t).1.count ≡ 0)
      go null s n h = (
        record { same_root = refl; same_policy = refl; same_count = sym h },
        record { same_root = refl; same_policy = refl; same_count = refl },
        refl,
        refl,
      )
      go (node l v e r) s n h = (
        record { same_root = copy_tree_same (node l v e r); same_policy = refl; same_count = refl },
        record { same_root = refl; same_policy = refl; same_count = refl },
        refl,
        refl,
      )
