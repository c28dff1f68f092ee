-- ===== src/Tree/BinarySearchTree/Erase/Extract.antt =====
-- `extract` and the insertion of what it gives, of
-- include/chaistl/containers/tree/binary_search_tree.hpp.
use chaistl.Common.{
  Bool, true, not, ◌≡◌, refl, sym, ap, ◌∙◌, arith, List, [], ◌∷◌, ◌++◌, Option, some, none, length,
  length-append,
}
use chaistl.Order.{IsStrictWeak}
use chaistl.Sort.Base.{IsSorted, All-mono, filter}
use chaistl.Tree.Node.{Tree, Place, root_of, elements, elements_before, elements_after}
use chaistl.Tree.Node.Order.{elements-root_of}
use chaistl.Tree.Search.Bound.{IsSorted-split}
use chaistl.Tree.Search.Unique.{not_after}
use chaistl.Tree.Search.Find.{IsFound, matches}
use chaistl.Tree.BinarySearchTree.{BinarySearchTree, BalancePolicy, Iterator}
use chaistl.Tree.BinarySearchTree.Policy.{IsBalancePolicy, IsSearchTree}
use chaistl.Tree.BinarySearchTree.Lookup.{find_mutating}
use chaistl.Tree.BinarySearchTree.Lookup.Laws.{find_mutating-IsFound, Keeps-IsSearchTree}
use chaistl.Tree.BinarySearchTree.Insert.{insert_unique, insert_node_unique}
use chaistl.Tree.BinarySearchTree.Insert.Reference.{set_insert, set_insert-free}
use chaistl.Tree.BinarySearchTree.Insert.Unique.{
  insert_unique-InsertsUnique, insert_node_unique-insert_unique,
}
use chaistl.Tree.BinarySearchTree.Erase.{erase_node, extract, extract_key}
use chaistl.Tree.BinarySearchTree.Erase.Laws.{erase_node-IsSearchTree}
use chaistl.Tree.BinarySearchTree.Erase.Keys.{
  unique-multi, others, others-KeyRange, matching-KeyRange, hit-KeyRange, filter-all, filter-none,
}

module _ {ℓ κ} {E : Type 0} {A : Type ℓ} {K : Type κ} (kov : A → K) {comp : K → K → Bool}
    (o : IsStrictWeak comp) where
  -- Putting a node's value back among the other elements.
  pub set_insert-Place :
      (x : Place E A)
      → IsSorted (not_after kov comp) (elements (root_of x))
      → set_insert kov comp x.value (elements_before x ++ elements_after x) ≡ elements (root_of x)
  set_insert-Place x s =
      let sorted : IsSorted (not_after kov comp)
          (elements_before x ++ (x.value ∷ elements_after x)) =
        rw (sym (elements-root_of x)) s in
      let around = IsSorted-split _ (elements_before x) (elements_after x) x.value sorted in
      set_insert-free kov comp x.value (elements_before x) (elements_after x)
        (All-mono (elements_before x) (λ y h. ground (arith, h)) around.2)
        (All-mono (elements_after x) (λ y h. ground (arith, h, o.asym (kov x.value) (kov y)))
          around.3)
        (All-mono (elements_after x) (λ y h. ground (arith, h)) around.3)
      ∙ sym (elements-root_of x)

module _ {ℓ} {A : Type ℓ} where
  -- What a node handle holds.
  abbrev pub handle_values : Option A → List A
  handle_values none = []
  handle_values (some x) = x ∷ []

-- What an extraction by key leaves: a tree with the invariant and all elements but those with the key,
-- and in the handle just the elements with it.
pub record ExtractsKey {ℓ κ} {S E : Type 0} {A : Type ℓ} {K : Type κ} (kov : A → K)
    (comp : K → K → Bool) (Balanced : Tree E A → Type 0) (key : K) (t u : BinarySearchTree S E A)
    (nh : Option A) : Type ℓ where
  pub valid : IsSearchTree Balanced (not_after kov comp) u
  pub content : elements u.root ≡ others kov comp key (elements t.root)
  pub held : handle_values nh ≡ filter (matches kov comp key) (elements t.root)

-- What the insertion of the handle leaves: the elements that the container had, and an empty handle.
pub record Restores {ℓ κ} {S E : Type 0} {A : Type ℓ} {K : Type κ} (kov : A → K)
    (comp : K → K → Bool) (Balanced : Tree E A → Type 0) (t : BinarySearchTree S E A)
    (r : BinarySearchTree S E A × Iterator E A × Bool × Option A) : Type ℓ where
  pub valid : IsSearchTree Balanced (not_after kov comp) r.0
  pub content : elements r.0.root ≡ elements t.root
  pub emptied : r.3 ≡ none

module _ {ℓ κ} {S E : Type 0} {A : Type ℓ} {K : Type κ} (kov : A → K) {comp : K → K → Bool}
    (o : IsStrictWeak comp) {P : BalancePolicy S E A} {Balanced : Tree E A → Type 0}
    (laws : IsBalancePolicy P Balanced) where
  -- A node handle put back where it came from.
  insert_back-Restores :
      (x : Place E A) (u : BinarySearchTree S E A)
      → root_of x ≡ u.root
      → IsSearchTree Balanced (not_after kov comp) u
      → Restores kov comp Balanced u
          (insert_node_unique kov comp P (some x.value) (erase_node P x u))
  insert_back-Restores x u q inv =
      let erased = erase_node-IsSearchTree laws (not_after kov comp) x u q inv in
      let (done, more) =
        insert_unique-InsertsUnique kov o laws x.value (erase_node P x u) erased.0 in
      let same = (insert_node_unique-insert_unique kov comp P x.value (erase_node P x u)).0 in
      let back : elements (insert_unique kov comp P x.value (erase_node P x u)).0.root
          ≡ elements u.root =
        done.content
        ∙ ap (set_insert kov comp x.value) erased.1
        ∙ set_insert-Place kov o x (rw (ap elements q) inv.sorted)
        ∙ ap elements q in
      let whole = sym (ap elements q) ∙ elements-root_of x in
      let new : (insert_unique kov comp P x.value (erase_node P x u)).2 ≡ true = ground (
        arith,
        more,
        ap length back,
        ap length whole,
        ap length erased.1,
        length-append (elements_before x) (x.value ∷ elements_after x),
        length-append (elements_before x) (elements_after x),
      ) in
      rw same (record { valid = done.valid; content = back; emptied = rw new refl })

  -- An extraction of a node that was found, or of none.
  extracted :
      (t u : BinarySearchTree S E A) (key : K) (it : Iterator E A)
      → IsSearchTree Balanced (not_after kov comp) u
      → elements u.root ≡ elements t.root
      → IsFound kov comp key u.root it
      → let r = elim it as (λ _. BinarySearchTree S E A × Option A) [
        | none ↦ (u, none)
        | some z ↦ extract P z u
      ] in
        ExtractsKey kov comp Balanced key t r.0 r.1
        × Restores kov comp Balanced t (insert_node_unique kov comp P r.1 r.0)
  unfolding extract erase_node insert_node_unique
  extracted t u key none inv q found =
      let p = matches kov comp key in
      let kept =
        filter-all (λ x. not (p x)) (elements u.root)
          (All-mono (elements u.root) (λ x h. ground (arith, h)) found.absent) in
      (
        record {
          valid = inv;
          content = sym kept ∙ ap (others kov comp key) q;
          held = sym (filter-none p (elements u.root) found.absent) ∙ ap (filter p) q;
        },
        record { valid = inv; content = q; emptied = refl },
      )
  extracted t u key (some z) inv q found =
      let erased = erase_node-IsSearchTree laws (not_after kov comp) z u found.in_tree inv in
      let (range, front, mid, back) = hit-KeyRange kov o key u.root z inv.sorted found in
      let ends : elements_before z ++ elements_after z ≡ range.front ++ range.back =
        rw (front, back) refl in
      let again = insert_back-Restores z u found.in_tree inv in
      (
        record {
          valid = erased.0;
          content =
              erased.1
              ∙ ends
              ∙ sym (others-KeyRange kov comp key (elements u.root) range)
              ∙ ap (others kov comp key) q;
          held =
              sym mid
              ∙ sym (matching-KeyRange kov comp key (elements u.root) range)
              ∙ ap (filter (matches kov comp key)) q;
        },
        record { valid = again.valid; content = again.content ∙ q; emptied = again.emptied },
      )

  -- Over a policy that keeps the contract, extract of a key of a container of unique keys keeps its
  -- invariant, leaves just the elements without the key in their order, and gives a handle with the
  -- element that has the key, or an empty one. The insertion of the handle then restores the elements of
  -- the container and its invariant, and leaves the handle empty.
  pub extract_key-insert_node_unique :
      (key : K) (t : BinarySearchTree S E A)
      → IsSearchTree Balanced (not_after kov comp) t
      → let (u, nh) = extract_key kov comp P key t in
        ExtractsKey kov comp Balanced key t u nh
        × Restores kov comp Balanced t (insert_node_unique kov comp P nh u)
  unfolding extract_key
  extract_key-insert_node_unique key t inv =
      let (kept, found) = find_mutating-IsFound kov o laws key t (unique-multi kov o laws t inv) in
      let u = (find_mutating kov comp P key t).0 in
      extracted t u key _ (Keeps-IsSearchTree (not_after kov comp) t u kept inv) kept.content found
