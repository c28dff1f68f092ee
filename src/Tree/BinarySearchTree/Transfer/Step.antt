-- ===== src/Tree/BinarySearchTree/Transfer/Step.antt =====
-- One turn of the loop of `merge` of include/chaistl/containers/tree/binary_search_tree.hpp.
use chaistl.Common.{
  Bool, true, false, not, ◌==◌, ◌≡◌, refl, sym, ap, ◌∙◌, arith, List, [], ◌∷◌, ◌++◌, some, none,
  append_assoc, append_nil, count-append, All-count_zero, count, if◌then◌else◌,
}
use chaistl.Order.{IsStrictWeak}
use chaistl.Sort.Base.{All-mono}
use chaistl.Tree.Node.{
  Tree, null, node, Place, root_of, elements, elements_before, elements_after, before, after, plug,
  node_minimum, node_successor,
}
use chaistl.Tree.Node.Order.{elements-root_of, elements-plug, node_minimum_lem}
use chaistl.Tree.Node.Step.{StepsForward, node_successor-StepsForward}
use chaistl.Tree.Search.{InsertPosition, existing, attach}
use chaistl.Tree.Search.Unique.{not_after}
use chaistl.Tree.Search.Find.{matches}
use chaistl.Tree.Search.Insert.{IsUniquePosition, get_insert_unique_pos-IsUniquePosition}
use chaistl.Tree.BinarySearchTree.{BinarySearchTree, BalancePolicy, Iterator, begin}
use chaistl.Tree.BinarySearchTree.Place.{PointsAt}
use chaistl.Tree.BinarySearchTree.Policy.{IsBalancePolicy, IsSearchTree}
use chaistl.Tree.BinarySearchTree.Insert.{link_node, insert_at}
use chaistl.Tree.BinarySearchTree.Insert.Reference.{set_insert, strict-IsSorted}
use chaistl.Tree.BinarySearchTree.Insert.Unique.{insert_at-InsertsUnique}
use chaistl.Tree.BinarySearchTree.Erase.{erase}
use chaistl.Tree.BinarySearchTree.Erase.Laws.{erase-PointsAt}
use chaistl.Tree.BinarySearchTree.Transfer.{merge_step}

module _ {ℓ κ} {A : Type ℓ} {K : Type κ} (kov : A → K) (comp : K → K → Bool) where
  -- Whether a sequence has an element with the key.
  abbrev pub has_key : K → List A → Bool
  has_key key xs = not (count (matches kov comp key) xs == 0)

  -- What a merge leaves in the source: the elements whose keys the target has at their turn.
  unfoldable pub refused : List A → List A → List A
  unfolding set_insert
  refused [] ys = []
  refused (x ∷ xs) ys =
      let rest = refused xs (set_insert kov comp x ys) in
      if has_key (kov x) ys then x ∷ rest else rest

  -- And in the target.
  unfoldable pub merged : List A → List A → List A
  unfolding set_insert
  merged [] ys = ys
  merged (x ∷ xs) ys = merged xs (set_insert kov comp x ys)

module _ {ℓ} {S E : Type 0} {A : Type ℓ} where
  pub begin-PointsAt : (t : BinarySearchTree S E A) → PointsAt t.root [] (elements t.root) (begin t)
  unfolding begin elements before after plug
  begin-PointsAt t = go t.root
    where
      go :
          (root : Tree E A)
          → PointsAt root [] (elements root) (elim root as (λ _. Iterator E A) [
            | null ↦ none
            | node l v e r ↦ some (node_minimum l v e r [])
          ])
      go null = record { is_nil = refl }
      go (node l v e r) =
          let m = node_minimum_lem l v e r [] in
          record { in_tree = m.0; is_before = m.1; is_from = sym (append_nil _) ∙ sym m.2 }

module _ {ℓ κ} {A : Type ℓ} {E : Type 0} {K : Type κ} (kov : A → K) {comp : K → K → Bool}
    (o : IsStrictWeak comp) where
  existing-has_key :
      (key : K) (t : Tree E A) (y : Place E A)
      → IsUniquePosition kov comp key t (existing y)
      → has_key kov comp key (elements t) ≡ true
  existing-has_key key t y h =
      let p = matches kov comp key in
      let whole = sym (ap elements h.in_tree) ∙ elements-root_of y in
      rw whole (
        ground (
          arith,
          h.not_less,
          h.not_greater,
          count-append p (elements_before y) (y.value ∷ elements_after y),
        ))

  attach-has_key :
      (key : K) (t : Tree E A) (slot : List _)
      → IsUniquePosition kov comp key t (attach slot)
      → has_key kov comp key (elements t) ≡ false
  unfolding elements
  attach-has_key key t slot h =
      let p = matches kov comp key in
      let whole = sym (ap elements h.in_tree) ∙ elements-plug slot null in
      let low = All-mono (before slot) (λ x c. ground (arith, c)) h.lower in
      let high = All-mono (after slot) (λ x c. ground (arith, c)) h.upper in
      rw whole (
        ground (
          arith,
          All-count_zero p (before slot) low,
          All-count_zero p (after slot) high,
          count-append p (before slot) (after slot),
        ))

module _ {ℓ} {E : Type 0} {A : Type ℓ} where
  -- What `++it` leaves of a split.
  pub successor-PointsAt :
      (x : Place E A)
      → PointsAt
          (root_of x)
          (elements_before x ++ (x.value ∷ []))
          (elements_after x)
          (node_successor x)
  successor-PointsAt x = go (node_successor x) (node_successor-StepsForward x)
    where
      go :
          (it : Iterator E A)
          → StepsForward x it
          → PointsAt (root_of x) (elements_before x ++ (x.value ∷ [])) (elements_after x) it
      go none h = record { is_nil = h }
      go (some y) h = record {
        in_tree = h.same_tree;
        is_before = h.next_before;
        is_from = h.next_after;
      }

-- What one turn of the loop does: the target gets the element as `set_insert` says, and the element
-- stays in the source if the target has its key.
pub record Steps {ℓ κ} {S E : Type 0} {A : Type ℓ} {K : Type κ} (kov : A → K) (comp : K → K → Bool)
    (Balanced : Tree E A → Type 0) (cmp : A → A → Bool) (current : Place E A)
    (this t s : BinarySearchTree S E A) (next : Iterator E A) : Type ℓ where
  pub this_valid : IsSearchTree Balanced (not_after kov comp) t
  pub source_valid : IsSearchTree Balanced cmp s
  pub this_content : elements t.root ≡ set_insert kov comp current.value (elements this.root)
  pub front : List A
  pub source_content : elements s.root ≡ front ++ elements_after current
  pub points : PointsAt s.root front (elements_after current) next
  pub kept :
      front
      ≡ elements_before current
        ++ (if has_key kov comp (kov current.value) (elements this.root)
            then current.value ∷ []
            else [])

module _ {ℓ κ} {S E : Type 0} {A : Type ℓ} {K : Type κ} (kov : A → K) {comp : K → K → Bool}
    (o : IsStrictWeak comp) {P : BalancePolicy S E A} {Balanced : Tree E A → Type 0}
    (laws : IsBalancePolicy P Balanced) (cmp : A → A → Bool) where
  step_at :
      (pos : InsertPosition E A) (current : Place E A) (this source : BinarySearchTree S E A)
      → IsUniquePosition kov comp (kov current.value) this.root pos
      → IsSearchTree Balanced (not_after kov comp) this
      → IsSearchTree Balanced cmp source
      → root_of current ≡ source.root
      → let r = elim pos as (λ _. BinarySearchTree S E A × BinarySearchTree S E A × Iterator E A) [
        | existing y ↦ (this, source, node_successor current)
        | attach slot ↦ (
          (link_node P current.value slot this).0,
          (erase P current source).0,
          (erase P current source).1,
        )
      ] in
        Steps kov comp Balanced cmp current this r.0 r.1 r.2
  unfolding insert_at
  step_at (existing y) current this source h inv other q =
      let whole = sym (ap elements q) ∙ elements-root_of current in
      let one = insert_at-InsertsUnique kov o laws (existing y) current.value this inv h in
      record {
        this_valid = inv;
        source_valid = other;
        this_content = one.0.content;
        front = elements_before current ++ (current.value ∷ []);
        source_content =
            whole
            ∙ sym (
                append_assoc (elements_before current) (current.value ∷ [])
                  (elements_after current));
        points = rw (sym q) (successor-PointsAt current);
        kept = rw (existing-has_key kov o (kov current.value) this.root y h) refl;
      }
  step_at (attach slot) current this source h inv other q =
      let one = insert_at-InsertsUnique kov o laws (attach slot) current.value this inv h in
      let rest = erase-PointsAt laws cmp current source q other in
      record {
        this_valid = one.0.valid;
        source_valid = rest.0;
        this_content = one.0.content;
        front = elements_before current;
        source_content = rest.1;
        points = rest.2;
        kept =
            rw (attach-has_key kov o (kov current.value) this.root slot h)
              (sym (append_nil (elements_before current)));
      }

  pub merge_step-Steps :
      (current : Place E A) (this source : BinarySearchTree S E A)
      → IsSearchTree Balanced (not_after kov comp) this
      → IsSearchTree Balanced cmp source
      → root_of current ≡ source.root
      → Steps kov comp Balanced cmp current this
          (merge_step kov comp P current this source).0
          (merge_step kov comp P current this source).1
          (merge_step kov comp P current this source).2
  unfolding merge_step
  merge_step-Steps current this source inv other q =
      let s = strict-IsSorted kov comp o (elements this.root) inv.sorted in
      let pos = get_insert_unique_pos-IsUniquePosition kov o (kov current.value) this.root s in
      step_at _ current this source pos inv other q
