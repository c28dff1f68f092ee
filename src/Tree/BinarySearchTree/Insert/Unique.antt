-- ===== src/Tree/BinarySearchTree/Insert/Unique.antt =====
-- The insertions of unique keys of include/chaistl/containers/tree/binary_search_tree.hpp.
use chaistl.Common.{
  Bool, true, false, ◌≡◌, refl, sym, ap, ◌∙◌, arith, ◌+◌, bit, List, [], ◌∷◌, ◌++◌, Option, some,
  none, All, length, length-append,
}
use chaistl.Order.{IsStrictWeak, irrefl}
use chaistl.Sort.Base.{IsSorted, All-mono}
use chaistl.Tree.Node.{
  Tree, null, Frame, Place, plug, root_of, elements, before, after, elements_before, elements_after,
}
use chaistl.Tree.Node.Order.{elements-plug, elements-root_of}
use chaistl.Tree.Search.{InsertPosition, existing, attach, get_insert_unique_pos}
use chaistl.Tree.Search.Bound.{IsSorted-split}
use chaistl.Tree.Search.Unique.{not_after}
use chaistl.Tree.Search.Find.{IsHit}
use chaistl.Tree.Search.Insert.{IsUniquePosition, get_insert_unique_pos-IsUniquePosition}
use chaistl.Tree.Hint.Slots.{IsHint}
use chaistl.Tree.Hint.Laws.{get_insert_hint_unique_pos-IsUniquePosition}
use chaistl.Tree.BinarySearchTree.{BinarySearchTree, BalancePolicy, Iterator}
use chaistl.Tree.BinarySearchTree.Place.{place_at-split}
use chaistl.Tree.BinarySearchTree.Policy.{IsBalancePolicy, IsSearchTree}
use chaistl.Tree.BinarySearchTree.Insert.{
  link_node, insert_at, kept_at, insert_unique, insert_hint_unique, insert_unique_range,
  emplace_unique, insert_node_unique,
}
use chaistl.Tree.BinarySearchTree.Insert.Reference.{
  set_insert, set_insert_all, set_insert-free, set_insert-duplicate, strict-IsSorted,
  insert-IsSorted,
}

-- The tree with one more element at a split of its sequence, and the iterator to it.
pub record Links {ℓ} {S E : Type 0} {A : Type ℓ} (Balanced : Tree E A → Type 0) (x : A)
    (xs ys : List A) (t u : BinarySearchTree S E A) (it : Iterator E A) : Type ℓ where
  pub balanced : Balanced u.root
  pub split : elements t.root ≡ xs ++ ys
  pub content : elements u.root ≡ xs ++ (x ∷ ys)
  pub counted : u.count ≡ length (elements u.root)
  pub place : Place E A
  pub points : it ≡ some place
  pub in_tree : root_of place ≡ u.root
  pub value : place.value ≡ x

module _ {ℓ} {S E : Type 0} {A : Type ℓ} {P : BalancePolicy S E A} {Balanced : Tree E A → Type 0}
    (laws : IsBalancePolicy P Balanced) where
  pub link_node-Links :
      (x : A) (slot : List (Frame E A)) (t : BinarySearchTree S E A)
      → plug slot null ≡ t.root
      → Balanced t.root
      → t.count ≡ length (elements t.root)
      → Links Balanced x
          (before slot)
          (after slot)
          t
          (link_node P x slot t).0
          (link_node P x slot t).1
  unfolding link_node elements
  link_node-Links x slot t q b n =
      let held = laws.on_insert t.policy x slot (rw q b) in
      let split : elements t.root ≡ before slot ++ after slot =
        sym (ap elements q) ∙ elements-plug slot null in
      let (y, points, inside, front, v, back) =
        place_at-split _ (before slot) (after slot) x held.content in
      record {
        balanced = held.balanced;
        split = split;
        content = held.content;
        counted = omega (
          arith,
          n,
          ap length split,
          ap length held.content,
          length-append (before slot) (after slot),
          length-append (before slot) (x ∷ after slot),
        );
        place = y;
        points = points;
        in_tree = inside;
        value = v;
      }

-- What an insertion of a unique key leaves: a tree with the invariant, the elements that the reference
-- gives, an iterator to an element with the key, and one element more just when it says so.
pub record InsertsUnique {ℓ κ} {S E : Type 0} {A : Type ℓ} {K : Type κ} (kov : A → K)
    (comp : K → K → Bool) (Balanced : Tree E A → Type 0) (x : A) (t u : BinarySearchTree S E A)
    (it : Iterator E A) : Type ℓ where
  pub valid : IsSearchTree Balanced (not_after kov comp) u
  pub content : elements u.root ≡ set_insert kov comp x (elements t.root)
  pub place : Place E A
  pub points : it ≡ some place
  pub hit : IsHit kov comp (kov x) u.root place

module _ {ℓ κ} {A : Type ℓ} {K : Type κ} (kov : A → K) {comp : K → K → Bool}
    (o : IsStrictWeak comp) where
  less_than_duplicate :
      (x y : A) (xs : List A)
      → comp (kov x) (kov y) ≡ false
      → All (λ z. not_after kov comp y z ≡ false) xs
      → All (λ z. comp (kov z) (kov x) ≡ true) xs
  less_than_duplicate x y xs h q =
      All-mono xs (λ z k. ground (arith, h, k, o.neg_trans (kov z) (kov x) (kov y))) q

  not_less_than :
      (x : A) (xs : List A)
      → All (λ y. comp (kov x) (kov y) ≡ true) xs
      → All (λ y. comp (kov y) (kov x) ≡ false) xs
  not_less_than x xs q = All-mono xs (λ y h. o.asym (kov x) (kov y) h) q

module _ {ℓ κ} {S E : Type 0} {A : Type ℓ} {K : Type κ} (kov : A → K) {comp : K → K → Bool}
    (o : IsStrictWeak comp) {P : BalancePolicy S E A} {Balanced : Tree E A → Type 0}
    (laws : IsBalancePolicy P Balanced) where
  pub insert_at-InsertsUnique :
      (pos : InsertPosition E A) (x : A) (t : BinarySearchTree S E A)
      → IsSearchTree Balanced (not_after kov comp) t
      → IsUniquePosition kov comp (kov x) t.root pos
      → InsertsUnique kov comp Balanced x t (insert_at P pos x t).0 (insert_at P pos x t).1
        × (bit (insert_at P pos x t).2 + length (elements t.root)
            ≡ length (elements (insert_at P pos x t).0.root))
  unfolding insert_at
  insert_at-InsertsUnique (existing y) x t inv h =
      let whole = sym (ap elements h.in_tree) ∙ elements-root_of y in
      let sorted : IsSorted (not_after kov comp)
          (elements_before y ++ (y.value ∷ elements_after y)) =
        rw (sym whole) inv.sorted in
      let around = IsSorted-split _ (elements_before y) (elements_after y) y.value sorted in
      let low = less_than_duplicate kov o x y.value (elements_before y) h.not_greater around.2 in
      let same =
        set_insert-duplicate kov comp x (elements_before y) (elements_after y) y.value low
          h.not_less h.not_greater in
      (
        record {
          valid = inv;
          content = rw whole (sym same);
          place = y;
          points = refl;
          hit = record {
            in_tree = h.in_tree;
            equivalent = ground (arith, h.not_less, h.not_greater);
          };
        },
        omega arith,
      )
  insert_at-InsertsUnique (attach slot) x t inv h =
      let l = link_node-Links laws x slot t h.in_tree inv.balanced inv.counted in
      let not_low = not_less_than kov o x (after slot) h.upper in
      let sorted =
        insert-IsSorted (not_after kov comp) (before slot) (after slot) x
          (rw (sym l.split) inv.sorted) (All-mono (before slot) (λ z q. ground (arith, q)) h.lower)
          (All-mono (after slot) (λ z q. ground (arith, q)) h.upper) in
      let same = set_insert-free kov comp x (before slot) (after slot) h.lower not_low h.upper in
      (
        record {
          valid = record {
            sorted = rw l.content sorted;
            balanced = l.balanced;
            counted = l.counted;
          };
          content = l.content ∙ sym same ∙ ap (set_insert kov comp x) (sym l.split);
          place = l.place;
          points = l.points;
          hit = record {
            in_tree = l.in_tree;
            equivalent = rw l.value (ground (arith, irrefl o (kov x)));
          };
        },
        omega (
          arith,
          ap length l.split,
          ap length l.content,
          length-append (before slot) (after slot),
          length-append (before slot) (x ∷ after slot),
        ),
      )

  -- Over a policy that keeps the contract, insert_unique keeps the invariant of the container and does
  -- to the sequence of the elements what the reference set_insert does; its iterator points to an
  -- element with the key of the value, and its Boolean says whether there is one element more.
  pub insert_unique-InsertsUnique :
      (x : A) (t : BinarySearchTree S E A)
      → IsSearchTree Balanced (not_after kov comp) t
      → InsertsUnique kov comp Balanced x t
          (insert_unique kov comp P x t).0
          (insert_unique kov comp P x t).1
        × (bit (insert_unique kov comp P x t).2 + length (elements t.root)
            ≡ length (elements (insert_unique kov comp P x t).0.root))
  unfolding insert_unique
  insert_unique-InsertsUnique x t inv =
      let s = strict-IsSorted kov comp o (elements t.root) inv.sorted in
      insert_at-InsertsUnique _ x t inv
        (get_insert_unique_pos-IsUniquePosition kov o (kov x) t.root s)

  -- Over a policy that keeps the contract, insert_hint_unique with any hint of the tree keeps the
  -- invariant of the container and does to the sequence of the elements what set_insert does, whatever
  -- the hint; its iterator points to an element with the key of the value.
  pub insert_hint_unique-InsertsUnique :
      (hint : Iterator E A) (x : A) (t : BinarySearchTree S E A)
      → IsHint t.root hint
      → IsSearchTree Balanced (not_after kov comp) t
      → InsertsUnique kov comp Balanced x t
          (insert_hint_unique kov comp P hint x t).0
          (insert_hint_unique kov comp P hint x t).1
  unfolding insert_hint_unique
  insert_hint_unique-InsertsUnique hint x t in_tree inv =
      let s = strict-IsSorted kov comp o (elements t.root) inv.sorted in
      (insert_at-InsertsUnique _ x t inv
        (get_insert_hint_unique_pos-IsUniquePosition kov o (kov x) t.root hint in_tree s)).0

  -- Over a policy that keeps the contract, the insertion of a range of unique keys keeps the invariant of
  -- the container and leaves the elements that come of putting the values in one after the other.
  pub insert_unique_range-IsSearchTree :
      (xs : List A) (t : BinarySearchTree S E A)
      → IsSearchTree Balanced (not_after kov comp) t
      → IsSearchTree Balanced (not_after kov comp) (insert_unique_range kov comp P xs t)
        × (elements (insert_unique_range kov comp P xs t).root
            ≡ set_insert_all kov comp xs (elements t.root))
  unfolding insert_unique_range set_insert_all
  insert_unique_range-IsSearchTree [] t inv = (inv, refl)
  insert_unique_range-IsSearchTree (x ∷ xs) t inv =
      let one = insert_hint_unique-InsertsUnique none x t tt inv in
      let rest = insert_unique_range-IsSearchTree xs _ one.valid in
      (rest.0, rest.1 ∙ ap (set_insert_all kov comp xs) one.content)

module _ {ℓ} {A : Type ℓ} where
  -- What the handle or the guard has after an insertion with this answer.
  abbrev pub handle_after : A → Bool → Option A
  handle_after x true = none
  handle_after x false = some x

module _ {ℓ} {S E : Type 0} {A : Type ℓ} (P : BalancePolicy S E A) where
  kept_at-inserted :
      (pos : InsertPosition E A) (x : A) (t : BinarySearchTree S E A)
      → kept_at pos x ≡ handle_after x (insert_at P pos x t).2
  unfolding kept_at insert_at
  kept_at-inserted (existing y) x t = refl
  kept_at-inserted (attach slot) x t = refl

module _ {ℓ κ} {S E : Type 0} {A : Type ℓ} {K : Type κ} (kov : A → K) (comp : K → K → Bool)
    (P : BalancePolicy S E A) where
  -- insert_node_unique and emplace_unique do what insert_unique does, and the node is left in the handle,
  -- or dropped, just when it is not inserted.
  pub insert_node_unique-insert_unique :
      (x : A) (t : BinarySearchTree S E A)
      → let (u, it, inserted) = insert_unique kov comp P x t in
        (insert_node_unique kov comp P (some x) t ≡ (u, it, inserted, handle_after x inserted))
        × (emplace_unique kov comp P x t ≡ (u, it, inserted, handle_after x inserted))
  unfolding insert_unique insert_node_unique emplace_unique
  insert_node_unique-insert_unique x t =
      let q = kept_at-inserted P (get_insert_unique_pos kov comp (kov x) t.root) x t in
      (rw q refl, rw q refl)
