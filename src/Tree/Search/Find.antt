-- ===== src/Tree/Search/Find.antt =====
-- `find_search` of include/chaistl/containers/tree/algorithm.hpp.
use chaistl.Common.{
  Bool, true, false, not, ◌&&◌, ◌≡◌, refl, sym, ap, ◌∙◌, arith, [], ◌∷◌, ◌++◌, Option, some, none,
  All, Bool-cases, inl, inr, if◌then◌else◌,
}
use chaistl.Order.{IsStrictWeak}
use chaistl.Sort.Base.{IsSorted, All-mono, All-append, All-equal}
use chaistl.Tree.Node.{
  Tree, Place, root_of, elements, elements_before, elements_after, plug, before, after,
}
use chaistl.Tree.Node.Order.{elements-root_of}
use chaistl.Tree.Search.{find_search}
use chaistl.Tree.Search.Bound.{IsSorted-split, IsBound, search_from-IsBound, sorted-IsMonotone}
use chaistl.Tree.Search.Laws.{by_key, not_less, not_less_keeps}

-- Whether an element is equivalent to a key.
abbrev pub matches {ℓ κ} : {A : Type ℓ} {K : Type κ} → (A → K) → (K → K → Bool) → K → A → Bool
matches kov comp key x = not (comp (kov x) key) && not (comp key (kov x))

module _ {ℓ κ} {E : Type 0} {A : Type ℓ} {K : Type κ} (kov : A → K) (comp : K → K → Bool) where
  pub record IsAbsent (key : K) (t : Tree E A) : Type ℓ where
    pub absent : All (λ x. matches kov comp key x ≡ false) (elements t)

  pub record IsHit (key : K) (t : Tree E A) (x : Place E A) : Type ℓ where
    pub in_tree : root_of x ≡ t
    pub equivalent : matches kov comp key x.value ≡ true

  -- No element of the tree is equivalent to the key, or the node is one that is.
  abbrev pub IsFound : K → Tree E A → Option (Place E A) → Type ℓ
  IsFound key t none = IsAbsent key t
  IsFound key t (some x) = IsHit key t x

module _ {ℓ κ} {E : Type 0} {A : Type ℓ} {K : Type κ} (kov : A → K) {comp : K → K → Bool}
    (o : IsStrictWeak comp) where
  -- Around a node of a sorted tree.
  sorted_around :
      (t : Tree E A) (x : Place E A)
      → root_of x ≡ t
      → IsSorted (by_key kov comp) (elements t)
      → All (λ y. comp (kov y) (kov x.value) ≡ false) (elements_after x)
  sorted_around t x q s =
      let whole : IsSorted (by_key kov comp) (elements_before x ++ (x.value ∷ elements_after x)) =
        rw (sym (elements-root_of x), q) s in
      (IsSorted-split _ (elements_before x) (elements_after x) x.value whole).3

  find_end :
      (key : K) (t : Tree E A) (r : Option (Place E A))
      → IsSorted (by_key kov comp) (elements t)
      → IsBound (not_less kov comp key) t r
      → IsFound kov comp key t (elim r as (λ _. Option (Place E A)) [
        | none ↦ none
        | some candidate ↦ if comp key (kov candidate.value) then none else some candidate
      ])
  find_end key t none s b = record {
    absent = All-mono (elements t) (λ x h. ground (arith, h)) b.none_passes;
  }
  find_end key t (some x) s b = elim (Bool-cases (comp key (kov x.value))) [
    | inr h ↦ rw h (record { in_tree = b.in_tree; equivalent = ground (arith, h, b.passes) })
    | inl h ↦
        let place : elements t ≡ elements_before x ++ (x.value ∷ elements_after x) =
          sym (ap elements b.in_tree) ∙ elements-root_of x in
        let past =
          All-mono (elements_after x) (λ y q. key_past key (kov y) (kov x.value) h q)
            (sorted_around t x b.in_tree s) in
        rw h (record {
          absent = All-equal _ _ _ (sym place) (
              All-append _ (elements_before x) _
                (All-mono (elements_before x) (λ y q. ground (arith, q)) b.lower)
                (ground (arith, h), past));
        })
  ]
    where
      key_past :
          (key a b : K)
          → comp key b ≡ true
          → comp a b ≡ false
          → (not (comp a key) && not (comp key a)) ≡ false
      key_past key a b h q = ground (arith, h, q, o.neg_trans key a b)

  -- On a tree in order, find_search gives a node of the tree whose key is equivalent to the key asked
  -- for, or end() when no element of the tree has such a key.
  pub find_search-IsFound :
      (key : K) (t : Tree E A)
      → IsSorted (by_key kov comp) (elements t)
      → IsFound kov comp key t (find_search kov comp key t).result
  unfolding find_search plug before after
  find_search-IsFound key t s =
      let bound =
        search_from-IsBound _ t [] none none (sorted-IsMonotone _ _ t (not_less_keeps kov o key) s)
          tt tt refl in
      find_end key t _ s bound
