-- ===== src/Tests/ContainerTests.antt =====
-- include/chaistl/containers/tree/binary_search_tree.hpp at concrete trees, over the treap policy.
use chaistl.Common.{
  ℕ, ◌≡◌, ◌+◌, ◌<◌, ◌≤◌, Bool, true, false, arith, bit, refl, [], ◌∷◌, some, none, length, count,
}
use chaistl.Order.{ltb-IsStrictWeak}
use chaistl.Common.{ltb}
use chaistl.Sort.Base.{IsSorted}
use chaistl.Tree.Node.{
  null, node, from_left, Place, root_of, elements, elements_before, elements_after, before, after,
}
use chaistl.Tree.Search.Laws.{by_key}
use chaistl.Tree.Search.Unique.{not_after}
use chaistl.Tree.Search.Find.{matches}
use chaistl.Tree.Treap.Order.{IsTreap}
use chaistl.Tree.BinarySearchTree
use chaistl.Tree.BinarySearchTree.{Iterator}
use chaistl.Tree.BinarySearchTree.Place.{PointsAt, IsAt}
use chaistl.Tree.BinarySearchTree.Policy.{IsSearchTree, IsBalancePolicy}
use chaistl.Tree.BinarySearchTree.Policies.{
  seed, treap_tree_policy, treap_tree_policy-IsBalancePolicy, splay_tree_policy,
  splay_tree_policy-IsBalancePolicy, IsTreap-verify,
}
use chaistl.Tree.BinarySearchTree.Insert.{insert_unique, insert_hint_unique}
use chaistl.Tree.BinarySearchTree.Insert.Unique.{
  InsertsUnique, insert_unique-InsertsUnique, insert_hint_unique-InsertsUnique,
}
use chaistl.Tree.BinarySearchTree.Lookup.{count_multi}
use chaistl.Tree.BinarySearchTree.Lookup.Ranges.{count_multi-count}
use chaistl.Tree.BinarySearchTree.Erase.{erase_range, erase_key, erase_equal, extract_key}
use chaistl.Tree.BinarySearchTree.Erase.Laws.{erase_range-PointsAt}
use chaistl.Tree.BinarySearchTree.Erase.Keys.{ErasesKey, erase_key-ErasesKey, erase_equal-ErasesKey}
use chaistl.Tree.BinarySearchTree.Erase.Extract.{
  ExtractsKey, Restores, extract_key-insert_node_unique,
}
use chaistl.Tree.BinarySearchTree.Insert.{insert_node_unique}
use chaistl.Tree.BinarySearchTree.Transfer.{merge}
use chaistl.Tree.BinarySearchTree.Transfer.Unique.{Merges, merge-Merges}
use chaistl.Tree.BinarySearchTree.Copy.{destroy_tree}
use chaistl.Tree.BinarySearchTree.Copy.Laws.{post_order, destroy_tree-post_order}
use chaistl.Tree.BinarySearchTree.Validate.{validate}
use chaistl.Tree.BinarySearchTree.Validate.Laws.{order_of, validate-IsSearchTree}
use chaistl.Tree.BinarySearchTree.Rank.{find_by_order, order_of_key}
use chaistl.Tree.BinarySearchTree.Rank.Laws.{HasSizes, order_of_key-find_by_order}

-- The values 10, 20 and 30 with the priorities 5, 3 and 7.
abbrev three : BinarySearchTree.BinarySearchTree ℕ ℕ ℕ
three = record {
  root = node (node null 10 5 null) 20 3 (node null 30 7 null);
  policy = seed;
  count = 3;
}

three_valid : IsSearchTree IsTreap (not_after (λ x. x) ltb) three
unfolding elements
three_valid = record {
  sorted = ((refl, (refl, tt)), ((refl, tt), (tt, tt)));
  balanced = ((omega arith, ((tt, tt), (tt, tt))), (omega arith, ((tt, tt), (tt, tt))));
  counted = refl;
}

-- The values 10, 20, 20 and 30.
abbrev four : BinarySearchTree.BinarySearchTree ℕ ℕ ℕ
four = record {
  root = node (node null 10 5 null) 20 3 (node (node null 20 8 null) 30 7 null);
  policy = seed;
  count = 4;
}

four_valid : IsSearchTree IsTreap (by_key (λ x. x) ltb) four
unfolding elements
four_valid = record {
  sorted = ((refl, (refl, (refl, tt))), ((refl, (refl, tt)), ((refl, tt), (tt, tt))));
  balanced = (
    (omega arith, ((tt, tt), (tt, tt))),
    (omega arith, ((omega arith, ((tt, tt), (tt, tt))), (tt, tt))),
  );
  counted = refl;
}

-- The node with 10.
abbrev first : Place ℕ ℕ
first = record {
  left = null;
  value = 10;
  ext = 5;
  right = null;
  above = from_left 20 3 (node null 30 7 null) ∷ [];
}

first_in_three : root_of first ≡ three.root
unfolding root_of
first_in_three = refl

-- The runs of some operations.
insert_unique_run :
    elements (insert_unique (λ x. x) ltb treap_tree_policy 25 three).0.root ≡ 10 ∷ 20 ∷ 25 ∷ 30 ∷ []
unfolding insert_unique treap_tree_policy elements
insert_unique_run = refl

erase_equal_run : (erase_equal (λ x. x) ltb treap_tree_policy 20 four).1 ≡ 2
unfolding erase_equal treap_tree_policy
erase_equal_run = refl

insert_unique-InsertsUnique_example :
    InsertsUnique
      (λ x. x)
      ltb
      IsTreap
      25
      three
      (insert_unique (λ x. x) ltb treap_tree_policy 25 three).0
      (insert_unique (λ x. x) ltb treap_tree_policy 25 three).1
    × (bit (insert_unique (λ x. x) ltb treap_tree_policy 25 three).2 + length (elements three.root)
        ≡ length (elements (insert_unique (λ x. x) ltb treap_tree_policy 25 three).0.root))
insert_unique-InsertsUnique_example =
    insert_unique-InsertsUnique (λ x. x) ltb-IsStrictWeak treap_tree_policy-IsBalancePolicy 25 three
      three_valid

insert_hint_unique-InsertsUnique_example :
    InsertsUnique
      (λ x. x)
      ltb
      IsTreap
      25
      three
      (insert_hint_unique (λ x. x) ltb treap_tree_policy (some first) 25 three).0
      (insert_hint_unique (λ x. x) ltb treap_tree_policy (some first) 25 three).1
insert_hint_unique-InsertsUnique_example =
    insert_hint_unique-InsertsUnique (λ x. x) ltb-IsStrictWeak treap_tree_policy-IsBalancePolicy
      (some first) 25 three first_in_three three_valid

count_multi-count_example :
    count_multi (λ x. x) ltb 20 four ≡ count (matches (λ x. x) ltb 20) (elements four.root)
count_multi-count_example = count_multi-count (λ x. x) ltb-IsStrictWeak 20 four four_valid.sorted

erase_range-PointsAt_example :
    IsSearchTree IsTreap
      (not_after (λ x. x) ltb)
      (erase_range treap_tree_policy (some first) none three).0
    × (elements (erase_range treap_tree_policy (some first) none three).0.root ≡ [])
    × PointsAt
        (erase_range treap_tree_policy (some first) none three).0.root
        []
        []
        (erase_range treap_tree_policy (some first) none three).1
unfolding elements elements_before elements_after before after
erase_range-PointsAt_example =
    erase_range-PointsAt treap_tree_policy-IsBalancePolicy (not_after (λ x. x) ltb) []
      (10 ∷ 20 ∷ 30 ∷ []) [] (some first) none three three_valid refl
      (record { in_tree = first_in_three; is_before = refl; is_from = refl })
      (record { is_nil = refl })

erase_key-ErasesKey_example :
    ErasesKey
      (λ x. x)
      ltb
      IsTreap
      (not_after (λ x. x) ltb)
      20
      three
      (erase_key (λ x. x) ltb treap_tree_policy 20 three).0
      (erase_key (λ x. x) ltb treap_tree_policy 20 three).1
erase_key-ErasesKey_example =
    erase_key-ErasesKey (λ x. x) ltb-IsStrictWeak treap_tree_policy-IsBalancePolicy 20 three
      three_valid

erase_equal-ErasesKey_example :
    ErasesKey
      (λ x. x)
      ltb
      IsTreap
      (by_key (λ x. x) ltb)
      20
      four
      (erase_equal (λ x. x) ltb treap_tree_policy 20 four).0
      (erase_equal (λ x. x) ltb treap_tree_policy 20 four).1
erase_equal-ErasesKey_example =
    erase_equal-ErasesKey (λ x. x) ltb-IsStrictWeak treap_tree_policy-IsBalancePolicy 20 four
      four_valid

extract_key-insert_node_unique_example :
    let (u, nh) = extract_key (λ x. x) ltb treap_tree_policy 20 three in
    ExtractsKey (λ x. x) ltb IsTreap 20 three u nh
    × Restores (λ x. x) ltb IsTreap three (insert_node_unique (λ x. x) ltb treap_tree_policy nh u)
extract_key-insert_node_unique_example =
    extract_key-insert_node_unique (λ x. x) ltb-IsStrictWeak treap_tree_policy-IsBalancePolicy 20
      three three_valid

merge-Merges_example :
    Merges
      (λ x. x)
      ltb
      IsTreap
      (by_key (λ x. x) ltb)
      []
      (elements four.root)
      three
      (merge (λ x. x) ltb treap_tree_policy three four).0
      (merge (λ x. x) ltb treap_tree_policy three four).1
merge-Merges_example =
    merge-Merges (λ x. x) ltb-IsStrictWeak treap_tree_policy-IsBalancePolicy (by_key (λ x. x) ltb)
      three four three_valid four_valid

destroy_tree-post_order_example :
    (destroy_tree four.root ≡ some (post_order four.root))
    × ((p : ℕ → Bool) → count p (post_order four.root) ≡ count p (elements four.root))
destroy_tree-post_order_example = destroy_tree-post_order four.root

validate-IsSearchTree_example :
    (IsSearchTree IsTreap (order_of (λ x. x) ltb false) three
      → validate (λ x. x) ltb treap_tree_policy false three ≡ true)
    × (validate (λ x. x) ltb treap_tree_policy false three ≡ true
        → IsSorted (order_of (λ x. x) ltb false) (elements three.root)
          × (three.count ≡ length (elements three.root)))
validate-IsSearchTree_example =
    validate-IsSearchTree (λ x. x) ltb-IsStrictWeak treap_tree_policy IsTreap-verify false three

-- The values 10 and 20, with the sizes of the subtrees as extensions.
abbrev sized : BinarySearchTree.BinarySearchTree Unit ℕ ℕ
sized = record { root = node (node null 10 1 null) 20 2 null; policy = tt; count = 2 }

sized_sorted : IsSorted (not_after (λ x. x) ltb) (elements sized.root)
unfolding elements
sized_sorted = ((refl, tt), (tt, tt))

sized_right : HasSizes (λ x. x) sized.root
unfolding elements
sized_right = (refl, (refl, tt, tt), tt)

order_of_key-find_by_order_example :
    (1 < length (elements sized.root)
      → (x : Place ℕ ℕ) × (find_by_order (λ x. x) 1 sized ≡ some x)
        × IsAt sized.root 1 x
        × (order_of_key (λ x. x) ltb (λ x. x) x.value sized ≡ 1))
    × (length (elements sized.root) ≤ 1 → find_by_order (λ x. x) 1 sized ≡ none)
order_of_key-find_by_order_example =
    order_of_key-find_by_order (λ x. x) ltb-IsStrictWeak (λ x. x) 1 sized sized_sorted sized_right

splay_tree_policy-IsBalancePolicy_example : IsBalancePolicy {A = ℕ} splay_tree_policy (λ t. Unit)
splay_tree_policy-IsBalancePolicy_example = splay_tree_policy-IsBalancePolicy
