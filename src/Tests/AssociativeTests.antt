-- ===== src/Tests/AssociativeTests.antt =====
-- include/chaistl/containers/associative/flat_set.hpp at concrete sets.
use chaistl.Common.{ℕ, ◌≡◌, refl, List, [], ◌∷◌, some, ltb}
use chaistl.Order.{ltb-IsStrictWeak}
use chaistl.Sort.Merge.{merge_sort}
use chaistl.Tree.BinarySearchTree.Insert.Reference.{set_insert_all}
use chaistl.Associative.FlatSet.{insert, insert_range, insert_sorted, erase_key}
use chaistl.Associative.FlatSet.Insert.{Inserts, insert-Inserts}
use chaistl.Associative.FlatSet.Bounds.{IsStrict}
use chaistl.Associative.FlatSet.Bulk.{insert_sorted-set_insert_all}

abbrev three : List ℕ
three = 2 ∷ 5 ∷ 9 ∷ []

abbrev range : List ℕ
range = 7 ∷ 1 ∷ 7 ∷ 5 ∷ []

three-IsStrict : IsStrict ltb three
three-IsStrict = ((refl, (refl, tt)), ((refl, tt), (tt, tt)))

takes_range : insert_range ltb (merge_sort ltb) range three ≡ some (1 ∷ 2 ∷ 5 ∷ 7 ∷ 9 ∷ [])
unfolding insert_range merge_sort
takes_range = refl

loses_five : erase_key ltb 5 three ≡ (2 ∷ 9 ∷ [], 1)
unfolding erase_key
loses_five = refl

insert-Inserts_example :
    Inserts ltb 6 three (insert ltb 6 three) × IsStrict ltb (insert ltb 6 three).0
insert-Inserts_example = insert-Inserts ltb-IsStrictWeak 6 three three-IsStrict

insert_sorted-set_insert_all_example :
    (insert_sorted ltb (merge_sort ltb) (1 ∷ 5 ∷ 6 ∷ []) three
      ≡ some (set_insert_all (λ y. y) ltb (1 ∷ 5 ∷ 6 ∷ []) three))
    × IsStrict ltb (set_insert_all (λ y. y) ltb (1 ∷ 5 ∷ 6 ∷ []) three)
insert_sorted-set_insert_all_example =
    insert_sorted-set_insert_all ltb-IsStrictWeak (merge_sort ltb) three (1 ∷ 5 ∷ 6 ∷ [])
      three-IsStrict ((refl, (refl, tt)), ((refl, tt), (tt, tt)))
