-- ===== src/Tree/Hint.antt =====
-- The hinted insert positions of include/chaistl/containers/tree/algorithm.hpp.
--
-- A hint is a node, or `none` for the header. `hint == header.left` and `hint == header.right` say
-- that no node precedes the hint, or follows it.
pub mod Slots
pub mod Laws
pub mod Equal
use chaistl.Common.{Bool, true, false, not, List, [], ◌∷◌, Option, some, none, if◌then◌else◌}
use chaistl.Tree.Node.{
  Tree, null, node, Frame, from_left, from_right, Place, node_predecessor, node_successor,
  node_maximum,
}
use chaistl.Tree.Search.{
  InsertPosition, existing, attach, get_insert_unique_pos, get_insert_equal_pos,
}

module _ {ℓ} {E : Type 0} {A : Type ℓ} where
  -- The slots `{nullptr, x, true}` and `{nullptr, x, false}`.
  unfoldable pub left_slot : Place E A → List (Frame E A)
  left_slot x = from_left x.value x.ext x.right ∷ x.above

  unfoldable pub right_slot : Place E A → List (Frame E A)
  right_slot x = from_right x.left x.value x.ext ∷ x.above

  -- `before->right == nullptr ? {nullptr, before, false} : {nullptr, hint, true}`
  unfoldable pub slot_between : Place E A → Place E A → InsertPosition E A
  unfolding left_slot right_slot
  slot_between before hint = elim before.right [
    | null ↦ attach (right_slot before)
    | node l v e r ↦ attach (left_slot hint)
  ]

module _ {ℓ κ} {E : Type 0} {A : Type ℓ} {K : Type κ} (kov : A → K) (comp : K → K → Bool) where
  -- `get_insert_hint_unique_pos(root, header, hint, key, kov, comp)`
  unfoldable pub get_insert_hint_unique_pos : K → Tree E A → Option (Place E A) → InsertPosition E A
  unfolding get_insert_unique_pos node_maximum slot_between
  get_insert_hint_unique_pos key root none =
      let search = get_insert_unique_pos kov comp key root in
      elim root [
        | null ↦ search
        | node l v e r ↦
            let last = node_maximum l v e r [] in
            if comp (kov last.value) key then attach (right_slot last) else search
      ]
  get_insert_hint_unique_pos key root (some hint) =
      let search = get_insert_unique_pos kov comp key root in
      let at_left : InsertPosition E A = elim (node_predecessor hint) [
        | none ↦ attach (left_slot hint)
        | some b ↦ if comp (kov b.value) key then slot_between b hint else search
      ] in
      let at_right : InsertPosition E A = elim (node_successor hint) [
        | none ↦ attach (right_slot hint)
        | some a ↦ if comp key (kov a.value) then slot_between hint a else search
      ] in
      if comp key (kov hint.value)
      then at_left
      else (if comp (kov hint.value) key then at_right else existing hint)

  -- `get_insert_hint_equal_pos(root, header, hint, key, kov, comp)`
  unfoldable pub get_insert_hint_equal_pos : K → Tree E A → Option (Place E A) → InsertPosition E A
  unfolding get_insert_equal_pos node_maximum slot_between
  get_insert_hint_equal_pos key root none =
      let search = get_insert_equal_pos kov comp key root in
      elim root [
        | null ↦ search
        | node l v e r ↦
            let last = node_maximum l v e r [] in
            if not (comp key (kov last.value)) then attach (right_slot last) else search
      ]
  get_insert_hint_equal_pos key root (some hint) =
      let search = get_insert_equal_pos kov comp key root in
      let at_left : InsertPosition E A = elim (node_predecessor hint) [
        | none ↦ attach (left_slot hint)
        | some b ↦ if not (comp key (kov b.value)) then slot_between b hint else search
      ] in
      let at_right : InsertPosition E A = elim (node_successor hint) [
        | none ↦ attach (right_slot hint)
        | some a ↦ if not (comp (kov a.value) key) then slot_between hint a else search
      ] in
      if not (comp (kov hint.value) key) then at_left else at_right
