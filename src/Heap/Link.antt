-- ===== src/Heap/Link.antt =====
-- include/chaistl/containers/heap/node.hpp: the left-child / next-sibling forest.
--
-- A `heap_node*` is a `Link`: null, or a node with its first child, its next sibling, its policy's
-- extension and its value. `prev_or_parent` mirrors the two forward edges (`links_consistent`), so
-- it is not stored: the place of a node in the forest is the path that leads to it.
pub mod Order
pub mod Verify
use chaistl.Common.{ℕ, suc, ◌+◌, Bool, true, false, List, [], ◌∷◌, ◌++◌, bit, ◌||◌, ◌&&◌}

pub data Link {ℓ} (E : Type 0) (A : Type ℓ) : Type ℓ where
  null : Link E A
  node : Link E A → Link E A → E → A → Link E A

-- A handle (`heap_point_iterator`) is the place of its node: the edges that lead to it.
pub data Edge : Type 0 where
  down : Edge
  across : Edge

module _ {ℓ} {E : Type 0} {A : Type ℓ} where
  -- `x->first_child`, `x->next_sibling` and the assignment `x->next_sibling = y`, each under the
  -- test `x != nullptr` that the source makes.
  unfoldable pub first_child : Link E A → Link E A
  first_child null = null
  first_child (node f n e v) = f

  unfoldable pub next_sibling : Link E A → Link E A
  next_sibling null = null
  next_sibling (node f n e v) = n

  unfoldable pub set_next : Link E A → Link E A → Link E A
  set_next null y = null
  set_next (node f n e v) y = node f y e v

  -- `x == nullptr`
  unfoldable pub is_null : Link E A → Bool
  is_null null = true
  is_null (node f n e v) = false

  -- `link_first_child(child, parent)`
  unfoldable pub link_first_child : Link E A → Link E A → Link E A
  unfolding set_next
  link_first_child child null = null
  link_first_child child (node f n e v) = node (set_next child f) n e v

  -- `link_root_front(node, root)`
  unfoldable pub link_root_front : Link E A → Link E A → Link E A
  unfolding set_next
  link_root_front x root = set_next x root

  -- `for_each_node` visits the forest in preorder: this is the sequence of visited values.
  unfoldable pub elements : Link E A → List A
  elements null = []
  elements (node f n e v) = v ∷ (elements f ++ elements n)

  -- `for_each_node` with the visitor of the `verify` functions, which clears `ok` where a node
  -- fails the test.
  unfoldable pub all_nodes : (Link E A → Bool) → Link E A → Bool
  all_nodes test null = true
  all_nodes test (node f n e v) = test (node f n e v) && (all_nodes test f && all_nodes test n)

  -- `count_nodes`
  unfoldable pub count_nodes : Link E A → ℕ
  count_nodes null = 0
  count_nodes (node f n e v) = suc (count_nodes f + count_nodes n)

  -- How many nodes of the forest hold a value that passes the test.
  abbrev pub holds : (A → Bool) → Link E A → ℕ
  holds p null = 0
  holds p (node f n e v) = bit (p v) + holds p f + holds p n

-- The loop over a child list in every policy's `verify`: some member is above `v`.
unfoldable pub some_above {ℓ} : {E : Type 0} {A : Type ℓ} → (A → A → Bool) → A → Link E A → Bool
some_above cmp v null = false
some_above cmp v (node f n e w) = cmp v w || some_above cmp v n
