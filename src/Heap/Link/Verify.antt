-- ===== src/Heap/Link/Verify.antt =====
-- What the tests in the `verify` functions under include/chaistl/containers/heap/policy decide.
use chaistl.Common.{Bool, true, false, ◌≡◌, refl, arith, and_split, and_join, ◌&&◌}
use chaistl.Heap.Link.{Link, null, node, is_null, next_sibling, set_next, some_above, all_nodes}
use chaistl.Heap.Link.Order.{IsTree, HasTwo, Below}

module _ {ℓ} {E : Type 0} {A : Type ℓ} where
  pub tree_null : (h : Link E A) → IsTree h → is_null (next_sibling h) ≡ true
  unfolding is_null next_sibling
  tree_null null t = refl
  tree_null (node f null e v) t = refl
  tree_null (node f (node _ _ _ _) e v) t = cc

  pub null-IsTree : (h : Link E A) → is_null (next_sibling h) ≡ true → IsTree h
  unfolding is_null next_sibling
  null-IsTree null t = tt
  null-IsTree (node f null e v) t = refl
  null-IsTree (node f (node _ _ _ _) e v) t = cc

  pub two_null : (h : Link E A) → HasTwo h → is_null (next_sibling (next_sibling h)) ≡ true
  unfolding next_sibling is_null
  two_null null t = refl
  two_null (node f n e v) t = tree_null n t

  pub null_two : (h : Link E A) → is_null (next_sibling (next_sibling h)) ≡ true → HasTwo h
  unfolding next_sibling is_null
  null_two null t = tt
  null_two (node f n e v) t = null-IsTree n t

  pub set_next_self : (h : Link E A) → IsTree h → set_next h null ≡ h
  unfolding set_next
  set_next_self null t = refl
  set_next_self (node f n e v) t = ground arith

module _ {ℓ} {E : Type 0} {A : Type ℓ} where
  -- `P` holds at every node, which is given with its links.
  abbrev pub EveryNode {κ} : (Link E A → Type κ) → Link E A → Type κ
  EveryNode P null = Unit
  EveryNode P (node f n e v) = P (node f n e v) × EveryNode P f × EveryNode P n

  pub all_nodes_sound {κ} :
      {P : Link E A → Type κ} (test : Link E A → Bool)
      → ((x : Link E A) → test x ≡ true → P x)
      → (h : Link E A) → all_nodes test h ≡ true
      → EveryNode P h
  unfolding all_nodes
  all_nodes_sound test s null b = tt
  all_nodes_sound test s (node f n e v) b =
      let (here, below) =
        and_split (test (node f n e v)) (all_nodes test f && all_nodes test n) b in
      let (left, right) = and_split (all_nodes test f) (all_nodes test n) below in
      (s _ here, all_nodes_sound test s f left, all_nodes_sound test s n right)

  pub all_nodes_complete {κ} :
      {P : Link E A → Type κ} (test : Link E A → Bool)
      → ((x : Link E A) → P x → test x ≡ true)
      → (h : Link E A) → EveryNode P h
      → all_nodes test h ≡ true
  unfolding all_nodes
  all_nodes_complete test s null b = refl
  all_nodes_complete test s (node f n e v) b =
      and_join _ _ (s _ b.0)
        (and_join _ _ (all_nodes_complete test s f b.1) (all_nodes_complete test s n b.2))

module _ {ℓ} {E : Type 0} {A : Type ℓ} (cmp : A → A → Bool) where
  pub Below-some_above : (v : A) (h : Link E A) → Below cmp v h → some_above cmp v h ≡ false
  unfolding some_above
  Below-some_above v null b = refl
  Below-some_above v (node f n e w) b = ground (arith, Below-some_above v n)

  pub some_above-Below : (v : A) (h : Link E A) → some_above cmp v h ≡ false → Below cmp v h
  unfolding some_above
  some_above-Below v null b = tt
  some_above-Below v (node f n e w) b = ground (arith, some_above-Below v n)
