-- ===== src/Sequence/LinkedList/Merge.antt =====
-- `merge` of include/chaistl/containers/sequence/list.hpp.
use chaistl.Common.{
  Bool, true, false, ◌==◌, ◌≡◌, refl, sym, ap, ◌∙◌, arith, ℕ, zero, suc, ◌+◌, ◌-◌, ◌<◌, List, [],
  ◌∷◌, ◌++◌, length, append_nil, Bool-cases, inl, inr,
}
use chaistl.Sort.Base.{first_part, last_part, rev_onto}
use chaistl.Sort.Merge as StableMerge
use chaistl.Sequence.LinkedList.{
  LinkedList, new, empty, link_nodes, splice, run_before, merge_from, merge,
}

module _ {ℓ} {A : Type ℓ} where
  -- `size_` is the number of nodes.
  pub record IsCounted (t : LinkedList A) : Type ℓ where
    pub counted : t.size ≡ length t.nodes

  pub length-rev_onto :
      (before after : List A) → length (rev_onto before after) ≡ length before + length after
  unfolding rev_onto
  length-rev_onto [] after = omega arith
  length-rev_onto (x ∷ before) after = omega (arith, length-rev_onto before (x ∷ after))

  pub rev_onto_append :
      (before xs ys : List A) → rev_onto before (xs ++ ys) ≡ rev_onto before xs ++ ys
  unfolding rev_onto
  rev_onto_append [] xs ys = refl
  rev_onto_append (x ∷ before) xs ys = rev_onto_append before (x ∷ xs) ys

  pub rev_onto_twice :
      (run before after : List A)
      → rev_onto (rev_onto run before) after ≡ rev_onto before (run ++ after)
  unfolding rev_onto
  rev_onto_twice [] before after = refl
  rev_onto_twice (x ∷ run) before after = rev_onto_twice run (x ∷ before) after

  -- Linking at the end.
  link_nodes_end : (xs run : List A) → link_nodes (length xs) run xs ≡ xs ++ run
  unfolding link_nodes first_part last_part
  link_nodes_end [] run = append_nil run
  link_nodes_end (x ∷ xs) run = ap (λ t. x ∷ t) (link_nodes_end xs run)

  -- splice(end(), other) puts all nodes of the other list behind, and leaves it empty.
  pub splice_end :
      (position : ℕ) (this other : LinkedList A)
      → position ≡ length this.nodes
      → IsCounted other
      → ((splice position this other).0.nodes ≡ this.nodes ++ other.nodes)
        × ((splice position this other).0.size ≡ this.size + other.size)
        × ((splice position this other).1 ≡ new)
  unfolding splice empty
  splice_end position this other q inv = elim (Bool-cases (other.size == 0)) [
    | inl e ↦
        let none_left = nil_of other.nodes (ground (arith, e, inv.counted)) in
        let nothing : other.size ≡ 0 = ground (arith, e) in
        rw e (
          sym (append_nil this.nodes) ∙ ap (λ t. this.nodes ++ t) (sym none_left),
          omega (arith, nothing),
          emptied other none_left nothing,
        )
    | inr e ↦ rw e (
      ap (λ n. link_nodes n other.nodes this.nodes) q ∙ link_nodes_end this.nodes other.nodes,
      refl,
      refl,
    )
  ]
    where
      nil_of : (xs : List A) → length xs ≡ 0 → xs ≡ []
      nil_of [] h = refl
      nil_of (x ∷ xs) h = absurd (omega (arith, h))

      emptied : (t : LinkedList A) → t.nodes ≡ [] → t.size ≡ 0 → t ≡ new
      emptied t p r = λ i. record { nodes = p i; size = r i }

module _ {ℓ} {A : Type ℓ} (comp : A → A → Bool) where
  length-run_before :
      (x : A) (ys : List A)
      → length (run_before comp x ys).0 + length (run_before comp x ys).1 ≡ length ys
  unfolding run_before
  length-run_before x [] = refl
  length-run_before x (y ∷ ys) = elim (Bool-cases (comp y x)) [
    | inl e ↦ rw e (omega (arith, length-run_before x ys))
    | inr e ↦ rw e (omega arith)
  ]

  merge_right :
      (x y : A) (xs ys : List A)
      → comp y x ≡ true
      → StableMerge.merge comp (x ∷ xs) (y ∷ ys) ≡ y ∷ StableMerge.merge comp (x ∷ xs) ys
  unfolding StableMerge.merge
  merge_right x y xs ys e = rw e refl

  merge_left :
      (x y : A) (xs ys : List A)
      → comp y x ≡ false
      → StableMerge.merge comp (x ∷ xs) (y ∷ ys) ≡ x ∷ StableMerge.merge comp xs (y ∷ ys)
  unfolding StableMerge.merge
  merge_left x y xs ys e = rw e refl

  merge_nil : (xs : List A) → StableMerge.merge comp xs [] ≡ xs
  unfolding StableMerge.merge
  merge_nil [] = refl
  merge_nil (x ∷ xs) = refl

  nil_merge : (ys : List A) → StableMerge.merge comp [] ys ≡ ys
  unfolding StableMerge.merge
  nil_merge ys = refl

  -- A whole run is what the stable merge takes one by one.
  merge-run_before :
      (x : A) (xs ys : List A)
      → StableMerge.merge comp (x ∷ xs) ys
        ≡ (run_before comp x ys).0 ++ StableMerge.merge comp (x ∷ xs) (run_before comp x ys).1
  unfolding run_before
  merge-run_before x xs [] = refl
  merge-run_before x xs (y ∷ ys) = elim (Bool-cases (comp y x)) [
    | inl e ↦ rw e (merge_right x y xs ys e ∙ ap (λ t. y ∷ t) (merge-run_before x xs ys))
    | inr e ↦ rw e refl
  ]

  merge_from-merge :
      (k : ℕ) (before xs : List A) (n : ℕ) (ys : List A) (m : ℕ)
      → length xs + length ys < k
      → n ≡ length before + length xs
      → m ≡ length ys
      → ((merge_from comp k before xs n ys m).0.nodes
          ≡ rev_onto before (StableMerge.merge comp xs ys))
        × ((merge_from comp k before xs n ys m).0.size ≡ n + m)
        × ((merge_from comp k before xs n ys m).1 ≡ new)
  unfolding merge_from
  merge_from-merge zero before xs n ys m h p q = absurd (omega (arith, h))
  merge_from-merge (suc k) before [] n ys m h p q =
      let r =
        splice_end (length before) (record { nodes = rev_onto before []; size = n })
          (record { nodes = ys; size = m }) (omega (arith, length-rev_onto before []))
          (record { counted = q }) in
      (
        r.0 ∙ sym (rev_onto_append before [] ys) ∙ ap (rev_onto before) (sym (nil_merge ys)),
        r.1,
        r.2,
      )
  merge_from-merge (suc k) before (x ∷ xs) n [] m h p q =
      let r =
        splice_end (length before + length (x ∷ xs))
          (record { nodes = rev_onto before (x ∷ xs); size = n }) (record { nodes = []; size = m })
          (omega (arith, length-rev_onto before (x ∷ xs))) (record { counted = q }) in
      (
        r.0
            ∙ append_nil (rev_onto before (x ∷ xs))
            ∙ ap (rev_onto before) (sym (merge_nil (x ∷ xs))),
        r.1,
        r.2,
      )
  merge_from-merge (suc k) before (x ∷ xs) n (y ∷ ys) m h p q = elim (Bool-cases (comp y x)) [
    | inl e ↦
        let run = (run_before comp x ys).0 in
        let left = (run_before comp x ys).1 in
        let taken = suc (length run) in
        let parts = length-run_before x ys in
        let r =
          merge_from-merge k (rev_onto (y ∷ run) before) (x ∷ xs) (n + taken) left (m - taken)
            (omega (arith, h, parts)) (omega (arith, p, length-rev_onto (y ∷ run) before))
            (omega (arith, q, parts)) in
        rw e (
          r.0
              ∙ rev_onto_twice (y ∷ run) before (StableMerge.merge comp (x ∷ xs) left)
              ∙ ap (λ t. rev_onto before (y ∷ t)) (sym (merge-run_before x xs ys))
              ∙ ap (rev_onto before) (sym (merge_right x y xs ys e)),
          r.1 ∙ omega (arith, q, parts),
          r.2,
        )
    | inr e ↦
        let r =
          merge_from-merge k (x ∷ before) xs n (y ∷ ys) m (omega (arith, h)) (omega (arith, p)) q in
        rw e (r.0 ∙ ap (rev_onto before) (sym (merge_left x y xs ys e)), r.1, r.2)
  ]

  -- For two lists whose sizes are right, merge comes to an end and leaves in the first one the stable
  -- merge of both, as the merge of the array sorts gives it, with the sum of the sizes; it leaves the
  -- second one empty.
  pub merge-stable_merge :
      (this other : LinkedList A)
      → IsCounted this
      → IsCounted other
      → ((merge comp this other).0.nodes ≡ StableMerge.merge comp this.nodes other.nodes)
        × ((merge comp this other).0.size ≡ this.size + other.size)
        × ((merge comp this other).1 ≡ new)
  unfolding merge rev_onto
  merge-stable_merge this other inv other_inv =
      merge_from-merge (suc (length this.nodes + length other.nodes)) [] this.nodes this.size
        other.nodes other.size (omega arith) (omega (arith, inv.counted)) other_inv.counted
