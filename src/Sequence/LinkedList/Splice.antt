-- ===== src/Sequence/LinkedList/Splice.antt =====
-- The three kinds of `splice` of include/chaistl/containers/sequence/list.hpp.
use chaistl.Common.{
  true, false, append_nil, ◌<◌, ◌==◌, ◌≡◌, refl, sym, ap, ◌∙◌, arith, ℕ, ◌+◌, ◌-◌, ◌≤◌, List, [],
  ◌∷◌, ◌++◌, length, length-append, append_assoc, Bool-cases, inl, inr,
}
use chaistl.Sort.Base.{first_part, last_part, parts-append, length-first_part}
use chaistl.Sequence.LinkedList.{
  LinkedList, link_nodes, unlink_nodes, position_without, splice, splice_one, splice_range,
  splice_range_within, empty,
}
use chaistl.Sequence.LinkedList.Merge.{IsCounted}

module _ {ℓ} {A : Type ℓ} where
  -- A list with these nodes and this size.
  abbrev pub list_of : List A → ℕ → LinkedList A
  list_of xs n = record { nodes = xs; size = n }

  first_part-append : (a b : List A) → first_part (length a) (a ++ b) ≡ a
  unfolding first_part
  first_part-append [] [] = refl
  first_part-append [] (y ∷ b) = refl
  first_part-append (x ∷ a) b = ap (λ t. x ∷ t) (first_part-append a b)

  last_part-append : (a b : List A) → last_part (length a) (a ++ b) ≡ b
  unfolding last_part
  last_part-append [] [] = refl
  last_part-append [] (y ∷ b) = refl
  last_part-append (x ∷ a) b = last_part-append a b

  -- Linking a run behind the first nodes.
  pub link_nodes-append : (a run b : List A) → link_nodes (length a) run (a ++ b) ≡ a ++ (run ++ b)
  unfolding link_nodes
  link_nodes-append a run b = rw (first_part-append a b, last_part-append a b) refl

  -- Unlinking a run behind the first nodes.
  pub unlink_nodes-append :
      (a run b : List A)
      → unlink_nodes (length a) (length a + length run) (a ++ (run ++ b)) ≡ (run, a ++ b)
  unfolding unlink_nodes
  unlink_nodes-append a run b =
      let between : length a + length run - length a ≡ length run = omega arith in
      let far : last_part (length a + length run) (a ++ (run ++ b)) ≡ b =
        ap (λ n. last_part n (a ++ (run ++ b))) (sym (length-append a run))
        ∙ ap (last_part (length (a ++ run))) (sym (append_assoc a run b))
        ∙ last_part-append (a ++ run) b in
      rw
        (
          between,
          far,
          first_part-append a (run ++ b),
          last_part-append a (run ++ b),
          first_part-append run b,
        )
        refl

  same_list : (xs ys : List A) (n m : ℕ) → xs ≡ ys → n ≡ m → list_of xs n ≡ list_of ys m
  same_list xs ys n m p q = λ i. record { nodes = p i; size = q i }

  nil_of : (xs : List A) (n : ℕ) → (n == n + length xs) ≡ true → xs ≡ []
  nil_of [] n h = refl
  nil_of (x ∷ xs) n h = absurd (ground (arith, h))

  -- splice of a run of another list, at a position of this one: the run stands at the position, and is
  -- gone from the other list.
  pub splice_range-append :
      (a b u run v : List A) (n m : ℕ)
      → splice_range
          (length a)
          (length u)
          (length u + length run)
          (list_of (a ++ b) n)
          (list_of (u ++ (run ++ v)) m)
        ≡ (list_of (a ++ (run ++ b)) (n + length run), list_of (u ++ v) (m - length run))
  unfolding splice_range
  splice_range-append a b u run v n m = elim (Bool-cases (length u == length u + length run)) [
    | inl e ↦
        let nothing = nil_of run (length u) e in
        rw e (λ i. (
          same_list (a ++ b) (a ++ (run ++ b)) n (n + length run)
              (ap (λ t. a ++ (t ++ b)) (sym nothing)) (omega (arith, ap length nothing)) i,
          same_list (u ++ (run ++ v)) (u ++ v) m (m - length run) (ap (λ t. u ++ (t ++ v)) nothing)
              (omega (arith, ap length nothing)) i,
        ))
    | inr e ↦ rw e (
        (λ i.
          let (taken, left) = unlink_nodes-append u run v i in
          (
            list_of (link_nodes (length a) taken (a ++ b)) (n + length taken),
            list_of left (m - length taken),
          ))
        ∙ (λ i. (
          list_of (link_nodes-append a run b i) (n + length run),
          list_of (u ++ v) (m - length run),
        )))
  ]

  -- For a run in another list of a size that is not less: splice of the run to a position of this list puts
  -- it there, in its order, takes it out of the other list, and moves its length from the size of the
  -- other list to that of this one; splicing it back from there restores both lists and both sizes.
  pub splice_range-splice_range :
      (a b u run v : List A) (n m : ℕ)
      → length run ≤ m
      → let (this, other) =
          splice_range
            (length a)
            (length u)
            (length u + length run)
            (list_of (a ++ b) n)
            (list_of (u ++ (run ++ v)) m) in
        (this ≡ list_of (a ++ (run ++ b)) (n + length run))
        × (other ≡ list_of (u ++ v) (m - length run))
        × (splice_range (length u) (length a) (length a + length run) other this
            ≡ (list_of (u ++ (run ++ v)) m, list_of (a ++ b) n))
  splice_range-splice_range a b u run v n m h = rw (splice_range-append a b u run v n m) (
    refl,
    refl,
    splice_range-append u v a run b (m - length run) (n + length run) ∙ (λ i. (
      same_list (u ++ (run ++ v)) (u ++ (run ++ v)) (m - length run + length run) m refl
          (omega (arith, h)) i,
      same_list (a ++ b) (a ++ b) (n + length run - length run) n refl (omega arith) i,
    )),
  )

  length-run : (it : ℕ) (xs : List A) → it < length xs → length (unlink_nodes it (it + 1) xs).0 ≡ 1
  unfolding unlink_nodes
  length-run it xs h =
      let one : it + 1 - it ≡ 1 = omega arith in
      let rest = ap length (parts-append it xs) in
      let before = length-first_part it xs (omega (arith, h)) in
      let sum = length-append (first_part it xs) (last_part it xs) in
      rw one (length-first_part 1 (last_part it xs) (omega (arith, h, rest, before, sum)))

  unlink_nodes-all : (xs : List A) → unlink_nodes 0 (length xs) xs ≡ (xs, [])
  unlink_nodes-all xs =
      (λ i. unlink_nodes 0 (zero_plus (length xs) i) (sym (append_nil xs) i))
      ∙ unlink_nodes-append [] xs []
    where
      zero_plus : (n : ℕ) → n ≡ 0 + n
      zero_plus n = omega arith

  -- For another list whose size is right and a node of it, the three kinds of splice agree: that of the
  -- whole list is the one of the range of all its nodes, and that of the node is the one of the range of
  -- the node alone.
  pub splice-splice_range :
      (position it : ℕ) (this other : LinkedList A)
      → IsCounted other
      → it < length other.nodes
      → (splice position this other ≡ splice_range position 0 (length other.nodes) this other)
        × (splice_one position it this other ≡ splice_range position it (it + 1) this other)
  unfolding splice splice_one splice_range empty
  splice-splice_range position it this other inv h =
      let some_node : (other.size == 0) ≡ false = ground (arith, h, inv.counted) in
      let some_range : (0 == length other.nodes) ≡ false = ground (arith, h) in
      let one_range : (it == it + 1) ≡ false = ground arith in
      (
        rw (some_node, some_range)
            (sym (
              (λ i.
                let (run, left) = unlink_nodes-all other.nodes i in
                (
                  list_of (link_nodes position run this.nodes) (this.size + length run),
                  list_of left (other.size - length run),
                ))
              ∙ (λ i. (
                list_of (link_nodes position other.nodes this.nodes)
                    (this.size + sym inv.counted i),
                same_list [] [] (other.size - length other.nodes) 0 refl
                    (omega (arith, inv.counted)) i,
              )))),
        rw one_range (λ i.
            let (run, left) = unlink_nodes it (it + 1) other.nodes in
            let n = sym (length-run it other.nodes h) i in
            (
              list_of (link_nodes position run this.nodes) (this.size + n),
              list_of left (other.size - n),
            )),
      )

  splice_within :
      (position first last to : ℕ) (xs run left target : List A) (n : ℕ)
      → unlink_nodes first last xs ≡ (run, left)
      → position_without first last position ≡ to
      → link_nodes to run left ≡ target
      → ((first == last) ≡ true → xs ≡ target)
      → splice_range_within position first last (list_of xs n) ≡ list_of target n
  unfolding splice_range_within
  splice_within position first last to xs run left target n p q r h =
      elim (Bool-cases (first == last)) [
        | inl e ↦ rw e (ap (λ t. list_of t n) (h e))
        | inr e ↦
            rw e ((λ i. list_of (link_nodes (q i) (p i).0 (p i).1) n) ∙ ap (λ t. list_of t n) r)
      ]

  -- splice of a run within one list: to a position behind the run, and to one before it.
  pub splice_range_within-append :
      (a run b c : List A) (n : ℕ)
      → (splice_range_within
            (length a + length run + length b)
            (length a)
            (length a + length run)
            (list_of (a ++ (run ++ (b ++ c))) n)
          ≡ list_of (a ++ (b ++ (run ++ c))) n)
        × (splice_range_within
              (length a)
              (length a + length b)
              (length a + length b + length run)
              (list_of (a ++ (b ++ (run ++ c))) n)
            ≡ list_of (a ++ (run ++ (b ++ c))) n)
  splice_range_within-append a run b c n =
      let joined = length-append a b in
      (
        splice_within (length a + length run + length b) (length a) (length a + length run)
            (length (a ++ b)) _ run (a ++ (b ++ c)) _ n (unlink_nodes-append a run (b ++ c))
            (ground (arith, joined))
            (ap (link_nodes (length (a ++ b)) run) (sym (append_assoc a b c))
              ∙ link_nodes-append (a ++ b) run c
              ∙ append_assoc a b (run ++ c))
            (λ e.
              ap (λ t. a ++ (t ++ (b ++ c))) (nil_of run (length a) e)
              ∙ ap (λ t. a ++ (b ++ (t ++ c))) (sym (nil_of run (length a) e))),
        splice_within (length a) (length a + length b) (length a + length b + length run) (length a)
            _ run ((a ++ b) ++ c) _ n
            ((λ i.
                unlink_nodes (sym joined i) (sym joined i + length run)
                  (sym (append_assoc a b (run ++ c)) i))
              ∙ unlink_nodes-append (a ++ b) run c)
            (ground arith)
            (ap (link_nodes (length a) run) (append_assoc a b c) ∙ link_nodes-append a run (b ++ c))
            (λ e.
              ap (λ t. a ++ (b ++ (t ++ c))) (nil_of run (length a + length b) e)
              ∙ ap (λ t. a ++ (t ++ (b ++ c))) (sym (nil_of run (length a + length b) e))),
      )
