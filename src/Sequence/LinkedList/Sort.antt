-- ===== src/Sequence/LinkedList/Sort.antt =====
-- `sort` of include/chaistl/containers/sequence/list.hpp.
use chaistl.Common.{
  Bool, ◌==◌, ◌≡◌, refl, sym, ap, ◌∙◌, arith, ltb, List, [], ◌∷◌, ◌++◌, length, count, count-append,
  append_nil, append_assoc, All, Bool-cases, inl, inr,
}
use chaistl.Order.{IsStrictWeak}
use chaistl.Sort.Base.{filter, filter-append, sort_equivalent, IsSorted, Sorts, IsStable}
use chaistl.Sort.Merge as StableMerge
use chaistl.Sort.Merge.Laws.{
  count-merge, length-merge, short-IsSorted, merge-IsSorted, filter-merge,
}
use chaistl.Sequence.LinkedList.{
  LinkedList, new, empty, merge, carry_into, fill_counters, collect, take_last, sort,
}
use chaistl.Sequence.LinkedList.Merge.{IsCounted, merge-stable_merge}

module _ {ℓ} {A : Type ℓ} where
  -- The nodes of the counters, in the order they had: a later counter has earlier nodes.
  abbrev held : List (LinkedList A) → List A
  held [] = []
  held (c ∷ cs) = held cs ++ c.nodes

module _ {ℓ} {A : Type ℓ} (comp : A → A → Bool) where
  record IsCounter (t : LinkedList A) : Type ℓ where
    size : t.size ≡ length t.nodes
    sorted : IsSorted comp t.nodes

  -- The counters hold the nodes of a list, each counter sorted.
  record Holds (xs : List A) (cs : List (LinkedList A)) : Type ℓ where
    counters : All IsCounter cs
    content : (p : A → Bool) → count p (held cs) ≡ count p xs
    stable : IsStable comp xs (held cs)

  -- The list holds the nodes of another one, sorted.
  record Collects (xs : List A) (t : LinkedList A) : Type ℓ where
    counter : IsCounter t
    content : (p : A → Bool) → count p t.nodes ≡ count p xs
    stable : IsStable comp xs t.nodes

module _ {ℓ} {A : Type ℓ} {comp : A → A → Bool} (o : IsStrictWeak comp) where
  merge-IsCounter :
      (c d : LinkedList A)
      → IsCounter comp c
      → IsCounter comp d
      → IsCounter comp (merge comp c d).0
        × ((merge comp c d).0.nodes ≡ StableMerge.merge comp c.nodes d.nodes)
        × ((merge comp c d).1 ≡ new)
  merge-IsCounter c d k l =
      let r =
        merge-stable_merge comp c d (record { counted = k.size }) (record { counted = l.size }) in
      (
        record {
          size =
              r.1
              ∙ omega (arith, k.size, l.size, length-merge comp c.nodes d.nodes)
              ∙ ap length (sym r.0);
          sorted = rw r.0 (merge-IsSorted o c.nodes d.nodes k.sorted l.sorted);
        },
        r.0,
        r.2,
      )

  -- Behind other nodes, a merge counts as its two lists one after the other.
  filter_behind :
      (a : A) (xs left right : List A)
      → IsSorted comp left
      → filter (sort_equivalent comp a) (xs ++ StableMerge.merge comp left right)
        ≡ filter (sort_equivalent comp a) ((xs ++ left) ++ right)
  filter_behind a xs left right s =
      let p = sort_equivalent comp a in
      filter-append p xs (StableMerge.merge comp left right)
      ∙ ap (λ t. filter p xs ++ t) (filter-merge o a left right s)
      ∙ sym (filter-append p xs (left ++ right))
      ∙ ap (filter p) (sym (append_assoc xs left right))

  count_behind :
      (p : A → Bool) (xs left right : List A)
      → count p (xs ++ StableMerge.merge comp left right) ≡ count p ((xs ++ left) ++ right)
  count_behind p xs left right = omega (
    arith,
    count-append p xs (StableMerge.merge comp left right),
    count-merge comp p left right,
    count-append p (xs ++ left) right,
    count-append p xs left,
  )

  carry_into-Holds :
      (carry : LinkedList A) (cs : List (LinkedList A))
      → All (IsCounter comp) cs
      → IsCounter comp carry
      → Holds comp (held cs ++ carry.nodes) (carry_into comp carry cs)
  unfolding carry_into empty
  carry_into-Holds carry [] all k = record {
    counters = (k, tt);
    content = λ p. refl;
    stable = λ a. refl;
  }
  carry_into-Holds carry (c ∷ cs) all k = elim (Bool-cases (c.size == 0)) [
    | inl e ↦
        let none_left = nil_of c.nodes (ground (arith, e, all.0.size)) in
        rw (e, none_left, append_nil (held cs))
          (record { counters = (k, all.1); content = λ p. refl; stable = λ a. refl })
    | inr e ↦
        let m = (merge comp c carry).0 in
        let one = merge-IsCounter c carry all.0 k in
        let rest = carry_into-Holds m cs all.1 one.0 in
        rw (e, one.2)
          (record {
            counters = (record { size = refl; sorted = tt }, rest.counters);
            content = λ p.
                ap (count p) (append_nil (held (carry_into comp m cs)))
                ∙ rest.content p
                ∙ ap (λ t. count p (held cs ++ t)) one.1
                ∙ count_behind p (held cs) c.nodes carry.nodes;
            stable = λ a.
                ap (filter (sort_equivalent comp a)) (append_nil (held (carry_into comp m cs)))
                ∙ rest.stable a
                ∙ ap (λ t. filter (sort_equivalent comp a) (held cs ++ t)) one.1
                ∙ filter_behind a (held cs) c.nodes carry.nodes all.0.sorted;
          })
  ]
    where
      nil_of : (xs : List A) → length xs ≡ 0 → xs ≡ []
      nil_of [] h = refl
      nil_of (x ∷ xs) h = absurd (omega (arith, h))

  fill_counters-Holds :
      (ys xs : List A) (cs : List (LinkedList A))
      → Holds comp xs cs
      → Holds comp (xs ++ ys) (fill_counters comp ys cs)
  unfolding fill_counters
  fill_counters-Holds [] xs cs h = rw (append_nil xs) h
  fill_counters-Holds (y ∷ ys) xs cs h =
      let carry : LinkedList A = record { nodes = y ∷ []; size = 1 } in
      let one = carry_into-Holds carry cs h.counters (record { size = refl; sorted = (tt, tt) }) in
      let more : Holds comp (xs ++ (y ∷ [])) (carry_into comp carry cs) = record {
        counters = one.counters;
        content = λ p. omega (
          arith,
          one.content p,
          h.content p,
          count-append p (held cs) (y ∷ []),
          count-append p xs (y ∷ []),
        );
        stable = λ a.
            let p = sort_equivalent comp a in
            one.stable a
            ∙ filter-append p (held cs) (y ∷ [])
            ∙ ap (λ t. t ++ filter p (y ∷ [])) (h.stable a)
            ∙ sym (filter-append p xs (y ∷ []));
      } in
      let rest = fill_counters-Holds ys (xs ++ (y ∷ [])) (carry_into comp carry cs) more in
      rw (sym (append_assoc xs (y ∷ []) ys)) rest

  collect-Collects :
      (below : LinkedList A) (cs : List (LinkedList A))
      → IsCounter comp below
      → All (IsCounter comp) cs
      → Collects comp (held cs ++ below.nodes) (collect comp below cs)
  unfolding collect
  collect-Collects below [] k all = record { counter = k; content = λ p. refl; stable = λ a. refl }
  collect-Collects below (c ∷ cs) k all =
      let one = merge-IsCounter c below all.0 k in
      let rest = collect-Collects (merge comp c below).0 cs one.0 all.1 in
      record {
        counter = rest.counter;
        content = λ p.
            rest.content p
            ∙ ap (λ t. count p (held cs ++ t)) one.1
            ∙ count_behind p (held cs) c.nodes below.nodes;
        stable = λ a.
            rest.stable a
            ∙ ap (λ t. filter (sort_equivalent comp a) (held cs ++ t)) one.1
            ∙ filter_behind a (held cs) c.nodes below.nodes all.0.sorted;
      }

  take_last-Collects :
      (xs : List A) (cs : List (LinkedList A))
      → Holds comp xs cs
      → Collects comp xs (take_last comp cs)
  unfolding take_last
  take_last-Collects xs [] h = record {
    counter = record { size = refl; sorted = tt };
    content = h.content;
    stable = h.stable;
  }
  take_last-Collects xs (c ∷ cs) h =
      let r = collect-Collects c cs h.counters.0 h.counters.1 in
      record {
        counter = r.counter;
        content = λ p. r.content p ∙ h.content p;
        stable = λ a. r.stable a ∙ h.stable a;
      }

  -- Over a strict weak order and for a list whose size is right, sort comes to an end and leaves the
  -- list sorted, with each element as often as before and equivalent elements in the order they had; the
  -- size is right again.
  pub sort-Sorts :
      (t : LinkedList A)
      → IsCounted t
      → Sorts comp t.nodes (sort comp t).nodes
        × IsStable comp t.nodes (sort comp t).nodes
        × IsCounted (sort comp t)
  unfolding sort
  sort-Sorts t inv = elim (Bool-cases (ltb t.size 2)) [
    | inl e ↦ rw e (
      record {
        sorted = short-IsSorted comp t.nodes (ground (arith, e, inv.counted));
        content = λ p. refl;
      },
      λ a. refl,
      inv,
    )
    | inr e ↦
        let nothing : Holds comp [] [] = record {
          counters = tt;
          content = λ p. refl;
          stable = λ a. refl;
        } in
        let r =
          take_last-Collects t.nodes (fill_counters comp t.nodes [])
            (fill_counters-Holds t.nodes [] [] nothing) in
        rw e (
          record { sorted = r.counter.sorted; content = r.content },
          r.stable,
          record { counted = r.counter.size },
        )
  ]
