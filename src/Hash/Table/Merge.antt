-- ===== src/Hash/Table/Merge.antt =====
-- `merge_unique` of include/chaistl/containers/hash/hash_table.hpp.
use chaistl.Common.{
  Bool, true, false, ◌&&◌, ◌==◌, ◌≡◌, refl, sym, ap, ◌∙◌, arith, ℕ, suc, ◌+◌, ◌≤◌, List, [], ◌∷◌,
  ◌++◌, Option, some, length, length-append, map, count, count-append, append_assoc, append_nil,
  Bool-cases, inl, inr, if◌then◌else◌,
}
use chaistl.Hash.Policy.{Load, max_bucket_count}
use chaistl.Hash.Table.{
  HashNode, HashTable, unlink, unlink_node, insert_unique, merge_from, merge_unique,
  minimum_bucket_count,
}
use chaistl.Hash.Table.Invariant.{IsKeyEqual, IsTable, values}
use chaistl.Hash.Table.Insert.{AddsUnique, insert_unique-AddsUnique}
use chaistl.Hash.Table.Erase.{unlink_node-IsTable}

module _ {ℓ κ} {A : Type ℓ} {K : Type κ} (kov : A → K) (key_equal : K → K → Bool) where
  -- Whether no element has the key.
  abbrev pub is_new : K → List A → Bool
  is_new key ys = count (λ y. key_equal (kov y) key) ys == 0

  -- What a merge leaves in the target: the elements of the source behind its own, but for those whose
  -- keys it has at their turn; these are left in the source.
  abbrev pub merged : List A → List A → List A
  merged [] ys = ys
  merged (x ∷ xs) ys = merged xs (if is_new (kov x) ys then ys ++ (x ∷ []) else ys)

  abbrev pub refused : List A → List A → List A
  refused [] ys = []
  refused (x ∷ xs) ys =
      (if is_new (kov x) ys then [] else x ∷ [])
      ++ refused xs (if is_new (kov x) ys then ys ++ (x ∷ []) else ys)

module _ {ℓ} {A : Type ℓ} where
  count-map :
      (p : A → Bool) (ns : List (HashNode A))
      → count p (map (λ x. x.value) ns) ≡ count (λ x. p x.value) ns
  count-map p [] = refl
  count-map p (n ∷ ns) = ground (arith, count-map p ns)

  map-append :
      (xs ys : List (HashNode A))
      → map (λ x. x.value) (xs ++ ys) ≡ map (λ x. x.value) xs ++ map (λ x. x.value) ys
  map-append [] ys = refl
  map-append (x ∷ xs) ys = ap (λ t. x.value ∷ t) (map-append xs ys)

  -- The first node with an address.
  unlink-append :
      (front : List (HashNode A)) (n : HashNode A) (ns : List (HashNode A))
      → count (λ x. x.address == n.address) (front ++ (n ∷ ns)) ≤ 1
      → unlink n.address (front ++ (n ∷ ns)) ≡ front ++ ns
  unfolding unlink
  unlink-append [] n ns h = rw (same n.address) refl
    where
      same : (a : ℕ) → (a == a) ≡ true
      same a = ground arith
  unlink-append (m ∷ front) n ns h =
      let later = count-append (λ x. x.address == n.address) front (n ∷ ns) in
      let other : (m.address == n.address) ≡ false = ground (arith, h, later) in
      rw other (ap (λ t. m ∷ t) (unlink-append front n ns (ground (arith, h, other))))

-- What a merge leaves of the target and the source.
pub record Merges {ℓ κ} {A : Type ℓ} {K : Type κ} (kov : A → K) (hasher : K → ℕ)
    (key_equal : K → K → Bool) (front : List (HashNode A)) (xs : List A) (this t s : HashTable A)
    : Type (ℓ ⊔ κ) where
  pub this_valid : IsTable kov hasher key_equal t
  pub source_valid : IsTable kov hasher key_equal s
  pub this_content : values t ≡ merged kov key_equal xs (values this)
  pub source_content : values s ≡ map (λ x. x.value) front ++ refused kov key_equal xs (values this)

module _ {ℓ κ} {A : Type ℓ} {K : Type κ} (kov : A → K) {hasher : K → ℕ} {key_equal : K → K → Bool}
    (eq : IsKeyEqual hasher key_equal) (load : Load) where
  -- One turn, by the answer of the insertion: the target's elements, and the nodes of the source up to
  -- the next one.
  record Turn (n : HashNode A) (front ns : List (HashNode A)) (this u rest : HashTable A)
      : Type (ℓ ⊔ κ) where
    this_content : values u ≡ (
        if is_new kov key_equal (kov n.value) (values this)
        then values this ++ (n.value ∷ [])
        else values this)
    source_valid : IsTable kov hasher key_equal rest
    kept : List (HashNode A)
    is_kept : rest.order ≡ kept ++ ns
    kept_content :
        map (λ x. x.value) kept
        ≡ map (λ x. x.value) front
          ++ (if is_new kov key_equal (kov n.value) (values this) then [] else n.value ∷ [])

  insert_unique-Turn :
      (n : HashNode A) (front ns : List (HashNode A)) (this source u : HashTable A)
      (it : HashNode A) (inserted : Bool)
      → AddsUnique kov hasher key_equal n.value this u it inserted
      → IsTable kov hasher key_equal source
      → source.order ≡ front ++ (n ∷ ns)
      → Turn n front ns this u (if inserted then unlink_node n source else source)
  unfolding unlink_node
  insert_unique-Turn n front ns this source u it inserted one other q =
      let same : inserted ≡ is_new kov key_equal (kov n.value) (values this) =
        one.answer
        ∙ ap (λ k. k == 0) (sym (count-map (λ y. key_equal (kov y) (kov n.value)) this.order)) in
      elim (Bool-cases inserted) [
        | inl e ↦
            let new = sym same ∙ e in
            rw e (record {
              this_content = one.content ∙ rw (e, new) refl;
              source_valid = unlink_node-IsTable kov hasher key_equal n source other (
                  rw q (
                    ground (
                      arith,
                      count-append
                          (λ y. (y.address == n.address) && (y.cached_hash == n.cached_hash)) front
                          (n ∷ ns),
                    )));
              kept = front;
              is_kept =
                  ap (unlink n.address) q
                  ∙ unlink-append front n ns (rw (sym q) (other.addresses n.address));
              kept_content = rw new (sym (append_nil (map (λ x. x.value) front)));
            })
        | inr e ↦
            let new = sym same ∙ e in
            rw e (record {
              this_content = one.content ∙ rw (e, new) refl;
              source_valid = other;
              kept = front ++ (n ∷ []);
              is_kept = q ∙ sym (append_assoc front (n ∷ []) ns);
              kept_content = rw new (map-append front (n ∷ []));
            })
      ]

  length-values : (ns : List (HashNode A)) → length (map (λ x. x.value) ns) ≡ length ns
  length-values [] = refl
  length-values (n ∷ ns) = ap suc (length-values ns)

  -- One insertion makes a table larger by one element at most.
  grown_count :
      (value : A) (t u : HashTable A) (it : HashNode A) (inserted : Bool)
      → IsTable kov hasher key_equal t
      → AddsUnique kov hasher key_equal value t u it inserted
      → u.count ≤ t.count + 1
  grown_count value t u it inserted inv one =
      let long = ap length one.content in
      let before = length-values t.order in
      let after = length-values u.order in
      let added = length-append (values t) (value ∷ []) in
      let c = inv.counted in let d = one.valid.counted in ground arith

  merge_from-turn :
      (n : HashNode A) (ns : List (HashNode A)) (this source u : HashTable A) (it : HashNode A)
      (inserted : Bool) (r : Option (HashTable A × HashTable A))
      → insert_unique kov hasher key_equal load n.value this ≡ some (u, it, inserted)
      → merge_from kov hasher key_equal load ns u
          (if inserted then unlink_node n source else source)
        ≡ r
      → merge_from kov hasher key_equal load (n ∷ ns) this source ≡ r
  unfolding merge_from
  merge_from-turn n ns this source u it inserted r q h = rw (merge_from, q) h

  merge_from-Merges :
      (ns front : List (HashNode A)) (this source : HashTable A)
      → IsTable kov hasher key_equal this
      → IsTable kov hasher key_equal source
      → source.order ≡ front ++ ns
      → ((k : ℕ) → k ≤ this.count + length ns → minimum_bucket_count load k ≤ max_bucket_count)
      → (t : HashTable A) × (s : HashTable A) × (merge_from kov hasher key_equal load ns this source
          ≡ some (t, s))
        × Merges kov hasher key_equal front (map (λ x. x.value) ns) this t s
  unfolding merge_from
  merge_from-Merges [] front this source inv other q h = (
    this,
    source,
    refl,
    record {
      this_valid = inv;
      source_valid = other;
      this_content = refl;
      source_content = ap (map (λ x. x.value)) q ∙ map-append front [];
    },
  )
  merge_from-Merges (n ∷ ns) front this source inv other q h =
      let (u, it, inserted, done, one) =
        insert_unique-AddsUnique kov eq load n.value this inv (h (this.count + 1) (omega arith)) in
      let rest : HashTable A = if inserted then unlink_node n source else source in
      let turn = insert_unique-Turn n front ns this source u it inserted one other q in
      let few = grown_count n.value this u it inserted inv one in
      let (t, s, all, left) =
        merge_from-Merges ns turn.kept u rest one.valid turn.source_valid turn.is_kept
          (λ k less. h k (omega (arith, few, less))) in
      let xs : List A = map (λ x. x.value) ns in
      (
        t,
        s,
        merge_from-turn n ns this source u it inserted (some (t, s)) done all,
        record {
          this_valid = left.this_valid;
          source_valid = left.source_valid;
          this_content = left.this_content ∙ ap (merged kov key_equal xs) turn.this_content;
          source_content =
              left.source_content
              ∙ rw (turn.kept_content, turn.this_content)
                  (append_assoc (map (λ x. x.value) front) _ _);
        },
      )

  -- For a hash function that gives equal keys the same hash, and sizes within max_bucket_count() up to
  -- that of both tables, merge_unique returns. Both tables keep the invariant; in the order of the source,
  -- an element whose key the target does not have at its turn is behind the target's elements, and any
  -- other stays in the source, in its order.
  pub merge_unique-MovesNew :
      (this source : HashTable A)
      → IsTable kov hasher key_equal this
      → IsTable kov hasher key_equal source
      → ((k : ℕ)
          → k ≤ this.count + length source.order
          → minimum_bucket_count load k ≤ max_bucket_count)
      → (t : HashTable A) × (s : HashTable A) × (merge_unique kov hasher key_equal load this source
          ≡ some (t, s))
        × Merges kov hasher key_equal [] (values source) this t s
  unfolding merge_unique
  merge_unique-MovesNew this source inv other h =
      merge_from-Merges source.order [] this source inv other refl h
