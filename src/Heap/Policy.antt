-- ===== src/Heap/Policy.antt =====
-- include/chaistl/containers/heap/policy/concepts.hpp: the contract between `priority_queue` and a
-- node heap policy, as a record of operations and a record of laws.
--
-- The source states the operations as the concept `node_heap_policy` and their contract in its
-- comment; the laws here are the part of that contract for comparators that do not throw.
use chaistl.Common.{Bool, true, false, ◌+◌, ◌≡◌, ◌≢◌, Option, some, none, bit, List, [], ◌∷◌}
use chaistl.Heap.Link.{Link, null, node, holds, Edge, down, across}
use chaistl.Heap.Link.Order.{AllIn}

-- `insert` takes the extension of the fresh node and its value; `extract_top` returns the value of
-- the node that the container destroys, and the root. A null root breaks the precondition of
-- `top` and `extract_top`: `none`.
pub record NodeHeapPolicy {ℓ} (E : Type 0) (A : Type ℓ) : Type ℓ where
  pub fresh : E
  pub insert : Link E A → Link E A → Link E A
  pub top : Link E A → Option A
  pub extract_top : Link E A → Option (A × Link E A)
  pub join : Link E A → Link E A → Link E A
  pub verify : Link E A → Bool

module _ {ℓ} {E : Type 0} {A : Type ℓ} (cmp : A → A → Bool) (P : NodeHeapPolicy E A) where
  -- A detached singleton, as `storage_.create` makes it.
  abbrev pub singleton : A → Link E A
  singleton v = node null null P.fresh v

  -- What the policy calls a heap is a predicate `IsValid` of its own.
  pub record IsLawful (IsValid : Link E A → Type ℓ) : Type ℓ where
    pub null_valid : IsValid null
    pub insert_valid : (v : A) (h : Link E A) → IsValid h → IsValid (P.insert (singleton v) h)
    pub insert_content :
        (v : A) (h : Link E A) (p : A → Bool)
        → IsValid h
        → holds p (P.insert (singleton v) h) ≡ bit (p v) + holds p h
    pub top_some : (h : Link E A) → IsValid h → h ≢ null → (v : A) × (P.top h ≡ some v)
    pub top_greatest :
        (h : Link E A) (v : A) → IsValid h → P.top h ≡ some v → AllIn (λ x. cmp v x ≡ false) h
    pub extract_some :
        (h : Link E A) (v : A)
        → IsValid h
        → P.top h ≡ some v
        → (r : Link E A) × (P.extract_top h ≡ some (v, r))
          × IsValid r
          × ((p : A → Bool) → holds p h ≡ bit (p v) + holds p r)
    pub join_valid : (a b : Link E A) → IsValid a → IsValid b → IsValid (P.join a b)
    pub join_content :
        (a b : Link E A) (p : A → Bool)
        → IsValid a
        → IsValid b
        → holds p (P.join a b) ≡ holds p a + holds p b
    pub verify_valid : (h : Link E A) → IsValid h → P.verify h ≡ true
    pub valid_verify : (h : Link E A) → P.verify h ≡ true → IsValid h

-- `mutable_node_heap_policy`: what `detach` adds. It returns the value of the detached node and
-- the root; a handle that leads to no node breaks its precondition.
abbrev pub Detach {ℓ} : (E : Type 0) (A : Type ℓ) → Type ℓ
Detach E A = List Edge → Link E A → Option (A × Link E A)

-- The value at a handle.
unfoldable pub value_at {ℓ} : {E : Type 0} {A : Type ℓ} → List Edge → Link E A → Option A
value_at path null = none
value_at [] (node f n e v) = some v
value_at (down ∷ path) (node f n e v) = value_at path f
value_at (across ∷ path) (node f n e v) = value_at path n

-- A valid handle detaches exactly its node, and what is left is a heap again.
abbrev pub IsLawfulDetach {ℓ} :
    {E : Type 0} {A : Type ℓ} → Detach E A → (Link E A → Type ℓ) → Type ℓ
IsLawfulDetach {E} {A} detach IsValid =
    (path : List Edge) (h : Link E A) (v : A)
    → IsValid h
    → value_at path h ≡ some v
    → (r : Link E A) × (detach path h ≡ some (v, r))
      × IsValid r
      × ((p : A → Bool) → holds p h ≡ bit (p v) + holds p r)
