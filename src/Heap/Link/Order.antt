-- ===== src/Heap/Link/Order.antt =====
-- The invariants of the forests of include/chaistl/containers/heap/node.hpp, and lemmas on its links.
use chaistl.Common.{
  Bool, true, false, ◌≡◌, ◌≤◌, refl, arith, count, count-append, length, length-append,
}
use chaistl.Order.{IsStrictWeak, irrefl}
use chaistl.Heap.Link.{Link, null, node, elements, count_nodes, holds}

module _ {ℓ} {E : Type 0} {A : Type ℓ} where
  -- A detached tree: nothing hangs behind it.
  abbrev pub IsTree : Link E A → Type ℓ
  IsTree null = Unit
  IsTree (node f n e v) = n ≡ null

  -- The list has two members at most.
  abbrev pub HasTwo : Link E A → Type ℓ
  HasTwo null = Unit
  HasTwo (node f n e v) = IsTree n

  -- Every node has two children at most.
  abbrev pub IsBinary : Link E A → Type ℓ
  IsBinary null = Unit
  IsBinary (node f n e v) = HasTwo f × IsBinary f × IsBinary n

  -- Every value of the forest satisfies `P`.
  abbrev pub AllIn {κ} : (A → Type κ) → Link E A → Type κ
  AllIn P null = Unit
  AllIn P (node f n e v) = P v × AllIn P f × AllIn P n

  pub count-elements : (p : A → Bool) (h : Link E A) → count p (elements h) ≡ holds p h
  unfolding elements
  count-elements p null = refl
  count-elements p (node f n e v) =
      ground
        (arith, count-append p (elements f) (elements n), count-elements p f, count-elements p n)

  pub length-elements : (h : Link E A) → length (elements h) ≡ count_nodes h
  unfolding elements count_nodes
  length-elements null = refl
  length-elements (node f n e v) =
      ground (arith, length-append (elements f) (elements n), length-elements f, length-elements n)

  pub holds-le-count_nodes : (p : A → Bool) (h : Link E A) → holds p h ≤ count_nodes h
  unfolding count_nodes
  holds-le-count_nodes p null = omega arith
  holds-le-count_nodes p (node f n e v) =
      ground (arith, holds-le-count_nodes p f, holds-le-count_nodes p n)

  pub AllIn-holds : (p : A → Bool) (h : Link E A) → AllIn (λ x. p x ≡ false) h → holds p h ≡ 0
  AllIn-holds p null a = refl
  AllIn-holds p (node f n e v) a = ground (arith, AllIn-holds p f a.1, AllIn-holds p n a.2)

  pub holds_all : (h : Link E A) → holds (λ _. true) h ≡ count_nodes h
  unfolding count_nodes
  holds_all null = refl
  holds_all (node f n e v) = ground (arith, holds_all f, holds_all n)

module _ {ℓ} {E : Type 0} {A : Type ℓ} (cmp : A → A → Bool) where
  -- The roots of the sibling list are not above `v`.
  abbrev pub Below : A → Link E A → Type 0
  Below v null = Unit
  Below v (node f n e w) = (cmp v w ≡ false) × Below v n

  -- No child is above its parent: the test of every policy's `verify`.
  abbrev pub IsHeap : Link E A → Type 0
  IsHeap null = Unit
  IsHeap (node f n e v) = Below v f × IsHeap f × IsHeap n

module _ {ℓ} {E : Type 0} {A : Type ℓ} {cmp : A → A → Bool} (o : IsStrictWeak cmp) where
  pub Below-trans : (v w : A) (h : Link E A) → cmp v w ≡ false → Below cmp w h → Below cmp v h
  Below-trans v w null q b = tt
  Below-trans v w (node f n e x) q b = (o.neg_trans v w x q b.0, Below-trans v w n q b.1)

  -- What bounds the roots of a heap bounds all of it.
  pub Below-AllIn :
      (v : A) (h : Link E A) → Below cmp v h → IsHeap cmp h → AllIn (λ x. cmp v x ≡ false) h
  Below-AllIn v null b i = tt
  Below-AllIn v (node f n e w) b i =
      (b.0, Below-AllIn v f (Below-trans v w f b.0 i.0) i.1, Below-AllIn v n b.1 i.2)

  -- The root of a heap of one tree is a greatest element.
  pub root-AllIn :
      (f n : Link E A) (e : E) (v : A)
      → n ≡ null
      → IsHeap cmp (node f n e v)
      → AllIn (λ x. cmp v x ≡ false) (node f n e v)
  root-AllIn f null e v z i = (irrefl o v, Below-AllIn v f i.0 i.1, tt)
  root-AllIn f (node _ _ _ _) e v z i = cc
