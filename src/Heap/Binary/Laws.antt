-- ===== src/Heap/Binary/Laws.antt =====
-- What the link helpers of the two binary meldable heaps keep: skew_heap.hpp and leftist_heap.hpp
-- under include/chaistl/containers/heap/policy.
use chaistl.Common.{Bool, true, false, ℕ, ◌+◌, ◌<◌, ◌≡◌, ◌≢◌, refl, arith, bit}
use chaistl.Heap.Link.{Link, null, node, holds}
use chaistl.Heap.Link.Order.{IsTree, IsBinary, Below, IsHeap}
use chaistl.Heap.Binary.{detach_children, set_children}

-- The number of nodes, in the form that the content laws speak of.
abbrev pub size {ℓ} : {E : Type 0} {A : Type ℓ} → Link E A → ℕ
size h = holds (λ _. true) h

module _ {ℓ} {E : Type 0} {A : Type ℓ} (cmp : A → A → Bool) where
  -- A tree that may hang under the value `v`.
  pub record FitsUnder (v : A) (h : Link E A) : Type ℓ where
    pub tree : IsTree h
    pub binary : IsBinary h
    pub heap : IsHeap cmp h
    pub below : Below cmp v h

  -- A binary heap of one tree.
  pub record IsBinaryHeap (h : Link E A) : Type ℓ where
    pub tree : IsTree h
    pub binary : IsBinary h
    pub heap : IsHeap cmp h

  pub FitsUnder-IsBinaryHeap : {v : A} {h : Link E A} → FitsUnder v h → IsBinaryHeap h
  FitsUnder-IsBinaryHeap f = record { tree = f.tree; binary = f.binary; heap = f.heap }

  pub Below-tree :
      (v : A) (f n : Link E A) (e : E) (w : A)
      → n ≡ null
      → cmp v w ≡ false
      → Below cmp v (node f n e w)
  Below-tree v f n e w z q = ground arith

  pub detach-FitsUnder :
      (f n : Link E A) (e : E) (v : A)
      → IsBinaryHeap (node f n e v)
      → FitsUnder v (detach_children (node f n e v)).0
        × FitsUnder v (detach_children (node f n e v)).1
  unfolding detach_children
  detach-FitsUnder null n e v s = ground arith
  detach-FitsUnder (node lf null le lv) n e v s = ground arith
  detach-FitsUnder (node lf (node rf rn re rv) le lv) n e v s = ground arith

  pub holds-detach :
      (p : A → Bool) (f n : Link E A) (e : E) (v : A)
      → IsBinaryHeap (node f n e v)
      → holds p (node f n e v)
        ≡ bit (p v)
          + holds p (detach_children (node f n e v)).0
          + holds p (detach_children (node f n e v)).1
  unfolding detach_children
  holds-detach p null n e v s = ground arith
  holds-detach p (node lf null le lv) n e v s = ground arith
  holds-detach p (node lf (node rf rn re rv) le lv) n e v s = ground arith

  pub size-detach_right :
      (f n : Link E A) (e : E) (v : A)
      → IsBinaryHeap (node f n e v)
      → size (detach_children (node f n e v)).1 < size (node f n e v)
  size-detach_right f n e v s = omega (arith, holds-detach (λ _. true) f n e v s)

  pub set_children-IsBinaryHeap :
      (f n l r : Link E A) (e : E) (v : A)
      → n ≡ null
      → FitsUnder v l
      → FitsUnder v r
      → l ≢ null
      → IsBinaryHeap (set_children (node f n e v) l r)
  unfolding set_children
  set_children-IsBinaryHeap f n null r e v z a b q = absurd (q refl)
  set_children-IsBinaryHeap f n (node lf ln le lv) null e v z a b q = ground arith
  set_children-IsBinaryHeap f n (node lf ln le lv) (node rf rn re rv) e v z a b q = ground arith

  pub holds-set_children :
      (p : A → Bool) (f n l r : Link E A) (e : E) (v : A)
      → n ≡ null
      → IsTree l
      → IsTree r
      → l ≢ null
      → holds p (set_children (node f n e v) l r) ≡ bit (p v) + holds p l + holds p r
  unfolding set_children
  holds-set_children p f n null r e v z a b q = absurd (q refl)
  holds-set_children p f n (node lf ln le lv) null e v z a b q = ground arith
  holds-set_children p f n (node lf ln le lv) (node rf rn re rv) e v z a b q = ground arith

  pub Below-set_children :
      (u : A) (f n l r : Link E A) (e : E) (v : A)
      → Below cmp u (node f n e v)
      → Below cmp u (set_children (node f n e v) l r)
  unfolding set_children
  Below-set_children u f n l r e v b = b

  pub set_children-ne-null :
      (f n l r : Link E A) (e : E) (v : A) → set_children (node f n e v) l r ≢ null
  unfolding set_children
  set_children-ne-null f n l r e v q = cc

  -- What a meld of `a` and `b` into `m` promises.
  pub record Melds (a b m : Link E A) : Type ℓ where
    pub heap : IsBinaryHeap m
    pub below : (v : A) → Below cmp v a → Below cmp v b → Below cmp v m
    pub some_left : a ≢ null → m ≢ null
    pub some_right : b ≢ null → m ≢ null
    pub content : (p : A → Bool) → holds p m ≡ holds p a + holds p b

  pub Melds-symm : {a b m : Link E A} → Melds a b m → Melds b a m
  Melds-symm t = record {
    heap = t.heap;
    below = λ v x y. t.below v y x;
    some_left = t.some_right;
    some_right = t.some_left;
    content = λ p. omega (arith, t.content p);
  }

  pub Melds-null_left : (b : Link E A) → IsBinaryHeap b → Melds null b b
  Melds-null_left b h = record {
    heap = h;
    below = λ v x y. y;
    some_left = λ q. absurd (q refl);
    some_right = λ q. q;
    content = λ p. omega arith;
  }
