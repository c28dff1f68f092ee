-- ===== src/Heap/Leftist/Rank.antt =====
-- The null path lengths of include/chaistl/containers/heap/policy/leftist_heap.hpp.
use native.Mathlib.Nat.{pow-suc}
use chaistl.Common.{ℕ, zero, suc, ◌+◌, ◌^◌, ◌≤◌, ◌≡◌, ◌≢◌, refl, arith}
use chaistl.Heap.Link.{Link, null, node}
use chaistl.Heap.Binary.{detach_children, set_children}
use chaistl.Heap.Binary.Laws.{size}
use chaistl.Heap.Leftist.{npl, set_npl}

pow_zero : (m : ℕ) → m ≤ 0 → 2 ^ m ≡ 1
pow_zero zero h = refl
pow_zero (suc m) h = absurd (omega arith)

module _ {ℓ} {A : Type ℓ} where
  -- The right child has the shorter null path, and the node's is one more.
  abbrev pub RankOk : ℕ → Link ℕ A → Type 0
  RankOk e null = e ≡ 1
  RankOk e (node lf null le lv) = (e ≡ 1)
  RankOk e (node lf (node rf rn re rv) le lv) = (re ≤ le) × (e ≡ re + 1)

  abbrev pub IsRanked : Link ℕ A → Type 0
  IsRanked null = Unit
  IsRanked (node f n e v) = RankOk e f × IsRanked f × IsRanked n

  pub npl_pos : (f n : Link ℕ A) (e : ℕ) (v : A) → IsRanked (node f n e v) → 1 ≤ e
  npl_pos null n e v r = omega arith
  npl_pos (node lf null le lv) n e v r = omega arith
  npl_pos (node lf (node rf rn re rv) le lv) n e v r = omega arith

  two_pow_children :
      (m : ℕ) (f n : Link ℕ A) (e : ℕ) (v : A)
      → IsRanked (node f n e v)
      → m ≤ e
      → 2 ^ m ≤ 2 + size f
  two_pow_children zero f n e v r h = omega arith
  two_pow_children (suc m) null n e v r h = rw pow-suc (omega (arith, pow_zero m (omega arith)))
  two_pow_children (suc m) (node lf null le lv) n e v r h =
      rw pow-suc (omega (arith, pow_zero m (omega arith)))
  two_pow_children (suc m) (node lf (node rf rn re rv) le lv) n e v r h =
      let left = two_pow_children m lf (node rf rn re rv) le lv r.1 (omega arith) in
      let right = two_pow_children m rf rn re rv r.1.2 (omega arith) in
      rw pow-suc (omega (arith, left, right))

  -- The right spine is logarithmic: a tree with null path length `r` has at least 2 ^ r - 1 nodes.
  pub two_pow-npl-le : (h : Link ℕ A) → IsRanked h → 2 ^ npl h ≤ size h + 1
  unfolding npl
  two_pow-npl-le null r = omega arith
  two_pow-npl-le (node f n e v) r = omega (arith, two_pow_children e f n e v r (omega arith))

  -- Detaching a ranked node: both children are ranked, and the right one's null path is the
  -- node's less one.
  pub detach-IsRanked :
      (f n : Link ℕ A) (e : ℕ) (v : A)
      → IsRanked (node f n e v)
      → IsRanked (detach_children (node f n e v)).0
        × IsRanked (detach_children (node f n e v)).1
        × (e ≡ npl (detach_children (node f n e v)).1 + 1)
        × (npl (detach_children (node f n e v)).1 ≤ npl (detach_children (node f n e v)).0)
  unfolding detach_children npl
  detach-IsRanked null n e v r = ground arith
  detach-IsRanked (node lf null le lv) n e v r = ground arith
  detach-IsRanked (node lf (node rf rn re rv) le lv) n e v r = ground arith

  -- Linking ranked children, the right one with the shorter null path.
  pub set_children-IsRanked :
      (f n l r : Link ℕ A) (e : ℕ) (v : A)
      → n ≡ null
      → IsRanked l
      → IsRanked r
      → l ≢ null
      → npl r ≤ npl l
      → IsRanked (set_npl (set_children (node f n e v) l r) (npl r + 1))
  unfolding set_children set_npl npl
  set_children-IsRanked f n null r e v z a b q h = absurd (q refl)
  set_children-IsRanked f n (node lf ln le lv) null e v z a b q h = ground arith
  set_children-IsRanked f n (node lf ln le lv) (node rf rn re rv) e v z a b q h = ground arith
