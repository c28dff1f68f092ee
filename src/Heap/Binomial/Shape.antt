-- ===== src/Heap/Binomial/Shape.antt =====
-- The binomial trees of include/chaistl/containers/heap/policy/binomial_heap.hpp.
use native.Mathlib.Nat.{pow-suc}
use chaistl.Common.{ℕ, suc, ◌+◌, ◌^◌, ◌≤◌, ◌<◌, ◌≡◌, refl, arith, bit, ◌==◌}
use chaistl.Heap.Link.{Link, null, node}
use chaistl.Heap.Binary.Laws.{size}

module _ {ℓ} {A : Type ℓ} where
  -- The children of a root of degree `k`: trees of the degrees k - 1, …, 0.
  abbrev pub IsShape : ℕ → Link ℕ A → Type 0
  IsShape k null = k ≡ 0
  IsShape k (node f n e v) = (k ≡ suc e) × IsShape e f × IsShape e n

  -- A root list of binomial trees whose degrees start at `lo` and never decrease.
  abbrev pub IsRelaxed : ℕ → Link ℕ A → Type 0
  IsRelaxed lo null = Unit
  IsRelaxed lo (node f n e v) = (lo ≤ e) × IsShape e f × IsRelaxed e n

  -- The same with strictly increasing degrees.
  abbrev pub IsCanonical : ℕ → Link ℕ A → Type 0
  IsCanonical lo null = Unit
  IsCanonical lo (node f n e v) = (lo ≤ e) × IsShape e f × IsCanonical (suc e) n

  -- How many roots have the degree `d`.
  abbrev pub roots_of : ℕ → Link ℕ A → ℕ
  roots_of d null = 0
  roots_of d (node f n e v) = bit (e == d) + roots_of d n

  -- The number of nodes that the degrees of a root list stand for.
  abbrev pub weight : Link ℕ A → ℕ
  weight null = 0
  weight (node f n e v) = 2 ^ e + weight n

  pub size-IsShape : (k : ℕ) (f : Link ℕ A) → IsShape k f → size f + 1 ≡ 2 ^ k
  size-IsShape k null s = rw s refl
  size-IsShape k (node f n e v) s =
      rw (s.0, pow-suc) (omega (arith, size-IsShape e f s.1, size-IsShape e n s.2))

  -- A root of degree `k` has exactly 2 ^ k nodes under it, itself included.
  pub size-IsRelaxed : (lo : ℕ) (h : Link ℕ A) → IsRelaxed lo h → size h ≡ weight h
  size-IsRelaxed lo null s = refl
  size-IsRelaxed lo (node f n e v) s = omega (arith, size-IsShape e f s.1, size-IsRelaxed e n s.2)

  pub IsRelaxed-mono : (lo lo' : ℕ) (h : Link ℕ A) → lo' ≤ lo → IsRelaxed lo h → IsRelaxed lo' h
  IsRelaxed-mono lo lo' null q s = tt
  IsRelaxed-mono lo lo' (node f n e v) q s = (omega arith, s.1, s.2)

  pub IsCanonical-mono :
      (lo lo' : ℕ) (h : Link ℕ A) → lo' ≤ lo → IsCanonical lo h → IsCanonical lo' h
  IsCanonical-mono lo lo' null q s = tt
  IsCanonical-mono lo lo' (node f n e v) q s = (omega arith, s.1, s.2)

  pub IsCanonical-IsRelaxed : (lo : ℕ) (h : Link ℕ A) → IsCanonical lo h → IsRelaxed lo h
  IsCanonical-IsRelaxed lo null s = tt
  IsCanonical-IsRelaxed lo (node f n e v) s =
      (s.0, s.1, IsCanonical-IsRelaxed e n (IsCanonical-mono (suc e) e n (omega arith) s.2))

  pub roots_of_below : (lo d : ℕ) (h : Link ℕ A) → IsRelaxed lo h → d < lo → roots_of d h ≡ 0
  roots_of_below lo d null s q = refl
  roots_of_below lo d (node f n e v) s q = ground (arith, roots_of_below e d n s.2)

  -- A canonical list has at most one tree of each degree.
  pub roots_of-le-one : (lo d : ℕ) (h : Link ℕ A) → IsCanonical lo h → roots_of d h ≤ 1
  roots_of-le-one lo d null s = omega arith
  roots_of-le-one lo d (node f n e v) s = ground (
    arith,
    roots_of-le-one (suc e) d n s.2,
    roots_of_below (suc e) d n (IsCanonical-IsRelaxed (suc e) n s.2),
  )
