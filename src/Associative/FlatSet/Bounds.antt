-- ===== src/Associative/FlatSet/Bounds.antt =====
-- The searches of include/chaistl/containers/associative/flat_set.hpp.
use chaistl.Common.{
  Bool, true, false, ◌==◌, ◌≡◌, refl, sym, ◌∙◌, arith, ℕ, zero, suc, ◌+◌, ◌-◌, ◌/◌, ◌<◌, ◌≤◌, ltb,
  List, [], ◌∷◌, Option, some, All, length, Bool-cases, inl, inr, if◌then◌else◌,
}
use chaistl.Order.{IsStrictWeak}
use chaistl.Associative.FlatSet.{elem_at, partition_from, lower_bound}

module _ {ℓ} {A : Type ℓ} where
  -- The number of values at the front that pass the test.
  abbrev pub scan : (A → Bool) → List A → ℕ
  scan test [] = 0
  scan test (x ∷ xs) = let rest = scan test xs in if test x then suc rest else 0

  -- The values that pass the test are those at the front.
  pub record IsSplit (test : A → Bool) (xs : List A) (n : ℕ) : Type ℓ where
    pub at : (i : ℕ) (x : A) → elem_at i xs ≡ some x → test x ≡ ltb i n

  elem_at-some : (xs : List A) (i : ℕ) → i < length xs → (x : A) × (elem_at i xs ≡ some x)
  unfolding elem_at
  elem_at-some [] i h = absurd (omega (arith, h))
  elem_at-some (x ∷ xs) zero h = (x, refl)
  elem_at-some (x ∷ xs) (suc i) h = elem_at-some xs i (omega (arith, h))

  some_same : (a b : A) → ◌≡◌ {A = Option A} (some a) (some b) → a ≡ b
  some_same a b q = cc

  All-elem_at {κ} :
      (P : A → Type κ) (xs : List A) (i : ℕ) (x : A) → All P xs → elem_at i xs ≡ some x → P x
  unfolding elem_at
  All-elem_at P [] i x h q = cc
  All-elem_at P (y ∷ ys) zero x h q = rw (sym (some_same y x q)) h.0
  All-elem_at P (y ∷ ys) (suc i) x h q = All-elem_at P ys i x h.1 q

  scan-length : (test : A → Bool) (xs : List A) → scan test xs ≤ length xs
  scan-length test [] = omega arith
  scan-length test (x ∷ xs) = ground (arith, scan-length test xs)

  -- The search ends in as many turns as there are values, where the test changes.
  partition_from-IsSplit :
      (test : A → Bool) (turns first len n : ℕ) (xs : List A)
      → IsSplit test xs n
      → first ≤ n
      → n ≤ first + len
      → first + len ≤ length xs
      → len ≤ turns
      → partition_from test turns first len xs ≡ n
  unfolding partition_from
  partition_from-IsSplit test zero first len n xs split low high inside fuel =
      omega (arith, low, high, fuel)
  partition_from-IsSplit test (suc turns) first len n xs split low high inside fuel =
      elim (Bool-cases (len == 0)) [
        | inl e ↦ rw e (ground (arith, e, low, high))
        | inr e ↦
            let half = len / 2 in
            let some_left : 0 < len = ground (arith, e) in
            let (x, q) = elem_at-some xs (first + half) (omega (arith, inside, some_left)) in
            let t = split.at (first + half) x q in
            elim (Bool-cases (test x)) [
              | inl f ↦
                  rw (e, q, f)
                    (partition_from-IsSplit test turns (first + half + 1) (len - half - 1) n xs
                      split (ground (arith, t, f)) (omega (arith, high, some_left))
                      (omega (arith, inside, some_left)) (omega (arith, fuel, some_left)))
              | inr f ↦
                  rw (e, q, f)
                    (partition_from-IsSplit test turns first half n xs split low
                      (ground (arith, t, f)) (omega (arith, inside))
                      (omega (arith, fuel, some_left)))
            ]
      ]

ltb-zero : (n : ℕ) → ltb 0 (suc n) ≡ true
ltb-zero n = ground arith

ltb-suc : (i n : ℕ) → ltb (suc i) (suc n) ≡ ltb i n
ltb-suc i n = ground arith

module _ {ℓ} {A : Type ℓ} (comp : A → A → Bool) where
  -- Each value is less than those behind it.
  abbrev pub IsStrict : List A → Type ℓ
  IsStrict [] = Unit
  IsStrict (x ∷ xs) = All (λ y. comp x y ≡ true) xs × IsStrict xs

module _ {ℓ} {A : Type ℓ} {comp : A → A → Bool} (o : IsStrictWeak comp) where
  IsStrict-IsSplit :
      (key : A) (xs : List A)
      → IsStrict comp xs
      → IsSplit (λ x. comp x key) xs (scan (λ x. comp x key) xs)
  unfolding elem_at
  IsStrict-IsSplit key [] s = record { at = λ i x q. cc }
  IsStrict-IsSplit key (y ∷ ys) s = elim (Bool-cases (comp y key)) [
    | inl e ↦ rw e (record { at = less key y ys (IsStrict-IsSplit key ys s.1) e })
    | inr e ↦ rw e (record { at = not_less key y ys s e })
  ]
    where
      less :
          (key y : A) (ys : List A)
          → IsSplit (λ x. comp x key) ys (scan (λ x. comp x key) ys)
          → comp y key ≡ true
          → (i : ℕ) (x : A) → elem_at i (y ∷ ys) ≡ some x
          → comp x key ≡ ltb i (suc (scan (λ x. comp x key) ys))
      less key y ys split e zero x q = rw (sym (some_same y x q)) (e ∙ sym (ltb-zero _))
      less key y ys split e (suc i) x q = split.at i x q ∙ sym (ltb-suc i _)

      not_less :
          (key y : A) (ys : List A)
          → IsStrict comp (y ∷ ys)
          → comp y key ≡ false
          → (i : ℕ) (x : A) → elem_at i (y ∷ ys) ≡ some x
          → comp x key ≡ ltb i 0
      not_less key y ys s e zero x q = rw (sym (some_same y x q)) e
      not_less key y ys s e (suc i) x q =
          let above = All-elem_at (λ z. comp y z ≡ true) ys i x s.0 q in
          ground (arith, o.neg_trans x y key (o.asym y x above) e)

  -- In a strictly sorted set, the search finds the first value that is not less.
  pub lower_bound-scan :
      (key : A) (xs : List A)
      → IsStrict comp xs
      → lower_bound comp key xs ≡ scan (λ x. comp x key) xs
  unfolding lower_bound
  lower_bound-scan key xs s =
      partition_from-IsSplit (λ x. comp x key) (length xs) 0 (length xs) (scan (λ x. comp x key) xs)
        xs (IsStrict-IsSplit key xs s) (omega arith)
        (omega (arith, scan-length (λ x. comp x key) xs)) (omega arith) (omega arith)
