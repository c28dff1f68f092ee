-- ===== src/Order.antt =====
-- What the containers ask of a comparator: concept `std::strict_weak_order`, which
-- include/chaistl/containers/heap/priority_queue.hpp and the associative containers require.
use chaistl.Common.{Bool, true, false, ◌≡◌, ltb, arith, Bool-cases, inl, inr}

pub record IsStrictWeak {ℓ} {A : Type ℓ} (cmp : A → A → Bool) : Type ℓ where
  pub asym : (a b : A) → cmp a b ≡ true → cmp b a ≡ false
  pub neg_trans : (a b c : A) → cmp a b ≡ false → cmp b c ≡ false → cmp a c ≡ false

module _ {ℓ} {A : Type ℓ} {cmp : A → A → Bool} (o : IsStrictWeak cmp) where
  pub irrefl : (a : A) → cmp a a ≡ false
  irrefl a = elim (Bool-cases (cmp a a)) [ inl e ↦ o.asym a a e | inr e ↦ e ]

-- `std::less` on the numbers.
pub ltb-IsStrictWeak : IsStrictWeak ltb
ltb-IsStrictWeak = record { asym = λ a b h. ground arith; neg_trans = λ a b c h k. ground arith }
