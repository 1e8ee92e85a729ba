-- ===== src/Prelude/Sum.antt =====
-- The sum of an integer over a list, and what a write changes of it.
use cmsc421_os.Prelude.{ℕ, zero, suc, ◌≡◌, refl, arith, List, [], ◌∷◌, some, get_elem?, set}
use cmsc421_os.Prelude.Int.{ℤ, pos, ◌+ℤ◌, ◌≤ℤ◌, int_laws}
use mathlib.Core.Option.{some-injective}

module _ {ℓ} {A : Type ℓ} (f : A → ℤ) where
  unfoldable pub sum_by : List A → ℤ
  sum_by [] = pos 0
  sum_by (x ∷ xs) = f x +ℤ sum_by xs

  pub sum_by-set :
      (xs : List A) (i : ℕ) (y : A) {x : A}
      → get_elem? xs i ≡ some x
      → sum_by (set xs i y) +ℤ f x ≡ sum_by xs +ℤ f y
  unfolding sum_by
  sum_by-set [] i y e = cc
  sum_by-set (x ∷ xs) zero y {x = z} e =
      let same : x ≡ z = some-injective x z e in rw same (omega int_laws)
  sum_by-set (x ∷ xs) (suc i) y {x = z} e =
      let rest : sum_by (set xs i y) +ℤ f z ≡ sum_by xs +ℤ f y = sum_by-set xs i y e in
      grind int_laws

  abbrev pub NoneNegative : List A → Type ℓ
  NoneNegative xs = (i : ℕ) (x : A) → get_elem? xs i ≡ some x → pos 0 ≤ℤ f x

  -- A sum of amounts that are not negative is not less than any of them.
  pub sum_by-nonneg : (xs : List A) → NoneNegative xs → pos 0 ≤ℤ sum_by xs
  unfolding sum_by
  sum_by-nonneg [] all = omega arith
  sum_by-nonneg (x ∷ xs) all =
      let first = all 0 x refl in
      let rest = sum_by-nonneg xs (λ i y e. all (suc i) y e) in omega int_laws

  pub sum_by-member :
      (xs : List A) (i : ℕ) {x : A} → NoneNegative xs → get_elem? xs i ≡ some x → f x ≤ℤ sum_by xs
  unfolding sum_by
  sum_by-member [] i all e = cc
  sum_by-member (y ∷ xs) zero {x = z} all e =
      let same : y ≡ z = some-injective y z e in
      let rest = sum_by-nonneg xs (λ i x e. all (suc i) x e) in rw (← same) (omega int_laws)
  sum_by-member (y ∷ xs) (suc i) all e =
      let first = all 0 y refl in
      let rest = sum_by-member xs i (λ i y e. all (suc i) y e) e in omega int_laws
