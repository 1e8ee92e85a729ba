-- ===== src/Prelude/Count.antt =====
-- How many elements of a list pass a test, and what a write changes of that.
use mathlib.Core.Path.{◌≡◌, refl, ap}
use mathlib.Core.Logic.{◌≢◌, inl, inr}
use mathlib.Core.List.{List, [], ◌∷◌, map}
use mathlib.Core.Option.{some, some-injective}
use mathlib.Core.Bool.{Bool, true, false}
use Prim.Native.Nat.{ℕ, zero, suc, ◌+◌, ◌<◌, ◌≤◌}
use native.Mathlib.Omega.{arith}
use cmsc421_os.Prelude.Tests.{Bool-cases}
use cmsc421_os.Prelude.Lists.{length, get_elem?, set}

abbrev pub one_if : Bool → ℕ
one_if true = 1
one_if false = 0

module _ {ℓ} {A : Type ℓ} (p : A → Bool) where
  unfoldable pub count_if : List A → ℕ
  count_if [] = 0
  count_if (x ∷ xs) = one_if (p x) + count_if xs

  pub count_if-le : (xs : List A) → count_if xs ≤ length xs
  unfolding count_if
  count_if-le [] = omega arith
  count_if-le (x ∷ xs) = ground (arith, count_if-le xs)

  pub count_if-set :
      (xs : List A) (i : ℕ) (y : A) {x : A}
      → get_elem? xs i ≡ some x
      → count_if (set xs i y) + one_if (p x) ≡ count_if xs + one_if (p y)
  unfolding count_if
  count_if-set [] i y e = cc
  count_if-set (x ∷ xs) zero y {x = z} e =
      let same : x ≡ z = some-injective x z e in rw same (omega arith)
  count_if-set (x ∷ xs) (suc i) y e = omega (arith, count_if-set xs i y e)

  pub count_if_pos :
      (xs : List A) → 0 < count_if xs → (i : ℕ) × (x : A) × (get_elem? xs i ≡ some x) × (p x ≡ true)
  unfolding count_if
  count_if_pos [] h = absurd (omega arith)
  count_if_pos (x ∷ xs) h = elim (Bool-cases (p x)) [
    | inl here ↦ (0, x, refl, here)
    | inr there ↦ let (i, y, e, t) = count_if_pos xs (ground arith) in (suc i, y, e, t)
  ]

  pub count_if_one :
      (xs : List A) (i : ℕ) {x : A} → get_elem? xs i ≡ some x → p x ≡ true → 1 ≤ count_if xs
  unfolding count_if
  count_if_one [] i e t = cc
  count_if_one (x ∷ xs) zero {x = z} e t = let same : x ≡ z = some-injective x z e in ground arith
  count_if_one (x ∷ xs) (suc i) e t = omega (arith, count_if_one xs i e t)

  pub count_if_two :
      (xs : List A) (i j : ℕ) {x y : A}
      → get_elem? xs i ≡ some x
      → get_elem? xs j ≡ some y
      → p x ≡ true
      → p y ≡ true
      → i ≢ j
      → 2 ≤ count_if xs
  unfolding count_if
  count_if_two [] i j e f s t ne = cc
  count_if_two (x ∷ xs) zero zero e f s t ne = absurd (ne refl)
  count_if_two (x ∷ xs) zero (suc j) {x = z} e f s t ne =
      let same : x ≡ z = some-injective x z e in ground (arith, count_if_one xs j f t)
  count_if_two (x ∷ xs) (suc i) zero {y = z} e f s t ne =
      let same : x ≡ z = some-injective x z f in ground (arith, count_if_one xs i e s)
  count_if_two (x ∷ xs) (suc i) (suc j) e f s t ne =
      omega (arith, count_if_two xs i j e f s t (λ same. ne (ap suc same)))

module _ {ℓ κ} {A : Type ℓ} {B : Type κ} (p : A → Bool) (q : B → Bool) where
  pub count_if-map :
      (g : B → A)
      → ((x : B) → p (g x) ≡ q x)
      → (xs : List B) → count_if p (map g xs) ≡ count_if q xs
  unfolding count_if
  count_if-map g same [] = refl
  count_if-map g same (x ∷ xs) = rw (same x) (omega (arith, count_if-map g same xs))
