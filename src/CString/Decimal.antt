-- ===== src/CString/Decimal.antt =====
-- The conversion `%d`: ASCII digits of an `int`, given as its bit pattern below 2^32.
use native.Mathlib.Nat.{pow-suc}
use cmsc421_os.Prelude.{
  ℕ, zero, suc, ◌+◌, ◌-◌, ◌*◌, ◌/◌, ◌%◌, ◌^◌, ◌≤◌, ◌<◌, ◌≡◌, ◌↔◌, refl, List, [], ◌∷◌, ◌++◌, arith,
  ltb, if◌then◌else◌, length, length-append,
}
use cmsc421_os.CString.Laws.{NoZero, NoZero-append}
use cmsc421_os.Prelude.Int.{ℤ, pos, negsuc}

-- Digits of `n`, most significant first, at most `fuel + 1` of them.
unfoldable pub digits : (fuel : ℕ) → ℕ → List ℕ
digits zero n = (48 + n % 10) ∷ []
digits (suc f) n =
    let front = digits f (n / 10) in if ltb n 10 then (48 + n) ∷ [] else front ++ (48 + n % 10) ∷ []

-- Ten digits are enough below 2^32.
unfoldable pub decimal : ℕ → List ℕ
unfolding digits
decimal n = digits 9 n

-- The `int` that a bit pattern stands for, and the bit pattern of an `int`.
abbrev pub int_of : ℕ → ℤ
int_of w = if ltb w (2 ^ 31) then pos w else negsuc (2 ^ 32 - 1 - w)

abbrev pub bits_of : ℤ → ℕ
bits_of (pos n) = n
bits_of (negsuc n) = 2 ^ 32 - 1 - n

abbrev pub signed : ℤ → List ℕ
signed (pos n) = decimal n
signed (negsuc n) = b'-' ∷ decimal (n + 1)

unfoldable pub percent_d : ℕ → List ℕ
unfolding decimal
percent_d w = signed (int_of w)

-- The number that a list of digits reads as, after the digits read already.
unfoldable pub value_from : ℕ → List ℕ → ℕ
value_from acc [] = acc
value_from acc (c ∷ cs) = value_from (acc * 10 + (c - 48)) cs

value_from-append :
    (xs : List ℕ) (acc c : ℕ) → value_from acc (xs ++ c ∷ []) ≡ value_from acc xs * 10 + (c - 48)
unfolding value_from
value_from-append [] acc c = refl
value_from-append (x ∷ xs) acc c = value_from-append xs (acc * 10 + (x - 48)) c

below : (f n : ℕ) → n < 10 ^ suc (suc f) → n / 10 < 10 ^ suc f
below f n h = omega (arith, pow-suc 10 (suc f))

value_from-digits : (f n : ℕ) → n < 10 ^ suc f → value_from 0 (digits f n) ≡ n
unfolding value_from digits
value_from-digits zero n h = omega arith
value_from-digits (suc f) n h = ground (
  arith,
  value_from-append (digits f (n / 10)) 0 (48 + n % 10),
  value_from-digits f (n / 10) (below f n h),
)

-- `%d` loses nothing: its digits read as the number.
pub value-decimal : (n : ℕ) → n < 2 ^ 32 → value_from 0 (decimal n) ≡ n
unfolding decimal
value-decimal n h = value_from-digits 9 n (omega arith)

length-digits : (f n : ℕ) → (1 ≤ length (digits f n)) × (length (digits f n) ≤ suc f)
unfolding digits
length-digits zero n = omega arith
length-digits (suc f) n =
    ground
      (arith, length-digits f (n / 10), length-append {0} (digits f (n / 10)) ((48 + n % 10) ∷ []))

pub length-decimal : (n : ℕ) → (1 ≤ length (decimal n)) × (length (decimal n) ≤ 10)
unfolding decimal
length-decimal n = length-digits 9 n

pub percent_d_one : (n : ℕ) → n < 10 → percent_d n ≡ (48 + n) ∷ []
unfolding percent_d
percent_d_one n h = ground arith

NoZero-digits : (f n : ℕ) → NoZero (digits f n)
unfolding digits
NoZero-digits zero n = omega arith
NoZero-digits (suc f) n = ground (
  arith,
  NoZero-append (digits f (n / 10)) ((48 + n % 10) ∷ []) (NoZero-digits f (n / 10)) (omega arith),
)

NoZero-signed : (z : ℤ) → NoZero (signed z)
unfolding decimal
NoZero-signed (pos n) = NoZero-digits 9 n
NoZero-signed (negsuc n) = (omega arith, NoZero-digits 9 (n + 1))

pub NoZero-percent_d : (w : ℕ) → NoZero (percent_d w)
unfolding percent_d
NoZero-percent_d w = NoZero-signed (int_of w)

length-decimal_many : (n : ℕ) → 10 ≤ n → 2 ≤ length (decimal n)
unfolding decimal digits
length-decimal_many n h =
    ground
      (arith, length-digits 8 (n / 10), length-append {0} (digits 8 (n / 10)) ((48 + n % 10) ∷ []))

-- One character exactly for one digit.
pub length-percent_d :
    (n : ℕ) → (1 ≤ length (percent_d n)) × ((length (percent_d n) ≡ 1) ↔ (n < 10))
unfolding percent_d
length-percent_d n = ground (
  arith,
  length-decimal n,
  length-decimal_many n,
  length-decimal (2 ^ 32 - 1 - n + 1),
  percent_d_one n,
)
