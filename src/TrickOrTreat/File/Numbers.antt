-- ===== src/TrickOrTreat/File/Numbers.antt =====
-- How the numbers in a line of hw3/hw3.c are read.
use cmsc421_os.Prelude.{
  ℕ, zero, suc, ◌+◌, ◌-◌, ◌*◌, ◌/◌, ◌%◌, ◌^◌, ◌≤◌, ◌<◌, ◌≡◌, refl, ap, sym, ◌∙◌, arith, List, [],
  ◌∷◌, ◌++◌, All, All-append, some, length,
}
use cmsc421_os.Prelude.Int.{ℤ, pos, negsuc, int_laws}
use cmsc421_os.CString.Decimal.{
  digits, decimal, value_from, value-decimal, length-decimal, percent_d, signed,
}
use cmsc421_os.TrickOrTreat.File.{
  scan_digits, atoi, skip_delimiters, cut_token, strtok, reads, next_number, number,
}

-- An `int`.
abbrev pub InRange : ℤ → Type 0
InRange (pos n) = n < 2 ^ 31
InRange (negsuc n) = n < 2 ^ 31

abbrev Digit : ℕ → Type 0
Digit c = (48 ≤ c) × (c ≤ 57)

-- A byte of a number: a digit or a sign.
abbrev pub Numeral : ℕ → Type 0
Numeral c = (45 ≤ c) × (c ≤ 57)

All-digits : (f n : ℕ) → All Digit (digits f n)
unfolding digits
All-digits zero n = (omega arith, tt)
All-digits (suc f) n =
    ground
      (arith, All-append Digit (digits f (n / 10)) ((48 + n % 10) ∷ []) (All-digits f (n / 10)))

numerals : (cs : List ℕ) → All Digit cs → All Numeral cs
numerals [] h = tt
numerals (c ∷ cs) (d, ds) = (omega (arith, d), numerals cs ds)

-- No digit begins the text.
abbrev pub Stops : List ℕ → Type 0
Stops rest = (v : ℕ) → scan_digits v rest ≡ v

scan_digits_lem :
    (ds rest : List ℕ) (v : ℕ)
    → All Digit ds
    → Stops rest
    → scan_digits v (ds ++ rest) ≡ value_from v ds
unfolding scan_digits value_from
scan_digits_lem [] rest v h stops = stops v
scan_digits_lem (d ∷ ds) rest v h stops =
    ground (arith, h.0, scan_digits_lem ds rest (v * 10 + (d - 48)) h.1 stops)

atoi_digits :
    (ds rest : List ℕ)
    → 1 ≤ length ds
    → All Digit ds
    → Stops rest
    → atoi (ds ++ rest) ≡ pos (value_from 0 ds)
unfolding atoi
atoi_digits [] rest none_left h stops = absurd (omega (arith, none_left))
atoi_digits (d ∷ ds) rest some_digit h stops =
    ground (arith, h.0, scan_digits_lem (d ∷ ds) rest 0 h stops)

signed_lem : (z : ℤ) → InRange z → number z ≡ signed z
unfolding percent_d
signed_lem (pos n) h = ground (arith, h)
signed_lem (negsuc n) h = ground (arith, h)

abbrev pub IsNumber : List ℕ → Type 0
IsNumber cs = (1 ≤ length cs) × (length cs ≤ 11) × All Numeral cs

signed-IsNumber : (z : ℤ) → InRange z → IsNumber (signed z)
unfolding decimal
signed-IsNumber (pos n) h =
    let (one, ten) = length-decimal n in
    (one, omega (arith, ten), numerals (digits 9 n) (All-digits 9 n))
signed-IsNumber (negsuc n) h =
    let (one, ten) = length-decimal (n + 1) in
    (
      omega arith,
      omega (arith, ten),
      (omega arith, numerals (digits 9 (n + 1)) (All-digits 9 (n + 1))),
    )

pub number-IsNumber : (z : ℤ) → InRange z → IsNumber (number z)
number-IsNumber z h = rw (signed_lem z h) (signed-IsNumber z h)

atoi-signed : (z : ℤ) (rest : List ℕ) → InRange z → Stops rest → atoi (signed z ++ rest) ≡ z
unfolding decimal atoi
atoi-signed (pos n) rest h stops =
    let (one, ten) = length-decimal n in
    atoi_digits (digits 9 n) rest one (All-digits 9 n) stops
    ∙ ap pos (value-decimal n (omega (arith, h)))
atoi-signed (negsuc n) rest h stops =
    let read : scan_digits 0 (decimal (n + 1) ++ rest) ≡ n + 1 =
      scan_digits_lem (digits 9 (n + 1)) rest 0 (All-digits 9 (n + 1)) stops
      ∙ value-decimal (n + 1) (omega (arith, h)) in
    rw read (omega int_laws)

-- A printed number reads as itself, up to what no digit begins.
pub atoi-number : (z : ℤ) (rest : List ℕ) → InRange z → Stops rest → atoi (number z ++ rest) ≡ z
atoi-number z rest h stops = rw (signed_lem z h) (atoi-signed z rest h stops)

pub newline : Stops (10 ∷ [])
unfolding scan_digits
newline v = refl

end : Stops []
unfolding scan_digits
end v = refl

append-[] : (cs : List ℕ) → cs ++ [] ≡ cs
append-[] [] = refl
append-[] (c ∷ cs) = ap (λ ds. c ∷ ds) (append-[] cs)

atoi_alone : (z : ℤ) → InRange z → atoi (number z) ≡ z
atoi_alone z h = ap atoi (sym (append-[] (number z))) ∙ atoi-number z [] h end

cut_token_lem : (cs rest : List ℕ) → All Numeral cs → cut_token (cs ++ 32 ∷ rest) ≡ (cs, rest)
unfolding cut_token
cut_token_lem [] rest h = refl
cut_token_lem (c ∷ cs) rest h = ground (arith, h.0, cut_token_lem cs rest h.1)

cut_token_end : (cs : List ℕ) → All Numeral cs → cut_token (cs ++ 10 ∷ []) ≡ (cs ++ 10 ∷ [], [])
unfolding cut_token
cut_token_end [] h = refl
cut_token_end (c ∷ cs) h = ground (arith, h.0, cut_token_end cs h.1)

skip_delimiters_lem : (c : ℕ) (cs : List ℕ) → Numeral c → skip_delimiters (c ∷ cs) ≡ c ∷ cs
unfolding skip_delimiters
skip_delimiters_lem c cs h = ground (arith, h)

strtok_lem : (cs rest : List ℕ) → IsNumber cs → strtok (cs ++ rest) ≡ some (cut_token (cs ++ rest))
unfolding strtok cut_token
strtok_lem [] rest h = absurd (omega (arith, h.0))
strtok_lem (c ∷ cs) rest h = rw (strtok, skip_delimiters_lem c (cs ++ rest) h.2.0) refl

-- The next number of a line, before a space and at the end.
pub next_number_lem :
    (z : ℤ) (rest : List ℕ) → InRange z → next_number (number z ++ 32 ∷ rest) ≡ reads (z, rest)
unfolding next_number
next_number_lem z rest h =
    let word = number-IsNumber z h in
    rw
      (
        next_number,
        strtok_lem (number z) (32 ∷ rest) word,
        cut_token_lem (number z) rest word.2,
        atoi_alone z h,
      )
      refl

pub next_number_end : (z : ℤ) → InRange z → next_number (number z ++ 10 ∷ []) ≡ reads (z, [])
unfolding next_number
next_number_end z h =
    let word = number-IsNumber z h in
    rw
      (
        next_number,
        strtok_lem (number z) (10 ∷ []) word,
        cut_token_end (number z) word.2,
        atoi-number z (10 ∷ []) h newline,
      )
      refl
