-- ===== src/TrickOrTreat/File/Printed.antt =====
-- A file for hw3/hw3.c that is written as its numbers, and what `main` reads of it.
use cmsc421_os.Prelude.{
  ℕ, zero, suc, ◌+◌, ◌≤◌, ◌<◌, ◌≡◌, refl, sym, ap, ◌∙◌, arith, false, some, List, [], ◌∷◌, ◌++◌,
  All, length, length-append, ◌==◌,
}
use cmsc421_os.Prelude.Int.{ℤ, pos, ltb_ℤ}
use cmsc421_os.TrickOrTreat.{num_of_houses}
use cmsc421_os.TrickOrTreat.Threads.Load.{begin}
use cmsc421_os.TrickOrTreat.File.{
  piece, fgets, reads, house_row, pair_row, load_houses, load_groups, load_refills, load, number,
}
use cmsc421_os.TrickOrTreat.File.Numbers.{
  InRange, Numeral, IsNumber, number-IsNumber, atoi-number, next_number_lem, next_number_end,
  newline,
}

-- A line with three numbers, or two, and what follows it.
unfoldable pub triple_text : ℤ × ℤ × ℤ → List ℕ → List ℕ
triple_text (x, y, c) rest = number x ++ 32 ∷ (number y ++ 32 ∷ (number c ++ 10 ∷ rest))

unfoldable pub pair_text : ℕ × ℤ → List ℕ → List ℕ
pair_text (i, n) rest = number (pos i) ++ 32 ∷ (number n ++ 10 ∷ rest)

unfoldable pub triples_text : List (ℤ × ℤ × ℤ) → List ℕ → List ℕ
triples_text [] rest = rest
triples_text (row ∷ rows) rest = triple_text row (triples_text rows rest)

unfoldable pub pairs_text : List (ℕ × ℤ) → List ℕ → List ℕ
pairs_text [] rest = rest
pairs_text (row ∷ rows) rest = pair_text row (pairs_text rows rest)

unfoldable pub file_text : (rows : List (ℤ × ℤ × ℤ)) (groups refills : List (ℕ × ℤ)) → List ℕ
file_text rows groups refills =
    number (pos (length groups))
    ++ 10 ∷ triples_text rows (pairs_text groups (pairs_text refills []))

abbrev pub Triple : ℤ × ℤ × ℤ → Type 0
Triple (x, y, c) = InRange x × InRange y × InRange c

abbrev pub Pair : ℕ × ℤ → Type 0
Pair (i, n) = InRange (pos i) × InRange n

-- With room for `n` bytes the text is cut into this line and the rest.
record Cuts (n : ℕ) (text line rest : List ℕ) : Type 0 where
  cut : (m : ℕ) → n ≤ m → piece m text ≡ (line, rest)

Cuts-end : (rest : List ℕ) → Cuts 1 (10 ∷ rest) (10 ∷ []) rest
unfolding piece
Cuts-end rest = record { cut = go }
  where
    go : (m : ℕ) → 1 ≤ m → piece m (10 ∷ rest) ≡ (10 ∷ [], rest)
    go zero h = absurd (omega arith)
    go (suc m) h = refl

Cuts-one :
    {n : ℕ} {text line rest : List ℕ} (c : ℕ)
    → (c == 10) ≡ false
    → Cuts n text line rest
    → Cuts (n + 1) (c ∷ text) (c ∷ line) rest
unfolding piece
Cuts-one {n} {text} {line} {rest} c e k = record { cut = go }
  where
    go : (m : ℕ) → n + 1 ≤ m → piece m (c ∷ text) ≡ (c ∷ line, rest)
    go zero h = absurd (omega arith)
    go (suc m) h = rw (k.cut m (omega arith), e) refl

Cuts-word :
    {n : ℕ} {text line rest : List ℕ} (cs : List ℕ)
    → All Numeral cs
    → Cuts n text line rest
    → Cuts (n + length cs) (cs ++ text) (cs ++ line) rest
Cuts-word [] h k = record { cut = λ m le. k.cut m (omega (arith, le)) }
Cuts-word (c ∷ cs) h k =
    let one = Cuts-one c (ground (arith, h.0)) (Cuts-word cs h.1 k) in
    record { cut = λ m le. one.cut m (omega (arith, le)) }

Cuts-number :
    {n : ℕ} {text line rest : List ℕ} (z : ℤ)
    → InRange z
    → Cuts n text line rest
    → Cuts (n + 11) (number z ++ text) (number z ++ line) rest
Cuts-number z h k =
    let word = number-IsNumber z h in
    let whole = Cuts-word (number z) word.2 k in
    record { cut = λ m le. whole.cut m (omega (arith, word.1, le)) }

fgets_lem :
    (cs text : List ℕ) {line rest : List ℕ}
    → IsNumber cs
    → piece 80 (cs ++ text) ≡ (line, rest)
    → fgets (cs ++ text) ≡ some (line, rest)
unfolding fgets
fgets_lem [] text word e = absurd (omega (arith, word.0))
fgets_lem (c ∷ cs) text word e = rw e refl

fgets-Triple :
    (row : ℤ × ℤ × ℤ) (rest : List ℕ)
    → Triple row
    → fgets (triple_text row rest) ≡ some (triple_text row [], rest)
unfolding triple_text
fgets-Triple (x, y, c) rest (hx, hy, hc) = fgets_lem (number x) _ (number-IsNumber x hx) (
    (Cuts-number x hx (
        Cuts-one 32 refl
          (Cuts-number y hy (Cuts-one 32 refl (Cuts-number c hc (Cuts-end rest)))))).cut
      80 (omega arith))

fgets-Pair :
    (row : ℕ × ℤ) (rest : List ℕ)
    → Pair row
    → fgets (pair_text row rest) ≡ some (pair_text row [], rest)
unfolding pair_text
fgets-Pair (i, n) rest (hi, hn) = fgets_lem (number (pos i)) _ (number-IsNumber (pos i) hi) (
    (Cuts-number (pos i) hi (Cuts-one 32 refl (Cuts-number n hn (Cuts-end rest)))).cut 80
      (omega arith))

house_row_lem : (row : ℤ × ℤ × ℤ) → Triple row → house_row (triple_text row []) ≡ reads row
unfolding triple_text house_row
house_row_lem (x, y, c) (hx, hy, hc) =
    rw
      (
        next_number_lem x (number y ++ 32 ∷ (number c ++ 10 ∷ [])) hx,
        next_number_lem y (number c ++ 10 ∷ []) hy,
        next_number_end c hc,
      )
      refl

pair_row_lem : (row : ℕ × ℤ) → Pair row → pair_row (pair_text row []) ≡ reads row
unfolding pair_text pair_row
pair_row_lem (i, n) (hi, hn) =
    let whole : ltb_ℤ (pos i) (pos 0) ≡ false = ground arith in
    rw (next_number_lem (pos i) (number n ++ 10 ∷ []) hi, next_number_end n hn, whole) refl

load_houses_lem :
    (rows : List (ℤ × ℤ × ℤ)) (rest : List ℕ)
    → All Triple rows
    → load_houses (length rows) (triples_text rows rest) ≡ reads (rows, rest)
unfolding load_houses triples_text
load_houses_lem [] rest h = refl
load_houses_lem (row ∷ rows) rest (h, hs) =
    rw
      (
        load_houses,
        fgets-Triple row (triples_text rows rest) h,
        house_row_lem row h,
        load_houses_lem rows rest hs,
      )
      refl

load_groups_lem :
    (rows : List (ℕ × ℤ)) (rest : List ℕ)
    → All Pair rows
    → load_groups (length rows) (pairs_text rows rest) ≡ reads (rows, rest)
unfolding load_groups pairs_text
load_groups_lem [] rest h = refl
load_groups_lem (row ∷ rows) rest (h, hs) =
    rw
      (
        load_groups,
        fgets-Pair row (pairs_text rows rest) h,
        pair_row_lem row h,
        load_groups_lem rows rest hs,
      )
      refl

at_end : (n : ℕ) → load_refills n [] ≡ reads []
unfolding load_refills fgets
at_end zero = refl
at_end (suc n) = refl

load_refills_lem :
    (rows : List (ℕ × ℤ)) (n : ℕ)
    → length rows ≤ n
    → All Pair rows
    → load_refills n (pairs_text rows []) ≡ reads rows
unfolding load_refills pairs_text
load_refills_lem [] n le h = at_end n
load_refills_lem (row ∷ rows) zero le h = absurd (omega (arith, le))
load_refills_lem (row ∷ rows) (suc n) le (h, hs) =
    rw
      (
        load_refills,
        fgets-Pair row (pairs_text rows []) h,
        pair_row_lem row h,
        load_refills_lem rows n (omega (arith, le)) hs,
      )
      refl

length-pair_text : (row : ℕ × ℤ) (rest : List ℕ) → length rest < length (pair_text row rest)
unfolding pair_text
length-pair_text (i, n) rest = omega (
  arith,
  length-append {0} (number (pos i)) (32 ∷ (number n ++ 10 ∷ rest)),
  length-append {0} (number n) (10 ∷ rest),
)

enough : (rows : List (ℕ × ℤ)) → length rows ≤ length (pairs_text rows [])
unfolding pairs_text
enough [] = omega arith
enough (row ∷ rows) = omega (arith, enough rows, length-pair_text row (pairs_text rows []))

-- What a file may hold.
pub record IsPrintable (rows : List (ℤ × ℤ × ℤ)) (groups refills : List (ℕ × ℤ)) : Type 0 where
  pub ten : length rows ≡ num_of_houses
  pub houses : All Triple rows
  pub count : InRange (pos (length groups))
  pub groups_in_range : All Pair groups
  pub refills_in_range : All Pair refills

-- Of a file that is written as its numbers, line by line, with ten houses and all numbers in the range of
-- an `int`, `main` reads exactly these houses, groups and lines that add candy.
pub load-file_text :
    (rows : List (ℤ × ℤ × ℤ)) (groups refills : List (ℕ × ℤ))
    → IsPrintable rows groups refills
    → load (file_text rows groups refills) ≡ reads (begin rows groups refills)
unfolding load file_text
load-file_text rows groups refills h =
    let rest : List ℕ = triples_text rows (pairs_text groups (pairs_text refills [])) in
    let k : ℤ = pos (length groups) in
    let first : fgets (number k ++ 10 ∷ rest) ≡ some (number k ++ 10 ∷ [], rest) =
      fgets_lem (number k) (10 ∷ rest) (number-IsNumber k h.count)
        ((Cuts-number k h.count (Cuts-end rest)).cut 80 (omega arith)) in
    let houses : load_houses 10 rest ≡ reads (rows, pairs_text groups (pairs_text refills [])) =
      ap (λ n. load_houses n rest) (sym h.ten)
      ∙ load_houses_lem rows (pairs_text groups (pairs_text refills [])) h.houses in
    rw
      (
        load,
        first,
        houses,
        atoi-number k (10 ∷ []) h.count newline,
        load_groups_lem groups (pairs_text refills []) h.groups_in_range,
        load_refills_lem refills (length (pairs_text refills [])) (enough refills)
            h.refills_in_range,
      )
      refl
