-- ===== src/TrickOrTreat/File.antt =====
-- How hw3/hw3.c reads its file and writes the status. A string is a list of bytes without a zero byte.
pub mod Numbers
pub mod Printed
mod Tests
use cmsc421_os.Prelude.{
  ℕ, zero, suc, ◌+◌, ◌-◌, ◌*◌, Bool, true, false, ◌&&◌, ◌||◌, Option, none, some, List, [], ◌∷◌,
  ◌++◌, leb, ◌==◌, if◌then◌else◌, length, map,
}
use cmsc421_os.Prelude.Int.{ℤ, pos, pos_part, neg_part, ◌+ℤ◌, ◌-ℤ◌, ltb_ℤ}
use cmsc421_os.Prelude.Sum.{sum_by}
use cmsc421_os.CString.{codes, concat}
use cmsc421_os.CString.Decimal.{bits_of, percent_d}
use cmsc421_os.TrickOrTreat.{num_of_houses, House, Group}
use cmsc421_os.TrickOrTreat.Threads.{World}
use cmsc421_os.TrickOrTreat.Threads.Load.{begin}

abbrev pub max_char_per_line : ℕ
max_char_per_line = 81

-- At most `n` bytes, up to the end of a line, and what follows.
unfoldable pub piece : (n : ℕ) → List ℕ → List ℕ × List ℕ
piece zero bytes = ([], bytes)
piece (suc n) [] = ([], [])
piece (suc n) (c ∷ cs) =
    let (line, rest) = piece n cs in if c == 10 then (c ∷ [], cs) else (c ∷ line, rest)

-- `fgets(temp, max_char_per_line, file)`; `none` at the end of the file.
unfoldable pub fgets : List ℕ → Option (List ℕ × List ℕ)
fgets [] = none
fgets (c ∷ cs) = some (piece (max_char_per_line - 1) (c ∷ cs))

abbrev pub is_space : ℕ → Bool
is_space c = c == 32 || (leb 9 c && leb c 13)

abbrev pub is_digit : ℕ → Bool
is_digit c = leb 48 c && leb c 57

unfoldable pub scan_digits : (value : ℕ) → List ℕ → ℕ
scan_digits value [] = value
scan_digits value (c ∷ cs) =
    let further = scan_digits (value * 10 + (c - 48)) cs in if is_digit c then further else value

-- `atoi`, of a number that fits an `int`.
unfoldable pub atoi : List ℕ → ℤ
atoi [] = pos 0
atoi (c ∷ cs) =
    let further = atoi cs in
    if is_space c
    then further
    else if c == b'-'
    then pos 0 -ℤ pos (scan_digits 0 cs)
    else if c == b'+'
    then pos (scan_digits 0 cs)
    else pos (scan_digits 0 (c ∷ cs))

unfoldable pub skip_delimiters : List ℕ → List ℕ
skip_delimiters [] = []
skip_delimiters (c ∷ cs) = let further = skip_delimiters cs in if c == b' ' then further else c ∷ cs

unfoldable pub cut_token : List ℕ → List ℕ × List ℕ
cut_token [] = ([], [])
cut_token (c ∷ cs) =
    let (token, rest) = cut_token cs in if c == b' ' then ([], cs) else (c ∷ token, rest)

-- `strtok(s, space)` with what the next `strtok(NULL, space)` goes on with; NULL is `none`.
unfoldable pub strtok : List ℕ → Option (List ℕ × List ℕ)
strtok s = elim (skip_delimiters s) [ [] ↦ none | c ∷ cs ↦ some (cut_token (c ∷ cs)) ]

-- How reading ends: with what was read, with `exit(EXIT_FAILURE)`, with the message on the arguments, or
-- undefined, by `atoi(NULL)` or an index below zero.
pub data Result (A : Type 0) : Type 0 where
  reads : A → Result A
  exits : Result A
  usage : Result A
  undefined : Result A

infixl 5 ◌>>=◌
abbrev pub ◌>>=◌ : {A B : Type 0} → Result A → (A → Result B) → Result B
reads a >>= next = next a
exits >>= next = exits
usage >>= next = usage
undefined >>= next = undefined

-- `atoi(strtok(…))`
unfoldable pub next_number : List ℕ → Result (ℤ × List ℕ)
next_number s = elim (strtok s) [ none ↦ undefined | some (token, rest) ↦ reads (atoi token, rest) ]

-- The number of a house.
abbrev pub index : ℤ → Result ℕ
index z = if ltb_ℤ z (pos 0) then undefined else reads (pos_part z)

unfoldable pub house_row : List ℕ → Result (ℤ × ℤ × ℤ)
house_row line = do
  (x, rest) ← next_number line
  (y, rest) ← next_number rest
  (candy, _) ← next_number rest
  reads (x, y, candy)

-- The line of a group, or one that adds candy.
unfoldable pub pair_row : List ℕ → Result (ℕ × ℤ)
pair_row line = do
  (z, rest) ← next_number line
  (n, _) ← next_number rest
  i ← index z
  reads (i, n)

unfoldable pub load_houses : (rounds : ℕ) → List ℕ → Result (List (ℤ × ℤ × ℤ) × List ℕ)
load_houses zero bytes = reads ([], bytes)
load_houses (suc n) bytes = elim (fgets bytes) [
  | none ↦ exits
  | some (line, rest) ↦ do
    row ← house_row line
    (rows, rest) ← load_houses n rest
    reads (row ∷ rows, rest)
]

-- A group without a line gets no thread.
unfoldable pub load_groups : (rounds : ℕ) → List ℕ → Result (List (ℕ × ℤ) × List ℕ)
load_groups zero bytes = reads ([], bytes)
load_groups (suc n) bytes = elim (fgets bytes) [
  | none ↦ reads ([], bytes)
  | some (line, rest) ↦ do
    row ← pair_row line
    (rows, rest) ← load_groups n rest
    reads (row ∷ rows, rest)
]

-- The lines that `neighborhoodFunction` reads one by one, undefined if one of them is.
unfoldable pub load_refills : (rounds : ℕ) → List ℕ → Result (List (ℕ × ℤ))
load_refills zero bytes = reads []
load_refills (suc n) bytes = elim (fgets bytes) [
  | none ↦ reads []
  | some (line, rest) ↦ do row ← pair_row line; rows ← load_refills n rest; reads (row ∷ rows)
]

-- `main` up to its loop, with the bytes of the file.
unfoldable pub load : List ℕ → Result World
load bytes = elim (fgets bytes) [
  | none ↦ exits
  | some (line, rest) ↦ do
    (houses, rest) ← load_houses num_of_houses rest
    (groups, rest) ← load_groups (pos_part (atoi line)) rest
    refills ← load_refills (length rest) rest
    reads (begin houses groups refills)
]

-- The time and the threads that `main` begins with, by its arguments and what `fopen` finds.
unfoldable pub main : (args : List (List ℕ)) → (List ℕ → Option (List ℕ)) → Result (ℤ × World)
main [] fopen = usage
main (name ∷ []) fopen = usage
main (name ∷ seconds ∷ []) fopen = elim (fopen name) [
  | none ↦ exits
  | some bytes ↦ do world ← load bytes; reads (atoi seconds, world)
]
main (name ∷ seconds ∷ more ∷ args) fopen = usage

-- `%d` of an integer
abbrev pub number : ℤ → List ℕ
number z = percent_d (bits_of z)

abbrev pub group_line : Group → List ℕ
group_line g = concat (
    codes "    "
    ∷ percent_d g.id
    ∷ codes ":  size "
    ∷ number g.num_of_kids
    ∷ codes ", going to "
    ∷ percent_d g.curr_house
    ∷ codes ", collected "
    ∷ number g.num_of_candy
    ∷ codes "\n"
    ∷ [])

abbrev pub house_line : (i : ℕ) → House → List ℕ
house_line i h = concat (
    codes "    "
    ∷ percent_d i
    ∷ codes " @ ("
    ∷ number h.x
    ∷ codes ", "
    ∷ number h.y
    ∷ codes "): "
    ∷ number h.num_of_candy
    ∷ codes " available\n"
    ∷ [])

unfoldable pub house_lines : (i : ℕ) → List House → List (List ℕ)
house_lines i [] = []
house_lines i (h ∷ hs) = house_line i h ∷ house_lines (i + 1) hs

-- What `printStatus` writes.
unfoldable pub print_status : List House → List Group → List ℕ
print_status houses groups = concat (
    codes "  Group statuses:\n"
    ∷ concat (map group_line groups)
    ∷ codes "  House statuses:\n"
    ∷ concat (house_lines 0 houses)
    ∷ codes "  Total candy: "
    ∷ number (sum_by (λ g. g.num_of_candy) groups)
    ∷ codes "\n"
    ∷ [])
