-- ===== src/Ports/Text.antt =====
-- What hw1/hw1.c makes of its argument and of the lines of a file.
use mathlib.Core.List.{append_assoc}
use cmsc421_os.Prelude.{
  ℕ, zero, suc, ◌+◌, ◌-◌, ◌≤◌, ◌≡◌, ◌≢◌, ◌↔◌, inl, inr, refl, ap, ◌∙◌, arith, Bool, true, false,
  ◌||◌, Bool-cases, Option-cases, none, some, List, [], ◌∷◌, ◌++◌, All, length, length-append,
  get_elem?, leb, ◌==◌,
}
use mathlib.Core.Option.{some-injective}
use cmsc421_os.CString.{concat}
use cmsc421_os.Ports.{
  isspace, skip_spaces, keep, drop_spaces, trim, strstr, before_colon, lines, matches,
}

append_nil : (xs : List ℕ) → xs ++ [] ≡ xs
append_nil [] = refl
append_nil (x ∷ xs) = ap (λ ys. x ∷ ys) (append_nil xs)

-- `fgets` goes on where it ended: the lines together with what is begun are the bytes.
concat-lines : (room : ℕ) (begun bytes : List ℕ) → concat (lines room begun bytes) ≡ begun ++ bytes
unfolding concat lines
concat-lines room [] [] = refl
concat-lines room (b ∷ begun) [] = refl
concat-lines room begun (c ∷ cs) = elim (Bool-cases (c == 10 || leb room 1)) [
  | inl full ↦
      rw full (
        ap (λ ys. (begun ++ c ∷ []) ++ ys) (concat-lines 99 [] cs) ∙ append_assoc begun (c ∷ []) cs)
  | inr open_line ↦
      rw open_line (concat-lines (room - 1) (begun ++ c ∷ []) cs ∙ append_assoc begun (c ∷ []) cs)
]

lines-short :
    (room : ℕ) (begun bytes : List ℕ)
    → 1 ≤ room
    → room + length begun ≡ 99
    → All (λ line. length line ≤ 99) (lines room begun bytes)
unfolding lines
lines-short room [] [] one e = tt
lines-short room (b ∷ begun) [] one e = (omega arith, tt)
lines-short room begun (c ∷ cs) one e = elim (Bool-cases (c == 10 || leb room 1)) [
  | inl full ↦ rw full (
    omega (arith, length-append {0} begun (c ∷ [])),
    lines-short 99 [] cs (omega arith) (omega arith),
  )
  | inr open_line ↦ rw open_line (
      lines-short (room - 1) (begun ++ c ∷ []) cs (ground (arith, open_line))
        (omega (arith, length-append {0} begun (c ∷ []))))
]

-- The pieces in which the program reads a file fit its array of 100 bytes with the zero that ends them,
-- and put together they are the file.
pub lines_lem :
    (bytes : List ℕ)
    → (concat (lines 99 [] bytes) ≡ bytes) × All (λ line. length line ≤ 99) (lines 99 [] bytes)
lines_lem bytes = (concat-lines 99 [] bytes, lines-short 99 [] bytes (omega arith) (omega arith))

Crash : (name : List ℕ) → List (List ℕ) → Type 0
Crash name ls =
    (i : ℕ) × (l : List ℕ) × (get_elem? ls i ≡ some l)
    × (strstr name l ≡ true)
    × (before_colon l ≡ none)

crashes : (name : List ℕ) (ls : List (List ℕ)) → matches name ls ≡ none → Crash name ls
unfolding matches Crash
crashes name [] e = cc
crashes name (line ∷ more) e = elim (Bool-cases (strstr name line)) [
  | inr other ↦
      let (i, l, at, found, open_range) = crashes name more (rw other at e) in
      (suc i, l, at, found, open_range)
  | inl found ↦ elim (Option-cases (before_colon line)) [
    | inl open_range ↦ (0, line, refl, found, open_range)
    | inr (address, closed) ↦ elim (Option-cases (matches name more)) [
      | inl later ↦
          let (i, l, at, found', open_range) = crashes name more later in
          (suc i, l, at, found', open_range)
      | inr (result, fine) ↦ absurd (ground (arith, found, closed, fine, e))
    ]
  ]
]

crashed :
    (name : List ℕ) (ls : List (List ℕ)) (i : ℕ) (l : List ℕ)
    → get_elem? ls i ≡ some l
    → strstr name l ≡ true
    → before_colon l ≡ none
    → matches name ls ≡ none
unfolding matches
crashed name [] i l at found open_range = cc
crashed name (line ∷ more) zero l at found open_range =
    let same : line ≡ l = some-injective line l at in rw (same, found, open_range) refl
crashed name (line ∷ more) (suc i) l at found open_range =
    let later = crashed name more i l at found open_range in
    elim (Bool-cases (strstr name line)) [
      | inr other ↦ rw (other, later) refl
      | inl here ↦ elim (Option-cases (before_colon line)) [
        | inl broken ↦ rw (here, broken) refl
        | inr (address, closed) ↦ rw (here, closed, later) refl
      ]
    ]

no_colon : (l : List ℕ) → before_colon l ≡ none → All (λ c. c ≢ b':') l
unfolding before_colon
no_colon [] e = tt
no_colon (c ∷ cs) e = elim (Option-cases (before_colon cs)) [
  | inl open_range ↦ (ground (arith, open_range, e), no_colon cs open_range)
  | inr (address, closed) ↦ absurd (ground (arith, closed, e))
]

colon_free : (l : List ℕ) → All (λ c. c ≢ b':') l → before_colon l ≡ none
unfolding before_colon
colon_free [] h = refl
colon_free (c ∷ cs) (ne, h) = let rest = colon_free cs h in ground (arith, rest, ne)

-- The program writes through NULL, looking through one file, exactly when some line that contains the
-- name has no colon.
pub matches-none :
    (name : List ℕ) (ls : List (List ℕ))
    → (matches name ls ≡ none) ↔ (
        (i : ℕ) × (l : List ℕ) × (get_elem? ls i ≡ some l)
        × (strstr name l ≡ true)
        × All (λ c. c ≢ b':') l)
unfolding Crash
matches-none name ls = (
  λ e.
      let (i, l, at, found, open_range) = crashes name ls e in
      (i, l, at, found, no_colon l open_range),
  λ w. crashed name ls w.0 w.1 w.2 w.3 (colon_free w.1 w.4),
)

abbrev pub AllBlank : List ℕ → Type 0
AllBlank = All (λ c. isspace c ≡ true)

abbrev pub starts_blank : List ℕ → Bool
starts_blank [] = false
starts_blank (c ∷ cs) = isspace c

abbrev pub ends_blank : List ℕ → Bool
ends_blank [] = false
ends_blank (c ∷ []) = isspace c
ends_blank (c ∷ d ∷ cs) = ends_blank (d ∷ cs)

skip_spaces_lem :
    (text : List ℕ)
    → (pre : List ℕ) × (text ≡ pre ++ skip_spaces text)
      × AllBlank pre
      × (starts_blank (skip_spaces text) ≡ false)
unfolding skip_spaces
skip_spaces_lem [] = ([], refl, tt, refl)
skip_spaces_lem (c ∷ cs) = elim (Bool-cases (isspace c)) [
  | inl blank ↦
      let (pre, e, blanks, clean) = skip_spaces_lem cs in
      rw blank (c ∷ pre, ap (λ ys. c ∷ ys) e, (blank, blanks), clean)
  | inr letter ↦ rw letter ([], refl, tt, letter)
]

-- `kept` is `text` without blanks at its end.
CutTo : (text kept : List ℕ) → Type 0
CutTo text kept =
    (post : List ℕ) × (text ≡ kept ++ post) × AllBlank post × (ends_blank kept ≡ false)

keep-CutTo : (c : ℕ) (cs kept : List ℕ) → CutTo cs kept → CutTo (c ∷ cs) (keep c kept)
unfolding CutTo
keep-CutTo c cs [] (post, e, blanks, clean) = elim (Bool-cases (isspace c)) [
  | inl blank ↦ rw blank (c ∷ post, ap (λ ys. c ∷ ys) e, (blank, blanks), refl)
  | inr letter ↦ rw letter (post, ap (λ ys. c ∷ ys) e, blanks, letter)
]
keep-CutTo c cs (d ∷ ds) (post, e, blanks, clean) = (post, ap (λ ys. c ∷ ys) e, blanks, clean)

drop_spaces-CutTo : (text : List ℕ) → CutTo text (drop_spaces text)
unfolding CutTo drop_spaces
drop_spaces-CutTo [] = ([], refl, tt, refl)
drop_spaces-CutTo (c ∷ cs) = keep-CutTo c cs (drop_spaces cs) (drop_spaces-CutTo cs)

starts_blank-keep : (c : ℕ) (kept : List ℕ) → isspace c ≡ false → starts_blank (keep c kept) ≡ false
starts_blank-keep c [] letter = rw letter letter
starts_blank-keep c (d ∷ ds) letter = letter

starts_blank-drop_spaces :
    (text : List ℕ) → starts_blank text ≡ false → starts_blank (drop_spaces text) ≡ false
unfolding drop_spaces
starts_blank-drop_spaces [] e = refl
starts_blank-drop_spaces (c ∷ cs) e = starts_blank-keep c (drop_spaces cs) e

-- What is searched for is the argument without blanks at its ends: only blanks are cut off on each side,
-- and it neither begins nor ends with one.
pub trim_lem :
    (text : List ℕ)
    → (pre : List ℕ) × (post : List ℕ) × (text ≡ pre ++ (trim text ++ post))
      × AllBlank pre
      × AllBlank post
      × (starts_blank (trim text) ≡ false)
      × (ends_blank (trim text) ≡ false)
unfolding trim CutTo
trim_lem text =
    let (pre, e, blanks, clean) = skip_spaces_lem text in
    let (post, f, blanks', clean') = drop_spaces-CutTo (skip_spaces text) in
    (
      pre,
      post,
      e ∙ ap (λ ys. pre ++ ys) f,
      blanks,
      blanks',
      starts_blank-drop_spaces (skip_spaces text) clean,
      clean',
    )
