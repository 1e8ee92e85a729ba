-- ===== src/Ports.antt =====
-- hw1/hw1.c: prints the ranges of ports and of memory that are assigned to a device. The
-- files hold no zero byte.
pub mod Text
mod Tests
use cmsc421_os.Prelude.{
  ℕ, zero, suc, ◌+◌, ◌-◌, Bool, true, false, ◌&&◌, ◌||◌, Option, none, some, List, [], ◌∷◌, ◌++◌,
  ltb, leb, ◌==◌, if◌then◌else◌,
}
use cmsc421_os.CString.{codes}

-- `isspace` of the C locale.
abbrev pub isspace : ℕ → Bool
isspace c = c == 32 || (ltb 8 c && ltb c 14)

unfoldable pub skip_spaces : List ℕ → List ℕ
skip_spaces [] = []
skip_spaces (c ∷ cs) = let rest = skip_spaces cs in if isspace c then rest else c ∷ cs

-- One more byte in front of what is kept.
abbrev pub keep : ℕ → List ℕ → List ℕ
keep c [] = if isspace c then [] else c ∷ []
keep c (d ∷ ds) = c ∷ d ∷ ds

-- Without the spaces at its end.
unfoldable pub drop_spaces : List ℕ → List ℕ
drop_spaces [] = []
drop_spaces (c ∷ cs) = keep c (drop_spaces cs)

-- The argument as the program trims it: the first byte left is no space, so that the loop from the end
-- stops there at the latest.
unfoldable pub trim : List ℕ → List ℕ
trim text = drop_spaces (skip_spaces text)

abbrev pub starts_with : List ℕ → List ℕ → Bool
starts_with [] cs = true
starts_with (n ∷ ns) [] = false
starts_with (n ∷ ns) (c ∷ cs) = n == c && starts_with ns cs

-- `strstr(text, name) != NULL`
unfoldable pub strstr : List ℕ → List ℕ → Bool
strstr name [] = starts_with name []
strstr name (c ∷ cs) = starts_with name (c ∷ cs) || strstr name cs

-- What stands before the first colon; without one the program writes through NULL.
unfoldable pub before_colon : List ℕ → Option (List ℕ)
before_colon [] = none
before_colon (c ∷ cs) =
    let rest : Option (List ℕ) = elim (before_colon cs) [
      | none ↦ none
      | some cs' ↦ some (c ∷ cs')
    ] in
    if c == b':' then some [] else rest

-- The calls of `fgets` with 100 bytes: a line with its end, or the next 99 bytes of it. `room` is what
-- is left for the line begun.
unfoldable pub lines : (room : ℕ) → (begun : List ℕ) → List ℕ → List (List ℕ)
lines room [] [] = []
lines room (b ∷ begun) [] = (b ∷ begun) ∷ []
lines room begun (c ∷ cs) =
    let full : Bool = c == 10 || leb room 1 in
    let line : List ℕ = begun ++ c ∷ [] in
    let rest = lines (if full then 99 else room - 1) (if full then [] else line) cs in
    if full then line ∷ rest else rest

-- The loop over the lines of one file: what it prints, and the number of lines found. `none` is a
-- write through NULL.
unfoldable pub matches : (name : List ℕ) → List (List ℕ) → Option (List ℕ × ℕ)
matches name [] = some ([], 0)
matches name (line ∷ more) =
    let rest = matches name more in
    if strstr name line
    then elim (before_colon line) [
      | none ↦ none
      | some address ↦ elim rest [
        | none ↦ none
        | some (text, n) ↦ some (skip_spaces address ++ 10 ∷ text, n + 1)
      ]
    ]
    else rest

-- One of the two files: its bytes, if it can be opened.
unfoldable pub look_up :
    (title : List ℕ) (missing : List ℕ) (name : List ℕ) → Option (List ℕ) → Option (List ℕ)
look_up title missing name none = some missing
look_up title missing name (some bytes) = elim (matches name (lines 99 [] bytes)) [
  | none ↦ none
  | some (text, n) ↦ some (title ++ text ++ (if n == 0 then missing else []))
]

-- The texts of the arguments behind the name of the program, and the two files.
unfoldable pub run : List (List ℕ) → (ioports iomem : Option (List ℕ)) → Option (List ℕ)
run [] ioports iomem = some (codes "No device given.\n")
run (name ∷ []) ioports iomem =
    elim (look_up (codes "ioports:\n") (codes "No matching entry found in /proc/ioports\n")
      (trim name) ioports) [
        | none ↦ none
        | some first ↦
            elim (look_up (codes "iomem:\n") (codes "No matching entry found in /proc/iomem\n")
              (trim name) iomem) [ none ↦ none | some second ↦ some (first ++ second) ]
      ]
run (name ∷ other ∷ others) ioports iomem = some (codes "Multiple devices given.\n")
