-- ===== src/CString/Laws.antt =====
-- What the buffer functions leave in the buffer, read back as a string.
use cmsc421_os.Prelude.{
  ℕ, zero, suc, ◌+◌, ◌-◌, ◌≤◌, ◌<◌, ◌≡◌, refl, ap, List, [], ◌∷◌, ◌++◌, arith, ◌≢◌, inl, inr,
  length, take, drop, replicate, length-take, length-drop, length-append, ◌==◌, Bool-cases,
}
use mathlib.Core.Option.{some-injective}
use cmsc421_os.Prelude.{All, some, none, dec_lt, ◌↔◌, sym, ◌∙◌}
use cmsc421_os.CString.{concat, strlen, c_str, overwrite, memset_zero, scnprintf, strcat}

-- No byte is zero: the text is a string.
abbrev pub NoZero : List ℕ → Type 0
NoZero [] = Unit
NoZero (c ∷ cs) = (c ≢ 0) × NoZero cs

pub strlen-eq-length-c_str : (buf : List ℕ) → strlen buf ≡ length (c_str buf)
unfolding strlen c_str
strlen-eq-length-c_str [] = refl
strlen-eq-length-c_str (c ∷ cs) = ground (arith, strlen-eq-length-c_str cs)

pub strlen-le-length : (buf : List ℕ) → strlen buf ≤ length buf
unfolding strlen
strlen-le-length [] = omega arith
strlen-le-length (c ∷ cs) = ground (arith, strlen-le-length cs)

pub take-strlen : (buf : List ℕ) → take (strlen buf) buf ≡ c_str buf
unfolding strlen c_str
take-strlen [] = refl
take-strlen (c ∷ cs) = ground (arith, take-strlen cs)

pub NoZero-c_str : (buf : List ℕ) → NoZero (c_str buf)
unfolding c_str
NoZero-c_str [] = tt
NoZero-c_str (c ∷ cs) = ground (arith, NoZero-c_str cs)

pub NoZero-take : (n : ℕ) (text : List ℕ) → NoZero text → NoZero (take n text)
NoZero-take zero text h = tt
NoZero-take (suc n) [] h = tt
NoZero-take (suc n) (c ∷ cs) h = (h.0, NoZero-take n cs h.1)

pub NoZero-append : (xs ys : List ℕ) → NoZero xs → NoZero ys → NoZero (xs ++ ys)
NoZero-append [] ys hx hy = hy
NoZero-append (x ∷ xs) ys hx hy = (hx.0, NoZero-append xs ys hx.1 hy)

pub NoZero-concat : (pieces : List (List ℕ)) → All NoZero pieces → NoZero (concat pieces)
unfolding concat
NoZero-concat [] h = tt
NoZero-concat (p ∷ pieces) h = NoZero-append p (concat pieces) h.0 (NoZero-concat pieces h.1)

pub length-concat :
    (p : List ℕ) (pieces : List (List ℕ))
    → length (concat (p ∷ pieces)) ≡ length p + length (concat pieces)
unfolding concat
length-concat p pieces = length-append p (concat pieces)

pub length-overwrite : (buf bytes : List ℕ) → length (overwrite buf bytes) ≡ length buf
length-overwrite [] bytes = refl
length-overwrite (c ∷ buf) [] = refl
length-overwrite (c ∷ buf) (b ∷ bytes) = ap suc (length-overwrite buf bytes)

-- A string written with its zero over the start of a buffer is what the buffer then holds.
pub c_str-overwrite :
    (buf text : List ℕ)
    → NoZero text
    → length text < length buf
    → c_str (overwrite buf (text ++ 0 ∷ [])) ≡ text
unfolding c_str
c_str-overwrite [] text z h = absurd (omega arith)
c_str-overwrite (c ∷ buf) [] z h = refl
c_str-overwrite (c ∷ buf) (b ∷ text) z h =
    ground (arith, c_str-overwrite buf text z.1 (omega arith))

-- Zeros from some place on end the string there at the latest.
pub c_str-memset_zero : (buf : List ℕ) (n : ℕ) → 0 < n → c_str (memset_zero buf n) ≡ []
unfolding c_str memset_zero
c_str-memset_zero [] n h = refl
c_str-memset_zero (c ∷ buf) zero h = absurd (omega arith)
c_str-memset_zero (c ∷ buf) (suc n) h = refl

pub length-memset_zero : (buf : List ℕ) (n : ℕ) → length (memset_zero buf n) ≡ length buf
unfolding memset_zero
length-memset_zero buf n = length-overwrite buf (replicate n 0)

pub length-scnprintf :
    (buf text : List ℕ) (size : ℕ) → length (scnprintf buf size text) ≡ length buf
unfolding scnprintf
length-scnprintf buf text size = length-overwrite buf (take (size - 1) text ++ 0 ∷ [])

-- `scnprintf` with a size of at most that of the buffer leaves the text cut to `size - 1` bytes.
pub c_str-scnprintf :
    (buf text : List ℕ) (size : ℕ)
    → NoZero text
    → 0 < size
    → size ≤ length buf
    → c_str (scnprintf buf size text) ≡ take (size - 1) text
unfolding scnprintf
c_str-scnprintf buf text size z p h =
    c_str-overwrite buf (take (size - 1) text) (NoZero-take (size - 1) text z)
      (omega (arith, length-take (size - 1) text))

-- `strcat` runs over the end exactly when the two strings and the zero do not fit.
pub strcat-none :
    (buf text : List ℕ) → (strcat buf text ≡ none) ↔ (length buf ≤ strlen buf + length text)
unfolding strcat
strcat-none buf text = (λ e. ground arith, λ h. ground arith)

-- `scnprintf` leaves a string shorter than its size.
pub strlen-overwrite :
    (buf text : List ℕ)
    → length text < length buf
    → strlen (overwrite buf (text ++ 0 ∷ [])) ≤ length text
unfolding strlen
strlen-overwrite [] text h = absurd (omega arith)
strlen-overwrite (c ∷ buf) [] h = omega arith
strlen-overwrite (c ∷ buf) (b ∷ text) h = ground (arith, strlen-overwrite buf text)

pub strlen-scnprintf :
    (buf text : List ℕ) (size : ℕ)
    → 0 < size
    → size ≤ length buf
    → strlen (scnprintf buf size text) < size
unfolding scnprintf
strlen-scnprintf buf text size p h = omega (
  arith,
  strlen-overwrite buf (take (size - 1) text) (omega (arith, length-take {0} (size - 1) text)),
  length-take {0} (size - 1) text,
)

pub strlen-memset_zero : (buf : List ℕ) (n : ℕ) → 0 < n → strlen (memset_zero buf n) ≡ 0
unfolding strlen memset_zero
strlen-memset_zero [] n h = refl
strlen-memset_zero (c ∷ buf) zero h = absurd (omega arith)
strlen-memset_zero (c ∷ buf) (suc n) h = refl

module _ (text : List ℕ) (z : NoZero text) where
  splice : List ℕ → List ℕ
  splice buf = take (strlen buf) buf ++ overwrite (drop (strlen buf) buf) (text ++ 0 ∷ [])

  c_str-splice :
      (buf : List ℕ)
      → strlen buf + length text < length buf
      → c_str (splice buf) ≡ c_str buf ++ text
  unfolding c_str strlen splice
  c_str-splice [] h = absurd (omega arith)
  c_str-splice (c ∷ buf) h = elim (Bool-cases (c == 0)) [
    | inl e ↦ rw e (c_str-overwrite (c ∷ buf) text z (ground arith))
    | inr e ↦ ground (arith, c_str-splice buf)
  ]

  -- `strcat` appends, where the buffer has room for the text and its zero, and keeps the size.
  pub strcat_lem :
      (buf : List ℕ)
      → strlen buf + length text < length buf
      → (out : List ℕ) × (strcat buf text ≡ some out)
        × (c_str out ≡ c_str buf ++ text)
        × (length out ≡ length buf)
  unfolding strcat splice
  strcat_lem buf h = (
    splice buf,
    ground arith,
    c_str-splice buf h,
    omega (
      arith,
      length-append {0} (take (strlen buf) buf)
          (overwrite (drop (strlen buf) buf) (text ++ 0 ∷ [])),
      length-overwrite (drop (strlen buf) buf) (text ++ 0 ∷ []),
      length-take {0} (strlen buf) buf,
      length-drop {0} (strlen buf) buf,
    ),
  )

  -- What `strcat` does when it does not run over the end.
  pub strcat-some :
      (buf : List ℕ) {out : List ℕ}
      → strcat buf text ≡ some out
      → (c_str out ≡ c_str buf ++ text) × (length out ≡ length buf) × (strlen out < length out)
  strcat-some buf {out} e = elim (dec_lt (strlen buf + length text) (length buf)) [
    | yes room ↦ fits room
    | no full ↦ cc (strcat-full full)
  ]
    where
      strcat-full : ¬ (strlen buf + length text < length buf) → strcat buf text ≡ none
      strcat-full full = (strcat-none buf text).1 (omega arith)

      fits :
          strlen buf + length text < length buf
          → (c_str out ≡ c_str buf ++ text) × (length out ≡ length buf) × (strlen out < length out)
      fits room =
          let (o, same, text_of, size) = strcat_lem buf room in
          let eq : o ≡ out = some-injective o out (sym same ∙ e) in
          (
            rw (← eq) text_of,
            rw (← eq) size,
            rw (← eq) (
                omega (
                  arith,
                  size,
                  strlen-eq-length-c_str o,
                  strlen-eq-length-c_str buf,
                  ap (length {0}) text_of,
                  length-append {0} (c_str buf) text,
                )),
          )
