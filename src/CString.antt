-- ===== src/CString.antt =====
-- C character buffers: arrays of bytes (below 256) in which the first zero byte ends the string.
-- The functions are those of C's string library, as far as the drivers use them.
pub mod Laws
pub mod Decimal
use Prim.Native.Char.{code}
use Prim.Native.String.{String}
use cmsc421_os.Prelude.{
  ℕ, zero, suc, ◌+◌, ◌-◌, ◌<◌, Bool, true, false, ◌&&◌, Option, none, some, List, [], ◌∷◌, ◌++◌,
  ltb, leb, ◌==◌, if◌then◌else◌, length, take, drop, replicate,
}
use cmsc421_os.Prelude.Int.{ℤ, pos, negsuc}

-- The bytes of an ASCII literal, without the zero that ends it.
abbrev pub codes : String → List ℕ
codes String.[] = []
codes (String.◌∷◌ letter rest) = code letter ∷ codes rest

-- `char` is signed: the integer that a byte stands for.
abbrev pub schar : ℕ → ℤ
schar c = if ltb c 128 then pos c else negsuc (255 - c)

-- The pieces of a formatted text, one after the other.
unfoldable pub concat : List (List ℕ) → List ℕ
concat [] = []
concat (piece ∷ pieces) = piece ++ concat pieces

-- `strlen`: the index of the first zero byte.
unfoldable pub strlen : List ℕ → ℕ
strlen [] = 0
strlen (c ∷ cs) = if c == 0 then 0 else suc (strlen cs)

-- The string that a buffer holds.
unfoldable pub c_str : List ℕ → List ℕ
c_str [] = []
c_str (c ∷ cs) = if c == 0 then [] else c ∷ c_str cs

-- `bytes` over the first places of the buffer.
abbrev pub overwrite : List ℕ → List ℕ → List ℕ
overwrite [] bytes = []
overwrite (c ∷ buf) [] = c ∷ buf
overwrite (c ∷ buf) (b ∷ bytes) = b ∷ overwrite buf bytes

-- `memset(buf, 0, n)`
unfoldable pub memset_zero : List ℕ → ℕ → List ℕ
memset_zero buf n = overwrite buf (replicate n 0)

-- `scnprintf(buf, size, …)` of a text: at most `size - 1` bytes of it, and a zero.
unfoldable pub scnprintf : List ℕ → ℕ → List ℕ → List ℕ
scnprintf buf size text = overwrite buf (take (size - 1) text ++ 0 ∷ [])

-- `strcat(buf, text)`; `none` if that writes behind the end of the buffer.
unfoldable pub strcat : List ℕ → List ℕ → Option (List ℕ)
strcat buf text =
    if ltb (strlen buf + length text) (length buf)
    then some (take (strlen buf) buf ++ overwrite (drop (strlen buf) buf) (text ++ 0 ∷ []))
    else none

-- `memcmp(xs, ys, n) == 0`
unfoldable pub mem_eq : ℕ → List ℕ → List ℕ → Bool
mem_eq zero xs ys = true
mem_eq (suc n) (x ∷ xs) (y ∷ ys) = x == y && mem_eq n xs ys
mem_eq (suc n) _ _ = false
