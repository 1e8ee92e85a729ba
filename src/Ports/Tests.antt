-- ===== src/Ports/Tests.antt =====
-- Runs of the model of hw1/hw1.c, and the theorems at concrete inputs.
use cmsc421_os.Prelude.{
  ℕ, ◌≡◌, ◌≢◌, ◌↔◌, refl, true, none, some, List, [], ◌∷◌, ◌++◌, All, get_elem?, replicate,
}
use cmsc421_os.CString.{codes}
use cmsc421_os.Ports.{
  skip_spaces, drop_spaces, trim, strstr, before_colon, lines, matches, look_up, run,
}
use cmsc421_os.Ports.Text.{matches-none}

abbrev ioports : List ℕ
ioports = codes "0000-0cf7 : PCI Bus\n  0040-0043 : timer0\n  0050-0053 : timer1\n"

test_run :
    run (codes " timer " ∷ []) (some ioports) none
    ≡ some (codes "ioports:\n0040-0043 \n0050-0053 \nNo matching entry found in /proc/iomem\n")
unfolding run look_up trim skip_spaces drop_spaces strstr before_colon lines matches
test_run = refl

-- The name stands in the second piece of a line that is longer than the array.
abbrev long_line : List ℕ
long_line = codes "0040 : " ++ replicate 95 b'x' ++ codes "timer\n"

test_long_line : matches (codes "timer") (lines 99 [] long_line) ≡ none
unfolding strstr before_colon lines matches
test_long_line = refl

matches-none_example : (matches (codes "timer") (lines 99 [] long_line) ≡ none) ↔ (
    (i : ℕ) × (l : List ℕ) × (get_elem? (lines 99 [] long_line) i ≡ some l)
    × (strstr (codes "timer") l ≡ true)
    × All (λ c. c ≢ b':') l)
matches-none_example = matches-none (codes "timer") (lines 99 [] long_line)
