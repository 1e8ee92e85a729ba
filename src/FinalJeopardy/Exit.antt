-- ===== src/FinalJeopardy/Exit.antt =====
-- The unloading of final/final.c, which may come at any time.
use cmsc421_os.Prelude.{ℕ, zero, suc, ◌+◌, List, [], ◌∷◌}
use cmsc421_os.CString.{codes, concat}
use cmsc421_os.CString.Decimal.{bits_of, percent_d}
use cmsc421_os.FinalJeopardy.{Contestant, Show}

-- The contestants keep their places in the list.
unfoldable pub name_of : ℕ → List ℕ
name_of zero = codes "Ken"
name_of (suc zero) = codes "Watson"
name_of (suc (suc i)) = codes "Brad"

unfoldable pub score_lines : ℕ → List Contestant → List (List ℕ)
score_lines i [] = []
score_lines i (c ∷ cs) =
    concat
      (codes "  " ∷ name_of i ∷ codes " is at " ∷ percent_d (bits_of c.score) ∷ codes ".\n" ∷ [])
    ∷ score_lines (i + 1) cs

-- What `jeop_exit` writes, and the nodes that it frees. It waits for no thread.
unfoldable pub jeop_exit : Show → List (List ℕ) × List Contestant
jeop_exit s = (score_lines 0 s.contestants, s.contestants)
