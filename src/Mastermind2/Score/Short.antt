-- ===== src/Mastermind2/Score/Short.antt =====
-- Guesses for which the second loop of `mm_write` in proj2/mastermind2.c misses pegs: `peg_color` says
-- which pegs of the code are marked, but also makes the loop skip the pegs of the guess at the same
-- places.
use mathlib.Core.List.{Perm, perm_append_comm}
use cmsc421_os.Prelude.{ℕ, ◌≡◌, ◌≢◌, [], ◌∷◌, arith}
use cmsc421_os.Prelude.Loop.{for_range}
use cmsc421_os.Mastermind2.Score.{black_step, find_color, white_step, black_loop, white_loop, score}

-- A code of four different colors, guessed with its halves swapped, is answered with two white pegs,
-- though the guess is a rearrangement of the code that has no peg in its place.
pub score-swapped :
    (a b c d : ℕ)
    → a ≢ b
    → a ≢ c
    → a ≢ d
    → b ≢ c
    → b ≢ d
    → c ≢ d
    → (score (a ∷ b ∷ c ∷ d ∷ []) (c ∷ d ∷ a ∷ b ∷ []) ≡ (0, 2))
      × Perm (c ∷ d ∷ a ∷ b ∷ []) (a ∷ b ∷ c ∷ d ∷ [])
unfolding score black_loop white_loop black_step white_step find_color for_range
score-swapped a b c d ab ac ad bc bd cd = (ground arith, perm_append_comm (c ∷ d ∷ []) (a ∷ b ∷ []))
