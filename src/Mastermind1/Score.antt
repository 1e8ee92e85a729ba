-- ===== src/Mastermind1/Score.antt =====
-- The pegs of a guess in proj1/mastermind.c. The inner loop does not stop at a peg that it marks: the
-- `continue` there goes on with the next one.
use cmsc421_os.Prelude.{ℕ, ◌+◌, true, false, not, List, ◌==◌, if◌then◌else◌, get_or, set, replicate}
use cmsc421_os.Prelude.Loop.{for_range}
use cmsc421_os.Mastermind2.Score.{num_pegs, Pegs}

module _ (target_code guess : List ℕ) where
  unfoldable pub black_step : ℕ → Pegs → Pegs
  black_step i s =
      if get_or target_code i 0 == get_or guess i 0
      then record { count = s.count + 1; peg_color = set s.peg_color i true }
      else s

  -- One round of the inner loop.
  unfoldable pub mark_step : (color j : ℕ) → Pegs → Pegs
  mark_step color j s =
      if not (get_or s.peg_color j false)
      then (if get_or target_code j 0 == color
          then record { count = s.count + 1; peg_color = set s.peg_color j true }
          else s)
      else s

  unfoldable pub white_step : ℕ → Pegs → Pegs
  white_step i s = for_range num_pegs 0 (mark_step (get_or guess i 0)) s

  unfoldable pub black_loop : Pegs
  black_loop =
      for_range num_pegs 0 black_step (record { count = 0; peg_color = replicate num_pegs false })

  unfoldable pub white_loop : Pegs
  white_loop =
      for_range num_pegs 0 white_step (record { count = 0; peg_color = black_loop.peg_color })

-- `num_black` and `num_white`.
unfoldable pub score : List ℕ → List ℕ → ℕ × ℕ
score target_code guess =
    ((black_loop target_code guess).count, (white_loop target_code guess).count)
