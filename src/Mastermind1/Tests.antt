-- ===== src/Mastermind1/Tests.antt =====
-- Runs of the model of proj1/mastermind.c, and the theorems at concrete inputs.
use cmsc421_os.Prelude.{◌+◌, ◌≡◌, refl, true, [], ◌∷◌}
use cmsc421_os.Prelude.Loop.{for_range}
use cmsc421_os.Mastermind1.Score.{score, black_loop, white_loop, black_step, white_step, mark_step}
use cmsc421_os.Mastermind1.Match.{present, score-present}
use cmsc421_os.Mastermind1.Device.{Answers}

-- One peg of the guess with the colour of two pegs of the code.
test_score : score (0 ∷ 0 ∷ 1 ∷ 2 ∷ []) (3 ∷ 3 ∷ 3 ∷ 0 ∷ []) ≡ (0, 2)
unfolding score black_loop white_loop black_step white_step mark_step for_range
test_score = refl

score-present_example :
    (score (0 ∷ 0 ∷ 1 ∷ 2 ∷ []) (3 ∷ 3 ∷ 3 ∷ 0 ∷ [])).0
      + (score (0 ∷ 0 ∷ 1 ∷ 2 ∷ []) (3 ∷ 3 ∷ 3 ∷ 0 ∷ [])).1
    ≡ present (0 ∷ 0 ∷ 1 ∷ 2 ∷ []) (3 ∷ 3 ∷ 3 ∷ 0 ∷ [])
score-present_example = score-present (0 ∷ 0 ∷ 1 ∷ 2 ∷ []) (3 ∷ 3 ∷ 3 ∷ 0 ∷ [])

abbrev granted : Answers
granted = record { page = true; mm = true; mm_ctl = true }
