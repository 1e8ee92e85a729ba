-- ===== src/FinalJeopardy/Tests.antt =====
-- A run of the model of final/final.c that stands still, and the theorem at it.
use cmsc421_os.Prelude.{◌<◌, ◌≡◌, ◌⊎◌, [], ◌∷◌, refl, arith, true, false}
use cmsc421_os.CString.{codes, concat}
use cmsc421_os.CString.Decimal.{percent_d, decimal, digits}
use cmsc421_os.Prelude.Int.{pos, ◌-ℤ◌}
use cmsc421_os.FinalJeopardy.{
  waiting, woken, Contestant, newcomer, Show, jeop_init, get_ready, take_turn, play, ask, comes,
  takes, plays, begins, Turn, Turns, finished, more,
}
use cmsc421_os.FinalJeopardy.Lost.{CanTurn}
use cmsc421_os.FinalJeopardy.Baton.{GivesUp}
use cmsc421_os.FinalJeopardy.Ending.{turns_left, less_left}
use cmsc421_os.FinalJeopardy.Exit.{jeop_exit, score_lines, name_of}
use cmsc421_os.FinalJeopardy.Standing.{GoesOn, turn_outcome}

abbrev ready_one : Contestant
ready_one = record newcomer { can_buzz_in = true; phase = waiting }

abbrev loser : Contestant
loser = record { score = pos 0 -ℤ pos 200; can_buzz_in = false; phase = waiting }

abbrev loser_again : Contestant
loser_again = record loser { phase = woken }

abbrev asked : Show
asked = ask (get_ready 2 newcomer (get_ready 1 newcomer (get_ready 0 newcomer jeop_init)))

-- The first contestant answers wrongly and takes the turn again before the others do.
abbrev taken_again : Show
taken_again =
    take_turn 0 loser (play 3 0 (record ready_one { phase = woken }) (take_turn 0 ready_one asked))

test_taken_again : Turns jeop_init taken_again
unfolding get_ready ask take_turn play
test_taken_again = more (comes 0 refl refl) (
    more (comes 1 refl refl) (
      more (comes 2 refl refl) (
        more (begins refl (omega arith)) (
          more (takes 0 refl refl (omega arith)) (
            more (plays 3 0 (omega arith) refl refl)
              (more (takes 0 refl refl (omega arith)) finished))))))

-- The first contestant has just taken the first turn.
abbrev taken : Show
taken = take_turn 0 ready_one asked

test_taken : Turns jeop_init taken
unfolding get_ready ask take_turn play
test_taken = more (comes 0 refl refl) (
    more (comes 1 refl refl) (
      more (comes 2 refl refl)
        (more (begins refl (omega arith)) (more (takes 0 refl refl (omega arith)) finished))))

abbrev losing : Turn taken_again (play 1 0 loser_again taken_again)
unfolding get_ready ask take_turn play
losing = plays 1 0 (omega arith) refl refl

turn_outcome_example :
    ((¬ GivesUp losing) × GoesOn (play 1 0 loser_again taken_again))
    ⊎ (GivesUp losing × (¬ CanTurn (play 1 0 loser_again taken_again)))
turn_outcome_example = turn_outcome test_taken_again losing

-- The nodes are freed though all contestants still wait for their turn.
test_jeop_exit : jeop_exit asked ≡ (
  codes "  Ken is at 0.\n" ∷ codes "  Watson is at 0.\n" ∷ codes "  Brad is at 0.\n" ∷ [],
  asked.contestants,
)
unfolding jeop_exit score_lines name_of concat percent_d decimal digits get_ready ask
test_jeop_exit = refl

less_left_example : turns_left (play 1 0 loser_again taken_again) < turns_left taken_again
less_left_example = less_left test_taken_again losing
