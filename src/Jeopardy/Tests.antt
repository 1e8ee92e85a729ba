-- ===== src/Jeopardy/Tests.antt =====
-- A run of the model of midterm/midterm.c, and the theorems at it.
use cmsc421_os.Prelude.{◌<◌, ◌≡◌, ◌⊎◌, refl, arith, true, false, [], ◌∷◌, All}
use cmsc421_os.Prelude.Int.{pos, ◌-ℤ◌}
use cmsc421_os.Jeopardy.{
  Contestant, woken, waiting, newcomer, Show, get_ready, play, ask, Turn, Turns, comes, plays,
  begins, turn, Steps, finished, more, begin,
}
use cmsc421_os.Jeopardy.Rules.{Within}
use cmsc421_os.Jeopardy.Asking.{score-Within}
use cmsc421_os.Jeopardy.Progress.{IsOver, no_deadlock}
use cmsc421_os.Jeopardy.Ending.{turns, fewer_turns, show_can_end}

abbrev all_ready : Show
all_ready = get_ready 2 newcomer (get_ready 1 newcomer (get_ready 0 newcomer begin))

abbrev woken_one : Contestant
woken_one = record newcomer { can_buzz_in = true; phase = woken }

-- The first contestant has answered the first question wrongly.
abbrev one_wrong : Show
one_wrong = play 3 0 woken_one (ask all_ready)

asked : Steps begin (ask all_ready)
unfolding get_ready ask
asked = more (turn (comes 0 refl refl)) (
    more (turn (comes 1 refl refl))
      (more (turn (comes 2 refl refl)) (more (turn (begins refl (omega arith))) finished)))

answers : Turn (ask all_ready) one_wrong
unfolding get_ready ask
answers = plays 3 0 (omega arith) refl refl

run : Steps begin one_wrong
unfolding get_ready ask
run = more (turn (comes 0 refl refl)) (
    more (turn (comes 1 refl refl)) (
      more (turn (comes 2 refl refl))
        (more (turn (begins refl (omega arith))) (more (turn answers) finished))))

test_one_wrong :
    one_wrong.contestants
    ≡ record { score = pos 0 -ℤ pos 200; can_buzz_in = false; phase = waiting }
      ∷ woken_one
      ∷ woken_one
      ∷ []
unfolding play get_ready ask
test_one_wrong = refl

score-Within_example : All (λ c. Within 2000 c.score) one_wrong.contestants
score-Within_example = score-Within run

no_deadlock_example : IsOver one_wrong ⊎ ((s' : Show) × Turn one_wrong s')
no_deadlock_example = no_deadlock run

fewer_turns_example : turns one_wrong < turns (ask all_ready)
fewer_turns_example = fewer_turns asked answers

show_can_end_example : (s' : Show) × Turns one_wrong s' × IsOver s'
show_can_end_example = show_can_end run
