-- ===== src/Mastermind2/Tests.antt =====
-- Runs of the model of proj2/mastermind2.c, and the theorems at concrete inputs.
use mathlib.Core.Option.{some-injective}
use cmsc421_os.Prelude.{
  ℕ, ◌+◌, ◌*◌, ◌-◌, ◌≤◌, ◌≡◌, ◌≢◌, ◌↔◌, refl, true, false, Option, none, some, List, [], ◌∷◌, ◌++◌,
  arith, length, map, drop, take, replicate, get_elem?, All, min, ap, sym,
}
use cmsc421_os.Prelude.Int.{pos, ◌-ℤ◌}
use cmsc421_os.Prelude.Loop.{for_range}
use cmsc421_os.CString.{concat, codes, c_str, strlen, strcat, mem_eq}
use cmsc421_os.CString.Decimal.{decimal, digits, percent_d}
use cmsc421_os.Mastermind2.Score.{score, black_loop, white_loop, black_step, white_step, find_color}
use cmsc421_os.Mastermind2.Score.Marks.{sum_colors, count}
use cmsc421_os.Mastermind2.Score.Sound.{score_sound}
use cmsc421_os.Mastermind2.State.{
  Reply, einval, error, fault, Game, Driver, Memory, loaded, on_game, find_game, find_index,
  add_game, new_game,
}
use cmsc421_os.Mastermind2.Game.{log_text, check_digits, answer, play, write_game, mm_write_body}
use cmsc421_os.Mastermind2.Game.Write.{IsDigit, HasRoom, write_game-count, write_game-wins}
use cmsc421_os.Mastermind2.Game.Reading.{read_all, read_all_lem}
use cmsc421_os.Mastermind2.Game.Log.{write_game-safe}
use cmsc421_os.Mastermind2.Control.{Rodata, Call, command, set_colors, mm_ctl_write_body}
use cmsc421_os.Mastermind2.Lifecycle.{Answers}
use cmsc421_os.Mastermind2.Valid.{GameOk, IsValid, loaded-IsValid}
use cmsc421_os.Mastermind2.Room.{Room}
use cmsc421_os.Mastermind2.Room.Runs.{completes-some}
use cmsc421_os.Mastermind2.System.{
  Section, Sane, run, completes, reply, step, Owns, run-IsValid, run-find_game, run-Elsewhere,
}

abbrev code : List ℕ
code = 0 ∷ 0 ∷ 1 ∷ 2 ∷ []

abbrev page : List ℕ
page = replicate 96 0

abbrev memory : Memory
memory = record { node = true; page = some page }

abbrev no_page : Memory
no_page = record { node = true; page = none }

abbrev game : Game
game = record {
  game_active = true;
  num_guesses = 0;
  game_status = codes "Starting game\n" ++ replicate 66 0;
  user_view = page;
  player_id = 7;
}

abbrev driver : Driver
driver = record (loaded false) { target_code = code; games_list = game ∷ [] }

abbrev rodata : Rodata
rodata = record { start6 = 0; start7 = 0; quit5 = 0; quit6 = 0; quit7 = 0 }

abbrev call : List ℕ → Call
call bytes = record {
  size = length bytes;
  missing = 0;
  user_input = take 8 (bytes ++ replicate 8 0);
  capable = true;
  digit = λ i. i * 7;
}

-- The white pegs of the first rounds of proj2/mastermind2-test.c.
test_score : (score code (0 ∷ 0 ∷ 1 ∷ 2 ∷ []) ≡ (4, 0)) × (score code (3 ∷ 3 ∷ 0 ∷ 0 ∷ []) ≡ (0, 1))
unfolding score black_loop white_loop black_step white_step find_color for_range
test_score = (refl, refl)

score_sound_example :
    (score code (2 ∷ 0 ∷ 0 ∷ 1 ∷ [])).0 + (score code (2 ∷ 0 ∷ 0 ∷ 1 ∷ [])).1
    ≤ sum_colors 6 (λ c. min (count c code) (count c (2 ∷ 0 ∷ 0 ∷ 1 ∷ [])))
score_sound_example = score_sound code (2 ∷ 0 ∷ 0 ∷ 1 ∷ []) refl refl 6 (omega arith)

write_game-count_example : ((write_game code (pos 53) (codes "0021") 5 game).0 ≡ Reply.count 5) ↔ (
    (true ≡ true)
    × (4 ≤ 5)
    × All (IsDigit (pos 53)) (codes "0021")
    × HasRoom code (map (λ c. c - 48) (codes "0021")) game)
write_game-count_example = write_game-count code (pos 53) (codes "0021") 5 game

right_guess : (write_game code (pos 53) (codes "0012") 4 game).0 ≡ Reply.count 4
unfolding write_game play answer check_digits score black_loop white_loop black_step white_step
    find_color for_range strcat strlen
right_guess = refl

write_game-wins_example :
    ((write_game code (pos 53) (codes "0012") 4 game).1.game_active ≡ false)
    ↔ (code ≡ map (λ c. c - 48) (codes "0012"))
write_game-wins_example = write_game-wins code (pos 53) (codes "0012") 4 game refl refl right_guess

bad_guess : (mm_write_body (some 0) (pos 53) (codes "0092") 4 driver).0 ≡ error einval
unfolding mm_write_body write_game check_digits on_game
bad_guess = refl

read_all_example : read_all 20 0 5 3 driver ≡ some (drop 3 (c_str game.game_status))
unfolding c_str
read_all_example = read_all_lem 20 0 5 3 driver refl (omega arith) (omega arith)

write_game-safe_example : (write_game code (pos 53) (codes "0021") 4 game).0 ≢ fault
unfolding strlen
write_game-safe_example =
    write_game-safe code (pos 53) (codes "0021") 4 game (omega arith) (omega arith)

-- A page with room for no more than its string.
abbrev full_game : Game
full_game = record game { user_view = replicate 95 65 ++ 0 ∷ [] }

no_room : ¬ HasRoom code (map (λ c. c - 48) (codes "0021")) full_game
unfolding strlen answer log_text concat percent_d decimal digits score black_loop white_loop
    black_step white_step find_color for_range
no_room room = omega (arith, room)

find_again : find_game 7 no_page driver ≡ (some 0, driver)
unfolding find_game find_index
find_again = refl

-- Another user plays and the code changes between `find_game` and the body of a callback.
abbrev others : List Section
others =
    Section.find 8 memory
    ∷ Section.write (some 1) (pos 53) (codes "0021") 4
    ∷ Section.control rodata (call (codes "quit")) (some 1)
    ∷ Section.network (pos 53) (codes "5432")
    ∷ []

others_complete : completes others driver ≡ some (run others driver)
unfolding completes reply step run find_game find_index add_game mm_write_body mm_ctl_write_body
    on_game write_game check_digits play new_game mem_eq
others_complete = refl

abbrev from_start : List Section
from_start = Section.find 7 memory ∷ others

others_complete_first : completes from_start (loaded true) ≡ some (run from_start (loaded true))
unfolding completes reply step run find_game find_index add_game mm_write_body mm_ctl_write_body
    on_game write_game check_digits play new_game mem_eq
others_complete_first = refl

run-find_game_example : Owns 7 0 (run others driver).games_list
run-find_game_example = run-find_game 7 no_page others driver find_again others_complete

another : ◌≢◌ {A = Option ℕ} (some 1) (some 0)
another e = cc e

run-Elsewhere_example : get_elem? (run others driver).games_list 0 ≡ some game
run-Elsewhere_example =
    run-Elsewhere 0 others driver (tt, (another, (another, (tt, tt)))) refl others_complete

whole_page : (p : List ℕ) → some page ≡ some p → length p ≡ 96
whole_page p e = sym (ap length (some-injective page p e))

others-Sane : All (Sane 96) others
unfolding mem_eq
others-Sane = (whole_page, (tt, ((λ _ e. absurd (cc e)), (omega arith, tt))))

run-IsValid_example : IsValid 96 (run from_start (loaded true))
run-IsValid_example =
    run-IsValid from_start (omega arith) (whole_page, others-Sane) (loaded-IsValid 96 true)
      others_complete_first

unknown : (mm_ctl_write_body rodata (call (codes "hello")) (some 0) driver).0 ≡ error einval
unfolding mm_ctl_write_body command mem_eq
unknown = refl

four_colors :
    (mm_ctl_write_body rodata (call (codes "colors 4")) (some 0) driver).1.num_colors ≢ pos 6
unfolding mm_ctl_write_body command set_colors mem_eq ◌-ℤ◌
four_colors e = cc e

abbrev no_irq : Answers
no_irq = record { stats = true; mm = true; mm_ctl = true; irq = false }

-- A game and its driver in order, with three sections that have room.
game-GameOk : GameOk 96 game
unfolding strlen
game-GameOk = record {
  status_size = refl;
  status_ends = omega arith;
  view_size = refl;
  view_ends = omega arith;
  guesses = omega arith;
}

driver-IsValid : IsValid 96 driver
unfolding find_index
driver-IsValid = record {
  pegs = refl;
  small = omega arith;
  few = omega arith;
  many = omega arith;
  games = (game-GameOk, tt);
  distinct = (refl, tt);
}

abbrev three : List Section
three =
    Section.write (some 0) (pos 53) (codes "0021") 4
    ∷ Section.control rodata (call (codes "quit")) (some 0)
    ∷ Section.network (pos 53) (codes "5432")
    ∷ []

three-Sane : All (Sane 96) three
unfolding mem_eq
three-Sane = (tt, ((λ _ e. absurd (cc e)), (omega arith, tt)))

game-Room : All (Room 3) driver.games_list
unfolding strlen
game-Room = (omega arith, tt)

completes-some_example : (d' : Driver) × (completes three driver ≡ some d')
completes-some_example =
    completes-some three driver (omega arith) (omega arith) three-Sane
      ((game, refl), ((game, refl), (tt, tt))) driver-IsValid game-Room
