-- ===== src/MastermindTest/Tests.antt =====
-- Runs of the test program on the two drivers, and the theorems at concrete inputs.
use cmsc421_os.Prelude.{
  ℕ, ◌-◌, ◌%◌, ◌^◌, ◌≡◌, refl, true, false, Option, none, some, replicate, leb, ltb, if◌then◌else◌,
  Bool-cases, inl, inr,
}
use cmsc421_os.Prelude.Int.{◌+ℤ◌, ◌-ℤ◌}
use cmsc421_os.Prelude.Loop.{for_range}
use cmsc421_os.CString.{c_str, concat, memset_zero, scnprintf, strcat, strlen, mem_eq}
use cmsc421_os.CString.Decimal.{decimal, digits, percent_d}
use cmsc421_os.Mastermind2.Score
use cmsc421_os.Mastermind2.State
use cmsc421_os.Mastermind2.State.{Driver, Memory, loaded}
use cmsc421_os.Mastermind2.Game
use cmsc421_os.Mastermind2.Game.{log_text, status_text, check_digits}
use cmsc421_os.Mastermind2.Control
use cmsc421_os.Mastermind2.Control.{quit_text}
use cmsc421_os.Mastermind1.Device
use cmsc421_os.Mastermind1.Score as First_score
use cmsc421_os.MastermindTest.{
  Program, run_tests, mmap_test, happy_path_test, oveflow_write_test, overflow_read_test,
  invalid_entry_test, negative_entry_test, out_of_range_entry_test, guess_with_no_game,
}
use cmsc421_os.MastermindTest.Verdicts.{Answers}
use cmsc421_os.MastermindTest.First
use cmsc421_os.MastermindTest.First.{Surroundings, fresh}
use cmsc421_os.MastermindTest.Second

abbrev begin_with : {S : Type 0} → S → Program S
begin_with s = record {
  driver = s;
  errno = none;
  buf = replicate 80 0;
  test_passed = 0;
  test_failed = 0;
}

abbrev around : Surroundings
around = record {
  rodata = record { start6 = 0; start7 = 0; quit5 = 0; quit6 = 0; quit7 = 0 };
  stack = replicate 8 7;
  digit = λ i. i;
  capable = true;
}

abbrev counts : {S : Type 0} → Option (Unit {0} × Program S) → Option (ℕ × ℕ)
counts none = none
counts (some (u, p)) = some (p.test_passed, p.test_failed)

abbrev player_memory : Memory
player_memory = record { node = true; page = some (replicate 100 9) }

-- All tests pass on the first driver; with the second the two that compare white pegs fail.
test_first :
    counts (run_tests (First.devices around) 1 (begin_with (fresh false (replicate 100 9))))
    ≡ some (8, 0)
unfolding mmap_test happy_path_test invalid_entry_test negative_entry_test out_of_range_entry_test
    oveflow_write_test overflow_read_test guess_with_no_game run_tests First.devices
    Device.mm_ctl_write Device.mm_write Device.start_game Device.stop_game Device.play
    Device.mm_mmap Device.mm_read Device.new_code First_score.score First_score.black_loop
    First_score.black_step First_score.white_loop First_score.white_step First_score.mark_step c_str
    concat memset_zero scnprintf strcat strlen mem_eq decimal digits percent_d log_text status_text
    check_digits quit_text for_range ◌-ℤ◌ ◌+ℤ◌
test_first = refl

test_second :
    counts (Second.run_tests around 7 player_memory 1 (begin_with (loaded false))) ≡ some (6, 2)
unfolding mmap_test happy_path_test invalid_entry_test negative_entry_test out_of_range_entry_test
    oveflow_write_test overflow_read_test guess_with_no_game run_tests Second.run_tests
    Second.devices Control.mm_ctl_write Control.mm_ctl_write_body Control.command Control.new_code
    Control.restart Control.set_colors Control.start_game Control.stop_game State.find_game
    State.find_index State.add_game State.on_game State.new_game Game.mm_write Game.mm_write_body
    Game.write_game Game.play Game.answer Game.mm_mmap Game.mm_mmap_body Game.mm_read
    Game.mm_read_body Game.read_status Score.black_loop Score.black_step Score.find_color
    Score.score Score.white_loop Score.white_step c_str concat memset_zero scnprintf strcat strlen
    mem_eq decimal digits percent_d log_text status_text check_digits quit_text for_range ◌-ℤ◌ ◌+ℤ◌
test_second = refl

first_answers : Answers (First.devices around)
unfolding First.devices Device.mm_ctl_write mem_eq Device.mm_read
first_answers = record {
  starts = λ b. (4, refl);
  quits = λ b. (4, refl);
  reads = λ size b. elim (Bool-cases (leb (strlen b.game_status) 0)) [
    | inl ended ↦ (0, rw ended refl)
    | inr longer ↦ (
      if ltb (strlen b.game_status - 0) (size % 2 ^ 32)
          then strlen b.game_status - 0
          else size % 2 ^ 32,
      rw longer refl,
    )
  ];
}
