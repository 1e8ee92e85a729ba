-- ===== src/MastermindTest/First.antt =====
-- proj1/mastermind-test.c on the driver of its directory, proj1/mastermind.c.
use cmsc421_os.Prelude.{ℕ, Bool, false, List, ◌++◌, length, take, replicate}
use cmsc421_os.Mastermind2.Control.{Rodata, Call}
use cmsc421_os.Mastermind1.Device.{Board, mm_read, mm_write, mm_ctl_write, mm_mmap}
use cmsc421_os.MastermindTest.{Devices}

-- What the program does not choose: the bytes behind the literals of the driver, its uninitialised
-- array, the random numbers, and whether it may set colours. Copies from and to the program succeed.
pub record Surroundings : Type 0 where
  pub rodata : Rodata
  pub stack : List ℕ
  pub digit : ℕ → ℕ
  pub capable : Bool

abbrev pub call_of : Surroundings → List ℕ → Call
call_of s text = record {
  size = length text;
  missing = 0;
  user_input = take 8 (text ++ s.stack);
  capable = s.capable;
  digit = s.digit;
}

abbrev pub page_size : ℕ
page_size = 4096

unfoldable pub devices : Surroundings → Devices Board
devices s = record {
  write_mm = λ text b. mm_write (take 4 text) (length text) b;
  write_ctl = λ text b. mm_ctl_write s.rodata (call_of s text) b;
  read_mm = λ size b. (mm_read 0 size 0 b, b);
  mmap_mm = λ b. ((mm_mmap page_size page_size false, b.user_view), b);
}

abbrev pub fresh : Bool → List ℕ → Board
fresh random page = record {
  random_code = random;
  game_active = false;
  target_code = replicate 4 0;
  num_guesses = 0;
  game_status = replicate 80 0;
  user_view = page;
}
