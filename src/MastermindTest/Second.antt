-- ===== src/MastermindTest/Second.antt =====
-- proj2/mastermind2-test.c, the text of proj1/mastermind-test.c, on the driver of its directory,
-- proj2/mastermind2.c.
use cmsc421_os.Prelude.{ℕ, false, Option, none, some, List, [], length, take, get_elem?}
use cmsc421_os.Mastermind2.State.{Reply, Driver, Memory}
use cmsc421_os.Mastermind2.Game.{mm_read, mm_write, mm_mmap}
use cmsc421_os.Mastermind2.Control.{mm_ctl_write}
use cmsc421_os.MastermindTest
use cmsc421_os.MastermindTest.{Devices, Test}
use cmsc421_os.MastermindTest.First.{Surroundings, call_of, page_size}

abbrev pub page_in : Option ℕ → Driver → List ℕ
page_in none d = []
page_in (some k) d = elim (get_elem? d.games_list k) [ none ↦ [] | some g ↦ g.user_view ]

module _ (s : Surroundings) (player : ℕ) (m : Memory) where
  abbrev pub write_bytes : List ℕ → Driver → Reply × Driver
  write_bytes text d = mm_write player m (take 4 text) (length text) d

  unfoldable pub devices : Devices Driver
  devices = record {
    write_mm = write_bytes;
    write_ctl = λ text d. mm_ctl_write s.rodata player m (call_of s text) d;
    read_mm = λ size d. mm_read player m 0 size 0 d;
    mmap_mm = λ d.
        let (mapping, d') = mm_mmap page_size player m page_size false d in
        ((mapping.reply, page_in mapping.page_of d'), d');
  }

  -- The functions of this directory's test program.
  unfoldable pub happy_path_test : Test Driver Unit
  unfolding devices
  happy_path_test = MastermindTest.happy_path_test devices

  unfoldable pub mmap_test : Test Driver Unit
  unfolding devices
  mmap_test = MastermindTest.mmap_test devices

  unfoldable pub invalid_entry_test : Test Driver Unit
  unfolding devices
  invalid_entry_test = MastermindTest.invalid_entry_test devices

  unfoldable pub negative_entry_test : Test Driver Unit
  unfolding devices
  negative_entry_test = MastermindTest.negative_entry_test devices

  unfoldable pub out_of_range_entry_test : Test Driver Unit
  unfolding devices
  out_of_range_entry_test = MastermindTest.out_of_range_entry_test devices

  unfoldable pub oveflow_write_test : Test Driver Unit
  unfolding devices
  oveflow_write_test = MastermindTest.oveflow_write_test devices

  unfoldable pub overflow_read_test : Test Driver Unit
  unfolding devices
  overflow_read_test = MastermindTest.overflow_read_test devices

  unfoldable pub guess_with_no_game : Test Driver Unit
  unfolding devices
  guess_with_no_game = MastermindTest.guess_with_no_game devices

  unfoldable pub random_test : Test Driver Unit
  unfolding devices
  random_test = MastermindTest.random_test devices

  unfoldable pub run_tests : (argc : ℕ) → Test Driver Unit
  unfolding devices
  run_tests argc = MastermindTest.run_tests devices argc
