-- ===== src/MastermindTest.antt =====
-- The test program of the drivers, proj1/mastermind-test.c and, with the same text, proj2/mastermind2-test.c,
-- over the two devices that it opens.
pub mod First
pub mod Second
pub mod Verdicts
mod Tests
use cmsc421_os.Prelude.{
  ℕ, zero, suc, ◌+◌, Bool, true, false, not, ◌&&◌, ltb, Option, none, some, List, [], ◌∷◌, ◌++◌,
  ◌==◌, if◌then◌else◌, length, replicate,
}
use cmsc421_os.CString.{codes, c_str, overwrite}
use cmsc421_os.Mastermind2.State.{Errno, einval, eio, eagain, eacces, Reply, count, error, fault}
use cmsc421_os.Mastermind2.Game.{Read}

-- A loaded driver: the calls of the test program on /dev/mm and /dev/mm_ctl. A text is what stands in
-- memory from the pointer on, and its length is the number of bytes of the call. Each test opens the
-- devices again and reads at most once, at offset 0. `mmap_mm` gives the first page.
pub record Devices (S : Type 0) : Type 0 where
  pub write_mm : List ℕ → S → Reply × S
  pub write_ctl : List ℕ → S → Reply × S
  pub read_mm : ℕ → S → Read × S
  pub mmap_mm : S → (Reply × List ℕ) × S

-- `errno` is the error of the last call that failed, if one has.
pub record Program (S : Type 0) : Type 0 where
  pub driver : S
  pub errno : Option Errno
  pub buf : List ℕ
  pub test_passed : ℕ
  pub test_failed : ℕ

abbrev pub is_einval : Option Errno → Bool
is_einval none = false
is_einval (some einval) = true
is_einval (some eio) = false
is_einval (some eagain) = false
is_einval (some eacces) = false

-- `strcmp(xs, ys) == 0` for the strings themselves.
abbrev pub same_text : List ℕ → List ℕ → Bool
same_text [] [] = true
same_text [] (y ∷ ys) = false
same_text (x ∷ xs) [] = false
same_text (x ∷ xs) (y ∷ ys) = x == y && same_text xs ys

-- A part of the program; `none` when it calls `exit(EXIT_FAILURE)` or the kernel faults.
abbrev pub Test : Type 0 → Type 0 → Type 0
Test S A = Program S → Option (A × Program S)

infixl 5 ◌>>=◌ ◌>>◌
abbrev pub ◌>>=◌ : {S A B : Type 0} → Test S A → (A → Test S B) → Test S B
(t >>= next) p = elim (t p) [ none ↦ none | some (a, p') ↦ next a p' ]

abbrev pub ◌>>◌ : {S A B : Type 0} → Test S A → Test S B → Test S B
(t >> next) p = elim (t p) [ none ↦ none | some (a, p') ↦ next p' ]

module _ {S : Type 0} where
  -- The result of a system call: whether it succeeded.
  abbrev pub reply_to : Reply → S → Test S Bool
  reply_to (count n) s p = some (true, record p { driver = s })
  reply_to (error e) s p = some (false, record p { driver = s; errno = some e })
  reply_to fault s p = none

  abbrev pub pass : Test S Unit
  pass p = some (tt, record p { test_passed = p.test_passed + 1 })

  abbrev pub fail : Test S Unit
  fail p = some (tt, record p { test_failed = p.test_failed + 1 })

  abbrev pub verdict : Bool → Test S Unit
  verdict true = pass
  verdict false = fail

  abbrev pub or_exit : Bool → Test S Unit
  or_exit true p = some (tt, p)
  or_exit false p = none

  -- The verdict on a call that should fail with EINVAL; with another error there is none.
  abbrev pub expect_einval : Bool → Test S Unit
  expect_einval true p = fail p
  expect_einval false p = if is_einval p.errno then pass p else some (tt, p)

  -- The verdict of `oveflow_write_test`, where the call should succeed.
  abbrev pub expect_success : Bool → Test S Unit
  expect_success true p = pass p
  expect_success false p = if is_einval p.errno then fail p else some (tt, p)

  abbrev pub buf_is : List ℕ → Test S Bool
  buf_is text p = some (same_text text (c_str p.buf), p)

  abbrev pub errno_is_einval : Test S Bool
  errno_is_einval p = some (is_einval p.errno, p)

  abbrev pub memset_buf : Test S Unit
  memset_buf p = some (tt, record p { buf = replicate 80 0 })

module _ {S : Type 0} (d : Devices S) where
  abbrev pub write_mm : List ℕ → Test S Bool
  write_mm text p = reply_to (d.write_mm text p.driver).0 (d.write_mm text p.driver).1 p

  abbrev pub write_ctl : List ℕ → Test S Bool
  write_ctl text p = reply_to (d.write_ctl text p.driver).0 (d.write_ctl text p.driver).1 p

  abbrev pub read_mm : ℕ → Test S Bool
  read_mm size p =
      reply_to (d.read_mm size p.driver).0.reply (d.read_mm size p.driver).1
        (record p { buf = overwrite p.buf (d.read_mm size p.driver).0.bytes })

  abbrev pub mapped_is : Reply × List ℕ → S → List ℕ → Test S Bool
  mapped_is (count n, page) s text p = some (same_text text (c_str page), record p { driver = s })
  mapped_is (error e, page) s text p = none
  mapped_is (fault, page) s text p = none

  abbrev pub mmap_mm : List ℕ → Test S Bool
  mmap_mm text p = mapped_is (d.mmap_mm p.driver).0 (d.mmap_mm p.driver).1 text p

  -- `write(fd_mm_ctl, start, 4)`
  abbrev pub start : Test S Unit
  start = write_ctl (codes "star") >>= or_exit

  abbrev pub quit : Test S Unit
  quit = write_ctl (codes "quit") >>= or_exit

  unfoldable pub happy_path_test : Test S Unit
  happy_path_test = do
    start
    write_mm (codes "1200") >>= or_exit
    read_mm 41 >>= or_exit
    same ← buf_is (codes "Guess 1: 0 black peg(s), 4 white peg(s)\n")
    verdict same
    quit

  unfoldable pub mmap_test : Test S Unit
  mmap_test = do
    start
    write_mm (codes "0022") >>= or_exit
    write_mm (codes "2010") >>= or_exit
    write_mm (codes "5432") >>= or_exit
    same ←
        mmap_mm (codes "Guess 1: 0022  | B3 W0\nGuess 2: 2010  | B2 W2\nGuess 3: 5432  | B1 W0\n")
    verdict same
    quit

  unfoldable pub invalid_entry_test : Test S Unit
  invalid_entry_test = do
    written ← write_ctl (codes "start\n" ++ 0 ∷ [])
    expect_einval written
    quit

  unfoldable pub negative_entry_test : Test S Unit
  negative_entry_test = do start; written ← write_mm (codes "-120"); expect_einval written; quit

  unfoldable pub out_of_range_entry_test : Test S Unit
  out_of_range_entry_test = do start; written ← write_mm (codes "9270"); expect_einval written; quit

  unfoldable pub oveflow_write_test : Test S Unit
  oveflow_write_test = do
    start
    written ← write_mm (codes "123483292819")
    expect_success written
    quit

  unfoldable pub overflow_read_test : Test S Unit
  overflow_read_test = do
    start
    read_mm 20 >>= or_exit
    refused ← errno_is_einval
    verdict refused
    quit

  unfoldable pub guess_with_no_game : Test S Unit
  guess_with_no_game = do written ← write_mm (codes "2100"); expect_einval written; quit

  unfoldable pub random_test : Test S Unit
  random_test = do
    start
    quit
    read_mm 31 >>= or_exit
    same ← buf_is (codes "Game over. The code was 0012.\n")
    verdict (not same)

  -- `main`; `argc > 1` says that the driver was loaded with a random code.
  unfoldable pub run_tests : (argc : ℕ) → Test S Unit
  run_tests argc = do
    memset_buf
    if ltb 1 argc then random_test else (mmap_test >> happy_path_test)
    invalid_entry_test
    negative_entry_test
    out_of_range_entry_test
    oveflow_write_test
    overflow_read_test
    guess_with_no_game
