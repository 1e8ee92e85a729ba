-- ===== src/MastermindTest/Verdicts.antt =====
-- What the tests say of the drivers.
use cmsc421_os.Prelude.{ℕ, ◌+◌, ◌≡◌, refl, arith, Bool, true, false, Option, none, some}
use cmsc421_os.CString.{codes, overwrite, mem_eq}
use cmsc421_os.Mastermind2.State.{Reply, count, error, fault}
use cmsc421_os.Mastermind2.Game.{check_digits}
use cmsc421_os.Mastermind1.Device.{Board, mm_ctl_write, mm_write, stop_game, start_game}
use cmsc421_os.MastermindTest.{
  Devices, Program, Test, ◌>>=◌, ◌>>◌, read_mm, quit, or_exit, reply_to, verdict, errno_is_einval,
  is_einval, overflow_read_test, invalid_entry_test, negative_entry_test, out_of_range_entry_test,
  guess_with_no_game,
}
use cmsc421_os.MastermindTest.First
use cmsc421_os.MastermindTest.First.{Surroundings, fresh}

-- A test that comes to its end has counted one verdict: passed, or failed.
abbrev pub Counts : {S : Type 0} → Bool → Program S → Option (Unit {0} × Program S) → Type 0
Counts passed p none = ⊥
Counts true p (some (u, p')) =
    (p'.test_passed ≡ p.test_passed + 1) × (p'.test_failed ≡ p.test_failed)
Counts false p (some (u, p')) =
    (p'.test_passed ≡ p.test_passed) × (p'.test_failed ≡ p.test_failed + 1)

module _ {S : Type 0} (d : Devices S) where
  -- A driver that takes the two commands and answers a read.
  pub record Answers : Type 0 where
    pub starts : (s : S) → (n : ℕ) × ((d.write_ctl (codes "star") s).0 ≡ count n)
    pub quits : (s : S) → (n : ℕ) × ((d.write_ctl (codes "quit") s).0 ≡ count n)
    pub reads : (size : ℕ) (s : S) → (n : ℕ) × ((d.read_mm size s).0.reply ≡ count n)

  goes_on :
      (passed : Bool) (p q : Program S) (answer : Reply × S)
      → (n : ℕ) × (answer.0 ≡ count n)
      → (next : Test S (Unit {0})) → Counts passed p (next (record q { driver = answer.1 }))
      → Counts passed p (((reply_to answer.0 answer.1 >>= or_exit) >> next) q)
  goes_on passed p q (count n, s) e next h = h
  goes_on passed p q (error x, s) e next h = absurd (cc)
  goes_on passed p q (fault, s) e next h = absurd (cc)

  ends :
      (passed : Bool) (p q : Program S) (answer : Reply × S)
      → (n : ℕ) × (answer.0 ≡ count n)
      → Counts passed p (some (tt, record q { driver = answer.1 }))
      → Counts passed p ((reply_to answer.0 answer.1 >>= or_exit) q)
  ends passed p q (count n, s) e h = h
  ends passed p q (error x, s) e h = absurd (cc)
  ends passed p q (fault, s) e h = absurd (cc)

  quits :
      Answers
      → (passed : Bool) (p q : Program S) → q.test_passed ≡ p.test_passed
      → q.test_failed ≡ p.test_failed
      → Counts passed p ((verdict passed >> quit d) q)
  quits a true p q e f =
      ends true p (record q { test_passed = q.test_passed + 1 })
        (d.write_ctl (codes "quit") q.driver) (a.quits q.driver) (omega (arith, e), f)
  quits a false p q e f =
      ends false p (record q { test_failed = q.test_failed + 1 })
        (d.write_ctl (codes "quit") q.driver) (a.quits q.driver) (e, omega (arith, f))

  -- `overflow_read_test` says nothing of the read that it makes: on any driver that takes the commands
  -- and answers the read, it counts as passed exactly when an earlier call had left EINVAL in `errno`,
  -- and as failed otherwise.
  pub overflow_read_verdict :
      Answers → (p : Program S) → Counts (is_einval p.errno) p (overflow_read_test d p)
  unfolding overflow_read_test
  overflow_read_verdict a p =
      let started : S = (d.write_ctl (codes "star") p.driver).1 in
      goes_on (is_einval p.errno) p p (d.write_ctl (codes "star") p.driver) (a.starts p.driver)
        ((read_mm d 20 >>= or_exit) >> (errno_is_einval >>= λ refused. verdict refused >> quit d))
        (goes_on (is_einval p.errno) p
          (record p { driver = started; buf = overwrite p.buf (d.read_mm 20 started).0.bytes })
          ((d.read_mm 20 started).0.reply, (d.read_mm 20 started).1) (a.reads 20 started)
          (errno_is_einval >>= λ refused. verdict refused >> quit d)
          (quits a (is_einval p.errno) p _ refl refl))

module _ (s : Surroundings) (p : Program Board) where
  -- The tests of what the driver must refuse pass on the first driver, whatever its state and what the
  -- program does not choose: a wrong command, a guess with a sign, a guess out of range and, where no
  -- game is active, a guess.
  pub refusals_pass :
      Counts true p (invalid_entry_test (First.devices s) p)
      × Counts true p (negative_entry_test (First.devices s) p)
      × Counts true p (out_of_range_entry_test (First.devices s) p)
      × (p.driver.game_active ≡ false → Counts true p (guess_with_no_game (First.devices s) p))
  unfolding invalid_entry_test negative_entry_test out_of_range_entry_test guess_with_no_game
      First.devices mm_ctl_write mem_eq start_game stop_game mm_write check_digits
  refusals_pass = ((refl, refl), (refl, refl), (refl, refl), λ idle. rw idle (refl, refl))
