-- ===== src/Mastermind2/Game/Log.antt =====
-- The texts of `mm_write` in proj2/mastermind2.c: the status, the log in `user_view`, and when the log
-- overruns its page.
use cmsc421_os.Prelude.{
  ℕ, ◌+◌, ◌-◌, ◌*◌, ◌^◌, ◌≤◌, ◌<◌, ◌≡◌, ◌≢◌, ◌↔◌, All, map, take_whole, ap, inl, inr, true, List,
  arith, length, take, Option-cases, length-take, length-append,
}
use cmsc421_os.Prelude.Int.{ℤ}
use cmsc421_os.CString.{strlen, c_str, strcat, concat}
use cmsc421_os.CString.Laws.{strlen-eq-length-c_str, strcat-some, NoZero}
use cmsc421_os.CString.Decimal.{percent_d, length-percent_d}
use cmsc421_os.Mastermind2.Score.{num_pegs, score}
use cmsc421_os.Mastermind2.State.{fault, Game, next_int}
use cmsc421_os.Mastermind2.Game.{status_text, log_text, answer, check_digits, play, write_game}
use cmsc421_os.Mastermind2.Game.Write.{
  new_line, HasRoom, play-cases, IsDigit, check_digits_lem, check_digits-valid,
}

-- A line of the log is at most 25 bytes long.
pub length-new_line : (code guess : List ℕ) (g : Game) → length (new_line code guess g) ≤ 25
unfolding answer
length-new_line code guess g = ground (
  arith,
  length-take 23
      (log_text (next_int g.num_guesses) guess (score code guess).0 (score code guess).1),
)

-- The log as it grows: at most 25 bytes for each guess since the start.
abbrev pub LogBound : Game → Type 0
LogBound g = strlen g.user_view ≤ 25 * g.num_guesses

play-LogBound :
    (code guess : List ℕ) (size : ℕ) (g : Game)
    → NoZero (new_line code guess g)
    → g.num_guesses + 1 < 2 ^ 32
    → LogBound g
    → LogBound (play code guess size g).1
unfolding play
play-LogBound code guess size g z few bound =
    elim (Option-cases (strcat g.user_view (new_line code guess g))) [
      | inl over ↦ rw (over, play) bound
      | inr (view, fits) ↦
          rw (fits, play)
            (omega (
              arith,
              strlen-eq-length-c_str view,
              strlen-eq-length-c_str g.user_view,
              ap (length {0}) (strcat-some (new_line code guess g) z g.user_view fits).0,
              length-append {0} (c_str g.user_view) (new_line code guess g),
              length-new_line code guess g,
            ))
    ]

-- While the log has at most 25 bytes for each guess, and the page has more than 25 bytes for each guess
-- with the next one, `mm_write` does not write over the end of the page.
pub write_game-safe :
    (code : List ℕ) (highest : ℤ) (guess : List ℕ) (size : ℕ) (g : Game)
    → LogBound g
    → 25 * (g.num_guesses + 1) < length g.user_view
    → (write_game code highest guess size g).0 ≢ fault
unfolding write_game
write_game-safe code highest guess size g bound page e = ground (
  arith,
  play-cases code (check_digits highest guess).1 size g,
  length-new_line code (check_digits highest guess).1 g,
)

-- In an active game, a guess of four bytes or more whose digits are in range, and for whose line the page
-- has no room, is written over the end of the page.
pub write_game-overruns :
    (code : List ℕ) (highest : ℤ) (guess : List ℕ) (size : ℕ) (g : Game)
    → g.game_active ≡ true
    → num_pegs ≤ size
    → All (IsDigit highest) guess
    → ¬ HasRoom code (map (λ c. c - 48) guess) g
    → (write_game code highest guess size g).0 ≡ fault
unfolding write_game
write_game-overruns code highest guess size g active long valid full =
    let good : (check_digits highest guess).0 ≡ true = (check_digits_lem highest guess).1 valid in
    ground (
      arith,
      check_digits-valid highest guess good,
      play-cases code (map (λ c. c - 48) guess) size g,
    )

length-status_text :
    (n b w : ℕ)
    → length (status_text n b w)
      ≡ length (percent_d n) + length (percent_d b) + length (percent_d w) + 37
unfolding status_text concat
length-status_text n b w = omega (arith, length-append {0})

-- With black and white counts of one digit, the 40 bytes that are kept of a status are all of it exactly if
-- the number of the guess is below ten.
pub status_text_whole :
    (n b w : ℕ) → b < 10 → w < 10 → (take 40 (status_text n b w) ≡ status_text n b w) ↔ (n < 10)
status_text_whole n b w hb hw =
    let whole : (take 40 (status_text n b w) ≡ status_text n b w)
        ↔ (length (status_text n b w) ≤ 40) =
      take_whole 40 (status_text n b w) in
    let size : length (status_text n b w) ≡ length (percent_d n) + 39 =
      ground (arith, length-status_text n b w, length-percent_d b, length-percent_d w) in
    let (long, one) = length-percent_d n in
    (λ e. one.0 (omega (arith, long, size, whole.0 e)), λ h. whole.1 (omega (arith, size, one.1 h)))
