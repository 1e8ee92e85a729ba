-- ===== src/Mastermind2/Network.antt =====
-- The interrupt handler and the statistics of proj2/mastermind2.c: `cs421net_top`, `cs421net_bottom` and
-- `mm_stats_show`.
pub mod Packets
use cmsc421_os.Prelude.{
  ℕ, ◌-◌, Bool, true, false, ◌||◌, List, [], ◌∷◌, ◌==◌, if◌then◌else◌, length, get_or, take,
}
use cmsc421_os.Prelude.Int.{ℤ, pos, ltb_ℤ}
use cmsc421_os.CString.{codes, concat, schar}
use cmsc421_os.CString.Decimal.{percent_d, bits_of}
use cmsc421_os.Mastermind2.Score.{num_pegs}
use cmsc421_os.Mastermind2.State.{Reply, count, Driver, next_int, highest_digit}

pub data IrqReturn : Type 0 where
  irq_none irq_wake_thread irq_handled : IrqReturn

abbrev pub cs421net_irq : ℕ
cs421net_irq = 6

unfoldable pub cs421net_top : ℕ → IrqReturn
cs421net_top irq = if irq == cs421net_irq then irq_wake_thread else irq_none

-- The loop that checks the bytes of a packet and stops at the first bad one.
unfoldable pub valid_code : ℤ → List ℕ → Bool
valid_code highest [] = true
valid_code highest (c ∷ cs) =
    if ltb_ℤ (schar c) (pos 48) || ltb_ℤ highest (schar c) then false else valid_code highest cs

-- `data` is what `cs421net_get_data` returns, nothing where it returns NULL and a size of 0.
unfoldable pub cs421net_bottom_body : ℤ → List ℕ → Driver → Driver
cs421net_bottom_body highest packet d =
    let invalid : Driver = record d {
      num_invalid_change_attempts = next_int d.num_invalid_change_attempts;
    } in
    if length packet == num_pegs
    then (if valid_code highest packet
        then record d {
          target_code =
              (get_or packet 0 0 - 48)
              ∷ (get_or packet 1 0 - 48)
              ∷ (get_or packet 2 0 - 48)
              ∷ (get_or packet 3 0 - 48)
              ∷ [];
          times_target_code_changed = next_int d.times_target_code_changed;
        }
        else invalid)
    else invalid

unfoldable pub cs421net_bottom : List ℕ → Driver → IrqReturn × Driver
unfolding cs421net_bottom_body
cs421net_bottom packet d = (irq_handled, cs421net_bottom_body (highest_digit d) packet d)

unfoldable pub stats_text : Driver → List ℕ
stats_text d = concat (
    codes "Number of pegs: "
    ∷ percent_d num_pegs
    ∷ codes " \nNumber of colors: "
    ∷ percent_d (bits_of d.num_colors)
    ∷ codes " \nNumber of times code was changed: "
    ∷ percent_d d.times_target_code_changed
    ∷ codes "\nNumber of invalid code change attempts: "
    ∷ percent_d d.num_invalid_change_attempts
    ∷ codes "\nNumber of games started: "
    ∷ percent_d d.num_game_started
    ∷ codes "\n"
    ∷ [])

-- `scnprintf` with size 147: the string that it leaves in the buffer, and its length.
unfoldable pub mm_stats_show : Driver → Reply × List ℕ
mm_stats_show d = let text = take 146 (stats_text d) in (count (length text), text)
