-- ===== src/Mastermind2/Network/Packets.antt =====
-- Which packets `cs421net_bottom` of proj2/mastermind2.c takes for a new code.
use cmsc421_os.Prelude.{
  ℕ, ◌+◌, ◌-◌, ◌≤◌, ◌≡◌, refl, ◌⊎◌, ◌↔◌, inl, inr, true, List, [], ◌∷◌, arith, length, get_or,
  Bool-cases, ◌==◌, All, map, take_whole, length-append,
}
use cmsc421_os.Prelude.Int.{ℤ}
use cmsc421_os.CString.{concat}
use cmsc421_os.CString.Decimal.{percent_d, bits_of}
use cmsc421_os.Mastermind2.Score.{num_pegs}
use cmsc421_os.Mastermind2.State.{Driver, next_int}
use cmsc421_os.Mastermind2.Game.Write.{IsDigit}
use cmsc421_os.Mastermind2.Network.{valid_code, cs421net_bottom_body, stats_text, mm_stats_show}

pub valid_code_lem :
    (highest : ℤ) (packet : List ℕ)
    → (valid_code highest packet ≡ true) ↔ All (IsDigit highest) packet
unfolding valid_code
valid_code_lem highest [] = (λ _. tt, λ _. refl)
valid_code_lem highest (c ∷ cs) =
    let (there, back) = valid_code_lem highest cs in
    (λ e. ground (arith, there), λ h. ground (arith, back))

-- The packets that change the code.
abbrev pub IsCode : ℤ → List ℕ → Type 0
IsCode highest packet = (length packet ≡ num_pegs) × All (IsDigit highest) packet

four :
    (packet : List ℕ)
    → length packet ≡ 4
    → map (λ c. c - 48) packet
      ≡ (get_or packet 0 0 - 48)
        ∷ (get_or packet 1 0 - 48)
        ∷ (get_or packet 2 0 - 48)
        ∷ (get_or packet 3 0 - 48)
        ∷ []
four (a ∷ b ∷ c ∷ d ∷ []) e = refl
four [] e = absurd (omega (arith, e))
four (a ∷ []) e = absurd (omega (arith, e))
four (a ∷ b ∷ []) e = absurd (omega (arith, e))
four (a ∷ b ∷ c ∷ []) e = absurd (omega (arith, e))
four (a ∷ b ∷ c ∷ d ∷ f ∷ rest) e = absurd (omega (arith, e))

-- A packet changes the code to its digits and counts as a change, or counts as invalid and changes nothing
-- else; four digits in range are the packets that change it.
pub cs421net_bottom_lem :
    (highest : ℤ) (packet : List ℕ) (d : Driver)
    → (IsCode highest packet
        × (cs421net_bottom_body highest packet d ≡ record d {
          target_code = map (λ c. c - 48) packet;
          times_target_code_changed = next_int d.times_target_code_changed;
        }))
      ⊎ (¬ IsCode highest packet
          × (cs421net_bottom_body highest packet d
              ≡ record d { num_invalid_change_attempts = next_int d.num_invalid_change_attempts }))
unfolding cs421net_bottom_body
cs421net_bottom_lem highest packet d =
    let (there, back) = valid_code_lem highest packet in
    elim (Bool-cases (length packet == 4)) [
      | inr bad ↦ inr (λ h. ground (arith), ground arith)
      | inl size ↦ elim (Bool-cases (valid_code highest packet)) [
        | inl good ↦ inl (
          (ground arith, there good),
          rw (four packet (ground arith), size, good, cs421net_bottom_body) refl,
        )
        | inr bad ↦ inr (λ h. cc (bad, back h.1), rw (size, bad, cs421net_bottom_body) refl)
      ]
    ]

-- The digits of the five numbers in the statistics.
abbrev pub stats_digits : Driver → ℕ
stats_digits d =
    length (percent_d num_pegs)
    + length (percent_d (bits_of d.num_colors))
    + length (percent_d d.times_target_code_changed)
    + length (percent_d d.num_invalid_change_attempts)
    + length (percent_d d.num_game_started)

pub length-stats_text : (d : Driver) → length (stats_text d) ≡ 140 + stats_digits d
unfolding stats_text concat
length-stats_text d = omega (arith, length-append {0})

-- The statistics are shown whole exactly if their five numbers have at most six digits in all.
pub mm_stats_show_whole : (d : Driver) → ((mm_stats_show d).1 ≡ stats_text d) ↔ (stats_digits d ≤ 6)
unfolding mm_stats_show
mm_stats_show_whole d =
    let (there, back) = take_whole 146 (stats_text d) in
    (
      λ e. omega (arith, there e, length-stats_text d),
      λ h. back (omega (arith, length-stats_text d)),
    )
