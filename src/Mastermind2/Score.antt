-- ===== src/Mastermind2/Score.antt =====
-- The pegs of a guess: the two loops of `mm_write` in proj2/mastermind2.c.
-- `peg_color` holds only 0 and 1, here false and true: whether a peg of the code is marked.
pub mod Marks
pub mod Sound
pub mod Short
use cmsc421_os.Prelude.{
  ℕ, zero, suc, ◌+◌, Bool, true, false, not, List, [], ◌∷◌, ◌==◌, if◌then◌else◌, get_or, set,
  replicate,
}
use cmsc421_os.Prelude.Loop.{for_range}

abbrev pub num_pegs : ℕ
num_pegs = 4

-- What a loop carries: its counter, `num_black` or `num_white`, and `peg_color`.
pub record Pegs : Type 0 where
  pub count : ℕ
  pub peg_color : List Bool

module _ (target_code guess : List ℕ) where
  unfoldable pub black_step : ℕ → Pegs → Pegs
  black_step i s =
      if get_or target_code i 0 == get_or guess i 0
      then record { count = s.count + 1; peg_color = set s.peg_color i true }
      else s

  -- The inner loop from `j` on: it stops at the first peg of the code that has the color.
  unfoldable pub find_color : (color rounds j : ℕ) → Pegs → Pegs
  find_color color zero j s = s
  find_color color (suc n) j s =
      if get_or target_code j 0 == color
      then (if get_or s.peg_color j false
          then s
          else record { count = s.count + 1; peg_color = set s.peg_color j true })
      else find_color color n (j + 1) s

  unfoldable pub white_step : ℕ → Pegs → Pegs
  white_step i s =
      if not (get_or s.peg_color i false) then find_color (get_or guess i 0) num_pegs 0 s else s

  unfoldable pub black_loop : Pegs
  black_loop =
      for_range num_pegs 0 black_step (record { count = 0; peg_color = replicate num_pegs false })

  unfoldable pub white_loop : Pegs
  white_loop =
      for_range num_pegs 0 white_step (record { count = 0; peg_color = black_loop.peg_color })

-- `num_black` and `num_white`.
unfoldable pub score : List ℕ → List ℕ → ℕ × ℕ
score target_code guess =
    ((black_loop target_code guess).count, (white_loop target_code guess).count)
