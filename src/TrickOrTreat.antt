-- ===== src/TrickOrTreat.antt =====
-- hw3/hw3.c: groups of children walk from house to house and collect candy. Distances are computed in an
-- `int` of 32 bits: a sum or difference beyond it, which C leaves undefined, wraps here. Amounts of candy
-- are integers; under what conditions they stay inside an `int` is stated with the threads.
pub mod Distance
pub mod Closest
pub mod Threads
pub mod File
mod Tests
use cmsc421_os.Prelude.{
  ℕ, suc, ◌-◌, ◌%◌, ◌^◌, Bool, true, false, not, ◌&&◌, List, ltb, ◌==◌, if◌then◌else◌, get_or,
}
use cmsc421_os.Prelude.Int.{ℤ, pos, negsuc, ltb_ℤ, ◌+ℤ◌, ◌-ℤ◌}
use cmsc421_os.Prelude.Loop.{for_range}

abbrev pub num_of_houses : ℕ
num_of_houses = 10

pub record House : Type 0 where
  pub id : ℕ
  pub x : ℤ
  pub y : ℤ
  pub num_of_candy : ℤ

pub record Group : Type 0 where
  pub id : ℕ
  pub starting_house : ℕ
  pub curr_house : ℕ
  pub num_of_kids : ℤ
  pub num_of_candy : ℤ

-- The `int` with the same 32 bits.
unfoldable pub to_int : ℤ → ℤ
to_int a =
    let bits : ℕ = elim a [ pos n ↦ n % 2 ^ 32 | negsuc n ↦ 2 ^ 32 - 1 - n % 2 ^ 32 ] in
    if ltb bits (2 ^ 31) then pos bits else negsuc (2 ^ 32 - 1 - bits)

unfoldable pub abs : ℤ → ℤ
abs (pos n) = pos n
abs (negsuc n) = to_int (pos (suc n))

-- `abs(a - b)`
unfoldable pub abs_diff : ℤ → ℤ → ℤ
abs_diff a b = abs (to_int (a -ℤ b))

abbrev pub empty_house : House
empty_house = record { id = 0; x = pos 0; y = pos 0; num_of_candy = pos 0 }

-- Only of the ten houses; an index behind them is undefined in the program.
abbrev pub house : List House → ℕ → House
house hs i = get_or hs i empty_house

unfoldable pub manhattan_distance : House → House → ℤ
manhattan_distance a b = to_int (abs_diff a.x b.x +ℤ abs_diff a.y b.y)

-- `numOfCandy >= numOfKids`
abbrev pub is_enough : House → Group → Bool
is_enough h g = not (ltb_ℤ h.num_of_candy g.num_of_kids)

-- The variables of the search; the index and the distance begin at -1.
pub record Nearest : Type 0 where
  pub first : Bool
  pub closest : ℤ
  pub closest_distance : ℤ

module _ (hs : List House) (g : Group) where
  unfoldable pub closest_step : ℕ → Nearest → Nearest
  closest_step i s =
      let distance : ℤ = manhattan_distance (house hs g.curr_house) (house hs i) in
      if not (i == g.starting_house) && not (i == g.curr_house)
      then (if s.first
          then record { first = false; closest = pos i; closest_distance = distance }
          else if is_enough (house hs i) g
          then (if ltb_ℤ distance s.closest_distance
              then record { first = false; closest = pos i; closest_distance = distance }
              else s)
          else s)
      else s

  unfoldable pub find_closest_house : ℤ
  find_closest_house =
      (for_range num_of_houses 0 closest_step
        (record { first = true; closest = negsuc 0; closest_distance = negsuc 0 })).closest
