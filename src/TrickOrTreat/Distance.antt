-- ===== src/TrickOrTreat/Distance.antt =====
-- The distances of hw3/hw3.c as numbers, and when the program's `int` arithmetic gives them.
use cmsc421_os.Prelude.{ℕ, suc, ◌+◌, ◌^◌, ◌<◌, ◌≡◌, ◌∙◌, ap, arith}
use cmsc421_os.Prelude.Int.{ℤ, pos, negsuc, pos_part, neg_part, ◌+ℤ◌, ◌-ℤ◌}
use cmsc421_os.TrickOrTreat.{House, to_int, abs, abs_diff, manhattan_distance}

-- The distance of two coordinates.
abbrev pub apart : ℤ → ℤ → ℕ
apart a b = pos_part (a -ℤ b) + neg_part (a -ℤ b)

unfoldable pub taxicab : House → House → ℕ
taxicab a b = apart a.x b.x + apart a.y b.y

-- An integer below 2^31 in absolute value is an `int`.
to_int_same : (a : ℤ) → pos_part a + neg_part a < 2 ^ 31 → to_int a ≡ a
unfolding to_int
to_int_same (pos n) small = ground arith
to_int_same (negsuc n) small = ground arith

abs_lem :
    (a : ℤ) → pos_part a + neg_part a < 2 ^ 31 → abs (to_int a) ≡ pos (pos_part a + neg_part a)
unfolding abs
abs_lem (pos n) small = rw (to_int_same (pos n) small) (ground arith)
abs_lem (negsuc n) small =
    rw (to_int_same (negsuc n) small)
      (to_int_same (pos (suc n)) (omega arith) ∙ ap pos (omega arith))

sum_of_pos : (m n : ℕ) → pos m +ℤ pos n ≡ pos (m + n)
unfolding ◌+ℤ◌
sum_of_pos m n = ground arith

-- A distance that is an `int` is what the program computes.
pub manhattan_distance-taxicab :
    (a b : House) → taxicab a b < 2 ^ 31 → manhattan_distance a b ≡ pos (taxicab a b)
unfolding manhattan_distance abs_diff taxicab
manhattan_distance-taxicab a b small =
    rw
      (
        abs_lem (a.x -ℤ b.x) (omega arith),
        abs_lem (a.y -ℤ b.y) (omega arith),
        sum_of_pos (apart a.x b.x) (apart a.y b.y),
      )
      (to_int_same (pos (taxicab a b)) (omega arith))
