-- ===== src/TrickOrTreat/File/Tests.antt =====
-- Runs of the reading and writing of hw3/hw3.c, and the theorem at a file.
use cmsc421_os.Prelude.{◌≡◌, refl, arith, none, List, [], ◌∷◌}
use cmsc421_os.Prelude.Int.{ℤ, pos, negsuc, ◌+ℤ◌, ◌-ℤ◌}
use cmsc421_os.Prelude.Sum.{sum_by}
use cmsc421_os.CString.{codes, concat}
use cmsc421_os.CString.Decimal.{digits, decimal, percent_d}
use cmsc421_os.TrickOrTreat.{House, Group}
use cmsc421_os.TrickOrTreat.Threads.Load.{begin}
use cmsc421_os.TrickOrTreat.File.{
  reads, exits, usage, undefined, piece, fgets, scan_digits, atoi, skip_delimiters, cut_token,
  strtok, next_number, house_row, pair_row, load_houses, load, main, house_lines, print_status,
}
use cmsc421_os.TrickOrTreat.File.Printed.{file_text, load-file_text}

test_atoi : atoi (codes " -42x") ≡ negsuc 41
unfolding atoi scan_digits ◌-ℤ◌
test_atoi = refl

test_house_row : house_row (codes "3  -4 250\n") ≡ reads (pos 3, negsuc 3, pos 250)
unfolding house_row next_number strtok skip_delimiters cut_token atoi scan_digits ◌-ℤ◌
test_house_row = refl

-- A blank line, or one number alone, has no second token.
test_blank : pair_row (codes "\n") ≡ undefined
unfolding pair_row next_number strtok skip_delimiters cut_token atoi scan_digits
test_blank = refl

-- A file that ends before the tenth house.
test_short : load (codes "1\n0 0 5\n") ≡ exits
unfolding load fgets piece load_houses house_row next_number strtok skip_delimiters cut_token atoi
    scan_digits
test_short = refl

test_usage : main (codes "data.txt" ∷ []) (λ name. none) ≡ usage
unfolding main
test_usage = refl

abbrev one_house : House
one_house = record { id = 0; x = pos 3; y = negsuc 0; num_of_candy = pos 12 }

abbrev one_group : Group
one_group = record {
  id = 0;
  starting_house = 2;
  curr_house = 0;
  num_of_kids = pos 5;
  num_of_candy = pos 7;
}

test_print_status :
    print_status (one_house ∷ []) (one_group ∷ [])
    ≡ codes
        "  Group statuses:\n    0:  size 5, going to 0, collected 7\n  House statuses:\n    0 @ (3, -1): 12 available\n  Total candy: 7\n"
unfolding print_status concat house_lines sum_by percent_d decimal digits ◌+ℤ◌
test_print_status = refl

abbrev ten_houses : List (ℤ × ℤ × ℤ)
ten_houses =
    (pos 0, pos 0, pos 20)
    ∷ (pos 1, negsuc 4, pos 20)
    ∷ (pos 2, pos 0, pos 20)
    ∷ (pos 3, pos 0, pos 20)
    ∷ (pos 4, pos 0, pos 20)
    ∷ (pos 5, pos 0, pos 20)
    ∷ (pos 6, pos 0, pos 20)
    ∷ (pos 7, pos 0, pos 20)
    ∷ (pos 8, pos 0, pos 20)
    ∷ (pos 9, pos 0, pos 20)
    ∷ []

load-file_text_example :
    load (file_text ten_houses ((3, pos 5) ∷ []) ((2, pos 40) ∷ []))
    ≡ reads (begin ten_houses ((3, pos 5) ∷ []) ((2, pos 40) ∷ []))
load-file_text_example = load-file_text ten_houses ((3, pos 5) ∷ []) ((2, pos 40) ∷ []) (record {
  ten = refl;
  houses = (
    (omega arith, omega arith, omega arith),
    (
      (omega arith, omega arith, omega arith),
      (
        (omega arith, omega arith, omega arith),
        (
          (omega arith, omega arith, omega arith),
          (
            (omega arith, omega arith, omega arith),
            (
              (omega arith, omega arith, omega arith),
              (
                (omega arith, omega arith, omega arith),
                (
                  (omega arith, omega arith, omega arith),
                  (
                    (omega arith, omega arith, omega arith),
                    ((omega arith, omega arith, omega arith), tt),
                  ),
                ),
              ),
            ),
          ),
        ),
      ),
    ),
  );
  count = omega arith;
  groups_in_range = ((omega arith, omega arith), tt);
  refills_in_range = ((omega arith, omega arith), tt);
})
