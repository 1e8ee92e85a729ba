-- ===== src/TrickOrTreat/Tests.antt =====
-- Runs of the model of hw3/hw3.c, and the theorems at concrete inputs.
use cmsc421_os.Prelude.{
  ℕ, zero, suc, ◌+◌, ◌≡◌, ◌≤◌, ◌<◌, ◌⊎◌, refl, arith, true, false, List, [], ◌∷◌, replicate,
}
use cmsc421_os.Prelude.Int.{ℤ, pos, ◌+ℤ◌, ◌-ℤ◌}
use cmsc421_os.Prelude.Loop.{for_range}
use cmsc421_os.Prelude.Sum.{sum_by}
use cmsc421_os.TrickOrTreat.{
  num_of_houses, Group, house, is_enough, find_closest_house, closest_step, manhattan_distance,
  abs_diff, to_int, abs,
}
use cmsc421_os.TrickOrTreat.Distance.{taxicab}
use cmsc421_os.TrickOrTreat.Closest.{
  distance, is_other, choice, others, InReach, closest_house, find_closest_house_lem,
}
use cmsc421_os.TrickOrTreat.Threads.{
  paid, resting, kids, street, turn, choose, arrive, enter, find_plenty, pay, receive, leaving,
  World, Step, time_over, Steps, finished, more,
}
use cmsc421_os.TrickOrTreat.Threads.Keys.{holds}
use cmsc421_os.TrickOrTreat.Threads.Candy.{amount}
use cmsc421_os.TrickOrTreat.Threads.Shared.{candy_of, total}
use cmsc421_os.TrickOrTreat.Threads.Load.{
  read_houses, read_groups, begin, IsFile, one_thread_in_a_house,
}
use cmsc421_os.TrickOrTreat.Threads.Amounts.{AllAmounts, FitsInt, candy_is_kept}
use cmsc421_os.TrickOrTreat.Threads.Ends.{work_of, step_work}
use cmsc421_os.TrickOrTreat.Threads.Returns.{threads_can_return}

-- Ten houses in a row: two pieces of candy in the nearest, nine in the others.
abbrev rows : List (ℤ × ℤ × ℤ)
rows =
    (pos 0, pos 0, pos 9)
    ∷ (pos 1, pos 0, pos 2)
    ∷ (pos 2, pos 0, pos 9)
    ∷ (pos 3, pos 0, pos 9)
    ∷ (pos 4, pos 0, pos 9)
    ∷ (pos 5, pos 0, pos 9)
    ∷ (pos 6, pos 0, pos 9)
    ∷ (pos 7, pos 0, pos 9)
    ∷ (pos 8, pos 0, pos 9)
    ∷ (pos 9, pos 0, pos 9)
    ∷ []

abbrev groups : List (ℕ × ℤ)
groups = (3, pos 4) ∷ []

abbrev refills : List (ℕ × ℤ)
refills = (1, pos 5) ∷ []

abbrev file : IsFile rows groups refills
file = record {
  ten = refl;
  candy = (
    omega arith,
    (
      omega arith,
      (
        omega arith,
        (
          omega arith,
          (
            omega arith,
            (omega arith, (omega arith, (omega arith, (omega arith, (omega arith, tt))))),
          ),
        ),
      ),
    ),
  );
  starts = (omega arith, tt);
  lines = ((omega arith, omega arith), tt);
}

abbrev group : Group
group = record {
  id = 0;
  starting_house = 3;
  curr_house = 3;
  num_of_kids = pos 4;
  num_of_candy = pos 0;
}

abbrev guest : Group
guest = record group { curr_house = 2 }

-- From house 3 the nearest of the others with enough is house 2; house 4 is as near and comes later.
test_find_closest_house : find_closest_house (read_houses 0 rows) group ≡ pos 2
unfolding find_closest_house closest_step manhattan_distance abs_diff to_int abs for_range
    read_houses ◌+ℤ◌ ◌-ℤ◌
test_find_closest_house = refl

-- The first other house is chosen although it has nothing, where those with enough are farther.
abbrev empty_first : List (ℤ × ℤ × ℤ)
empty_first =
    (pos 3, pos 0, pos 0)
    ∷ (pos 9, pos 0, pos 9)
    ∷ (pos 4, pos 0, pos 9)
    ∷ replicate 7 (pos 9, pos 0, pos 9)

test_empty_first :
    find_closest_house
      (read_houses 0 empty_first)
      (record group { starting_house = 1; curr_house = 2 })
    ≡ pos 0
unfolding find_closest_house closest_step manhattan_distance abs_diff to_int abs for_range
    read_houses ◌+ℤ◌ ◌-ℤ◌
test_empty_first = refl

-- A row of houses that are not far from one another.
rows-InReach : InReach (read_houses 0 rows) group
unfolding taxicab read_houses ◌-ℤ◌
rows-InReach zero lt = omega arith
rows-InReach (suc zero) lt = omega arith
rows-InReach (suc (suc zero)) lt = omega arith
rows-InReach (suc (suc (suc zero))) lt = omega arith
rows-InReach (suc (suc (suc (suc zero)))) lt = omega arith
rows-InReach (suc (suc (suc (suc (suc zero))))) lt = omega arith
rows-InReach (suc (suc (suc (suc (suc (suc zero)))))) lt = omega arith
rows-InReach (suc (suc (suc (suc (suc (suc (suc zero))))))) lt = omega arith
rows-InReach (suc (suc (suc (suc (suc (suc (suc (suc zero)))))))) lt = omega arith
rows-InReach (suc (suc (suc (suc (suc (suc (suc (suc (suc zero))))))))) lt = omega arith
rows-InReach (suc (suc (suc (suc (suc (suc (suc (suc (suc (suc i)))))))))) lt = absurd (omega arith)

find_closest_house_example :
    find_closest_house (read_houses 0 rows) group
    ≡ choice
        (read_houses 0 rows)
        group
        (λ i. pos (distance (read_houses 0 rows) group i))
        (others (read_houses 0 rows) group 10 0)
find_closest_house_example = find_closest_house_lem (read_houses 0 rows) group rows-InReach

closest_house_example :
    (r : ℕ) × (find_closest_house (read_houses 0 rows) group ≡ pos r)
    × (r < num_of_houses)
    × (is_other (read_houses 0 rows) group r ≡ true)
    × ((is_enough (house (read_houses 0 rows) r) group ≡ true)
        ⊎ ((j : ℕ) → j < r → is_other (read_houses 0 rows) group j ≡ false))
    × (InReach (read_houses 0 rows) group
        → (j : ℕ) → j < num_of_houses
        → is_other (read_houses 0 rows) group j ≡ true
        → is_enough (house (read_houses 0 rows) j) group ≡ true
        → distance (read_houses 0 rows) group r ≤ distance (read_houses 0 rows) group j)
closest_house_example = closest_house (read_houses 0 rows) group

-- The group has gone to house 2 and has just taken four pieces from its nine.
abbrev after : World
after = record {
  houses =
      record { id = 0; x = pos 0; y = pos 0; num_of_candy = pos 9 }
      ∷ record { id = 1; x = pos 1; y = pos 0; num_of_candy = pos 2 }
      ∷ record { id = 2; x = pos 2; y = pos 0; num_of_candy = pos 5 }
      ∷ read_houses 3 (
          (pos 3, pos 0, pos 9)
          ∷ (pos 4, pos 0, pos 9)
          ∷ (pos 5, pos 0, pos 9)
          ∷ (pos 6, pos 0, pos 9)
          ∷ (pos 7, pos 0, pos 9)
          ∷ (pos 8, pos 0, pos 9)
          ∷ (pos 9, pos 0, pos 9)
          ∷ []);
  locks = 1 ∷ 1 ∷ 0 ∷ replicate 7 1;
  threads = street refills resting ∷ kids guest (paid 2) ∷ [];
  end_simulation = false;
}

abbrev ended : World
ended = record after { end_simulation = true }

walk : {w : World} → Steps after w → Steps (begin rows groups refills) w
unfolding begin read_houses read_groups find_closest_house closest_step manhattan_distance abs_diff
    to_int abs for_range ◌+ℤ◌ ◌-ℤ◌
walk rest = more (turn 1 2 refl refl refl (choose (read_houses 0 rows) (λ i. (refl, refl)) refl)) (
    more (turn 1 2 refl refl refl arrive) (
      more (turn 1 2 refl refl refl (enter (omega arith))) (
        more (turn 1 2 refl refl refl (find_plenty refl))
          (more (turn 1 2 refl refl refl pay) rest))))

inside_two : holds 2 (kids guest (paid 2)) ≡ true
unfolding holds
inside_two = refl

fits : FitsInt rows groups refills
unfolding read_houses sum_by ◌+ℤ◌
fits = record { kids = (omega arith, tt); sum = omega arith }

candy_is_kept_example :
    AllAmounts after × (total after ≡ sum_by candy_of (read_houses 0 rows) +ℤ sum_by amount refills)
candy_is_kept_example = candy_is_kept rows groups refills file fits (walk finished)

one_thread_in_a_house_example : ◌≡◌ {A = ℕ} 1 1
one_thread_in_a_house_example =
    one_thread_in_a_house rows groups refills file (walk finished) 2 1 1 refl refl refl inside_two
      inside_two

threads_can_return_example : (w' : World) × Steps ended w' × (work_of w'.threads ≡ 0)
threads_can_return_example =
    threads_can_return rows groups refills file (walk (more time_over finished)) refl

-- The group counts what it has taken.
abbrev counted : World
counted = record ended {
  threads = street refills resting ∷ kids (record guest { num_of_candy = pos 4 }) (leaving 2) ∷ [];
}

counts : Step ended counted
unfolding read_houses ◌+ℤ◌
counts = turn 1 2 refl refl refl receive

step_work_example :
    (true ≡ true)
    × ((counted.threads ≡ ended.threads) ⊎ (work_of ended.threads ≡ work_of counted.threads + 1))
step_work_example = step_work counts refl
