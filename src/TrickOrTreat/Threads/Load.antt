-- ===== src/TrickOrTreat/Threads/Load.antt =====
-- How `main` of hw3/hw3.c begins, and what holds from then on. A thread is created as soon as its line
-- is read; that it has not yet moved when the others are created is one of the orders.
use cmsc421_os.Prelude.{
  ℕ, zero, suc, ◌+◌, ◌≡◌, ◌<◌, refl, ◌∙◌, arith, true, false, some, List, [], ◌∷◌, All,
  All-get_elem?, length, length-replicate, replicate, get_elem?,
}
use cmsc421_os.Prelude.Count.{count_if}
use cmsc421_os.Prelude.Int.{ℤ, pos, ◌+ℤ◌, ◌≤ℤ◌, int_laws}
use cmsc421_os.Prelude.Sum.{sum_by}
use cmsc421_os.TrickOrTreat.{num_of_houses, House}
use cmsc421_os.TrickOrTreat.Threads.{deciding, resting, Thread, kids, street, World, Steps}
use cmsc421_os.TrickOrTreat.Threads.Keys.{holds}
use cmsc421_os.TrickOrTreat.Threads.Candy.{IsRefill, amount, Firm, purse}
use cmsc421_os.TrickOrTreat.Threads.Shared.{candy_of, Sound, total, steps-Sound, steps_total, alone}

-- The rows of the file: two coordinates and the candy of a house, the start and the number of a group.
unfoldable pub read_houses : ℕ → List (ℤ × ℤ × ℤ) → List House
read_houses i [] = []
read_houses i ((x, y, c) ∷ rows) =
    record { id = i; x = x; y = y; num_of_candy = c } ∷ read_houses (i + 1) rows

unfoldable pub read_groups : ℕ → List (ℕ × ℤ) → List Thread
read_groups i [] = []
read_groups i ((start, n) ∷ rows) =
    kids
      (record {
        id = i;
        starting_house = start;
        curr_house = start;
        num_of_kids = n;
        num_of_candy = pos 0;
      })
      deciding
    ∷ read_groups (i + 1) rows

unfoldable pub begin : List (ℤ × ℤ × ℤ) → List (ℕ × ℤ) → List (ℕ × ℤ) → World
begin rows groups refills = record {
  houses = read_houses 0 rows;
  locks = replicate num_of_houses 1;
  threads = street refills resting ∷ read_groups 0 groups;
  end_simulation = false;
}

-- A file as it should be: ten houses with some candy, and groups that start at one
-- of them, and lines that add candy to one of them.
pub record IsFile (rows : List (ℤ × ℤ × ℤ)) (groups refills : List (ℕ × ℤ)) : Type 0 where
  pub ten : length rows ≡ num_of_houses
  pub candy : All (λ row. pos 0 ≤ℤ row.2) rows
  pub starts : All (λ group. group.0 < num_of_houses) groups
  pub lines : All IsRefill refills

pub length-read_houses :
    (i : ℕ) (rows : List (ℤ × ℤ × ℤ)) → length (read_houses i rows) ≡ length rows
unfolding read_houses
length-read_houses i [] = refl
length-read_houses i (row ∷ rows) = omega (arith, length-read_houses (i + 1) rows)

read_houses-All :
    (i : ℕ) (rows : List (ℤ × ℤ × ℤ))
    → All (λ row. pos 0 ≤ℤ row.2) rows
    → All (λ h. pos 0 ≤ℤ h.num_of_candy) (read_houses i rows)
unfolding read_houses
read_houses-All i [] p = tt
read_houses-All i (row ∷ rows) (p, ps) = (p, read_houses-All (i + 1) rows ps)

nobody_inside : (k i : ℕ) (groups : List (ℕ × ℤ)) → count_if (holds k) (read_groups i groups) ≡ 0
unfolding read_groups count_if holds
nobody_inside k i [] = refl
nobody_inside k i (g ∷ groups) = omega (arith, nobody_inside k (i + 1) groups)

read_groups-Firm :
    (k : ℕ) (c : ℤ) (i : ℕ) (groups : List (ℕ × ℤ)) → All (Firm k c) (read_groups i groups)
unfolding read_groups Firm
read_groups-Firm k c i [] = tt
read_groups-Firm k c i (g ∷ groups) = (tt, read_groups-Firm k c (i + 1) groups)

get_elem?-replicate : (n k : ℕ) {v : ℕ} → get_elem? (replicate n 1) k ≡ some v → v ≡ 1
get_elem?-replicate zero k e = cc
get_elem?-replicate (suc n) zero e = ground arith
get_elem?-replicate (suc n) (suc k) e = get_elem?-replicate n k e

purse-read_groups : (i : ℕ) (groups : List (ℕ × ℤ)) → sum_by purse (read_groups i groups) ≡ pos 0
unfolding read_groups purse sum_by
purse-read_groups i [] = refl
purse-read_groups i (g ∷ groups) = rw (purse-read_groups (i + 1) groups) (omega int_laws)

module _ (rows : List (ℤ × ℤ × ℤ)) (groups refills : List (ℕ × ℤ))
    (file : IsFile rows groups refills) where
  pub begin-Sound : Sound (begin rows groups refills)
  unfolding begin holds count_if Firm
  begin-Sound = record {
    enough_locks =
        omega (
          arith,
          length-read_houses 0 rows,
          file.ten,
          length-replicate {0} {A = ℕ} num_of_houses 1,
        );
    one_each =
        λ k v e. omega (arith, get_elem?-replicate num_of_houses k e, nobody_inside k 0 groups);
    firm = λ j k t h at_j at_k.
        All-get_elem? (Firm k h.num_of_candy) (street refills resting ∷ read_groups 0 groups) j
          (file.lines, read_groups-Firm k h.num_of_candy 0 groups) at_j;
    no_debt = λ k h at_k.
        All-get_elem? (λ h. pos 0 ≤ℤ h.num_of_candy) (read_houses 0 rows) k
          (read_houses-All 0 rows file.candy) at_k;
  }

  total-begin :
      total (begin rows groups refills)
      ≡ sum_by candy_of (read_houses 0 rows) +ℤ sum_by amount refills
  unfolding total begin purse sum_by
  total-begin = rw (purse-read_groups 0 groups) (grind int_laws)

  module _ {w : World} (run : Steps (begin rows groups refills) w) where
    pub reached-Sound : Sound w
    reached-Sound = steps-Sound run begin-Sound

    -- What the houses have, what the groups have and what the unread lines will add is together what the
    -- file gave.
    pub total_kept : total w ≡ sum_by candy_of (read_houses 0 rows) +ℤ sum_by amount refills
    total_kept = steps_total run begin-Sound ∙ total-begin

    -- Begun with a file of ten houses with some candy, groups that start at one of them and lines that
    -- add candy to one of them, in every order of the turns no two threads are at once
    -- between `sem_wait` and `sem_post` of the same house.
    pub one_thread_in_a_house :
        {v : ℕ} {t s : Thread} (r i j : ℕ)
        → get_elem? w.locks r ≡ some v
        → get_elem? w.threads i ≡ some t
        → get_elem? w.threads j ≡ some s
        → holds r t ≡ true
        → holds r s ≡ true
        → i ≡ j
    one_thread_in_a_house r i j = alone w r i j reached-Sound.one_each
