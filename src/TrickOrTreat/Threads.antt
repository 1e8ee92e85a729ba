-- ===== src/TrickOrTreat/Threads.antt =====
-- The threads of hw3/hw3.c: a thread for each group, one that adds candy, and the program that ends
-- them. Each house has a semaphore that begins at 1.
use cmsc421_os.Prelude.{
  ℕ, ◌+◌, ◌-◌, ◌≡◌, ◌≤◌, Bool, true, false, Option, none, some, List, [], ◌∷◌, get_elem?, set,
}
use cmsc421_os.Prelude.Int.{ℤ, pos, ltb_ℤ, ◌+ℤ◌, ◌-ℤ◌}
use cmsc421_os.TrickOrTreat.{num_of_houses, House, Group, house, find_closest_house}
pub mod Load
pub mod Ends
pub mod Returns
pub mod Shared
pub mod Keys
pub mod Candy
pub mod Amounts

-- Where `ChildGroupFunction` stands, with the chosen house: about to choose, on the way, before
-- `sem_wait`, behind it, behind the test (plenty, short), behind the first of the two writes (`paid`:
-- taken from the house; `credited`: the amount that was added to the group), before `sem_post`, returned.
pub data Phase : Type 0 where
  deciding home : Phase
  walking at_door inside plenty short paid leaving : ℕ → Phase
  credited : ℕ → ℤ → Phase

-- Where `neighborhoodFunction` stands: before `fgets`, before `sem_wait` with the numbers of a line,
-- behind it, before `sem_post`, returned.
pub data Errand : Type 0 where
  resting returned : Errand
  carrying filling : ℕ → ℤ → Errand
  closing : ℕ → Errand

-- The lines of the file that are still to be read are the second thread's own.
pub data Thread : Type 0 where
  kids : Group → Phase → Thread
  street : List (ℕ × ℤ) → Errand → Thread

-- The other threads may write the houses while a group reads them without their locks: it sees some
-- amounts of candy, at the places of the houses.
abbrev pub Seen : (seen hs : List House) → Type 0
Seen seen hs = (i : ℕ) → ((house seen i).x ≡ (house hs i).x) × ((house seen i).y ≡ (house hs i).y)

-- Amounts of candy are integers here; `Amounts` says when they fit an `int`.
-- One action of a thread at house `r`, between two accesses of shared state: what it makes of
-- `end_simulation`, of the candy `c` of that house, of its semaphore `v` and of the thread.
pub data Turn (hs : List House) : ℕ → Bool → ℤ → ℕ → Thread → Bool → ℤ → ℕ → Thread → Type 0 where
  choose :
      {g : Group} {r : ℕ} {c : ℤ} {v : ℕ} (seen : List House)
      → Seen seen hs
      → find_closest_house seen g ≡ pos r
      → Turn hs r false c v (kids g deciding) false c v (kids g (walking r))
  go_home :
      {g : Group} {r : ℕ} {c : ℤ} {v : ℕ}
      → Turn hs r true c v (kids g deciding) true c v (kids g home)
  arrive :
      {g : Group} {r : ℕ} {e : Bool} {c : ℤ} {v : ℕ}
      → Turn hs r e c v (kids g (walking r)) e c v (kids (record g { curr_house = r }) (at_door r))
  enter :
      {g : Group} {r : ℕ} {e : Bool} {c : ℤ} {v : ℕ}
      → 1 ≤ v
      → Turn hs r e c v (kids g (at_door r)) e c (v - 1) (kids g (inside r))
  find_plenty :
      {g : Group} {r : ℕ} {e : Bool} {c : ℤ} {v : ℕ}
      → ltb_ℤ c g.num_of_kids ≡ false
      → Turn hs r e c v (kids g (inside r)) e c v (kids g (plenty r))
  find_short :
      {g : Group} {r : ℕ} {e : Bool} {c : ℤ} {v : ℕ}
      → ltb_ℤ c g.num_of_kids ≡ true
      → Turn hs r e c v (kids g (inside r)) e c v (kids g (short r))
  pay :
      {g : Group} {r : ℕ} {e : Bool} {c : ℤ} {v : ℕ}
      → Turn hs r e c v (kids g (plenty r)) e (c -ℤ g.num_of_kids) v (kids g (paid r))
  receive :
      {g : Group} {r : ℕ} {e : Bool} {c : ℤ} {v : ℕ}
      → Turn hs r e c v
          (kids g (paid r))
          e
          c
          v
          (kids (record g { num_of_candy = g.num_of_candy +ℤ g.num_of_kids }) (leaving r))
  credit :
      {g : Group} {r : ℕ} {e : Bool} {c : ℤ} {v : ℕ}
      → Turn hs r e c v
          (kids g (short r))
          e
          c
          v
          (kids (record g { num_of_candy = g.num_of_candy +ℤ c }) (credited r c))
  empty :
      {g : Group} {r : ℕ} {a : ℤ} {e : Bool} {c : ℤ} {v : ℕ}
      → Turn hs r e c v (kids g (credited r a)) e (pos 0) v (kids g (leaving r))
  leave :
      {g : Group} {r : ℕ} {e : Bool} {c : ℤ} {v : ℕ}
      → Turn hs r e c v (kids g (leaving r)) e c (v + 1) (kids g deciding)
  read_line :
      {l : List (ℕ × ℤ)} {r : ℕ} {a : ℤ} {c : ℤ} {v : ℕ}
      → Turn hs r false c v (street ((r, a) ∷ l) resting) false c v (street l (carrying r a))
  read_end :
      {r : ℕ} {c : ℤ} {v : ℕ}
      → Turn hs r false c v (street [] resting) true c v (street [] returned)
  give_up :
      {l : List (ℕ × ℤ)} {r : ℕ} {c : ℤ} {v : ℕ}
      → Turn hs r true c v (street l resting) true c v (street l returned)
  lock :
      {l : List (ℕ × ℤ)} {r : ℕ} {a : ℤ} {e : Bool} {c : ℤ} {v : ℕ}
      → 1 ≤ v
      → Turn hs r e c v (street l (carrying r a)) e c (v - 1) (street l (filling r a))
  add :
      {l : List (ℕ × ℤ)} {r : ℕ} {a : ℤ} {e : Bool} {c : ℤ} {v : ℕ}
      → Turn hs r e c v (street l (filling r a)) e (c +ℤ a) v (street l (closing r))
  unlock :
      {l : List (ℕ × ℤ)} {r : ℕ} {e : Bool} {c : ℤ} {v : ℕ}
      → Turn hs r e c v (street l (closing r)) e c (v + 1) (street l resting)

pub record World : Type 0 where
  pub houses : List House
  pub locks : List ℕ
  pub threads : List Thread
  pub end_simulation : Bool

abbrev pub with_candy : House → ℤ → House
with_candy h c = record h { num_of_candy = c }

-- A turn of one thread, or the program sets `end_simulation` when its time is over.
pub data Step : World → World → Type 0 where
  turn :
      {w : World} {t t' : Thread} {h : House} {e' : Bool} {c' : ℤ} {v v' : ℕ} (i r : ℕ)
      → get_elem? w.threads i ≡ some t
      → get_elem? w.houses r ≡ some h
      → get_elem? w.locks r ≡ some v
      → Turn w.houses r w.end_simulation h.num_of_candy v t e' c' v' t'
      → Step w (record {
        houses = set w.houses r (with_candy h c');
        locks = set w.locks r v';
        threads = set w.threads i t';
        end_simulation = e';
      })
  time_over : {w : World} → Step w (record w { end_simulation = true })

pub data Steps : World → World → Type 0 where
  finished : {w : World} → Steps w w
  more : {w w' w'' : World} → Step w w' → Steps w' w'' → Steps w w''
