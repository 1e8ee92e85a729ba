-- ===== src/TrickOrTreat/Threads/Keys.antt =====
-- The semaphores of the houses of hw3/hw3.c, and who is in a house.
use cmsc421_os.Prelude.{
  ℕ, ◌+◌, ◌≡◌, ◌≢◌, refl, sym, ◌∙◌, arith, Bool, false, some, List, ◌==◌, get_elem?, set,
  get_elem?-set_self, get_elem?-set_ne, lt_of_get_elem?, ℕ_discrete,
}
use mathlib.Core.Option.{some-injective}
use cmsc421_os.Prelude.Count.{one_if, count_if, count_if-set}
use cmsc421_os.Prelude.Int.{ℤ}
use cmsc421_os.TrickOrTreat.{House}
use cmsc421_os.TrickOrTreat.Threads.{
  deciding, home, walking, at_door, inside, plenty, short, paid, leaving, credited, resting,
  returned, carrying, filling, closing, Thread, kids, street, Turn, choose, go_home, arrive, enter,
  find_plenty, find_short, pay, receive, credit, empty, leave, read_line, read_end, give_up, lock,
  add, unlock, World, Step, turn, time_over, Steps, finished, more,
}

-- Whether a thread is between `sem_wait` and `sem_post` of a house.
unfoldable pub holds : ℕ → Thread → Bool
holds r (kids g (inside k)) = k == r
holds r (kids g (plenty k)) = k == r
holds r (kids g (short k)) = k == r
holds r (kids g (paid k)) = k == r
holds r (kids g (credited k a)) = k == r
holds r (kids g (leaving k)) = k == r
holds r (kids g deciding) = false
holds r (kids g home) = false
holds r (kids g (walking k)) = false
holds r (kids g (at_door k)) = false
holds r (street l (filling k a)) = k == r
holds r (street l (closing k)) = k == r
holds r (street l resting) = false
holds r (street l returned) = false
holds r (street l (carrying k a)) = false

-- A turn moves the semaphore of its house and no other thread's.
pub turn_here :
    {hs : List House} {r : ℕ} {e e' : Bool} {c c' : ℤ} {v v' : ℕ} {t t' : Thread}
    → Turn hs r e c v t e' c' v' t'
    → v' + one_if (holds r t') ≡ v + one_if (holds r t)
unfolding holds
turn_here (choose seen same e) = refl
turn_here go_home = refl
turn_here arrive = refl
turn_here (enter h) = ground arith
turn_here (find_plenty h) = refl
turn_here (find_short h) = refl
turn_here pay = refl
turn_here receive = refl
turn_here credit = refl
turn_here empty = refl
turn_here leave = ground arith
turn_here read_line = refl
turn_here read_end = refl
turn_here give_up = refl
turn_here (lock h) = ground arith
turn_here add = refl
turn_here unlock = ground arith

pub turn_elsewhere :
    {hs : List House} {r : ℕ} {e e' : Bool} {c c' : ℤ} {v v' : ℕ} {t t' : Thread} (k : ℕ)
    → r ≢ k
    → Turn hs r e c v t e' c' v' t'
    → holds k t' ≡ holds k t
unfolding holds
turn_elsewhere k ne (choose seen same e) = refl
turn_elsewhere k ne go_home = refl
turn_elsewhere k ne arrive = refl
turn_elsewhere k ne (enter h) = ground arith
turn_elsewhere k ne (find_plenty h) = refl
turn_elsewhere k ne (find_short h) = refl
turn_elsewhere k ne pay = refl
turn_elsewhere k ne receive = refl
turn_elsewhere k ne credit = refl
turn_elsewhere k ne empty = refl
turn_elsewhere k ne leave = ground arith
turn_elsewhere k ne read_line = refl
turn_elsewhere k ne read_end = refl
turn_elsewhere k ne give_up = refl
turn_elsewhere k ne (lock h) = ground arith
turn_elsewhere k ne add = refl
turn_elsewhere k ne unlock = ground arith

-- The semaphore of each house and the threads in it make one.
abbrev pub OneEach : World → Type 0
OneEach w = (k v : ℕ) → get_elem? w.locks k ≡ some v → v + count_if (holds k) w.threads ≡ 1

pub step-OneEach : {w w' : World} → Step w w' → OneEach w → OneEach w'
step-OneEach time_over h k u e = h k u e
step-OneEach (turn {w} {t} {t'} {h = hr} {e'} {c'} {v} {v'} i r at_i at_house at_r m) h k u e =
    elim (ℕ_discrete r k) [
      | yes same ↦
          let e' : get_elem? (set w.locks r v') r ≡ some u = rw (← same) at e in
          let now : v' ≡ u =
            some-injective v' u
              (sym (get_elem?-set_self w.locks r v' (lt_of_get_elem? w.locks r at_r)) ∙ e') in
          rw (← same)
            (omega (arith, h r v at_r, turn_here m, count_if-set (holds r) w.threads i t' at_i))
      | no differs ↦
          let was : get_elem? w.locks k ≡ some u = sym (get_elem?-set_ne w.locks v' differs) ∙ e in
          let still = turn_elsewhere k differs m in
          ground (arith, h k u was, count_if-set (holds k) w.threads i t' at_i)
    ]

pub steps-OneEach : {w w' : World} → Steps w w' → OneEach w → OneEach w'
steps-OneEach finished h = h
steps-OneEach (more s ss) h = steps-OneEach ss (step-OneEach s h)
