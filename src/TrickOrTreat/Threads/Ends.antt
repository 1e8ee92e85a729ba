-- ===== src/TrickOrTreat/Threads/Ends.antt =====
-- Whether the threads of hw3/hw3.c return once `end_simulation` is set, as `pthread_join` needs. The
-- program destroys the semaphores before it waits; what a thread then does is undefined. Here they stay.
use mathlib.Core.Option.{some-injective}
use cmsc421_os.Prelude.{
  ℕ, zero, suc, ◌+◌, ◌≡◌, ◌⊎◌, inl, inr, refl, arith, Bool, true, some, List, [], ◌∷◌, get_elem?,
  set,
}
use cmsc421_os.Prelude.Int.{ℤ}
use cmsc421_os.TrickOrTreat.{House}
use cmsc421_os.TrickOrTreat.Threads.{
  deciding, home, walking, at_door, inside, plenty, short, paid, leaving, credited, resting,
  returned, carrying, filling, closing, Thread, kids, street, Turn, choose, go_home, arrive, enter,
  find_plenty, find_short, pay, receive, credit, empty, leave, read_line, read_end, give_up, lock,
  add, unlock, World, Step, turn, time_over,
}

-- How many turns a thread can still take, at most, once `end_simulation` is set.
unfoldable pub work : Thread → ℕ
work (kids g home) = 0
work (kids g deciding) = 1
work (kids g (leaving k)) = 2
work (kids g (paid k)) = 3
work (kids g (credited k a)) = 3
work (kids g (plenty k)) = 4
work (kids g (short k)) = 4
work (kids g (inside k)) = 5
work (kids g (at_door k)) = 6
work (kids g (walking k)) = 7
work (street l returned) = 0
work (street l resting) = 1
work (street l (closing k)) = 2
work (street l (filling k a)) = 3
work (street l (carrying k a)) = 4

unfoldable pub work_of : List Thread → ℕ
work_of [] = 0
work_of (t ∷ ts) = work t + work_of ts

pub work_of-set :
    (ts : List Thread) (i : ℕ) (u : Thread) {t : Thread}
    → get_elem? ts i ≡ some t
    → work_of (set ts i u) + work t ≡ work_of ts + work u
unfolding work_of
work_of-set [] i u e = cc
work_of-set (x ∷ ts) zero u {t} e = let same : x ≡ t = some-injective x t e in rw same (omega arith)
work_of-set (x ∷ ts) (suc i) u e = omega (arith, work_of-set ts i u e)

pub turn_work :
    {hs : List House} {r : ℕ} {e e' : Bool} {c c' : ℤ} {v v' : ℕ} {t t' : Thread}
    → Turn hs r e c v t e' c' v' t'
    → e ≡ true
    → (e' ≡ true) × (work t ≡ work t' + 1)
unfolding work
turn_work (choose seen same e) on = cc
turn_work go_home on = (on, refl)
turn_work arrive on = (on, refl)
turn_work (enter h) on = (on, refl)
turn_work (find_plenty h) on = (on, refl)
turn_work (find_short h) on = (on, refl)
turn_work pay on = (on, refl)
turn_work receive on = (on, refl)
turn_work credit on = (on, refl)
turn_work empty on = (on, refl)
turn_work leave on = (on, refl)
turn_work read_line on = cc
turn_work read_end on = cc
turn_work give_up on = (on, refl)
turn_work (lock h) on = (on, refl)
turn_work add on = (on, refl)
turn_work unlock on = (on, refl)

-- Once `end_simulation` is set it stays set, and each step either leaves the threads alone or uses up
-- one of the turns that they can still take.
pub step_work :
    {w w' : World}
    → Step w w'
    → w.end_simulation ≡ true
    → (w'.end_simulation ≡ true)
      × ((w'.threads ≡ w.threads) ⊎ (work_of w.threads ≡ work_of w'.threads + 1))
step_work time_over on = (refl, inl refl)
step_work (turn {w} {t'} i r at_i at_house at_lock m) on =
    let (still, less) = turn_work m on in
    (still, inr (omega (arith, less, work_of-set w.threads i t' at_i)))
