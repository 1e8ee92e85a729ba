-- ===== src/TrickOrTreat/Threads/Returns.antt =====
-- Whether the threads of hw3/hw3.c block one another when the simulation has ended.
use cmsc421_os.Prelude.{
  ℕ, zero, suc, ◌+◌, ◌-◌, ◌≡◌, ◌≤◌, ◌<◌, ◌⊎◌, inl, inr, refl, sym, ap, ◌∙◌, arith, Bool, true, some,
  List, [], ◌∷◌, All, All-get_elem?, length, get_elem?, Bool-cases, dec_lt,
}
use cmsc421_os.Prelude.Count.{count_if_pos}
use cmsc421_os.Prelude.Int.{ℤ, pos, pos_part, ltb_ℤ}
use cmsc421_os.TrickOrTreat.{num_of_houses, House}
use cmsc421_os.TrickOrTreat.Closest.{closest_house}
use cmsc421_os.TrickOrTreat.Threads.{
  deciding, home, walking, at_door, inside, plenty, short, paid, leaving, credited, resting,
  returned, carrying, filling, closing, Thread, kids, street, Turn, choose, go_home, arrive, enter,
  find_plenty, find_short, pay, receive, credit, empty, leave, read_line, read_end, give_up, lock,
  add, unlock, World, Step, turn, time_over, Steps, finished, more,
}
use cmsc421_os.TrickOrTreat.Threads.Keys.{holds}
use cmsc421_os.TrickOrTreat.Threads.Candy.{Firm}
use cmsc421_os.TrickOrTreat.Threads.Shared.{
  Sound, get_elem?_below, set-cases, step-Sound, step_lengths,
}
use cmsc421_os.TrickOrTreat.Threads.Ends.{work, work_of, work_of-set, turn_work, step_work}
use cmsc421_os.TrickOrTreat.Threads.Load.{
  read_groups, begin, IsFile, begin-Sound, length-read_houses,
}

-- The house of a thread; 0 where it has none.
unfoldable pub house_of : Thread → ℕ
house_of (kids g deciding) = 0
house_of (kids g home) = 0
house_of (kids g (walking k)) = k
house_of (kids g (at_door k)) = k
house_of (kids g (inside k)) = k
house_of (kids g (plenty k)) = k
house_of (kids g (short k)) = k
house_of (kids g (paid k)) = k
house_of (kids g (credited k a)) = k
house_of (kids g (leaving k)) = k
house_of (street l resting) = 0
house_of (street l returned) = 0
house_of (street l (carrying k a)) = k
house_of (street l (filling k a)) = k
house_of (street l (closing k)) = k

holds-house_of : (r : ℕ) (t : Thread) → holds r t ≡ true → (house_of t ≡ r) × (0 < work t)
unfolding holds house_of work
holds-house_of r (kids g deciding) h = cc
holds-house_of r (kids g home) h = cc
holds-house_of r (kids g (walking k)) h = cc
holds-house_of r (kids g (at_door k)) h = cc
holds-house_of r (kids g (inside k)) h = (ground arith, omega arith)
holds-house_of r (kids g (plenty k)) h = (ground arith, omega arith)
holds-house_of r (kids g (short k)) h = (ground arith, omega arith)
holds-house_of r (kids g (paid k)) h = (ground arith, omega arith)
holds-house_of r (kids g (credited k a)) h = (ground arith, omega arith)
holds-house_of r (kids g (leaving k)) h = (ground arith, omega arith)
holds-house_of r (street l resting) h = cc
holds-house_of r (street l returned) h = cc
holds-house_of r (street l (carrying k a)) h = cc
holds-house_of r (street l (filling k a)) h = (ground arith, omega arith)
holds-house_of r (street l (closing k)) h = (ground arith, omega arith)

turn-house_of :
    {hs : List House} {r : ℕ} {e e' : Bool} {c c' : ℤ} {v v' : ℕ} {t t' : Thread}
    → Turn hs r e c v t e' c' v' t'
    → Firm r c t
    → house_of t < num_of_houses
    → house_of t' < num_of_houses
unfolding Firm house_of
turn-house_of (choose {g} {r} seen same e) f p =
    let (k, e', small, _, _, _) = closest_house seen g in
    let chosen : pos r ≡ pos k = sym e ∙ e' in
    let same_house : r ≡ k = ap pos_part chosen in omega arith
turn-house_of go_home f p = p
turn-house_of arrive f p = p
turn-house_of (enter h) f p = p
turn-house_of (find_plenty h) f p = p
turn-house_of (find_short h) f p = p
turn-house_of pay f p = p
turn-house_of receive f p = p
turn-house_of credit f p = p
turn-house_of empty f p = p
turn-house_of leave f p = omega arith
turn-house_of read_line f p = f.0.0
turn-house_of read_end f p = p
turn-house_of give_up f p = p
turn-house_of (lock h) f p = p
turn-house_of add f p = p
turn-house_of unlock f p = omega arith

-- Once `end_simulation` is set, a thread that has not returned can take a turn unless it waits for a
-- semaphore.
CanTurn : List House → ℤ → ℕ → Thread → Type 0
CanTurn hs c v t =
    (c' : ℤ) × (v' : ℕ) × (t' : Thread) × Turn hs (house_of t) true c v t true c' v' t'

can_turn :
    (hs : List House) (c : ℤ) (v : ℕ) (t : Thread)
    → 0 < work t
    → (holds (house_of t) t ≡ true) ⊎ (1 ≤ v)
    → CanTurn hs c v t
unfolding CanTurn work holds house_of
can_turn hs c v (kids g deciding) h k = (c, v, kids g home, go_home)
can_turn hs c v (kids g home) h k = absurd (omega arith)
can_turn hs c v (kids g (walking r)) h k =
    (c, v, kids (record g { curr_house = r }) (at_door r), arrive)
can_turn hs c v (kids g (at_door r)) h k = (c, v - 1, kids g (inside r), enter (ground arith))
can_turn hs c v (kids g (inside r)) h k = elim (Bool-cases (ltb_ℤ c g.num_of_kids)) [
  | inl less ↦ (c, v, kids g (short r), find_short less)
  | inr enough ↦ (c, v, kids g (plenty r), find_plenty enough)
]
can_turn hs c v (kids g (plenty r)) h k = (_, v, kids g (paid r), pay)
can_turn hs c v (kids g (short r)) h k = (c, v, _, credit)
can_turn hs c v (kids g (paid r)) h k = (c, v, _, receive)
can_turn hs c v (kids g (credited r a)) h k = (pos 0, v, kids g (leaving r), empty)
can_turn hs c v (kids g (leaving r)) h k = (c, v + 1, kids g deciding, leave)
can_turn hs c v (street l resting) h k = (c, v, street l returned, give_up)
can_turn hs c v (street l returned) h k = absurd (omega arith)
can_turn hs c v (street l (carrying r a)) h k =
    (c, v - 1, street l (filling r a), lock (ground arith))
can_turn hs c v (street l (filling r a)) h k = (_, v, street l (closing r), add)
can_turn hs c v (street l (closing r)) h k = (c, v + 1, street l resting, unlock)

find_busy :
    (ts : List Thread)
    → (work_of ts ≡ 0) ⊎ ((i : ℕ) × (t : Thread) × (get_elem? ts i ≡ some t) × (0 < work t))
unfolding work_of
find_busy [] = inl refl
find_busy (t ∷ ts) = elim (dec_lt 0 (work t)) [
  | yes busy ↦ inr (0, t, refl, busy)
  | no idle ↦ elim (find_busy ts) [
    | inl none_left ↦ inl (omega arith)
    | inr (i, u, e, busy) ↦ inr (suc i, u, e, busy)
  ]
]

-- What holds while the program runs, with ten houses.
pub record Ready (w : World) : Type 0 where
  pub sound : Sound w
  pub ten : length w.houses ≡ num_of_houses
  pub placed : (i : ℕ) (t : Thread) → get_elem? w.threads i ≡ some t → house_of t < num_of_houses

step_placed :
    {w w' : World}
    → Step w w'
    → Ready w
    → (i : ℕ) (t : Thread) → get_elem? w'.threads i ≡ some t
    → house_of t < num_of_houses
step_placed time_over s j u at_j = s.placed j u at_j
step_placed (turn {w} {t} {t'} {h} i r at_i at_house at_lock m) s j u at_j =
    elim (set-cases w.threads i t' j at_i at_j) [
      | inl (own, it) ↦
          rw (← it) (turn-house_of m (s.sound.firm i r t h at_i at_house) (s.placed i t at_i))
      | inr (other, was) ↦ s.placed j u was
    ]

step-Ready : {w w' : World} → Step w w' → Ready w → Ready w'
step-Ready m s = record {
  sound = step-Sound m s.sound;
  ten = omega (arith, step_lengths m, s.ten);
  placed = step_placed m s;
}

Onward : World → Type 0
Onward w = (w' : World) × Step w w' × (work_of w.threads ≡ work_of w'.threads + 1)

module _ {w : World} (s : Ready w) (on : w.end_simulation ≡ true) where
  go :
      {t : Thread} {v : ℕ} (i : ℕ)
      → get_elem? w.threads i ≡ some t
      → get_elem? w.locks (house_of t) ≡ some v
      → 0 < work t
      → (holds (house_of t) t ≡ true) ⊎ (1 ≤ v)
      → Onward w
  unfolding Onward CanTurn
  go {t} {v} i at_i at_lock busy free =
      let (h, at_house) =
        get_elem?_below w.houses (house_of t) (omega (arith, s.ten, s.placed i t at_i)) in
      let (c', v', t', m) = can_turn w.houses h.num_of_candy v t busy free in
      let m' : Turn w.houses (house_of t) w.end_simulation h.num_of_candy v t true c' v' t' =
        rw on m in
      (
        _,
        turn i (house_of t) at_i at_house at_lock m',
        omega (arith, (turn_work m refl).1, work_of-set w.threads i t' at_i),
      )

  someone_goes : (work_of w.threads ≡ 0) ⊎ Onward w
  someone_goes = elim (find_busy w.threads) [
    | inl done ↦ inl done
    | inr (i, t, at_i, busy) ↦
        let r : ℕ = house_of t in
        let (v, at_lock) =
          get_elem?_below w.locks r
            (omega (arith, s.ten, s.placed i t at_i, s.sound.enough_locks)) in
        elim (dec_lt 0 v) [
          | yes free ↦ inr (go i at_i at_lock busy (inr free))
          | no taken ↦
              let (j, u, at_j, within) =
                count_if_pos (holds r) w.threads (omega (arith, s.sound.one_each r v at_lock)) in
              let (there, busy') = holds-house_of r u within in
              inr (go {v = v} j at_j (rw there at_lock) busy' (inl (rw there within)))
        ]
  ]

pub all_return :
    (n : ℕ) (w : World)
    → work_of w.threads ≡ n
    → Ready w
    → w.end_simulation ≡ true
    → (w' : World) × Steps w w' × (work_of w'.threads ≡ 0)
unfolding Onward
all_return zero w e s on = (w, finished, e)
all_return (suc n) w e s on = elim (someone_goes s on) [
  | inl done ↦ (w, finished, done)
  | inr (w', m, less) ↦
      let (w'', ms, done) = all_return n w' (omega arith) (step-Ready m s) (step_work m on).0 in
      (w'', more m ms, done)
]

steps-Ready : {w w' : World} → Steps w w' → Ready w → Ready w'
steps-Ready finished s = s
steps-Ready (more m ms) s = steps-Ready ms (step-Ready m s)

read_groups_placed :
    (k : ℕ) (groups : List (ℕ × ℤ)) → All (λ t. house_of t < num_of_houses) (read_groups k groups)
unfolding read_groups house_of
read_groups_placed k [] = tt
read_groups_placed k (g ∷ groups) = (omega arith, read_groups_placed (k + 1) groups)

module _ (rows : List (ℤ × ℤ × ℤ)) (groups refills : List (ℕ × ℤ))
    (file : IsFile rows groups refills) where
  begin-Ready : Ready (begin rows groups refills)
  unfolding begin house_of
  begin-Ready = record {
    sound = begin-Sound rows groups refills file;
    ten = length-read_houses 0 rows ∙ file.ten;
    placed = λ i t at_i.
        All-get_elem? (λ t. house_of t < num_of_houses)
          (street refills resting ∷ read_groups 0 groups) i
          (omega arith, read_groups_placed 0 groups) at_i;
  }

  -- Begun with a file of ten houses with some candy, groups that start at one of them and lines that
  -- add candy to one of them: whatever the threads have done when `end_simulation` is set, while the
  -- semaphores stay there is a way for all of them to return.
  pub threads_can_return :
      {w : World}
      → Steps (begin rows groups refills) w
      → w.end_simulation ≡ true
      → (w' : World) × Steps w w' × (work_of w'.threads ≡ 0)
  threads_can_return {w} run on =
      all_return (work_of w.threads) w refl (steps-Ready run begin-Ready) on
