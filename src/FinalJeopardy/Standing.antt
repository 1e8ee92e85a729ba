-- ===== src/FinalJeopardy/Standing.antt =====
-- Whether some thread of final/final.c can take a turn.
use cmsc421_os.Prelude.{
  ℕ, ◌≤◌, ◌<◌, ◌≡◌, ◌⊎◌, inl, inr, refl, arith, Bool, true, false, Bool-cases, some, List, [], ◌∷◌,
  length, get_elem?, All, dec_lt, ℕ_discrete,
}
use cmsc421_os.Prelude.Count.{count_if, count_if_pos, count_if_one, count_if_two}
use cmsc421_os.Jeopardy.{num_contestants}
use cmsc421_os.FinalJeopardy.{
  Phase, starting, waiting, woken, leaving, returned, Contestant, Alex, gathering, listening,
  called, finishing, done, Show, get_ready, take_turn, play, leave, ask, next, Turn, Turns, comes,
  takes, plays, leaves, begins, hears, goes_on, ends, jeop_init,
}
use cmsc421_os.FinalJeopardy.Lost.{CanTurn}
use cmsc421_os.FinalJeopardy.Baton.{
  is_starting, is_active, starts, holds, left, alex_holds, baton, Stage, Sound, jeop_init-Sound,
  GivesUp,
}
use cmsc421_os.FinalJeopardy.Asking.{Turn-After, Turns-Sound}

abbrev is_waiting : Phase → Bool
is_waiting starting = false
is_waiting waiting = true
is_waiting woken = false
is_waiting leaving = false
is_waiting returned = false

abbrev waits : Contestant → Bool
waits c = is_waiting c.phase

-- Alex is done and all contestants have returned.
pub record IsOver (s : Show) : Type 0 where
  pub alex : s.alex ≡ done
  pub all_returned : All (λ c. c.phase ≡ returned) s.contestants

is_starting→≡ : (p : Phase) → is_starting p ≡ true → p ≡ starting
is_starting→≡ starting e = refl
is_starting→≡ waiting e = cc
is_starting→≡ woken e = cc
is_starting→≡ leaving e = cc
is_starting→≡ returned e = cc

is_waiting→≡ : (p : Phase) → is_waiting p ≡ true → p ≡ waiting
is_waiting→≡ starting e = cc
is_waiting→≡ waiting e = refl
is_waiting→≡ woken e = cc
is_waiting→≡ leaving e = cc
is_waiting→≡ returned e = cc

is_active-cases : (p : Phase) → is_active p ≡ true → (p ≡ woken) ⊎ (p ≡ leaving)
is_active-cases starting e = cc
is_active-cases waiting e = cc
is_active-cases woken e = inl refl
is_active-cases leaving e = inr refl
is_active-cases returned e = cc

rest-returned :
    (p : Phase) → is_starting p ≡ false → is_active p ≡ false → is_waiting p ≡ false → p ≡ returned
rest-returned starting e f g = cc
rest-returned waiting e f g = cc
rest-returned woken e f g = cc
rest-returned leaving e f g = cc
rest-returned returned e f g = refl

everybody :
    (cs : List Contestant)
    → count_if starts cs ≡ 0
    → count_if holds cs ≡ 0
    → count_if waits cs ≡ 0
    → All (λ c. c.phase ≡ returned) cs × (count_if left cs ≡ length cs)
unfolding count_if
everybody [] e f g = (tt, refl)
everybody (c ∷ cs) e f g =
    let here : c.phase ≡ returned =
      rest-returned c.phase (ground (arith, e)) (ground (arith, f)) (ground (arith, g)) in
    let (there, many) = everybody cs (omega (arith, e)) (omega (arith, f)) (omega (arith, g)) in
    let gone : left c ≡ true = rw here refl in ((here, there), ground (arith, many, gone))

-- While nobody has the turn Alex is not gathering, so that everybody has come.
come :
    (a : Alex) (s : Show)
    → alex_holds a ≡ false
    → Stage a s.num s.ready s.alex_cv
    → s.ready ≡ num_contestants
come gathering s off st = cc
come listening s off st = st.1
come called s off st = st.1
come finishing s off st = st.1
come done s off st = st.1

stands : {s s' : Show} → Sound s → baton s ≡ 0 → ¬ Turn s s'
unfolding baton
stands h z (comes {s} {c} i at_i e) =
    let new : starts c ≡ true = rw e refl in
    absurd (
      ground (
        arith,
        z,
        h.tally,
        come s.alex s (ground (arith, z)) h.stage,
        count_if_one starts s.contestants i at_i new,
      ))
stands h z (takes {s} i at_i e one) = absurd (omega (arith, z, one))
stands h z (plays {s} {c} ans i lt at_i e) =
    let up : holds c ≡ true = rw e refl in
    absurd (omega (arith, z, count_if_one holds s.contestants i at_i up))
stands h z (leaves {s} {c} i at_i e) =
    let up : holds c ≡ true = rw e refl in
    absurd (omega (arith, z, count_if_one holds s.contestants i at_i up))
stands h z (begins {s} e le) =
    let up : alex_holds s.alex ≡ true = rw e refl in absurd (ground (arith, z, up))
stands h z (hears e one) = absurd (omega (arith, z, one))
stands h z (goes_on {s} e) =
    let up : alex_holds s.alex ≡ true = rw e refl in absurd (ground (arith, z, up))
stands h z (ends {s} e) =
    let up : alex_holds s.alex ≡ true = rw e refl in absurd (ground (arith, z, up))

abbrev pub GoesOn : Show → Type 0
GoesOn s = IsOver s ⊎ CanTurn s

module _ (s : Show) (h : Sound s) where
  active : 0 < count_if holds s.contestants → CanTurn s
  active some_hold =
      let (i, c, at_i, e) = count_if_pos holds s.contestants some_hold in
      elim (is_active-cases c.phase e) [
        | inl up ↦ (play 0 i c s, plays 0 i (omega arith) at_i up)
        | inr up ↦ (leave i c s, leaves i at_i up)
      ]

  new : 0 < count_if starts s.contestants → CanTurn s
  new some_start =
      let (i, c, at_i, e) = count_if_pos starts s.contestants some_start in
      (get_ready i c s, comes i at_i (is_starting→≡ c.phase e))

  offered : 1 ≤ s.cont_cv → 0 < count_if waits s.contestants → CanTurn s
  offered one some_wait =
      let (i, c, at_i, e) = count_if_pos waits s.contestants some_wait in
      (take_turn i c s, takes i at_i (is_waiting→≡ c.phase e) one)

  alex_moves :
      (a : Alex) → s.alex ≡ a → alex_holds a ≡ true → count_if starts s.contestants ≡ 0 → CanTurn s
  alex_moves gathering e up came = (ask s, begins e (omega (arith, h.tally, came)))
  alex_moves listening e up came = cc
  alex_moves called e up came = (next s, goes_on e)
  alex_moves finishing e up came = (_, ends e)
  alex_moves done e up came = cc

  alex_hears : (a : Alex) → s.alex ≡ a → alex_holds a ≡ false → 1 ≤ s.alex_cv → CanTurn s
  alex_hears gathering e off one = cc
  alex_hears listening e off one = (_, hears e one)
  alex_hears called e off one = cc
  alex_hears finishing e off one = cc
  alex_hears done e off one = absurd (omega (arith, one, (rw e at h.stage).2))

  ended :
      (a : Alex)
      → s.alex ≡ a
      → alex_holds a ≡ false
      → Stage a s.num s.ready s.alex_cv
      → count_if starts s.contestants ≡ 0
      → count_if holds s.contestants ≡ 0
      → count_if waits s.contestants ≡ 0
      → IsOver s
  ended a e off st no_start no_hold no_wait =
      let (all_returned, many) = everybody s.contestants no_start no_hold no_wait in
      let all_left : count_if left s.contestants ≡ num_contestants = omega (arith, many, h.three) in
      record { alex = over a e off st all_left; all_returned = all_returned }
    where
      over :
          (a : Alex)
          → s.alex ≡ a
          → alex_holds a ≡ false
          → Stage a s.num s.ready s.alex_cv
          → count_if left s.contestants ≡ num_contestants
          → s.alex ≡ done
      over gathering e off st all_left = cc
      over listening e off st all_left = absurd (omega (arith, all_left, h.present st.0))
      over called e off st all_left = cc
      over finishing e off st all_left = cc
      over done e off st all_left = e

  goes : baton s ≡ 1 → GoesOn s
  unfolding baton
  goes one = elim (dec_lt 0 (count_if holds s.contestants)) [
    | yes some_hold ↦ inr (active some_hold)
    | no no_hold ↦ elim (dec_lt 0 (count_if starts s.contestants)) [
      | yes some_start ↦ inr (new some_start)
      | no no_start ↦ elim (Bool-cases (alex_holds s.alex)) [
        | inl up ↦ inr (alex_moves s.alex refl up (omega arith))
        | inr off ↦ elim (dec_lt 0 s.alex_cv) [
          | yes some_call ↦ inr (alex_hears s.alex refl off (omega arith))
          | no no_call ↦ elim (dec_lt 0 (count_if waits s.contestants)) [
            | yes some_wait ↦ inr (offered (ground (arith, one, off)) some_wait)
            | no no_wait ↦
                inl (ended s.alex refl off h.stage (omega arith) (omega arith) (omega arith))
          ]
        ]
      ]
    ]
  ]

baton-cases : (s : Show) → Sound s → (baton s ≡ 0) ⊎ (baton s ≡ 1)
baton-cases s h = elim (dec_lt 0 (baton s)) [
  | yes some_turn ↦ inr (omega (arith, h.one_turn))
  | no no_turn ↦ inl (omega arith)
]

-- From every state that the show reaches while nobody interrupts the waits, a turn of a thread leads to a
-- state in which some thread can take a turn or the show is over, with Alex done and all contestants
-- returned, unless it is the turn of a contestant who may not buzz in while questions are left: then no
-- thread can take a turn any more.
pub turn_outcome :
    {s s' : Show}
    → Turns jeop_init s
    → (m : Turn s s') → ((¬ GivesUp m) × GoesOn s') ⊎ (GivesUp m × (¬ CanTurn s'))
turn_outcome {s} {s'} run m =
    let h = Turns-Sound run jeop_init-Sound in
    let (h', after) = Turn-After m h in
    let held : baton s ≡ 1 = elim (baton-cases s h) [
      | inl z ↦ absurd (stands h z m)
      | inr one ↦ one
    ] in
    elim after [
      | inl (kept, same) ↦ inl (kept, goes s' h' (omega (arith, same, held)))
      | inr (given_up, z) ↦ inr (given_up, λ again. stands h' z again.1)
    ]

-- In every state that the show reaches while nobody interrupts the waits, two contestants who have been
-- given the turn and have not passed it on are one and the same.
pub one_on_turn :
    {s : Show} {c d : Contestant} (i j : ℕ)
    → Turns jeop_init s
    → get_elem? s.contestants i ≡ some c
    → get_elem? s.contestants j ≡ some d
    → holds c ≡ true
    → holds d ≡ true
    → i ≡ j
unfolding baton
one_on_turn {s} i j run at_i at_j up up' = elim (ℕ_discrete i j) [
  | yes same ↦ same
  | no other ↦ absurd (
      omega (
        arith,
        (Turns-Sound run jeop_init-Sound).one_turn,
        count_if_two holds s.contestants i j at_i at_j up up' other,
      ))
]
