-- ===== src/FinalJeopardy/Ending.antt =====
-- How many turns of final/final.c are left.
use mathlib.Core.Option.{some-injective}
use cmsc421_os.Prelude.{
  ℕ, zero, suc, ◌+◌, ◌-◌, ◌*◌, ◌≤◌, ◌<◌, ◌≡◌, refl, ◌∙◌, arith, inl, inr, Bool, true, false,
  Bool-cases, some, List, [], ◌∷◌, map, length, length-map, get_elem?, set, leb, ltb, ◌==◌, not,
}
use cmsc421_os.Prelude.Int.{ℤ, ◌+ℤ◌, ◌-ℤ◌}
use cmsc421_os.Prelude.Count.{one_if}
use cmsc421_os.Jeopardy.{num_questions, num_contestants, money}
use cmsc421_os.FinalJeopardy.{
  Phase, starting, waiting, woken, leaving, returned, Contestant, Alex, gathering, listening,
  called, finishing, done, Show, set_buzzer, answered, get_ready, take_turn, play, leave, ask, next,
  Turn, comes, takes, plays, leaves, begins, hears, goes_on, ends, Turns, jeop_init,
}
use cmsc421_os.FinalJeopardy.Baton.{Sound, jeop_init-Sound}
use cmsc421_os.FinalJeopardy.Playing.{on_turn}
use cmsc421_os.FinalJeopardy.Asking.{Turns-Sound}

abbrev pub phase_weight : Phase → ℕ
phase_weight starting = 4
phase_weight waiting = 3
phase_weight woken = 6
phase_weight leaving = 5
phase_weight returned = 0

-- What a contestant can still do, by the place and the right to answer.
abbrev pub weight : Contestant → ℕ
weight c = phase_weight c.phase + 2 * one_if c.can_buzz_in

unfoldable pub weights : List Contestant → ℕ
weights [] = 0
weights (c ∷ cs) = weight c + weights cs

-- What Alex can still do.
abbrev pub alex_weight : Alex → (num : ℕ) → ℕ
alex_weight gathering n = 60
alex_weight listening n = 12 * (4 - n)
alex_weight called n = 12 * (4 - n) + 1
alex_weight finishing n = 5
alex_weight done n = 0

-- At most how many turns are left.
unfoldable pub turns_left : Show → ℕ
turns_left s = weights s.contestants + 4 * s.cont_cv + 2 * s.alex_cv + alex_weight s.alex s.num

weights-set :
    (cs : List Contestant) (i : ℕ) (d : Contestant) {c : Contestant}
    → get_elem? cs i ≡ some c
    → weights (set cs i d) + weight c ≡ weights cs + weight d
unfolding weights
weights-set [] i d e = cc
weights-set (x ∷ xs) zero d {c} e = let same : x ≡ c = some-injective x c e in rw same (omega arith)
weights-set (x ∷ xs) (suc i) d e = omega (arith, weights-set xs i d e)

one_if-le : (b : Bool) → one_if b ≤ 1
one_if-le true = omega arith
one_if-le false = omega arith

-- All buzzers off, or on.
silent_weights : (cs : List Contestant) → weights (map (set_buzzer false) cs) ≤ weights cs
unfolding weights
silent_weights [] = omega arith
silent_weights (c ∷ cs) = omega (arith, silent_weights cs)

loud_weights :
    (cs : List Contestant) → weights (map (set_buzzer true) cs) ≤ weights cs + 2 * length cs
unfolding weights
loud_weights [] = omega arith
loud_weights (c ∷ cs) = omega (arith, loud_weights cs)

module _ (s : Show) (c : Contestant) (i : ℕ) (at_i : get_elem? s.contestants i ≡ some c) where
  -- A contestant moves on, and the turn with him.
  lighter :
      (d : Contestant) (v w f : ℕ)
      → weight d + 4 * v + 2 * w < weight c + 4 * s.cont_cv + 2 * s.alex_cv
      → turns_left (record s {
        contestants = set s.contestants i d;
        cont_cv = v;
        alex_cv = w;
        failed_tries = f;
      })
        < turns_left s
  unfolding turns_left
  lighter d v w f less = omega (arith, less, weights-set s.contestants i d at_i)

  plays_fewer : (ans : ℕ) → c.phase ≡ woken → Sound s → turns_left (play ans i c s) < turns_left s
  unfolding play
  plays_fewer ans e h =
      let none_left = on_turn s c i at_i h (rw e refl) in
      let heavy : weight c ≡ 6 + 2 * one_if c.can_buzz_in = rw e refl in
      elim (Bool-cases (leb num_questions s.num)) [
        | inl over ↦ rw over (
            lighter (record c { phase = leaving }) 0 s.alex_cv s.failed_tries
              (omega (arith, heavy)))
        | inr going ↦ elim (Bool-cases c.can_buzz_in) [
          | inr silent ↦
              let off : not c.can_buzz_in ≡ true = rw silent refl in
              rw (going, off)
                (lighter (record c { phase = waiting }) 0 s.alex_cv s.failed_tries
                  (omega (arith, heavy)))
          | inl can ↦
              let on : not c.can_buzz_in ≡ false = rw can refl in
              let full : weight c ≡ 8 = heavy ∙ (rw can refl) in
              elim (Bool-cases (ans == s.num)) [
                | inl correct ↦
                    let x : ℤ = c.score +ℤ money s.num in
                    let cs : List Contestant = set s.contestants i (answered x) in
                    let one =
                      lighter (answered x) 0 (s.alex_cv + 1) s.failed_tries
                        (omega (arith, full, none_left)) in
                    rw (going, on, correct)
                      (unfold turns_left in omega (arith, one, silent_weights cs))
                | inr incorrect ↦
                    let x : ℤ = c.score -ℤ money s.num in
                    elim (Bool-cases (leb num_contestants (s.failed_tries + 1))) [
                      | inl all_failed ↦
                          rw (going, on, incorrect, all_failed)
                            (lighter (answered x) 0 (s.alex_cv + 1) (s.failed_tries + 1)
                              (omega (arith, full, none_left)))
                      | inr some_left ↦
                          rw (going, on, incorrect, some_left)
                            (lighter (answered x) 1 s.alex_cv (s.failed_tries + 1)
                              (omega (arith, full, none_left)))
                    ]
              ]
        ]
      ]

  comes_fewer : c.phase ≡ starting → turns_left (get_ready i c s) < turns_left s
  unfolding get_ready turns_left
  comes_fewer e =
      let heavy : phase_weight c.phase ≡ 4 = rw e refl in
      omega (arith, heavy, weights-set s.contestants i (record c { phase = waiting }) at_i)

  takes_fewer : c.phase ≡ waiting → 1 ≤ s.cont_cv → turns_left (take_turn i c s) < turns_left s
  unfolding take_turn
  takes_fewer e one =
      let heavy : phase_weight c.phase ≡ 3 = rw e refl in
      lighter (record c { phase = woken }) (s.cont_cv - 1) s.alex_cv s.failed_tries
        (omega (arith, heavy, one))

  leaves_fewer : c.phase ≡ leaving → turns_left (leave i c s) < turns_left s
  unfolding leave
  leaves_fewer e =
      let heavy : phase_weight c.phase ≡ 5 = rw e refl in
      lighter (record c { phase = returned }) (s.cont_cv + 1) s.alex_cv s.failed_tries
        (omega (arith, heavy))

asks_fewer :
    (s : Show) (k : ℕ)
    → length s.contestants ≡ num_contestants
    → weights s.contestants + 4 * s.cont_cv + 2 * s.alex_cv + 12 * (4 - s.num) + 11 ≤ k
    → turns_left (ask s) < k
unfolding ask turns_left
asks_fewer s k three le = elim (Bool-cases (ltb s.num num_questions)) [
  | inl going ↦ rw going (omega (arith, le, three, loud_weights s.contestants))
  | inr over ↦ rw over (omega (arith, le))
]

goes_on_fewer : (s : Show) → s.alex ≡ called → Sound s → turns_left (next s) < turns_left s
unfolding next
goes_on_fewer s e h =
    let (lt, _) : (s.num < num_questions) × (s.ready ≡ num_contestants) = rw e at h.stage in
    let now : alex_weight s.alex s.num ≡ 12 * (4 - s.num) + 1 = rw e refl in
    let t : Show = record s {
      contestants = map (set_buzzer false) s.contestants;
      num = s.num + 1;
      alex_cv = 0;
    } in
    asks_fewer t (turns_left s) (length-map s.contestants (set_buzzer false) ∙ h.three)
      (unfold turns_left in omega (arith, lt, now, silent_weights s.contestants))

begins_fewer : (s : Show) → s.alex ≡ gathering → Sound s → turns_left (ask s) < turns_left s
begins_fewer s e h =
    let first : s.num ≡ 0 = rw e at h.stage in
    let now : alex_weight s.alex s.num ≡ 60 = rw e refl in
    asks_fewer s (turns_left s) h.three (unfold turns_left in omega (arith, first, now))

hears_fewer :
    (s : Show)
    → s.alex ≡ listening
    → 1 ≤ s.alex_cv
    → turns_left (record s { alex = called; alex_cv = s.alex_cv - 1 }) < turns_left s
unfolding turns_left
hears_fewer s e one =
    let light : alex_weight s.alex s.num ≡ 12 * (4 - s.num) = rw e refl in omega (arith, light, one)

ends_fewer :
    (s : Show)
    → s.alex ≡ finishing
    → turns_left (record s { alex = done; cont_cv = s.cont_cv + 1 }) < turns_left s
unfolding turns_left
ends_fewer s e = let light : alex_weight s.alex s.num ≡ 5 = rw e refl in omega (arith, light)

Turn-fewer : {s s' : Show} → Turn s s' → Sound s → turns_left s' < turns_left s
Turn-fewer (comes {s} {c} i at_i e) h = comes_fewer s c i at_i e
Turn-fewer (takes {s} {c} i at_i e one) h = takes_fewer s c i at_i e one
Turn-fewer (plays {s} {c} ans i lt at_i e) h = plays_fewer s c i at_i ans e h
Turn-fewer (leaves {s} {c} i at_i e) h = leaves_fewer s c i at_i e
Turn-fewer (begins {s} e le) h = begins_fewer s e h
Turn-fewer (hears {s} e one) h = hears_fewer s e one
Turn-fewer (goes_on {s} e) h = goes_on_fewer s e h
Turn-fewer (ends {s} e) h = ends_fewer s e

-- In every state that the show reaches while nobody interrupts the waits, each turn of a thread leaves fewer
-- turns, whatever the order and the answers.
pub less_left : {s s' : Show} → Turns jeop_init s → Turn s s' → turns_left s' < turns_left s
less_left run m = Turn-fewer m (Turns-Sound run jeop_init-Sound)
