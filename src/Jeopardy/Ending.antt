-- ===== src/Jeopardy/Ending.antt =====
-- How many turns of midterm/midterm.c are left, and its end.
use cmsc421_os.Prelude.{
  ℕ, zero, suc, ◌+◌, ◌-◌, ◌*◌, ◌≤◌, ◌<◌, ◌≡◌, inl, inr, refl, ◌∙◌, arith, true, false, Bool-cases,
  List, map, length, length-map, ltb, leb, not, ◌==◌, some, get_elem?, set,
}
use cmsc421_os.Prelude.Count.{one_if, count_if, count_if-le, count_if-map, count_if-set}
use cmsc421_os.Jeopardy.{
  num_questions, num_contestants, Phase, starting, waiting, woken, returned, Contestant, Alex,
  gathering, listening, called, done, Show, set_buzzer, wake, wake_one, signal, right, wrong,
  get_ready, play, ask, next, Turn, comes, plays, begins, goes_on, turn, Turns, rests, moves, Steps,
  begin,
}
use cmsc421_os.Jeopardy.Rules.{is_starting}
use cmsc421_os.Jeopardy.Invariant.{starts, Sound}
use cmsc421_os.Jeopardy.Asking.{step-Sound, reached-Sound}
use cmsc421_os.Jeopardy.Progress.{woken_one, IsOver, goes}

-- The rounds that Alex still begins or ends.
abbrev pub left : Alex → ℕ → ℕ
left gathering n = 5
left listening n = 4 - n
left called n = 4 - n
left done n = 0

-- At most how many turns are left while no wait ends without a signal.
unfoldable pub turns : Show → ℕ
turns s = count_if woken_one s.contestants + count_if starts s.contestants + 4 * left s.alex s.num

left-signal : (a : Alex) (n : ℕ) → left (signal a) n ≡ left a n
left-signal gathering n = refl
left-signal listening n = refl
left-signal called n = refl
left-signal done n = refl

starts-wake : (p : Phase) → is_starting (wake p) ≡ is_starting p
starts-wake starting = refl
starts-wake waiting = refl
starts-wake woken = refl
starts-wake returned = refl

-- A contestant goes to a phase that is neither `starting` nor `woken`.
settles :
    (s : Show) (c d : Contestant) (i : ℕ)
    → get_elem? s.contestants i ≡ some c
    → 1 ≤ one_if (woken_one c) + one_if (starts c)
    → woken_one d ≡ false
    → starts d ≡ false
    → count_if woken_one (set s.contestants i d) + count_if starts (set s.contestants i d)
      < count_if woken_one s.contestants + count_if starts s.contestants
settles s c d i at_i one a b = ground (
  arith,
  a,
  b,
  count_if-set woken_one s.contestants i d at_i,
  count_if-set starts s.contestants i d at_i,
)

asks_fewer :
    (s : Show) (k : ℕ)
    → length s.contestants ≡ num_contestants
    → s.num ≤ num_questions
    → 5 - s.num ≤ k
    → turns (ask s) < count_if starts s.contestants + 4 * k
unfolding ask turns
asks_fewer s k three le enough = elim (Bool-cases (ltb s.num num_questions)) [
  | inl going ↦
      let cs : List Contestant = map (set_buzzer true) s.contestants in
      let below : s.num < num_questions = ground (arith, going) in
      rw going (
        omega (
          arith,
          count_if-le woken_one (map wake_one cs),
          length-map {0, 0} cs wake_one,
          length-map {0, 0} s.contestants (set_buzzer true),
          three,
          count_if-map starts starts wake_one (λ c. starts-wake c.phase) cs,
          count_if-map starts starts (set_buzzer true) (λ c. refl) s.contestants,
        ))
  | inr over ↦ rw over (
      omega (
        arith,
        count_if-le woken_one (map wake_one s.contestants),
        length-map {0, 0} s.contestants wake_one,
        three,
        count_if-map starts starts wake_one (λ c. starts-wake c.phase) s.contestants,
      ))
]

plays_fewer :
    (s : Show) (c : Contestant) (ans i : ℕ)
    → get_elem? s.contestants i ≡ some c
    → c.phase ≡ woken
    → turns (play ans i c s) < turns s
unfolding play turns
plays_fewer s c ans i at_i e =
    let up : 1 ≤ one_if (woken_one c) + one_if (starts c) = rw e (omega arith) in
    elim (Bool-cases (leb num_questions s.num)) [
      | inl over ↦
          rw over (omega (arith, settles s c (record c { phase = returned }) i at_i up refl refl))
      | inr going ↦ elim (Bool-cases c.can_buzz_in) [
        | inr silent ↦
            let off : not c.can_buzz_in ≡ true = rw silent refl in
            rw (going, off)
              (omega (arith, settles s c (record c { phase = waiting }) i at_i up refl refl))
        | inl can ↦
            let on : not c.can_buzz_in ≡ false = rw can refl in
            elim (Bool-cases (ans == s.num)) [
              | inl correct ↦
                  let cs : List Contestant = set s.contestants i (right s c) in
                  rw (going, on, correct)
                    (omega (
                      arith,
                      settles s c (right s c) i at_i up refl refl,
                      left-signal s.alex s.num,
                      count_if-map woken_one woken_one (set_buzzer false) (λ d. refl) cs,
                      count_if-map starts starts (set_buzzer false) (λ d. refl) cs,
                    ))
              | inr incorrect ↦ elim (Bool-cases (leb num_contestants (s.failed_tries + 1))) [
                | inl all_failed ↦
                    rw (going, on, incorrect, all_failed)
                      (omega (
                        arith,
                        settles s c (wrong s c) i at_i up refl refl,
                        left-signal s.alex s.num,
                      ))
                | inr some_left ↦
                    rw (going, on, incorrect, some_left)
                      (omega (arith, settles s c (wrong s c) i at_i up refl refl))
              ]
            ]
      ]
    ]

comes_fewer :
    (s : Show) (c : Contestant) (i : ℕ)
    → get_elem? s.contestants i ≡ some c
    → c.phase ≡ starting
    → turns (get_ready i c s) < turns s
unfolding turns get_ready
comes_fewer s c i at_i e =
    let new : 1 ≤ one_if (woken_one c) + one_if (starts c) = rw e (omega arith) in
    omega (arith, settles s c (record c { phase = waiting }) i at_i new refl refl)

begins_fewer : (s : Show) → s.alex ≡ gathering → Sound s → turns (ask s) < turns s
begins_fewer s e h =
    let first : s.num ≡ 0 = rw e at h.game in
    let all_left : left s.alex s.num ≡ 5 = rw e refl in
    unfold turns in omega (arith, all_left, asks_fewer s 5 h.three (omega arith) (omega arith))

goes_on_fewer : (s : Show) → s.alex ≡ called → Sound s → turns (next s) < turns s
unfolding next
goes_on_fewer s e h =
    let below : s.num < num_questions = rw e at h.game in
    let now : left s.alex s.num ≡ 4 - s.num = rw e refl in
    let t : Show = record s {
      contestants = map (set_buzzer false) s.contestants;
      num = s.num + 1;
    } in
    unfold turns in
    omega (
      arith,
      now,
      asks_fewer t (4 - s.num) (length-map s.contestants (set_buzzer false) ∙ h.three) (omega arith)
          (omega arith),
      count_if-map starts starts (set_buzzer false) (λ c. refl) s.contestants,
    )

turn-fewer : {s s' : Show} → Turn s s' → Sound s → turns s' < turns s
turn-fewer (comes {s} {c} i at_i e) h = comes_fewer s c i at_i e
turn-fewer (plays {s} {c} ans i lt at_i e) h = plays_fewer s c ans i at_i e
turn-fewer (begins {s} e le) h = begins_fewer s e h
turn-fewer (goes_on {s} e) h = goes_on_fewer s e h

-- In every state that the program reaches, each turn of a thread makes the number `turns` of the state
-- smaller, whatever the order and the answers.
pub fewer_turns : {s s' : Show} → Steps begin s → Turn s s' → turns s' < turns s
fewer_turns run m = turn-fewer m (reached-Sound run)

can_end : (n : ℕ) (s : Show) → turns s < n → Sound s → (s' : Show) × Turns s s' × IsOver s'
can_end zero s lt h = absurd (omega arith)
can_end (suc n) s lt h = elim (goes s.alex s refl h) [
  | inl over ↦ (s, rests, over)
  | inr (s', m) ↦
      let (s'', ms, over) = can_end n s' (omega (arith, turn-fewer m h)) (step-Sound (turn m) h) in
      (s'', moves m ms, over)
]

-- From every state that the program reaches, turns of its threads alone, with no wait that ends without a
-- signal, lead to the end of the show, where Alex is done and all three contestants have returned.
pub show_can_end : {s : Show} → Steps begin s → (s' : Show) × Turns s s' × IsOver s'
show_can_end {s} run = can_end (suc (turns s)) s (omega arith) (reached-Sound run)
