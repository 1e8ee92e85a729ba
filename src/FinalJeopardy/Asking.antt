-- ===== src/FinalJeopardy/Asking.antt =====
-- The turn of final/final.c when Alex moves, and along a run.
use cmsc421_os.Prelude.{
  ◌+◌, ◌-◌, ◌≤◌, ◌<◌, ◌≡◌, inl, inr, refl, ◌∙◌, arith, true, false, Bool-cases, List, map, length,
  length-map, ltb,
}
use cmsc421_os.Prelude.Count.{count_if, count_if-map}
use cmsc421_os.Jeopardy.{num_questions, num_contestants}
use cmsc421_os.FinalJeopardy.{
  Contestant, gathering, listening, called, finishing, done, Show, set_buzzer, ask, next, Turn,
  comes, takes, plays, leaves, begins, hears, goes_on, ends,
}
use cmsc421_os.FinalJeopardy.Baton.{starts, holds, left, alex_holds, baton, Sound, After, GivesUp}
use cmsc421_os.FinalJeopardy.Playing.{get_ready-Sound, take_turn-Sound, leave-Sound, plays-After}
use cmsc421_os.FinalJeopardy.{Turns, finished, more}

-- Alex goes on to a question or to the end of the show.
ask-Sound :
    (s : Show)
    → length s.contestants ≡ num_contestants
    → count_if starts s.contestants ≡ 0
    → baton s ≤ 1
    → (s.num < num_questions → count_if left s.contestants ≡ 0)
    → alex_holds s.alex ≡ true
    → s.num ≤ num_questions
    → s.ready ≡ num_contestants
    → Sound (ask s) × (baton (ask s) ≡ baton s)
unfolding ask baton
ask-Sound s three came one_turn present up le all_ready =
    let holding = count_if-map holds holds (set_buzzer true) (λ c. refl) s.contestants in
    elim (Bool-cases (ltb s.num num_questions)) [
      | inl going ↦
          let lt : s.num < num_questions = ground (arith, going) in
          rw going (
            record {
              three = length-map s.contestants (set_buzzer true) ∙ three;
              tally = omega (
                arith,
                came,
                all_ready,
                count_if-map starts starts (set_buzzer true) (λ c. refl) s.contestants,
              );
              one_turn = ground (arith, up, one_turn, holding);
              stage = (lt, all_ready);
              present = λ _.
                  count_if-map left left (set_buzzer true) (λ c. refl) s.contestants ∙ present lt;
            },
            ground (arith, up, holding),
          )
      | inr over ↦ rw over (
        record {
          three = three;
          tally = omega (arith, came, all_ready);
          one_turn = ground (arith, up, one_turn);
          stage = (ground (arith, over), all_ready);
          present = λ lt. present lt;
        },
        ground (arith, up),
      )
    ]

begins-Sound :
    (s : Show)
    → s.alex ≡ gathering
    → num_contestants ≤ s.ready
    → Sound s
    → Sound (ask s) × (baton (ask s) ≡ baton s)
begins-Sound s e le h =
    let first : s.num ≡ 0 = rw e at h.stage in
    ask-Sound s h.three (omega (arith, h.tally, le)) h.one_turn h.present (rw e refl)
      (omega (arith, first)) (omega (arith, h.tally, le))

goes_on-Sound : (s : Show) → s.alex ≡ called → Sound s → Sound (next s) × (baton (next s) ≡ baton s)
unfolding next baton
goes_on-Sound s e h =
    let (lt, all_ready) : (s.num < num_questions) × (s.ready ≡ num_contestants) = rw e at h.stage in
    let up : alex_holds s.alex ≡ true = rw e refl in
    let silent : List Contestant = map (set_buzzer false) s.contestants in
    let t : Show = record s { contestants = silent; num = s.num + 1; alex_cv = 0 } in
    let holding = count_if-map holds holds (set_buzzer false) (λ c. refl) s.contestants in
    let same : baton t ≡ baton s = unfold baton in ground (arith, holding, h.one_turn, up) in
    let (snd, kept) =
      ask-Sound t (length-map s.contestants (set_buzzer false) ∙ h.three)
        (omega (
          arith,
          h.tally,
          all_ready,
          count_if-map starts starts (set_buzzer false) (λ c. refl) s.contestants,
        ))
        (omega (arith, same, h.one_turn))
        (λ _. count_if-map left left (set_buzzer false) (λ c. refl) s.contestants ∙ h.present lt) up
        (omega (arith, lt)) all_ready in
    (snd, kept ∙ same)

hears-Sound :
    (s : Show)
    → s.alex ≡ listening
    → 1 ≤ s.alex_cv
    → Sound s
    → Sound (record s { alex = called; alex_cv = s.alex_cv - 1 })
      × (baton (record s { alex = called; alex_cv = s.alex_cv - 1 }) ≡ baton s)
unfolding baton
hears-Sound s e one h =
    let idle : alex_holds s.alex ≡ false = rw e refl in
    (
      record {
        three = h.three;
        tally = h.tally;
        one_turn = ground (arith, idle, one, h.one_turn);
        stage = rw e at h.stage;
        present = h.present;
      },
      ground (arith, idle, one),
    )

ends-Sound :
    (s : Show)
    → s.alex ≡ finishing
    → Sound s
    → Sound (record s { alex = done; cont_cv = s.cont_cv + 1 })
      × (baton (record s { alex = done; cont_cv = s.cont_cv + 1 }) ≡ baton s)
unfolding baton
ends-Sound s e h =
    let up : alex_holds s.alex ≡ true = rw e refl in
    let (last, all_ready) : (s.num ≡ num_questions) × (s.ready ≡ num_contestants) =
      rw e at h.stage in
    (
      record {
        three = h.three;
        tally = h.tally;
        one_turn = ground (arith, up, h.one_turn);
        stage = (last, all_ready, ground (arith, up, h.one_turn));
        present = h.present;
      },
      ground (arith, up),
    )

kept : (s : Show) {s' : Show} → Sound s' × (baton s' ≡ baton s) → After s ⊥ s'
kept s (snd, same) = (snd, inl (λ g. g, same))

-- From a state that keeps the rules a turn leads to one, and either the turn of the show is where it was,
-- with somebody, or it was just given up.
pub Turn-After : {s s' : Show} (m : Turn s s') → Sound s → After s (GivesUp m) s'
Turn-After (comes {s} {c} i at_i e) h = kept s (get_ready-Sound s c i at_i e h)
Turn-After (takes {s} {c} i at_i e one) h = kept s (take_turn-Sound s c i at_i e one h)
Turn-After (plays {s} {c} ans i lt at_i e) h = plays-After s c i at_i h ans e
Turn-After (leaves {s} {c} i at_i e) h = kept s (leave-Sound s c i at_i e h)
Turn-After (begins {s} e le) h = kept s (begins-Sound s e le h)
Turn-After (hears {s} e one) h = kept s (hears-Sound s e one h)
Turn-After (goes_on {s} e) h = kept s (goes_on-Sound s e h)
Turn-After (ends {s} e) h = kept s (ends-Sound s e h)

pub Turns-Sound : {s s' : Show} → Turns s s' → Sound s → Sound s'
Turns-Sound finished h = h
Turns-Sound (more m rest) h = Turns-Sound rest (Turn-After m h).0
