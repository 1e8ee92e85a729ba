-- ===== src/FinalJeopardy/Playing.antt =====
-- The turn of final/final.c when a contestant moves.
use cmsc421_os.Prelude.{
  ℕ, ◌+◌, ◌-◌, ◌≤◌, ◌<◌, ◌≡◌, inl, inr, refl, ◌∙◌, arith, Bool, true, false, Bool-cases, some, map,
  length-set, length-map, get_elem?, set, leb, ◌==◌, not,
}
use cmsc421_os.Prelude.Int.{ℤ, ◌+ℤ◌, ◌-ℤ◌}
use cmsc421_os.Prelude.Count.{count_if-map, count_if_one}
use cmsc421_os.Jeopardy.{num_questions, num_contestants, money}
use cmsc421_os.FinalJeopardy.{
  starting, waiting, woken, leaving, returned, Contestant, Show, set_buzzer, moved, answered,
  get_ready, take_turn, play, leave,
}
use cmsc421_os.FinalJeopardy.Baton.{
  starts, holds, left, baton, Sound, Stage-more, starters, holders, leavers, moves, passes, After,
}

pub get_ready-Sound :
    (s : Show) (c : Contestant) (i : ℕ)
    → get_elem? s.contestants i ≡ some c
    → c.phase ≡ starting
    → Sound s
    → Sound (get_ready i c s) × (baton (get_ready i c s) ≡ baton s)
unfolding get_ready baton
get_ready-Sound s c i at_i e h =
    let d : Contestant = record c { phase = waiting } in
    let new : starts c ≡ true = rw e refl in
    let idle : holds c ≡ false = rw e refl in
    let here : left c ≡ false = rw e refl in
    let few : s.ready < num_contestants =
      ground (arith, h.tally, count_if_one starts s.contestants i at_i new) in
    (
      record {
        three = length-set s.contestants i d ∙ h.three;
        tally = ground (arith, h.tally, starters s c d i at_i, new);
        one_turn = ground (arith, h.one_turn, holders s c d i at_i, idle);
        stage = Stage-more s.alex s.num s.ready s.alex_cv few h.stage;
        present = λ lt. ground (arith, h.present lt, leavers s c d i at_i, here);
      },
      ground (arith, holders s c d i at_i, idle),
    )

buzzers-Sound :
    (s : Show) (b : Bool)
    → Sound s
    → Sound (record s { contestants = map (set_buzzer b) s.contestants })
unfolding baton
buzzers-Sound s b h = record {
  three = length-map s.contestants (set_buzzer b) ∙ h.three;
  tally = rw (count_if-map starts starts (set_buzzer b) (λ c. refl) s.contestants) h.tally;
  one_turn = rw (count_if-map holds holds (set_buzzer b) (λ c. refl) s.contestants) h.one_turn;
  stage = h.stage;
  present =
      λ lt. rw (count_if-map left left (set_buzzer b) (λ c. refl) s.contestants) (h.present lt);
}

buzzers-baton :
    (s : Show) (b : Bool)
    → baton (record s { contestants = map (set_buzzer b) s.contestants }) ≡ baton s
unfolding baton
buzzers-baton s b = rw (count_if-map holds holds (set_buzzer b) (λ c. refl) s.contestants) refl

module _ (s : Show) (c : Contestant) (i : ℕ) (at_i : get_elem? s.contestants i ≡ some c)
    (h : Sound s) where
  pub on_turn : holds c ≡ true → s.cont_cv + s.alex_cv ≡ 0
  unfolding baton
  on_turn e = omega (arith, h.one_turn, count_if_one holds s.contestants i at_i e)

  here : num_questions ≤ s.num → (s.num < num_questions → ⊥)
  here le lt = omega (arith, le, lt)

  lost : holds c ≡ true → baton (record s { contestants = moved i c waiting s; cont_cv = 0 }) ≡ 0
  unfolding baton
  lost up =
      ground (arith, on_turn up, up, h.one_turn, holders s c (record c { phase = waiting }) i at_i)

  -- An answer passes the turn on to somebody.
  answer-After :
      (x : ℤ) (v w f : ℕ)
      → c.phase ≡ woken
      → s.num < num_questions
      → v + w ≡ 1
      → Sound (record s {
        contestants = set s.contestants i (answered x);
        cont_cv = v;
        alex_cv = w;
        failed_tries = f;
      })
        × (baton (record s {
          contestants = set s.contestants i (answered x);
          cont_cv = v;
          alex_cv = w;
          failed_tries = f;
        })
            ≡ baton s)
  answer-After x v w f e lt one =
      let up : holds c ≡ true = rw e refl in
      let none_left = on_turn up in
      (
        moves s c (answered x) i at_i v w f (rw e refl) (λ _. rw e refl) (ground (arith, up))
            (inl lt) h,
        passes s c (answered x) i at_i v w f (ground (arith, up, none_left)),
      )

  pub plays-After :
      (ans : ℕ)
      → c.phase ≡ woken
      → After s ((s.num < num_questions) × (c.can_buzz_in ≡ false)) (play ans i c s)
  unfolding play
  plays-After ans e =
      let up : holds c ≡ true = rw e refl in
      let old : starts c ≡ false = rw e refl in
      let stays : left c ≡ false = rw e refl in
      let none_left = on_turn up in
      elim (Bool-cases (leb num_questions s.num)) [
        | inl over ↦ rw over (
          moves s c (record c { phase = leaving }) i at_i 0 s.alex_cv s.failed_tries old
              (λ lt. absurd (ground (arith, over))) (ground (arith, up)) (inr refl) h,
          inl (
            λ g. ground (arith, over, g.0),
            passes s c (record c { phase = leaving }) i at_i 0 s.alex_cv s.failed_tries
                (ground (arith, up, none_left)),
          ),
        )
        | inr going ↦
            let lt : s.num < num_questions = ground (arith, going) in
            elim (Bool-cases c.can_buzz_in) [
              | inr silent ↦
                  let off : not c.can_buzz_in ≡ true = rw silent refl in
                  rw (going, off)
                    (
                      moves s c (record c { phase = waiting }) i at_i 0 s.alex_cv s.failed_tries old
                          (λ _. stays) (ground (arith, up)) (inl lt) h,
                      inr ((lt, silent), lost up),
                    )
              | inl can ↦
                  let on : not c.can_buzz_in ≡ false = rw can refl in
                  elim (Bool-cases (ans == s.num)) [
                    | inl correct ↦
                        let x : ℤ = c.score +ℤ money s.num in
                        let (snd, same) =
                          answer-After x 0 (s.alex_cv + 1) s.failed_tries e lt
                            (omega (arith, none_left)) in
                        let t : Show = record s {
                          contestants = set s.contestants i (answered x);
                          cont_cv = 0;
                          alex_cv = s.alex_cv + 1;
                        } in
                        rw (going, on, correct)
                          (
                            buzzers-Sound t false snd,
                            inl (λ g. cc (g.1), buzzers-baton t false ∙ same),
                          )
                    | inr incorrect ↦ elim (Bool-cases (leb num_contestants (s.failed_tries + 1))) [
                      | inl all_failed ↦
                          let (snd, same) =
                            answer-After (c.score -ℤ money s.num) 0 (s.alex_cv + 1)
                              (s.failed_tries + 1) e lt (omega (arith, none_left)) in
                          rw (going, on, incorrect, all_failed) (snd, inl (λ g. cc (g.1), same))
                      | inr some_left ↦
                          let (snd, same) =
                            answer-After (c.score -ℤ money s.num) 1 s.alex_cv (s.failed_tries + 1) e
                              lt (omega (arith, none_left)) in
                          rw (going, on, incorrect, some_left) (snd, inl (λ g. cc (g.1), same))
                    ]
                  ]
            ]
      ]

pub take_turn-Sound :
    (s : Show) (c : Contestant) (i : ℕ)
    → get_elem? s.contestants i ≡ some c
    → c.phase ≡ waiting
    → 1 ≤ s.cont_cv
    → Sound s
    → Sound (take_turn i c s) × (baton (take_turn i c s) ≡ baton s)
unfolding take_turn
take_turn-Sound s c i at_i e one h =
    let idle : holds c ≡ false = rw e refl in
    let d : Contestant = record c { phase = woken } in
    (
      moves s c d i at_i (s.cont_cv - 1) s.alex_cv s.failed_tries (rw e refl) (λ _. rw e refl)
          (ground (arith, idle)) (inr refl) h,
      passes s c d i at_i (s.cont_cv - 1) s.alex_cv s.failed_tries (ground (arith, idle)),
    )

pub leave-Sound :
    (s : Show) (c : Contestant) (i : ℕ)
    → get_elem? s.contestants i ≡ some c
    → c.phase ≡ leaving
    → Sound s
    → Sound (leave i c s) × (baton (leave i c s) ≡ baton s)
unfolding leave
leave-Sound s c i at_i e h =
    let active : holds c ≡ true = rw e refl in
    let d : Contestant = record c { phase = returned } in
    (
      moves s c d i at_i (s.cont_cv + 1) s.alex_cv s.failed_tries (rw e refl) (λ _. rw e refl)
          (ground (arith, active)) (inr refl) h,
      passes s c d i at_i (s.cont_cv + 1) s.alex_cv s.failed_tries (ground (arith, active)),
    )
