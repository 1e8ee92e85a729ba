-- ===== src/Jeopardy/Asking.antt =====
-- Alex's turns in midterm/midterm.c and the invariant, and runs of any length.
use cmsc421_os.Prelude.{
  ℕ, zero, suc, ◌+◌, ◌≤◌, ◌<◌, ◌≡◌, inl, inr, refl, ◌∙◌, arith, true, false, Bool-cases, List, [],
  ◌∷◌, map, All, length, length-map, ltb, some, get_elem?, set,
}
use cmsc421_os.Prelude.Count.{count_if}
use cmsc421_os.Prelude.Int.{ℤ}
use cmsc421_os.Jeopardy.{
  num_questions, num_contestants, waiting, woken, Contestant, Alex, gathering, listening, called,
  done, Show, set_buzzer, wake_one, ask, next, Turn, comes, plays, begins, goes_on, Step, turn,
  stirs, alex_stirs, Steps, finished, more, begin,
}
use cmsc421_os.Jeopardy.Rules.{
  bound, Within, InRound, Fits, InGame, All-map, asked-Fits, dismissed-Fits,
}
use cmsc421_os.Jeopardy.Invariant.{
  starts, buzzes, Sound, All-mono, quiet-Sound, Fits-contestant, get_ready-Sound, play-Sound,
  begin-Sound,
}

abbrev ReadyFor : ℕ → Contestant → Type 0
ReadyFor n c = InRound c.phase × Within (bound n) c.score

all_buzz :
    (cs : List Contestant) → count_if buzzes (map wake_one (map (set_buzzer true) cs)) ≡ length cs
unfolding count_if
all_buzz [] = refl
all_buzz (c ∷ cs) = omega (arith, all_buzz cs)

ask-Sound :
    (s : Show)
    → length s.contestants ≡ num_contestants
    → s.num ≤ num_questions
    → All (ReadyFor s.num) s.contestants
    → Sound (ask s)
unfolding ask
ask-Sound s three le all = elim (Bool-cases (ltb s.num num_questions)) [
  | inl going ↦ rw going (record {
    three =
        length-map (map (set_buzzer true) s.contestants) wake_one
        ∙ length-map s.contestants (set_buzzer true)
        ∙ three;
    game = ground (arith, going);
    fits =
        All-map (λ c. Fits listening s.num (wake_one c)) (Fits listening s.num) wake_one (λ c f. f)
          (map (set_buzzer true) s.contestants)
          (All-map (ReadyFor s.num) (λ c. Fits listening s.num (wake_one c)) (set_buzzer true)
            (λ c f. asked-Fits s.num c f.0 f.1) s.contestants all);
    tally = (omega (arith, all_buzz s.contestants, three), omega arith);
  })
  | inr over ↦ rw over (record {
    three = length-map s.contestants wake_one ∙ three;
    game = ground (arith, over);
    fits =
        All-map (ReadyFor s.num) (Fits done s.num) wake_one (λ c f. dismissed-Fits s.num c f.0 f.1)
          s.contestants all;
    tally = tt;
  })
]

gathered :
    (n : ℕ) (cs : List Contestant)
    → count_if starts cs ≡ 0
    → All (Fits gathering n) cs
    → All (ReadyFor n) cs
unfolding count_if
gathered n [] e all = tt
gathered n (c ∷ cs) e (f, fs) = (((ground arith, f.0), f.2), gathered n cs (omega arith) fs)

begins-Sound : (s : Show) → s.alex ≡ gathering → num_contestants ≤ s.ready → Sound s → Sound (ask s)
begins-Sound s e le h =
    let none_left = rw e at h.tally in
    let here : s.num ≡ 0 = rw e at h.game in
    ask-Sound s h.three (omega arith) (gathered s.num s.contestants (omega arith) (rw e at h.fits))

goes_on-Sound : (s : Show) → s.alex ≡ called → Sound s → Sound (next s)
unfolding next
goes_on-Sound s e h =
    let one_more : s.num + 1 ≡ suc s.num = omega arith in
    let below : s.num < num_questions = rw e at h.game in
    ask-Sound (record s { contestants = map (set_buzzer false) s.contestants; num = s.num + 1 })
      (length-map s.contestants (set_buzzer false) ∙ h.three) (omega arith)
      (rw one_more (
        All-map (Fits called s.num) (ReadyFor (suc s.num)) (set_buzzer false) (λ c f. (f.0, f.1.1))
          s.contestants (rw e at h.fits)))

turn-Sound : {s s' : Show} → Turn s s' → Sound s → Sound s'
turn-Sound (comes {s} {c} i at_i e) h = get_ready-Sound s c i at_i e h
turn-Sound (plays {s} {c} ans i lt at_i e) h = play-Sound s c i at_i ans e h
turn-Sound (begins {s} e le) h = begins-Sound s e le h
turn-Sound (goes_on {s} e) h = goes_on-Sound s e h

stirred :
    (a : Alex) (n : ℕ) (c : Contestant)
    → c.phase ≡ waiting
    → Fits a n c
    → Fits a n (record c { phase = woken })
stirred gathering n c e f = (refl, f.1, f.2)
stirred listening n c e f = ((refl, refl), (λ can. refl), f.2)
stirred called n c e f = ((refl, refl), f.1)
stirred done n c e f = absurd (ground arith)

stirs-Sound :
    (s : Show) (c : Contestant) (i : ℕ)
    → get_elem? s.contestants i ≡ some c
    → c.phase ≡ waiting
    → Sound s
    → Sound (record s { contestants = set s.contestants i (record c { phase = woken }) })
stirs-Sound s c i at_i e h =
    quiet-Sound s c i at_i s.ready woken (stirred s.alex s.num c e (Fits-contestant s c i at_i h))
      (rw e refl) h

alex_stirs-Sound : (s : Show) → s.alex ≡ listening → Sound s → Sound (record s { alex = called })
alex_stirs-Sound s e h = record {
  three = h.three;
  game = rw e at h.game;
  fits =
      All-mono (Fits listening s.num) (Fits called s.num) (λ c f. (f.0, f.2)) s.contestants
        (rw e at h.fits);
  tally = tt;
}

pub step-Sound : {s s' : Show} → Step s s' → Sound s → Sound s'
step-Sound (turn m) h = turn-Sound m h
step-Sound (stirs {s} {c} i at_i e) h = stirs-Sound s c i at_i e h
step-Sound (alex_stirs {s} e) h = alex_stirs-Sound s e h

steps-Sound : {s s' : Show} → Steps s s' → Sound s → Sound s'
steps-Sound finished h = h
steps-Sound (more m ms) h = steps-Sound ms (step-Sound m h)

pub reached-Sound : {s : Show} → Steps begin s → Sound s
reached-Sound run = steps-Sound run begin-Sound

all_questions : (n : ℕ) → n ≤ num_questions → bound n ≤ 2000
unfolding bound
all_questions zero h = omega arith
all_questions (suc zero) h = omega arith
all_questions (suc (suc zero)) h = omega arith
all_questions (suc (suc (suc zero))) h = omega arith
all_questions (suc (suc (suc (suc zero)))) h = omega arith
all_questions (suc (suc (suc (suc (suc n))))) h = absurd (omega arith)

Within-larger : {b : ℕ} (x : ℤ) → b ≤ 2000 → Within b x → Within 2000 x
Within-larger x le w = (omega arith, omega arith)

Fits-Within : (a : Alex) (n : ℕ) (c : Contestant) → InGame a n → Fits a n c → Within 2000 c.score
Fits-Within gathering n c g f = Within-larger c.score (all_questions n (omega arith)) f.2
Fits-Within listening n c g f = Within-larger c.score (all_questions (suc n) (omega arith)) f.2.1
Fits-Within called n c g f = Within-larger c.score (all_questions (suc n) (omega arith)) f.1.1
Fits-Within done n c g f = Within-larger c.score (all_questions n (omega arith)) f.2

-- In no order of the turns, with any answers and any wake-ups without a signal, is a contestant ever
-- more than 2000 dollars away from 0, which four questions are worth together.
pub score-Within : {s : Show} → Steps begin s → All (λ c. Within 2000 c.score) s.contestants
score-Within {s} run =
    let h = reached-Sound run in
    All-mono (Fits s.alex s.num) (λ c. Within 2000 c.score)
      (λ c f. Fits-Within s.alex s.num c h.game f) s.contestants h.fits
