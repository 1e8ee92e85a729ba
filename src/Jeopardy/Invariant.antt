-- ===== src/Jeopardy/Invariant.antt =====
-- The invariant of midterm/midterm.c and the turns of its contestants.
use cmsc421_os.Prelude.{
  ℕ, ◌+◌, ◌≤◌, ◌<◌, ◌≡◌, inl, inr, refl, ◌∙◌, arith, Bool, true, false, Bool-cases, some, List, [],
  ◌∷◌, map, All, All-set, All-get_elem?, length, length-set, length-map, get_elem?, set, leb,
  leb→le, ◌==◌, not, if◌then◌else◌,
}
use cmsc421_os.Prelude.Count.{one_if, count_if, count_if-set}
use cmsc421_os.Jeopardy.{
  num_questions, num_contestants, Phase, starting, waiting, woken, returned, Contestant, Alex,
  gathering, listening, called, done, Show, set_buzzer, signal, right, wrong, get_ready, play,
  begin,
}
use cmsc421_os.Jeopardy.Rules.{
  bound, is_starting, is_woken, InRound, Fits, InGame, All-map, signal-Fits, silent-Fits,
  answered-Fits, right-Within, wrong-Within,
}

abbrev pub starts : Contestant → Bool
starts c = is_starting c.phase

abbrev pub buzzes : Contestant → Bool
buzzes c = c.can_buzz_in

-- While Alex waits, who has not failed can still buzz in, and that is not nobody.
abbrev pub Tally : Alex → Show → Type 0
Tally gathering s = s.ready + count_if starts s.contestants ≡ num_contestants
Tally listening s =
    (s.failed_tries + count_if buzzes s.contestants ≡ num_contestants)
    × (s.failed_tries < num_contestants)
Tally called s = Unit
Tally done s = Unit

pub record Sound (s : Show) : Type 0 where
  pub three : length s.contestants ≡ num_contestants
  pub game : InGame s.alex s.num
  pub fits : All (Fits s.alex s.num) s.contestants
  pub tally : Tally s.alex s

pub begin-Sound : Sound begin
unfolding count_if bound
begin-Sound = record {
  three = refl;
  game = refl;
  fits = (
    (refl, refl, (omega arith, omega arith)),
    ((refl, refl, (omega arith, omega arith)), ((refl, refl, (omega arith, omega arith)), tt)),
  );
  tally = refl;
}

pub All-mono {ℓ κ η} :
    {A : Type ℓ} (P : A → Type κ) (Q : A → Type η)
    → ((x : A) → P x → Q x)
    → (xs : List A) → All P xs
    → All Q xs
All-mono P Q h [] p = tt
All-mono P Q h (x ∷ xs) (p, ps) = (h x p, All-mono P Q h xs ps)

signal-InGame : (a : Alex) (n : ℕ) → InGame a n → InGame (signal a) n
signal-InGame gathering n g = g
signal-InGame listening n g = g
signal-InGame called n g = g
signal-InGame done n g = g

module _ (s : Show) (c : Contestant) (i : ℕ) (at_i : get_elem? s.contestants i ≡ some c) where
  -- A contestant who leaves the lock for a wait with nothing said, or comes back from one.
  pub quiet-Fits :
      (a : Alex) (n : ℕ) (p : Phase)
      → (is_woken c.phase ≡ true → c.can_buzz_in ≡ true → is_woken p ≡ true)
      → (n < num_questions)
      → InGame a n
      → InRound p
      → Fits a n c
      → Fits a n (record c { phase = p })
  quiet-Fits gathering n p up lt g r f = (r.1, f.1, f.2)
  quiet-Fits listening n p up lt g r f = (r, (λ can. up (f.1 can) can), f.2)
  quiet-Fits called n p up lt g r f = (r, f.1)
  quiet-Fits done n p up lt g r f = absurd (omega arith)

  quiet-Tally :
      (a : Alex) (ready : ℕ) (p : Phase)
      → ready + one_if (is_starting p) ≡ s.ready + one_if (is_starting c.phase)
      → Tally a s
      → Tally a
          (record s { contestants = set s.contestants i (record c { phase = p }); ready = ready })
  quiet-Tally gathering ready p e h =
      omega (arith, count_if-set starts s.contestants i (record c { phase = p }) at_i)
  quiet-Tally listening ready p e h =
      (omega (arith, h.0, count_if-set buzzes s.contestants i (record c { phase = p }) at_i), h.1)
  quiet-Tally called ready p e h = tt
  quiet-Tally done ready p e h = tt

  pub quiet-Sound :
      (ready : ℕ) (p : Phase)
      → Fits s.alex s.num (record c { phase = p })
      → ready + one_if (is_starting p) ≡ s.ready + one_if (is_starting c.phase)
      → Sound s
      → Sound
          (record s { contestants = set s.contestants i (record c { phase = p }); ready = ready })
  quiet-Sound ready p f e h = record {
    three = length-set s.contestants i (record c { phase = p }) ∙ h.three;
    game = h.game;
    fits = All-set (Fits s.alex s.num) s.contestants i (record c { phase = p }) h.fits f;
    tally = quiet-Tally s.alex ready p e h.tally;
  }

  pub Fits-contestant : Sound s → Fits s.alex s.num c
  Fits-contestant h = All-get_elem? (Fits s.alex s.num) s.contestants i h.fits at_i

  come-Fits :
      (a : Alex) (n : ℕ) → c.phase ≡ starting → Fits a n c → Fits a n (record c { phase = waiting })
  come-Fits gathering n e f = (refl, f.1, f.2)
  come-Fits listening n e f = absurd (cc)
  come-Fits called n e f = absurd (cc)
  come-Fits done n e f = absurd (cc)

  pub get_ready-Sound : c.phase ≡ starting → Sound s → Sound (get_ready i c s)
  unfolding get_ready
  get_ready-Sound e h =
      quiet-Sound (s.ready + 1) waiting (come-Fits s.alex s.num e (Fits-contestant h))
        (rw e (omega arith)) h

  leave-Fits :
      (a : Alex) (n : ℕ)
      → num_questions ≤ n
      → InGame a n
      → Fits a n c
      → Fits a n (record c { phase = returned })
  leave-Fits gathering n le g f = absurd (omega arith)
  leave-Fits listening n le g f = absurd (omega arith)
  leave-Fits called n le g f = absurd (omega arith)
  leave-Fits done n le g f = (refl, (λ _. refl), f.2)

  wrong-Tally :
      (a : Alex) (n : ℕ)
      → c.can_buzz_in ≡ true
      → Fits a n c
      → Tally a s
      → s.failed_tries + 1 < num_contestants
      → Tally a (record s {
        contestants = set s.contestants i (wrong s c);
        failed_tries = s.failed_tries + 1;
      })
  wrong-Tally gathering n can f h lt = absurd (cc)
  wrong-Tally listening n can f h lt =
      (ground (arith, h.0, can, count_if-set buzzes s.contestants i (wrong s c) at_i), lt)
  wrong-Tally called n can f h lt = tt
  wrong-Tally done n can f h lt = tt

  signal-Tally :
      (t : Show) (a : Alex) (n : ℕ) → c.can_buzz_in ≡ true → Fits a n c → Tally (signal a) t
  signal-Tally t gathering n can f = absurd (cc)
  signal-Tally t listening n can f = tt
  signal-Tally t called n can f = tt
  signal-Tally t done n can f = tt

  silent_signal-Fits :
      (a : Alex) (n : ℕ) (x : Contestant) → Fits a n x → Fits (signal a) n (set_buzzer false x)
  silent_signal-Fits a n x f = silent-Fits (signal a) n x (signal-Fits a n x f)

  right-Sound :
      s.num < num_questions
      → c.can_buzz_in ≡ true
      → Sound s
      → Sound (record s {
        contestants = map (set_buzzer false) (set s.contestants i (right s c));
        alex = signal s.alex;
      })
  right-Sound lt can h = record {
    three =
        length-map (set s.contestants i (right s c)) (set_buzzer false)
        ∙ length-set s.contestants i (right s c)
        ∙ h.three;
    game = signal-InGame s.alex s.num h.game;
    fits =
        All-map (Fits s.alex s.num) (Fits (signal s.alex) s.num) (set_buzzer false)
          (silent_signal-Fits s.alex s.num) (set s.contestants i (right s c))
          (All-set (Fits s.alex s.num) s.contestants i (right s c) h.fits (
            answered-Fits s.alex s.num c (right s c).score h.game lt can (Fits-contestant h)
              (right-Within s.num c.score)));
    tally = signal-Tally _ s.alex s.num can (Fits-contestant h);
  }

  wrong-all :
      s.num < num_questions
      → c.can_buzz_in ≡ true
      → Sound s
      → All (Fits s.alex s.num) (set s.contestants i (wrong s c))
  wrong-all lt can h = All-set (Fits s.alex s.num) s.contestants i (wrong s c) h.fits (
      answered-Fits s.alex s.num c (wrong s c).score h.game lt can (Fits-contestant h)
        (wrong-Within s.num c.score))

  wrong-Sound :
      s.num < num_questions
      → c.can_buzz_in ≡ true
      → Sound s
      → Sound (record s {
        contestants = set s.contestants i (wrong s c);
        failed_tries = s.failed_tries + 1;
        alex = if leb num_contestants (s.failed_tries + 1) then signal s.alex else s.alex;
      })
  wrong-Sound lt can h = elim (Bool-cases (leb num_contestants (s.failed_tries + 1))) [
    | inl all_failed ↦ rw all_failed (record {
      three = length-set s.contestants i (wrong s c) ∙ h.three;
      game = signal-InGame s.alex s.num h.game;
      fits =
          All-mono (Fits s.alex s.num) (Fits (signal s.alex) s.num) (signal-Fits s.alex s.num)
            (set s.contestants i (wrong s c)) (wrong-all lt can h);
      tally = signal-Tally _ s.alex s.num can (Fits-contestant h);
    })
    | inr some_left ↦ rw some_left (record {
      three = length-set s.contestants i (wrong s c) ∙ h.three;
      game = h.game;
      fits = wrong-all lt can h;
      tally = wrong-Tally s.alex s.num can (Fits-contestant h) h.tally (ground (arith, some_left));
    })
  ]

  pub play-Sound : (ans : ℕ) → c.phase ≡ woken → Sound s → Sound (play ans i c s)
  unfolding play
  play-Sound ans e h = elim (Bool-cases (leb num_questions s.num)) [
    | inl over ↦ rw over (
        quiet-Sound s.ready returned
          (leave-Fits s.alex s.num (leb→le num_questions s.num over) h.game (Fits-contestant h))
          (rw e refl) h)
    | inr going ↦
        let lt : s.num < num_questions = ground (arith, going) in
        elim (Bool-cases c.can_buzz_in) [
          | inr silent ↦
              let off : not c.can_buzz_in ≡ true = rw silent refl in
              rw (going, off)
                (quiet-Sound s.ready waiting
                  (quiet-Fits s.alex s.num waiting (λ _. λ can. absurd (cc)) lt h.game (refl, refl)
                    (Fits-contestant h))
                  (rw e refl) h)
          | inl can ↦
              let on : not c.can_buzz_in ≡ false = rw can refl in
              elim (Bool-cases (ans == s.num)) [
                | inl correct ↦ rw (going, on, correct) (right-Sound lt can h)
                | inr false_answer ↦ rw (going, on, false_answer) (wrong-Sound lt can h)
              ]
        ]
  ]
