-- ===== src/FinalJeopardy/Lost.antt =====
-- final/final.c when the contestant who has the turn may not buzz in.
use cmsc421_os.Prelude.{
  ℕ, ◌<◌, ◌≡◌, refl, arith, true, false, not, All, All-get_elem?, leb, some, get_elem?,
}
use cmsc421_os.Jeopardy.{num_questions}
use cmsc421_os.FinalJeopardy.{
  waiting, Contestant, listening, Show, moved, play, Turn, comes, takes, plays, leaves, begins,
  hears, goes_on, ends,
}

-- Some thread can take a turn.
abbrev pub CanTurn : Show → Type 0
CanTurn s = (s' : Show) × Turn s s'

-- Everybody waits, and nobody has called `complete`.
pub record IsStuck (s : Show) : Type 0 where
  pub waits : All (λ c. c.phase ≡ waiting) s.contestants
  pub no_turn : s.cont_cv ≡ 0
  pub alex : s.alex ≡ listening
  pub no_answer : s.alex_cv ≡ 0

nobody :
    (s : Show) {c : Contestant} (i : ℕ)
    → IsStuck s
    → get_elem? s.contestants i ≡ some c
    → c.phase ≡ waiting
nobody s i h at_i = All-get_elem? (λ d. d.phase ≡ waiting) s.contestants i h.waits at_i

stuck : {s s' : Show} → IsStuck s → ¬ Turn s s'
stuck h (comes {s} i at_i e) = let w = nobody s i h at_i in absurd (cc)
stuck h (takes {s} i at_i e one) = let none_left = h.no_turn in absurd (omega arith)
stuck h (plays {s} ans i lt at_i e) = let w = nobody s i h at_i in absurd (cc)
stuck h (leaves {s} i at_i e) = let w = nobody s i h at_i in absurd (cc)
stuck h (begins e le) = let l = h.alex in absurd (cc)
stuck h (hears e one) = let none_left = h.no_answer in absurd (omega arith)
stuck h (goes_on e) = let l = h.alex in absurd (cc)
stuck h (ends e) = let l = h.alex in absurd (cc)

-- Where the other two contestants wait, as Alex does, and nobody has answered, a contestant who takes a
-- turn and may not buzz in gives it up to nobody: after that no thread can take a turn, so that the show
-- stands still.
pub turn_lost :
    (ans i : ℕ) (c : Contestant) (s : Show)
    → s.num < num_questions
    → c.can_buzz_in ≡ false
    → All (λ d. d.phase ≡ waiting) (moved i c waiting s)
    → s.alex ≡ listening
    → s.alex_cv ≡ 0
    → ¬ CanTurn (play ans i c s)
unfolding play
turn_lost ans i c s lt off waits alex none_answered moves =
    let going : leb num_questions s.num ≡ false = ground arith in
    let silent : not c.can_buzz_in ≡ true = rw off refl in
    stuck (record { waits = waits; no_turn = refl; alex = alex; no_answer = none_answered })
      (rw (going, silent) at moves.1)
