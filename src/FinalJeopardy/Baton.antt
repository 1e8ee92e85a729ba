-- ===== src/FinalJeopardy/Baton.antt =====
-- The turn of final/final.c: who has it, through the calls of `complete`.
use cmsc421_os.Prelude.{
  ℕ, ◌+◌, ◌≤◌, ◌<◌, ◌≡◌, ◌⊎◌, inl, inr, refl, ◌∙◌, arith, Bool, true, false, some, length,
  length-set, get_elem?, set,
}
use cmsc421_os.Prelude.Count.{one_if, count_if, count_if-set}
use cmsc421_os.Jeopardy.{num_questions, num_contestants}
use cmsc421_os.FinalJeopardy.{
  Phase, starting, waiting, woken, leaving, returned, Contestant, Alex, gathering, listening,
  called, finishing, done, Show, Turn, comes, takes, plays, leaves, begins, hears, goes_on, ends,
  jeop_init,
}

abbrev pub is_starting : Phase → Bool
is_starting starting = true
is_starting waiting = false
is_starting woken = false
is_starting leaving = false
is_starting returned = false

abbrev pub is_active : Phase → Bool
is_active starting = false
is_active waiting = false
is_active woken = true
is_active leaving = true
is_active returned = false

abbrev pub is_gone : Phase → Bool
is_gone starting = false
is_gone waiting = false
is_gone woken = false
is_gone leaving = true
is_gone returned = true

abbrev pub starts : Contestant → Bool
starts c = is_starting c.phase

-- The contestant has been given the turn and has not passed it on.
abbrev pub holds : Contestant → Bool
holds c = is_active c.phase

abbrev pub left : Contestant → Bool
left c = is_gone c.phase

abbrev pub alex_holds : Alex → Bool
alex_holds gathering = true
alex_holds listening = false
alex_holds called = true
alex_holds finishing = true
alex_holds done = false

-- How often the turn is held or offered: by a call of `complete` that nobody has waited for, by a
-- contestant, or by Alex.
unfoldable pub baton : Show → ℕ
baton s = s.cont_cv + count_if holds s.contestants + s.alex_cv + one_if (alex_holds s.alex)

-- The number of the question, `ready` and the calls for Alex, by where Alex stands.
abbrev pub Stage : Alex → (num ready alex_cv : ℕ) → Type 0
Stage gathering n r v = n ≡ 0
Stage listening n r v = (n < num_questions) × (r ≡ num_contestants)
Stage called n r v = (n < num_questions) × (r ≡ num_contestants)
Stage finishing n r v = (n ≡ num_questions) × (r ≡ num_contestants)
Stage done n r v = (n ≡ num_questions) × (r ≡ num_contestants) × (v ≡ 0)

pub record Sound (s : Show) : Type 0 where
  pub three : length s.contestants ≡ num_contestants
  pub tally : s.ready + count_if starts s.contestants ≡ num_contestants
  pub one_turn : baton s ≤ 1
  pub stage : Stage s.alex s.num s.ready s.alex_cv
  pub present : s.num < num_questions → count_if left s.contestants ≡ 0

pub jeop_init-Sound : Sound jeop_init
unfolding count_if baton
jeop_init-Sound = record {
  three = refl;
  tally = refl;
  one_turn = omega arith;
  stage = refl;
  present = λ lt. refl;
}

Stage-any : (a : Alex) (n r v w : ℕ) → n < num_questions → Stage a n r v → Stage a n r w
Stage-any gathering n r v w lt h = h
Stage-any listening n r v w lt h = h
Stage-any called n r v w lt h = h
Stage-any finishing n r v w lt h = h
Stage-any done n r v w lt h = absurd (omega (arith, h.0))

pub Stage-more : (a : Alex) (n r v : ℕ) → r < num_contestants → Stage a n r v → Stage a n (r + 1) v
Stage-more gathering n r v lt h = h
Stage-more listening n r v lt h = absurd (omega (arith, h.1))
Stage-more called n r v lt h = absurd (omega (arith, h.1))
Stage-more finishing n r v lt h = absurd (omega (arith, h.1))
Stage-more done n r v lt h = absurd (omega (arith, h.1))

-- A contestant moves, and what was offered and called for changes.
module _ (s : Show) (c d : Contestant) (i : ℕ) (at_i : get_elem? s.contestants i ≡ some c) where
  pub starters :
      count_if starts (set s.contestants i d) + one_if (starts c)
      ≡ count_if starts s.contestants + one_if (starts d)
  starters = count_if-set starts s.contestants i d at_i

  pub holders :
      count_if holds (set s.contestants i d) + one_if (holds c)
      ≡ count_if holds s.contestants + one_if (holds d)
  holders = count_if-set holds s.contestants i d at_i

  pub leavers :
      count_if left (set s.contestants i d) + one_if (left c)
      ≡ count_if left s.contestants + one_if (left d)
  leavers = count_if-set left s.contestants i d at_i

  -- A contestant who has come moves on while the turn is passed on or given up.
  pub moves :
      (v w f : ℕ)
      → starts c ≡ starts d
      → (s.num < num_questions → left c ≡ left d)
      → v + one_if (holds d) + w ≤ s.cont_cv + one_if (holds c) + s.alex_cv
      → (s.num < num_questions) ⊎ (w ≡ s.alex_cv)
      → Sound s
      → Sound (record s {
        contestants = set s.contestants i d;
        cont_cv = v;
        alex_cv = w;
        failed_tries = f;
      })
  unfolding baton
  moves v w f same_s same_l less at_end h = record {
    three = length-set s.contestants i d ∙ h.three;
    tally = ground (arith, starters, h.tally, same_s);
    one_turn = ground (arith, holders, h.one_turn);
    stage = elim at_end [
      | inl lt ↦ Stage-any s.alex s.num s.ready s.alex_cv w lt h.stage
      | inr e ↦ rw e h.stage
    ];
    present = λ lt. ground (arith, leavers, h.present lt, same_l lt);
  }

  pub passes :
      (v w f : ℕ)
      → v + one_if (holds d) + w ≡ s.cont_cv + one_if (holds c) + s.alex_cv
      → baton (record s {
        contestants = set s.contestants i d;
        cont_cv = v;
        alex_cv = w;
        failed_tries = f;
      })
        ≡ baton s
  unfolding baton
  passes v w f e = omega (arith, holders, e)

-- The turn of a contestant who may not buzz in while questions are left: it is given up.
abbrev pub GivesUp : {s s' : Show} → Turn s s' → Type 0
GivesUp (comes i at_i e) = ⊥
GivesUp (takes i at_i e one) = ⊥
GivesUp (plays {s} {c} ans i lt at_i e) = (s.num < num_questions) × (c.can_buzz_in ≡ false)
GivesUp (leaves i at_i e) = ⊥
GivesUp (begins e le) = ⊥
GivesUp (hears e one) = ⊥
GivesUp (goes_on e) = ⊥
GivesUp (ends e) = ⊥

-- What a turn does to the turn of the show.
abbrev pub After : Show → Type 0 → Show → Type 0
After s gives_up s' =
    Sound s' × (((gives_up → ⊥) × (baton s' ≡ baton s)) ⊎ (gives_up × (baton s' ≡ 0)))
