-- ===== src/FinalJeopardy.antt =====
-- final/final.c: the show of midterm/midterm.c as threads of the kernel, with completions in place of
-- conditions. A thread keeps the lock, also while it sleeps, until it waits for a completion, so that what
-- it does between two waits is one step. A completion is the number of its calls of `complete` that nobody
-- has waited for.
pub mod Lost
pub mod Baton
pub mod Playing
pub mod Asking
pub mod Standing
pub mod Exit
pub mod Ending
mod Tests
use cmsc421_os.Prelude.{
  ℕ, ◌+◌, ◌-◌, ◌≤◌, ◌<◌, ◌≡◌, Bool, true, false, not, List, [], ◌∷◌, map, Option, some, ltb, leb,
  ◌==◌, if◌then◌else◌, get_elem?, set,
}
use cmsc421_os.Prelude.Int.{ℤ, pos, ◌+ℤ◌, ◌-ℤ◌}
use cmsc421_os.Jeopardy.{num_questions, num_contestants, money}

-- Where `play_kthread` stands: before the lock, before its wait for `cont_cv`, behind the wait, behind the
-- loop and before `complete`, returned.
pub data Phase : Type 0 where
  starting waiting woken leaving returned : Phase

-- `struct contestant`, with its thread.
pub record Contestant : Type 0 where
  pub score : ℤ
  pub can_buzz_in : Bool
  pub phase : Phase

-- Where `alex_kthread` stands: in the loop on `ready`, before its wait for `alex_cv`, behind the wait,
-- behind the loop and before `complete`, returned.
pub data Alex : Type 0 where
  gathering listening called finishing done : Alex

pub record Show : Type 0 where
  pub contestants : List Contestant
  pub ready : ℕ
  pub num : ℕ
  pub failed_tries : ℕ
  pub alex : Alex
  pub cont_cv : ℕ
  pub alex_cv : ℕ

abbrev pub set_buzzer : Bool → Contestant → Contestant
set_buzzer v c = record c { can_buzz_in = v }

abbrev pub moved : ℕ → Contestant → Phase → Show → List Contestant
moved i c p s = set s.contestants i (record c { phase = p })

unfoldable pub get_ready : ℕ → Contestant → Show → Show
get_ready i c s = record s { contestants = moved i c waiting s; ready = s.ready + 1 }

-- The wait takes one call of `complete`.
unfoldable pub take_turn : ℕ → Contestant → Show → Show
take_turn i c s = record s { contestants = moved i c woken s; cont_cv = s.cont_cv - 1 }

abbrev pub answered : ℤ → Contestant
answered x = record { score = x; can_buzz_in = false; phase = waiting }

-- `play_kthread` from its wait to the next one; `reinit_completion` comes first.
unfoldable pub play : (ans i : ℕ) → Contestant → Show → Show
play ans i c s =
    if leb num_questions s.num
    then record s { contestants = moved i c leaving s; cont_cv = 0 }
    else if not c.can_buzz_in
    then record s { contestants = moved i c waiting s; cont_cv = 0 }
    else if ans == s.num
    then record s {
      contestants =
          map (set_buzzer false) (set s.contestants i (answered (c.score +ℤ money s.num)));
      cont_cv = 0;
      alex_cv = s.alex_cv + 1;
    }
    else record s {
      contestants = set s.contestants i (answered (c.score -ℤ money s.num));
      failed_tries = s.failed_tries + 1;
      cont_cv = if leb num_contestants (s.failed_tries + 1) then 0 else 1;
      alex_cv = if leb num_contestants (s.failed_tries + 1) then s.alex_cv + 1 else s.alex_cv;
    }

unfoldable pub leave : ℕ → Contestant → Show → Show
leave i c s = record s { contestants = moved i c returned s; cont_cv = s.cont_cv + 1 }

-- `alex_kthread` from the test of its loop to its wait, or behind the loop.
unfoldable pub ask : Show → Show
ask s =
    if ltb s.num num_questions
    then record s {
      contestants = map (set_buzzer true) s.contestants;
      failed_tries = 0;
      alex = listening;
      cont_cv = s.cont_cv + 1;
    }
    else record s { alex = finishing }

unfoldable pub next : Show → Show
next s =
    ask (record s {
      contestants = map (set_buzzer false) s.contestants;
      num = s.num + 1;
      alex_cv = 0;
    })

-- A turn of one thread, while nobody interrupts the waits.
pub data Turn : Show → Show → Type 0 where
  comes :
      {s : Show} {c : Contestant} (i : ℕ)
      → get_elem? s.contestants i ≡ some c
      → c.phase ≡ starting
      → Turn s (get_ready i c s)
  takes :
      {s : Show} {c : Contestant} (i : ℕ)
      → get_elem? s.contestants i ≡ some c
      → c.phase ≡ waiting
      → 1 ≤ s.cont_cv
      → Turn s (take_turn i c s)
  plays :
      {s : Show} {c : Contestant} (ans i : ℕ)
      → ans < num_questions
      → get_elem? s.contestants i ≡ some c
      → c.phase ≡ woken
      → Turn s (play ans i c s)
  leaves :
      {s : Show} {c : Contestant} (i : ℕ)
      → get_elem? s.contestants i ≡ some c
      → c.phase ≡ leaving
      → Turn s (leave i c s)
  begins : {s : Show} → s.alex ≡ gathering → num_contestants ≤ s.ready → Turn s (ask s)
  hears :
      {s : Show}
      → s.alex ≡ listening
      → 1 ≤ s.alex_cv
      → Turn s (record s { alex = called; alex_cv = s.alex_cv - 1 })
  goes_on : {s : Show} → s.alex ≡ called → Turn s (next s)
  ends :
      {s : Show} → s.alex ≡ finishing → Turn s (record s { alex = done; cont_cv = s.cont_cv + 1 })

pub data Turns : Show → Show → Type 0 where
  finished : {s : Show} → Turns s s
  more : {s s' s'' : Show} → Turn s s' → Turns s' s'' → Turns s s''

abbrev pub newcomer : Contestant
newcomer = record { score = pos 0; can_buzz_in = false; phase = starting }

-- `jeop_init` has started the threads; `kzalloc` has given the nodes.
abbrev pub jeop_init : Show
jeop_init = record {
  contestants = newcomer ∷ newcomer ∷ newcomer ∷ [];
  ready = 0;
  num = 0;
  failed_tries = 0;
  alex = gathering;
  cont_cv = 0;
  alex_cv = 0;
}
