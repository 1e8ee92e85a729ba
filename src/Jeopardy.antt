-- ===== src/Jeopardy.antt =====
-- midterm/midterm.c: Alex asks four questions, and three contestants wait for them and may buzz in. A
-- thread keeps the lock, also while it sleeps, until it waits for a condition, so that each turn between
-- two waits is one step.
pub mod Rules
pub mod Invariant
pub mod Asking
pub mod Progress
pub mod Ending
mod Tests
use cmsc421_os.Prelude.{
  ℕ, zero, suc, ◌+◌, ◌*◌, ◌≤◌, ◌<◌, ◌≡◌, Bool, true, false, not, List, [], ◌∷◌, map, Option, some,
  ltb, leb, ◌==◌, if◌then◌else◌, get_elem?, set,
}
use cmsc421_os.Prelude.Int.{ℤ, pos, ◌+ℤ◌, ◌-ℤ◌}

abbrev pub num_questions : ℕ
num_questions = 4

abbrev pub num_contestants : ℕ
num_contestants = 3

-- Where `play` stands: before the lock, in `pthread_cond_wait`, woken there, returned.
pub data Phase : Type 0 where
  starting waiting woken returned : Phase

-- `struct contestant`, with its thread.
pub record Contestant : Type 0 where
  pub score : ℤ
  pub can_buzz_in : Bool
  pub phase : Phase

-- Where `main` stands: in the loop on `ready`, in `pthread_cond_wait`, woken there, behind the last
-- broadcast.
pub data Alex : Type 0 where
  gathering listening called done : Alex

pub record Show : Type 0 where
  pub contestants : List Contestant
  pub ready : ℕ
  pub num : ℕ
  pub failed_tries : ℕ
  pub alex : Alex

abbrev pub set_buzzer : Bool → Contestant → Contestant
set_buzzer v c = record c { can_buzz_in = v }

abbrev pub wake : Phase → Phase
wake starting = starting
wake waiting = woken
wake woken = woken
wake returned = returned

abbrev pub wake_one : Contestant → Contestant
wake_one c = record c { phase = wake c.phase }

-- `pthread_cond_signal(&alex_cv)`: nothing happens if Alex does not wait.
abbrev pub signal : Alex → Alex
signal gathering = gathering
signal listening = called
signal called = called
signal done = done

abbrev pub money : ℕ → ℤ
money num = pos (200 * (num + 1))

-- `play` before its first wait.
unfoldable pub get_ready : ℕ → Contestant → Show → Show
get_ready i c s = record s {
  contestants = set s.contestants i (record c { phase = waiting });
  ready = s.ready + 1;
}

abbrev pub right : Show → Contestant → Contestant
right s c = record { score = c.score +ℤ money s.num; can_buzz_in = false; phase = waiting }

abbrev pub wrong : Show → Contestant → Contestant
wrong s c = record { score = c.score -ℤ money s.num; can_buzz_in = false; phase = waiting }

-- `play` from one wait to the next; `ans` is the random answer.
unfoldable pub play : (ans i : ℕ) → Contestant → Show → Show
play ans i c s =
    if leb num_questions s.num
    then record s { contestants = set s.contestants i (record c { phase = returned }) }
    else if not c.can_buzz_in
    then record s { contestants = set s.contestants i (record c { phase = waiting }) }
    else if ans == s.num
    then record s {
      contestants = map (set_buzzer false) (set s.contestants i (right s c));
      alex = signal s.alex;
    }
    else record s {
      contestants = set s.contestants i (wrong s c);
      failed_tries = s.failed_tries + 1;
      alex = if leb num_contestants (s.failed_tries + 1) then signal s.alex else s.alex;
    }

-- `main` from the test of its loop to the next wait, or to the end.
unfoldable pub ask : Show → Show
ask s =
    if ltb s.num num_questions
    then record s {
      contestants = map wake_one (map (set_buzzer true) s.contestants);
      failed_tries = 0;
      alex = listening;
    }
    else record s { contestants = map wake_one s.contestants; alex = done }

-- `main` behind its wait.
unfoldable pub next : Show → Show
next s = ask (record s { contestants = map (set_buzzer false) s.contestants; num = s.num + 1 })

-- A turn of one thread.
pub data Turn : Show → Show → Type 0 where
  comes :
      {s : Show} {c : Contestant} (i : ℕ)
      → get_elem? s.contestants i ≡ some c
      → c.phase ≡ starting
      → Turn s (get_ready i c s)
  plays :
      {s : Show} {c : Contestant} (ans i : ℕ)
      → ans < num_questions
      → get_elem? s.contestants i ≡ some c
      → c.phase ≡ woken
      → Turn s (play ans i c s)
  begins : {s : Show} → s.alex ≡ gathering → num_contestants ≤ s.ready → Turn s (ask s)
  goes_on : {s : Show} → s.alex ≡ called → Turn s (next s)

-- A wait may also end with no signal.
pub data Step : Show → Show → Type 0 where
  turn : {s s' : Show} → Turn s s' → Step s s'
  stirs :
      {s : Show} {c : Contestant} (i : ℕ)
      → get_elem? s.contestants i ≡ some c
      → c.phase ≡ waiting
      → Step s (record s { contestants = set s.contestants i (record c { phase = woken }) })
  alex_stirs : {s : Show} → s.alex ≡ listening → Step s (record s { alex = called })

pub data Steps : Show → Show → Type 0 where
  finished : {s : Show} → Steps s s
  more : {s s' s'' : Show} → Step s s' → Steps s' s'' → Steps s s''

-- Turns alone: every wait ends with its signal.
pub data Turns : Show → Show → Type 0 where
  rests : {s : Show} → Turns s s
  moves : {s s' s'' : Show} → Turn s s' → Turns s' s'' → Turns s s''

abbrev pub newcomer : Contestant
newcomer = record { score = pos 0; can_buzz_in = false; phase = starting }

abbrev pub begin : Show
begin = record {
  contestants = newcomer ∷ newcomer ∷ newcomer ∷ [];
  ready = 0;
  num = 0;
  failed_tries = 0;
  alex = gathering;
}
