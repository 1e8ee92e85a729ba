-- ===== src/Jeopardy/Progress.antt =====
-- Whether some thread of midterm/midterm.c can take a turn.
use cmsc421_os.Prelude.{
  ℕ, ◌<◌, ◌≡◌, ◌⊎◌, inl, inr, refl, arith, Bool, true, List, [], ◌∷◌, All, All-get_elem?, dec_lt,
}
use cmsc421_os.Prelude.Count.{count_if, count_if_pos}
use cmsc421_os.Jeopardy.{
  Phase, starting, waiting, woken, returned, Contestant, Alex, gathering, listening, called, done,
  Show, get_ready, play, ask, next, Turn, comes, plays, begins, goes_on, Steps, begin,
}
use cmsc421_os.Jeopardy.Rules.{Fits, is_starting, is_woken, is_returned}
use cmsc421_os.Jeopardy.Invariant.{starts, buzzes, Sound}
use cmsc421_os.Jeopardy.Asking.{reached-Sound}

is_starting→≡ : (p : Phase) → is_starting p ≡ true → p ≡ starting
is_starting→≡ starting e = refl
is_starting→≡ waiting e = cc
is_starting→≡ woken e = cc
is_starting→≡ returned e = cc

is_woken→≡ : (p : Phase) → is_woken p ≡ true → p ≡ woken
is_woken→≡ starting e = cc
is_woken→≡ waiting e = cc
is_woken→≡ woken e = refl
is_woken→≡ returned e = cc

is_returned→≡ : (p : Phase) → is_returned p ≡ true → p ≡ returned
is_returned→≡ starting e = cc
is_returned→≡ waiting e = cc
is_returned→≡ woken e = cc
is_returned→≡ returned e = refl

abbrev pub woken_one : Contestant → Bool
woken_one c = is_woken c.phase

-- The show is over: Alex is behind the last question and every contestant has returned.
abbrev pub IsOver : Show → Type 0
IsOver s = (s.alex ≡ done) × All (λ c. c.phase ≡ returned) s.contestants

none_woken :
    (n : ℕ) (cs : List Contestant)
    → count_if woken_one cs ≡ 0
    → All (Fits done n) cs
    → All (λ c. c.phase ≡ returned) cs
unfolding count_if
none_woken n [] e fs = tt
none_woken n (c ∷ cs) e (f, fs) =
    (is_returned→≡ c.phase (f.1 (ground arith)), none_woken n cs (omega arith) fs)

abbrev pub Going : Show → Type 0
Going s = IsOver s ⊎ ((s' : Show) × Turn s s')

a_player : (s : Show) → 0 < count_if woken_one s.contestants → Going s
a_player s lt =
    let (i, c, at_i, up) = count_if_pos woken_one s.contestants lt in
    inr (play 0 i c s, plays 0 i (omega arith) at_i (is_woken→≡ c.phase up))

pub goes : (a : Alex) (s : Show) → s.alex ≡ a → Sound s → Going s
goes gathering s e h = elim (dec_lt 0 (count_if starts s.contestants)) [
  | yes some_left ↦
      let (i, c, at_i, new) = count_if_pos starts s.contestants some_left in
      inr (get_ready i c s, comes i at_i (is_starting→≡ c.phase new))
  | no none_left ↦ let tally = rw e at h.tally in inr (ask s, begins e (omega arith))
]
goes listening s e h =
    let tally = rw e at h.tally in
    let (i, c, at_i, can) = count_if_pos buzzes s.contestants (omega arith) in
    let f = All-get_elem? (Fits listening s.num) s.contestants i (rw e at h.fits) at_i in
    inr (play 0 i c s, plays 0 i (omega arith) at_i (is_woken→≡ c.phase (f.1 can)))
goes called s e h = inr (next s, goes_on e)
goes done s e h = elim (dec_lt 0 (count_if woken_one s.contestants)) [
  | yes some_left ↦ a_player s some_left
  | no none_left ↦ inl (e, none_woken s.num s.contestants (omega arith) (rw e at h.fits))
]

-- In every state that the program reaches, with any wake-ups without a signal, either the show is over,
-- or a thread can take a turn: no signal is lost that a thread waits for.
pub no_deadlock : {s : Show} → Steps begin s → IsOver s ⊎ ((s' : Show) × Turn s s')
no_deadlock {s} run = goes s.alex s refl (reached-Sound run)
