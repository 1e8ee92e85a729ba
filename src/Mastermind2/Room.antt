-- ===== src/Mastermind2/Room.antt =====
-- What a critical section of proj2/mastermind2.c needs to have no fault: room in the logs, and pointers that are
-- nodes.
pub mod Runs
use cmsc421_os.Prelude.{
  ℕ, zero, suc, ◌+◌, ◌*◌, ◌≤◌, ◌<◌, ◌≡◌, ◌≢◌, refl, ap, ◌⊎◌, inl, inr, Bool, true, false, Option,
  none, some, List, [], ◌∷◌, ◌++◌, arith, length, get_elem?, set, Bool-cases, Option-cases, All,
  All-set, All-append, All-get_elem?, length-append, if◌then◌else◌, ◌==◌,
}
use cmsc421_os.Prelude.Int.{ℤ}
use cmsc421_os.CString.{strlen, c_str, strcat, memset_zero}
use cmsc421_os.CString.Laws.{
  strlen-eq-length-c_str, strcat-some, strlen-memset_zero, length-memset_zero,
}
use cmsc421_os.Mastermind2.Score.{score}
use cmsc421_os.Mastermind2.State.{
  Reply, fault, Game, Driver, next_int, Memory, new_game, find_game, add_game, on_game,
}
use cmsc421_os.Mastermind2.Game.{check_digits, answer, play, write_game, mm_write_body}
use cmsc421_os.Mastermind2.Game.Write.{new_line, play-cases}
use cmsc421_os.Mastermind2.Game.Log.{length-new_line}
use cmsc421_os.Mastermind2.Control.{
  Rodata, Call, restart, stop_game, start_game, set_colors, command, mm_ctl_write_body,
}
use cmsc421_os.Mastermind2.Network.{cs421net_bottom_body}
use cmsc421_os.Mastermind2.Valid.{GameOk, IsValid, answer-AnswerOk}
use cmsc421_os.Mastermind2.System.{
  Section, find, write, control, network, step, reply, is_fault, completes, Sane, step-IsValid,
  step-Owns, command_games,
}

-- The log has room for so many lines.
abbrev pub Room : ℕ → Game → Type 0
Room n g = strlen g.user_view + 25 * n < length g.user_view

-- The pointer of a callback is a node of the list.
abbrev pub Pointing : Option ℕ → Driver → Type 0
Pointing none d = Unit
Pointing (some k) d = (g : Game) × (get_elem? d.games_list k ≡ some g)

abbrev pub HasNode : Section → Driver → Type 0
HasNode (find player m) d = Unit
HasNode (write curr highest guess size) d = Pointing curr d
HasNode (control r c curr) d = Pointing curr d
HasNode (network highest packet) d = Unit

step-Pointing :
    (curr : Option ℕ) (s : Section) (d : Driver) → Pointing curr d → Pointing curr (step s d)
step-Pointing none s d p = tt
step-Pointing (some k) s d (g, here) =
    let (g', there, owner) = step-Owns {player = g.player_id} k s d (g, here, refl) in (g', there)

step-HasNode : (t s : Section) (d : Driver) → HasNode t d → HasNode t (step s d)
step-HasNode (find player m) s d h = tt
step-HasNode (write curr highest guess size) s d h = step-Pointing curr s d h
step-HasNode (control r c curr) s d h = step-Pointing curr s d h
step-HasNode (network highest packet) s d h = tt

pub all-HasNode :
    (ts : List Section) (s : Section) (d : Driver)
    → All (λ t. HasNode t d) ts
    → All (λ t. HasNode t (step s d)) ts
all-HasNode [] s d h = tt
all-HasNode (t ∷ ts) s d (h, hs) = (step-HasNode t s d h, all-HasNode ts s d hs)

play-Room :
    {page_size : ℕ} (n : ℕ) (code guess : List ℕ) (size : ℕ) (g : Game)
    → GameOk page_size g
    → Room (suc n) g
    → Room n (play code guess size g).1
unfolding play
play-Room {page_size} n code guess size g ok room =
    elim (Option-cases (strcat g.user_view (new_line code guess g))) [
      | inl over ↦ rw (over, play) (omega (arith, room))
      | inr (view, fits) ↦
          let (b, w) = score code guess in
          let line = (answer-AnswerOk page_size g (next_int g.num_guesses) b w guess ok).log in
          let (text, size_kept, ends) = strcat-some (new_line code guess g) line g.user_view fits in
          rw (fits, play)
            (omega (
              arith,
              room,
              size_kept,
              strlen-eq-length-c_str view,
              strlen-eq-length-c_str g.user_view,
              ap (length {0}) text,
              length-append {0} (c_str g.user_view) (new_line code guess g),
              length-new_line code guess g,
            ))
    ]

pub write_game-Room :
    {page_size : ℕ} (n : ℕ) (code : List ℕ) (highest : ℤ) (guess : List ℕ) (size : ℕ) (g : Game)
    → GameOk page_size g
    → Room (suc n) g
    → Room n (write_game code highest guess size g).1
unfolding write_game
write_game-Room n code highest guess size g ok room =
    ground (arith, room, play-Room n code (check_digits highest guess).1 size g ok room)

pub write_game-fine :
    (n : ℕ) (code : List ℕ) (highest : ℤ) (guess : List ℕ) (size : ℕ) (g : Game)
    → Room (suc n) g
    → (write_game code highest guess size g).0 ≢ fault
unfolding write_game
write_game-fine n code highest guess size g room e = ground (
  arith,
  room,
  play-cases code (check_digits highest guess).1 size g,
  length-new_line code (check_digits highest guess).1 g,
)

pub command-fine :
    {page_size : ℕ} (r : Rodata) (c : Call) (k : ℕ) (g : Game) (d : Driver)
    → IsValid page_size d
    → (command r c k g d).0 ≢ fault
unfolding command start_game set_colors
command-fine r c k g d v e = ground (arith, v.few, v.many)

pub restart-Room : (n : ℕ) (g : Game) → Room (suc n) g → Room n (restart g)
unfolding restart
restart-Room n g room =
    omega (arith, room, strlen-memset_zero g.user_view 80, length-memset_zero g.user_view 80)

pub stop_game-Room : (n : ℕ) (code : List ℕ) (g : Game) → Room (suc n) g → Room n (stop_game code g)
unfolding stop_game
stop_game-Room n code g room = ground (arith, room)

pub one_less : (n : ℕ) (gs : List Game) → All (Room (suc n)) gs → All (Room n) gs
one_less n [] h = tt
one_less n (g ∷ gs) (room, h) = (omega (arith, room), one_less n gs h)
