-- ===== src/Mastermind2/System.antt =====
-- proj2/mastermind2.c under concurrency. Every access to the state stands between the taking and the
-- release of the one spin lock, so a run of the driver is a sequence of such critical sections, of any
-- callers in any order. A callback is two of them: `find_game`, and a body that works on the pointer
-- that `find_game` returned. Callbacks that only read the state are not in the sequence, and neither is
-- `mastermind_remove`, which takes no lock and frees the nodes.
use mathlib.Core.Option.{some-injective}
use cmsc421_os.Prelude.{
  ℕ, ◌≤◌, ◌≡◌, ◌≢◌, refl, sym, ◌∙◌, ap, inl, inr, Option, none, some, List, [], ◌∷◌, arith, Bool,
  true, false, if◌then◌else◌, length, get_elem?, set, get_elem?-set_self, get_elem?-set_ne,
  lt_of_get_elem?, All, Option-cases, Bool-cases, ◌==◌, ◌⊎◌, ℕ_discrete,
}
use cmsc421_os.Prelude.Int.{ℤ, pos, ◌≤ℤ◌}
use cmsc421_os.Mastermind2.State.{
  Reply, count, error, fault, Game, Driver, Memory, find_game, on_game,
}
use cmsc421_os.Mastermind2.State.Find.{find_game_lem, find_game_keeps}
use cmsc421_os.Mastermind2.Game.{play, write_game, mm_write_body}
use cmsc421_os.Mastermind2.Control.{Rodata, Call, restart, stop_game, command, mm_ctl_write_body}
use cmsc421_os.Mastermind2.Network.{cs421net_bottom_body}
use cmsc421_os.Mastermind2.Valid.{IsValid, find_game-IsValid, mm_write_body-IsValid}
use cmsc421_os.Mastermind2.Valid.Control.{FullColors, mm_ctl_write_body-IsValid}
use cmsc421_os.Mastermind2.Valid.Network.{cs421net_bottom_body-IsValid}

-- The critical sections that may change the state.
pub data Section : Type 0 where
  find : (player : ℕ) → Memory → Section
  write : (curr_player : Option ℕ) (highest : ℤ) (user_guess : List ℕ) (size : ℕ) → Section
  control : Rodata → Call → (curr_player : Option ℕ) → Section
  network : (highest : ℤ) (packet : List ℕ) → Section

unfoldable pub step : Section → Driver → Driver
step (find player m) d = (find_game player m d).1
step (write curr highest guess size) d = (mm_write_body curr highest guess size d).1
step (control r c curr) d = (mm_ctl_write_body r c curr d).1
step (network highest packet) d = cs421net_bottom_body highest packet d

-- What is left of a state behind a section only counts if the section did not run into undefined
-- behaviour: a line of the log written behind its page, or a dangling pointer.
unfoldable pub reply : Section → Driver → Reply
reply (find player m) d = count 0
reply (write curr highest guess size) d = (mm_write_body curr highest guess size d).0
reply (control r c curr) d = (mm_ctl_write_body r c curr d).0
reply (network highest packet) d = count 0

abbrev pub is_fault : Reply → Bool
is_fault (count n) = false
is_fault (error e) = false
is_fault fault = true

-- The sections in their order; nothing is known of the state once one of them has a fault.
unfoldable pub completes : List Section → Driver → Option Driver
completes [] d = some d
completes (s ∷ ss) d = if is_fault (reply s d) then none else completes ss (step s d)

-- The state after each section, which is that of the program as long as none has a fault.
unfoldable pub run : List Section → Driver → Driver
run [] d = d
run (s ∷ ss) d = run ss (step s d)

pub completes-run :
    (ss : List Section) (d : Driver) {d' : Driver} → completes ss d ≡ some d' → run ss d ≡ d'
unfolding completes run
completes-run [] d e = some-injective d _ e
completes-run (s ∷ ss) d e = elim (Bool-cases (is_fault (reply s d))) [
  | inl bad ↦ absurd (cc (rw bad at e))
  | inr good ↦ completes-run ss (step s d) (rw good at e)
]

-- What a section may rely on: `vmalloc` gives whole pages, a privileged colors command is whole, and the
-- highest digit that the interrupt handler has read is an ASCII character.
abbrev pub Sane : (page_size : ℕ) → Section → Type 0
Sane page_size (find player m) = (page : List ℕ) → m.page ≡ some page → length page ≡ page_size
Sane page_size (write curr highest guess size) = Unit
Sane page_size (control r c curr) = FullColors c
Sane page_size (network highest packet) = highest ≤ℤ pos 126

pub step-IsValid :
    {page_size : ℕ} (s : Section) {d : Driver}
    → 80 ≤ page_size
    → Sane page_size s
    → IsValid page_size d
    → IsValid page_size (step s d)
unfolding step
step-IsValid {page_size} (find player m) big sane v =
    find_game-IsValid page_size player m big sane v
step-IsValid {page_size} (write curr highest guess size) big sane v =
    mm_write_body-IsValid page_size curr highest guess size v
step-IsValid (control r c curr) big sane v = mm_ctl_write_body-IsValid r c curr sane v
step-IsValid (network highest packet) big sane v =
    cs421net_bottom_body-IsValid highest packet sane v

keeps-IsValid :
    {page_size : ℕ} (ss : List Section) {d : Driver}
    → 80 ≤ page_size
    → All (Sane page_size) ss
    → IsValid page_size d
    → IsValid page_size (run ss d)
unfolding run
keeps-IsValid [] big sane v = v
keeps-IsValid (s ∷ ss) big sane v = keeps-IsValid ss big sane.1 (step-IsValid s big sane.0 v)

-- Every sequence of critical sections that completes, none of them writing behind its page or through a
-- dangling pointer, keeps the state in order, if pages have at least 80 bytes, `vmalloc` gives whole pages,
-- privileged colors commands are whole, and the highest digits that the interrupt handler reads are ASCII.
pub run-IsValid :
    {page_size : ℕ} (ss : List Section) {d d' : Driver}
    → 80 ≤ page_size
    → All (Sane page_size) ss
    → IsValid page_size d
    → completes ss d ≡ some d'
    → IsValid page_size d'
run-IsValid ss {d} big sane v e = rw (← completes-run ss d e) (keeps-IsValid ss big sane v)

-- What a callback's body does to the list of games: nothing, or it replaces the node that it was given
-- by one of the same user.
data Touch (curr_player : Option ℕ) (gs gs' : List Game) : Type 0 where
  same : gs' ≡ gs → Touch curr_player gs gs'
  put :
      (j : ℕ) {g : Game} (g' : Game)
      → curr_player ≡ some j
      → get_elem? gs j ≡ some g
      → g'.player_id ≡ g.player_id
      → gs' ≡ set gs j g'
      → Touch curr_player gs gs'

write_game_id :
    (code : List ℕ) (highest : ℤ) (guess : List ℕ) (size : ℕ) (g : Game)
    → (write_game code highest guess size g).1.player_id ≡ g.player_id
unfolding write_game play
write_game_id code highest guess size g = ground arith

write-Touch :
    (curr_player : Option ℕ) (highest : ℤ) (guess : List ℕ) (size : ℕ) (d : Driver)
    → Touch curr_player d.games_list (mm_write_body curr_player highest guess size d).1.games_list
unfolding mm_write_body on_game
write-Touch none highest guess size d = same refl
write-Touch (some k) highest guess size d = elim (Option-cases (get_elem? d.games_list k)) [
  | inl dangling ↦ same (ground arith)
  | inr (g, at) ↦
      put k (write_game d.target_code highest guess size g).1 refl at
        (write_game_id d.target_code highest guess size g) (rw (at, on_game))
]

restart_id : (g : Game) → (restart g).player_id ≡ g.player_id
unfolding restart
restart_id g = refl

stop_game_id : (code : List ℕ) (g : Game) → (stop_game code g).player_id ≡ g.player_id
unfolding stop_game
stop_game_id code g = ground arith

pub command_games :
    (r : Rodata) (c : Call) (k : ℕ) (g : Game) (d : Driver)
    → ((command r c k g d).1.games_list ≡ d.games_list)
      ⊎ (((command r c k g d).1.games_list ≡ set d.games_list k (restart g))
          ⊎ ((command r c k g d).1.games_list ≡ set d.games_list k (stop_game d.target_code g)))
unfolding command
command_games r c k g d = ground arith

command-Touch :
    (r : Rodata) (c : Call) (k : ℕ) {g : Game} (d : Driver)
    → get_elem? d.games_list k ≡ some g
    → Touch (some k) d.games_list (command r c k g d).1.games_list
command-Touch r c k {g} d at = elim (command_games r c k g d) [
  | inl e ↦ same e
  | inr (inl e) ↦ put k (restart g) refl at (restart_id g) e
  | inr (inr e) ↦ put k (stop_game d.target_code g) refl at (stop_game_id d.target_code g) e
]

control-Touch :
    (r : Rodata) (c : Call) (curr_player : Option ℕ) (d : Driver)
    → Touch curr_player d.games_list (mm_ctl_write_body r c curr_player d).1.games_list
unfolding mm_ctl_write_body
control-Touch r c none d = same refl
control-Touch r c (some k) d = elim (Option-cases (get_elem? d.games_list k)) [
  | inl dangling ↦ same (ground arith)
  | inr (g, at) ↦ elim (Bool-cases (c.missing == 0)) [
    | inl copied ↦ rw (at, copied, mm_ctl_write_body) (command-Touch r c k d at)
    | inr short ↦ same (ground arith)
  ]
]

-- The node at an index belongs to a user.
abbrev pub Owns : ℕ → ℕ → List Game → Type 0
Owns player k gs = (g : Game) × (get_elem? gs k ≡ some g) × (g.player_id ≡ player)

Touch-Owns :
    {player : ℕ} (k : ℕ) {curr_player : Option ℕ} {gs gs' : List Game}
    → Touch curr_player gs gs'
    → Owns player k gs
    → Owns player k gs'
Touch-Owns k (same e) o = rw e o
Touch-Owns k {gs = gs} (put j {g} g' mine at id e) (h, here, owner) = elim (ℕ_discrete j k) [
  | yes eq ↦ (
    g',
    rw (e, eq) (get_elem?-set_self gs k g' (lt_of_get_elem? gs k here)),
    id ∙ ap Game.player_id (some-injective g h (sym at ∙ (rw eq here))) ∙ owner,
  )
  | no ne ↦ (h, rw e (get_elem?-set_ne gs g' ne ∙ here), owner)
]

Touch-Elsewhere :
    (k : ℕ) {curr_player : Option ℕ} {gs gs' : List Game} {h : Game}
    → Touch curr_player gs gs'
    → curr_player ≢ some k
    → get_elem? gs k ≡ some h
    → get_elem? gs' k ≡ some h
Touch-Elsewhere k (same e) other here = rw e here
Touch-Elsewhere k {gs = gs} (put j g' mine at id e) other here =
    rw e (get_elem?-set_ne gs g' (λ eq. other (mine ∙ ap some eq)) ∙ here)

-- The nodes that the sections of a run work on.
abbrev pub Elsewhere : ℕ → Section → Type 0
Elsewhere k (find player m) = Unit
Elsewhere k (write curr highest guess size) = curr ≢ some k
Elsewhere k (control r c curr) = curr ≢ some k
Elsewhere k (network highest packet) = Unit

pub step-Owns :
    {player : ℕ} (k : ℕ) (s : Section) (d : Driver)
    → Owns player k d.games_list
    → Owns player k (step s d).games_list
unfolding step cs421net_bottom_body
step-Owns k (find player m) d (g, at, owner) = (g, find_game_keeps player m d k at, owner)
step-Owns k (write curr highest guess size) d o =
    Touch-Owns k (write-Touch curr highest guess size d) o
step-Owns k (control r c curr) d o = Touch-Owns k (control-Touch r c curr d) o
step-Owns k (network highest packet) d o = ground (arith, o)

run-Owns :
    {player : ℕ} (k : ℕ) (ss : List Section) (d : Driver)
    → Owns player k d.games_list
    → Owns player k (run ss d).games_list
unfolding run
run-Owns k [] d o = o
run-Owns k (s ∷ ss) d o = run-Owns k ss (step s d) (step-Owns k s d o)

-- Between `find_game` and the body of a callback the lock is free. While the driver is not removed, and
-- whatever calls of `find_game`, bodies of `mm_write` and `mm_ctl_write` and interrupts complete there, the
-- pointer that `find_game` returned still is a node of the user who asked for it.
pub run-find_game :
    (player : ℕ) (m : Memory) (ss : List Section) (d : Driver) {k : ℕ} {d' d'' : Driver}
    → find_game player m d ≡ (some k, d')
    → completes ss d' ≡ some d''
    → Owns player k d''.games_list
run-find_game player m ss d {k} {d'} e done =
    rw (← completes-run ss d' done) (run-Owns k ss d' (find_game_lem player m d e))

step-Elsewhere :
    (k : ℕ) (s : Section) (d : Driver) {h : Game}
    → Elsewhere k s
    → get_elem? d.games_list k ≡ some h
    → get_elem? (step s d).games_list k ≡ some h
unfolding step cs421net_bottom_body
step-Elsewhere k (find player m) d other at = find_game_keeps player m d k at
step-Elsewhere k (write curr highest guess size) d other at =
    Touch-Elsewhere k (write-Touch curr highest guess size d) other at
step-Elsewhere k (control r c curr) d other at =
    Touch-Elsewhere k (control-Touch r c curr d) other at
step-Elsewhere k (network highest packet) d other at = ground arith

keeps-Elsewhere :
    (k : ℕ) (ss : List Section) (d : Driver) {h : Game}
    → All (Elsewhere k) ss
    → get_elem? d.games_list k ≡ some h
    → get_elem? (run ss d).games_list k ≡ some h
unfolding run
keeps-Elsewhere k [] d other at = at
keeps-Elsewhere k (s ∷ ss) d other at =
    keeps-Elsewhere k ss (step s d) other.1 (step-Elsewhere k s d other.0 at)

-- A node of `games_list` is as it was after any sequence of critical sections that completes and in which
-- no callback's body works on that node, whatever it does to the other nodes, the code and the colors.
pub run-Elsewhere :
    (k : ℕ) (ss : List Section) (d : Driver) {d' : Driver} {h : Game}
    → All (Elsewhere k) ss
    → get_elem? d.games_list k ≡ some h
    → completes ss d ≡ some d'
    → get_elem? d'.games_list k ≡ some h
run-Elsewhere k ss d other here done =
    rw (← completes-run ss d done) (keeps-Elsewhere k ss d other here)
