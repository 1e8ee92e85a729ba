-- ===== src/Mastermind2/Control/Commands.antt =====
-- What `mm_ctl_write` of proj2/mastermind2.c does on each command.
use cmsc421_os.Prelude.{
  ℕ, ◌≤◌, ◌<◌, ◌≡◌, ◌≢◌, refl, inl, inr, true, false, Option, none, some, [], ◌∷◌, ◌++◌, arith,
  length, get_elem?, set, Bool-cases, Option-cases,
}
use cmsc421_os.Prelude.Int.{pos, ◌-ℤ◌}
use cmsc421_os.CString.{codes, schar, c_str, memset_zero, mem_eq}
use cmsc421_os.CString.Laws.{c_str-memset_zero, c_str-scnprintf, length-memset_zero}
use cmsc421_os.Mastermind2.Score.Marks.{AllBelow}
use cmsc421_os.Mastermind2.State.{Errno, count, error, Game, Driver, next_int}
use cmsc421_os.Mastermind2.Control.{
  Rodata, Call, restart, new_code, start_game, set_colors, command, mm_ctl_write_body,
}

command-error :
    (r : Rodata) (c : Call) (k : ℕ) (g : Game) (d : Driver) {e : Errno}
    → (command r c k g d).0 ≡ error e
    → (command r c k g d).1 ≡ d
unfolding command start_game set_colors
command-error r c k g d h = ground arith

-- An answer with an error code comes with the state as it was.
pub mm_ctl_write-error :
    (r : Rodata) (c : Call) (curr_player : Option ℕ) (d : Driver) {e : Errno}
    → (mm_ctl_write_body r c curr_player d).0 ≡ error e
    → (mm_ctl_write_body r c curr_player d).1 ≡ d
unfolding mm_ctl_write_body
mm_ctl_write-error r c none d h = refl
mm_ctl_write-error r c (some k) d h = elim (Option-cases (get_elem? d.games_list k)) [
  | inl dangling ↦ rw (dangling, mm_ctl_write_body) refl
  | inr (g, at) ↦ ground (arith, command-error r c k g d)
]

command-colors :
    (r : Rodata) (c : Call) (k : ℕ) (g : Game) (d : Driver)
    → c.capable ≡ false
    → (command r c k g d).1.num_colors ≡ d.num_colors
unfolding command start_game set_colors
command-colors r c k g d h = ground arith

-- Only a privileged caller changes the number of colours.
pub mm_ctl_write-capable :
    (r : Rodata) (c : Call) (curr_player : Option ℕ) (d : Driver)
    → (mm_ctl_write_body r c curr_player d).1.num_colors ≢ d.num_colors
    → c.capable ≡ true
unfolding mm_ctl_write_body
mm_ctl_write-capable r c none d changed = absurd (changed refl)
mm_ctl_write-capable r c (some k) d changed = elim (Bool-cases c.capable) [
  | inl able ↦ able
  | inr unable ↦ elim (Option-cases (get_elem? d.games_list k)) [
    | inl dangling ↦ absurd (changed (rw (dangling, mm_ctl_write_body) refl))
    | inr (g, at) ↦ absurd (changed (ground (arith, command-colors r c k g d unable)))
  ]
]

-- A privileged write of seven bytes, "colors" and a seventh byte from 50 to 127, is accepted and sets the
-- number of colours by the eighth byte of the array, which was not written.
pub mm_ctl_write-stray_byte :
    (r : Rodata) (k : ℕ) (g : Game) (d : Driver) (seventh stray : ℕ) (digit : ℕ → ℕ)
    → get_elem? d.games_list k ≡ some g
    → 50 ≤ seventh
    → seventh < 128
    → mm_ctl_write_body r
        (record {
          size = 7;
          missing = 0;
          user_input = codes "colors" ++ seventh ∷ stray ∷ [];
          capable = true;
          digit = digit;
        })
        (some k)
        d
      ≡ (count 7, record d { num_colors = schar stray -ℤ pos 48 })
unfolding mm_ctl_write_body command set_colors mem_eq
mm_ctl_write-stray_byte r k g d seventh stray digit at low high =
    rw (at, mm_ctl_write_body) (ground arith)

-- A write of nothing starts a game.
pub mm_ctl_write-empty :
    (r : Rodata) (c : Call) (k : ℕ) (g : Game) (d : Driver)
    → get_elem? d.games_list k ≡ some g
    → c.missing ≡ 0
    → c.size ≡ 0
    → mm_ctl_write_body r c (some k) d ≡ start_game c k g d
unfolding mm_ctl_write_body command mem_eq
mm_ctl_write-empty r c k g d at copied size = ground (arith)

new_code-below :
    (digit : ℕ → ℕ) (n : ℕ) (d : Driver)
    → d.num_colors ≡ pos n
    → 3 ≤ n
    → AllBelow n (new_code digit d)
unfolding new_code
new_code-below digit n d colors few = ground arith

-- What a start leaves: an active game without guesses, whose status is the greeting and whose log is empty,
-- and a code of digits below the number of colours.
pub record Started (k n : ℕ) (g : Game) (d d' : Driver) : Type 0 where
  pub game :
      (g' : Game) × (d'.games_list ≡ set d.games_list k g')
      × (g'.game_active ≡ true)
      × (g'.num_guesses ≡ 0)
      × (g'.player_id ≡ g.player_id)
      × (c_str g'.game_status ≡ codes "Starting game\n")
      × (c_str g'.user_view ≡ [])
  pub code : AllBelow n d'.target_code
  pub started : d'.num_game_started ≡ next_int d.num_game_started
  pub colors : d'.num_colors ≡ d.num_colors

-- With three colours or more and a status of 80 bytes, a start returns its size and leaves a fresh game and
-- a code in range.
pub start_game-Started :
    (c : Call) (k n : ℕ) (g : Game) (d : Driver)
    → length g.game_status ≡ 80
    → d.num_colors ≡ pos n
    → 3 ≤ n
    → ((start_game c k g d).0 ≡ count c.size) × Started k n g d (start_game c k g d).1
unfolding start_game restart
start_game-Started c k n g d size colors few =
    let result : start_game c k g d ≡ (
      count c.size,
      record d {
        num_game_started = next_int d.num_game_started;
        target_code = new_code c.digit d;
        games_list = set d.games_list k (restart g);
      },
    ) =
      ground arith in
    rw (result) (
      refl,
      record {
        game = (
          restart g,
          refl,
          refl,
          refl,
          refl,
          greeting,
          c_str-memset_zero g.user_view 80 (omega arith),
        );
        code = new_code-below c.digit n d colors few;
        started = refl;
        colors = refl;
      },
    )
  where
    greeting : c_str (restart g).game_status ≡ codes "Starting game\n"
    greeting =
        c_str-scnprintf (memset_zero g.game_status 80) (codes "Starting game\n") 15 (omega arith)
          (omega arith) (omega (arith, length-memset_zero g.game_status 80, size))
