-- ===== src/Mastermind2/Control.antt =====
-- `mm_ctl_write` of proj2/mastermind2.c: the commands start, quit and colors.
pub mod Commands
use cmsc421_os.Prelude.{
  ℕ, ◌-◌, ◌%◌, Bool, true, false, not, ◌&&◌, Option, none, some, List, [], ◌∷◌, ◌++◌, ltb, ◌==◌,
  if◌then◌else◌, get_elem?, get_or, set,
}
use cmsc421_os.Prelude.Int.{pos, ltb_ℤ, ◌-ℤ◌}
use cmsc421_os.CString.{codes, concat, schar, memset_zero, scnprintf, mem_eq}
use cmsc421_os.CString.Decimal.{percent_d, bits_of}
use cmsc421_os.Mastermind2.State.{
  einval, eacces, Reply, count, error, fault, Game, Driver, next_int, Memory, find_game,
}

-- The bytes behind the literals "start" and "quit" in memory: `memcmp` of up to eight bytes reads on.
pub record Rodata : Type 0 where
  pub start6 : ℕ
  pub start7 : ℕ
  pub quit5 : ℕ
  pub quit6 : ℕ
  pub quit7 : ℕ

-- One call: `missing` is what `copy_from_user` returns, `user_input` the array of eight bytes after it.
-- The array is not initialised, so behind the bytes copied it holds anything. `digit` gives the random
-- numbers in turn, below 2^32, and `capable` is `capable(CAP_SYS_ADMIN)`.
pub record Call : Type 0 where
  pub size : ℕ
  pub missing : ℕ
  pub user_input : List ℕ
  pub capable : Bool
  pub digit : ℕ → ℕ

abbrev pub bytes_copied : Call → ℕ
bytes_copied c = if ltb c.size 8 then c.size else 8

abbrev pub start_bytes : Rodata → List ℕ
start_bytes r = codes "start" ++ 0 ∷ r.start6 ∷ r.start7 ∷ []

abbrev pub quit_bytes : Rodata → List ℕ
quit_bytes r = codes "quit" ++ 0 ∷ r.quit5 ∷ r.quit6 ∷ r.quit7 ∷ []

abbrev pub colors_bytes : List ℕ
colors_bytes = codes "colors " ++ 0 ∷ []

unfoldable pub restart : Game → Game
restart g = record g {
  game_active = true;
  num_guesses = 0;
  game_status = scnprintf (memset_zero g.game_status 80) 15 (codes "Starting game\n");
  user_view = memset_zero g.user_view 80;
}

-- `digit % NUM_COLORS` is an unsigned remainder.
unfoldable pub new_code : (digit : ℕ → ℕ) → Driver → List ℕ
new_code digit d =
    if d.random_code
    then (digit 0 % bits_of d.num_colors)
      ∷ (digit 1 % bits_of d.num_colors)
      ∷ (digit 2 % bits_of d.num_colors)
      ∷ (digit 3 % bits_of d.num_colors)
      ∷ []
    else 0 ∷ 0 ∷ 1 ∷ 2 ∷ []

unfoldable pub start_game : Call → ℕ → Game → Driver → Reply × Driver
unfolding restart new_code
start_game c k g d = if d.random_code && bits_of d.num_colors == 0 then (fault, d) else (
  count c.size,
  record d {
    num_game_started = next_int d.num_game_started;
    target_code = new_code c.digit d;
    games_list = set d.games_list k (restart g);
  },
)

unfoldable pub quit_text : List ℕ → List ℕ
quit_text code = concat (
    codes "Game over. The code was "
    ∷ percent_d (get_or code 0 0)
    ∷ percent_d (get_or code 1 0)
    ∷ percent_d (get_or code 2 0)
    ∷ percent_d (get_or code 3 0)
    ∷ codes ".\n"
    ∷ [])

unfoldable pub stop_game : List ℕ → Game → Game
stop_game code g =
    if g.game_active
    then record g { game_active = false; game_status = scnprintf g.game_status 31 (quit_text code) }
    else g

unfoldable pub set_colors : Call → Driver → Reply × Driver
set_colors c d =
    if c.capable
      && (c.size == bytes_copied c
          && not (ltb_ℤ (schar (get_or c.user_input (bytes_copied c - 1) 0)) (pos 50)))
    then (count c.size, record d { num_colors = schar (get_or c.user_input 7 0) -ℤ pos 48 })
    else if not c.capable
    then (error eacces, d)
    else (error einval, d)

unfoldable pub command : Rodata → Call → ℕ → Game → Driver → Reply × Driver
unfolding start_game stop_game set_colors
command r c k g d =
    if mem_eq (bytes_copied c) c.user_input (start_bytes r)
    then start_game c k g d
    else if mem_eq (bytes_copied c) c.user_input (quit_bytes r)
    then (count c.size, record d { games_list = set d.games_list k (stop_game d.target_code g) })
    else if mem_eq (bytes_copied c - 1) c.user_input colors_bytes
    then set_colors c d
    else (error einval, d)

unfoldable pub mm_ctl_write_body : Rodata → Call → Option ℕ → Driver → Reply × Driver
unfolding command
mm_ctl_write_body r c none d = (error einval, d)
mm_ctl_write_body r c (some k) d = elim (get_elem? d.games_list k) [
  | none ↦ (fault, d)
  | some g ↦ if not (c.missing == 0) then (error einval, d) else command r c k g d
]

unfoldable pub mm_ctl_write : Rodata → (player : ℕ) → Memory → Call → Driver → Reply × Driver
mm_ctl_write r player m c d =
    let (curr_player, d') = find_game player m d in mm_ctl_write_body r c curr_player d'
