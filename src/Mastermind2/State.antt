-- ===== src/Mastermind2/State.antt =====
-- The state of proj2/mastermind2.c and `find_game`. A pointer to a node of `games_list` is its index in
-- the list: nodes are only ever added, at the end, until the driver is removed.
pub mod Find
use mathlib.Core.Option
use cmsc421_os.Prelude.{
  ℕ, zero, suc, ◌+◌, ◌%◌, ◌^◌, Bool, true, false, Option, none, some, List, [], ◌∷◌, ◌++◌, ◌==◌,
  if◌then◌else◌, length, get_elem?, set, replicate,
}
use cmsc421_os.Prelude.Int.{ℤ, pos, ◌+ℤ◌, ◌-ℤ◌}
use cmsc421_os.CString.{codes, memset_zero, scnprintf}

pub data Errno : Type 0 where
  einval eio eagain eacces : Errno

-- What a callback does: it returns a number or a negative error code, or the kernel runs into
-- undefined behaviour (a buffer overrun, a division by zero, a dangling pointer).
pub data Reply : Type 0 where
  count : ℕ → Reply
  error : Errno → Reply
  fault : Reply

-- `struct mm_game`; `user_view` is the page behind the pointer.
pub record Game : Type 0 where
  pub game_active : Bool
  pub num_guesses : ℕ  -- unsigned
  pub game_status : List ℕ  -- char[80]
  pub user_view : List ℕ  -- PAGE_SIZE bytes
  pub player_id : ℕ

-- The static variables. The `int` counters and pegs are bit patterns below 2^32.
pub record Driver : Type 0 where
  pub num_colors : ℤ  -- NUM_COLORS
  pub num_game_started : ℕ
  pub times_target_code_changed : ℕ
  pub num_invalid_change_attempts : ℕ
  pub random_code : Bool
  pub target_code : List ℕ
  pub games_list : List Game
  pub leaked : ℕ  -- nodes allocated, lost and never freed: no variable of the program

-- The variables when the module is loaded.
abbrev pub loaded : Bool → Driver
loaded random = record {
  num_colors = pos 6;
  num_game_started = 0;
  times_target_code_changed = 0;
  num_invalid_change_attempts = 0;
  random_code = random;
  target_code = replicate 4 0;
  games_list = [];
  leaked = 0;
}

abbrev pub next_int : ℕ → ℕ
next_int n = (n + 1) % 2 ^ 32

-- What `kzalloc` and `vmalloc` give in one call of `find_game`; a page has any content.
pub record Memory : Type 0 where
  pub node : Bool
  pub page : Option (List ℕ)

unfoldable pub new_game : ℕ → List ℕ → Game
new_game player page = record {
  game_active = false;
  num_guesses = 0;
  game_status = scnprintf (memset_zero (replicate 80 0) 80) 13 (codes "No game yet\n");
  user_view = memset_zero page 80;
  player_id = player;
}

-- `list_for_each_entry` with `uid_eq`.
unfoldable pub find_index : ℕ → List Game → Option ℕ
find_index player [] = none
find_index player (g ∷ gs) =
    if player == g.player_id then some 0 else Option.map suc (find_index player gs)

unfoldable pub add_game : ℕ → Memory → Driver → Option ℕ × Driver
add_game player m d =
    if m.node
    then elim m.page [
      | some page ↦ (
        some (length d.games_list),
        record d { games_list = d.games_list ++ new_game player page ∷ [] },
      )
      | none ↦ (none, record d { leaked = d.leaked + 1 })
    ]
    else (none, d)

-- The pointer that is returned, NULL as `none`.
unfoldable pub find_game : ℕ → Memory → Driver → Option ℕ × Driver
unfolding add_game
find_game player m d = elim (find_index player d.games_list) [
  | some k ↦ (some k, d)
  | none ↦ add_game player m d
]

-- Run a callback's code on the node that `curr_player` points to.
unfoldable pub on_game : Option ℕ → (Game → Reply × Game) → Driver → Reply × Driver
on_game none act d = (error einval, d)
on_game (some k) act d = elim (get_elem? d.games_list k) [
  | none ↦ (fault, d)
  | some g ↦ ((act g).0, record d { games_list = set d.games_list k (act g).1 })
]

-- `zero_ascii + NUM_COLORS - 1`
abbrev pub highest_digit : Driver → ℤ
highest_digit d = pos 48 +ℤ d.num_colors -ℤ pos 1
