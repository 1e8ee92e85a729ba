-- ===== src/Mastermind2/Valid/Control.antt =====
-- `mm_ctl_write` of proj2/mastermind2.c keeps the state in order.
use cmsc421_os.Prelude.{
  ℕ, ◌-◌, ◌≤◌, ◌≡◌, refl, inl, inr, true, Option, none, some, List, arith, length, get_elem?, set,
  Bool-cases, Option-cases, All-set, All-get_elem?,
}
use cmsc421_os.Prelude.Int.{◌-ℤ◌}
use cmsc421_os.CString.{codes, memset_zero, mem_eq}
use cmsc421_os.CString.Laws.{
  length-memset_zero, length-scnprintf, strlen-scnprintf, strlen-memset_zero,
}
use cmsc421_os.Mastermind2.Score.Marks.{AllBelow}
use cmsc421_os.Mastermind2.State.{Game, Driver}
use cmsc421_os.Mastermind2.State.Find.{Distinct-set}
use cmsc421_os.Mastermind2.Control.{
  Rodata, Call, bytes_copied, start_bytes, quit_bytes, colors_bytes, restart, new_code, start_game,
  quit_text, stop_game, set_colors, command, mm_ctl_write_body,
}
use cmsc421_os.Mastermind2.Valid.{GameOk, IsValid}

-- A privileged colors command is written in full: eight bytes.
abbrev pub FullColors : Call → Type 0
FullColors c =
    c.capable ≡ true → mem_eq (bytes_copied c - 1) c.user_input colors_bytes ≡ true → 8 ≤ c.size

restart-GameOk : {page_size : ℕ} (g : Game) → GameOk page_size g → GameOk page_size (restart g)
unfolding restart
restart-GameOk g ok = record {
  status_size = omega (
    arith,
    ok.status_size,
    length-scnprintf (memset_zero g.game_status 80) (codes "Starting game\n") 15,
    length-memset_zero g.game_status 80,
  );
  status_ends = omega (
    arith,
    ok.status_size,
    strlen-scnprintf (memset_zero g.game_status 80) (codes "Starting game\n") 15,
    length-memset_zero g.game_status 80,
  );
  view_size = omega (arith, length-memset_zero g.user_view 80, ok.view_size);
  view_ends = omega (arith, strlen-memset_zero g.user_view 80, ok.view_ends);
  guesses = omega arith;
}

stop_game-GameOk :
    {page_size : ℕ} (code : List ℕ) (g : Game)
    → GameOk page_size g
    → GameOk page_size (stop_game code g) × ((stop_game code g).player_id ≡ g.player_id)
unfolding stop_game
stop_game-GameOk code g ok = ground (
  arith,
  ok,
  length-scnprintf g.game_status (quit_text code) 31,
  strlen-scnprintf g.game_status (quit_text code) 31,
)

new_code-small :
    (digit : ℕ → ℕ) {page_size : ℕ} (d : Driver)
    → IsValid page_size d
    → (length (new_code digit d) ≡ 4) × AllBelow 79 (new_code digit d)
unfolding new_code
new_code-small digit d v = ground (arith, v.few, v.many)

set_colors-range :
    {page_size : ℕ} (c : Call) {d : Driver}
    → (c.capable ≡ true → 8 ≤ c.size)
    → IsValid page_size d
    → IsValid page_size (set_colors c d).1
unfolding set_colors ◌-ℤ◌
set_colors-range c full v = ground (arith, v)

-- A node replaced by one in order that has the same user.
IsValid-set :
    {page_size : ℕ} {d : Driver} (k : ℕ) {g : Game} (g' : Game)
    → get_elem? d.games_list k ≡ some g
    → GameOk page_size g'
    → g'.player_id ≡ g.player_id
    → IsValid page_size d
    → IsValid page_size (record d { games_list = set d.games_list k g' })
IsValid-set {page_size} {d} k g' at ok same v = record {
  pegs = v.pegs;
  small = v.small;
  few = v.few;
  many = v.many;
  games = All-set (GameOk page_size) d.games_list k g' v.games ok;
  distinct = Distinct-set d.games_list k g' at same v.distinct;
}

start_game-IsValid :
    {page_size : ℕ} (c : Call) (k : ℕ) {g : Game} {d : Driver}
    → get_elem? d.games_list k ≡ some g
    → GameOk page_size g
    → IsValid page_size d
    → IsValid page_size (start_game c k g d).1
unfolding start_game restart
start_game-IsValid {page_size} c k {g} {d} at ok v = ground (
  arith,
  v,
  new_code-small c.digit d v,
  IsValid-set k (restart g) at (restart-GameOk g ok) refl v,
)

command-IsValid :
    {page_size : ℕ} (r : Rodata) (c : Call) (k : ℕ) {g : Game} {d : Driver}
    → FullColors c
    → get_elem? d.games_list k ≡ some g
    → GameOk page_size g
    → IsValid page_size d
    → IsValid page_size (command r c k g d).1
unfolding command
command-IsValid r c k {g} {d} full at ok v =
    elim (Bool-cases (mem_eq (bytes_copied c) c.user_input (start_bytes r))) [
      | inl start ↦ rw (start, command) (start_game-IsValid c k at ok v)
      | inr other ↦ elim (Bool-cases (mem_eq (bytes_copied c) c.user_input (quit_bytes r))) [
        | inl quit ↦
            rw (other, quit, command)
              (IsValid-set k (stop_game d.target_code g) at (stop_game-GameOk d.target_code g ok).0
                (stop_game-GameOk d.target_code g ok).1 v)
        | inr no_quit ↦ elim (Bool-cases (mem_eq (bytes_copied c - 1) c.user_input colors_bytes)) [
          | inl colors ↦
              rw (other, no_quit, colors, command) (set_colors-range c (λ p. full p colors) v)
          | inr no_colors ↦ rw (other, no_quit, no_colors, command) v
        ]
      ]
    ]

-- `mm_ctl_write` keeps the state in order, except that a privileged caller must write a whole
-- colors command.
pub mm_ctl_write_body-IsValid :
    {page_size : ℕ} (r : Rodata) (c : Call) (curr_player : Option ℕ) {d : Driver}
    → FullColors c
    → IsValid page_size d
    → IsValid page_size (mm_ctl_write_body r c curr_player d).1
unfolding mm_ctl_write_body
mm_ctl_write_body-IsValid r c none full v = v
mm_ctl_write_body-IsValid {page_size} r c (some k) {d} full v =
    elim (Option-cases (get_elem? d.games_list k)) [
      | inl dangling ↦ rw (dangling, mm_ctl_write_body) v
      | inr (g, at) ↦ ground (
        arith,
        v,
        command-IsValid r c k full at (All-get_elem? (GameOk page_size) d.games_list k v.games at)
            v,
      )
    ]
