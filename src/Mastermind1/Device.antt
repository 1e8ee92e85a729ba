-- ===== src/Mastermind1/Device.antt =====
-- The callbacks of proj1/mastermind.c and its entry points.
use cmsc421_os.Prelude.{
  ℕ, ◌+◌, ◌-◌, ◌%◌, ◌^◌, Bool, true, false, not, ◌||◌, none, some, List, [], ◌∷◌, ltb, leb, ◌==◌,
  if◌then◌else◌, take, drop,
}
use cmsc421_os.Prelude.Int.{pos}
use cmsc421_os.CString.{codes, memset_zero, strlen, scnprintf, strcat, mem_eq}
use cmsc421_os.Mastermind2.Score.{num_pegs}
use cmsc421_os.Mastermind2.State.{einval, eio, eagain, Reply, count, error, fault, next_int}
use cmsc421_os.Mastermind2.Game.{Read, check_digits, status_text, log_text}
use cmsc421_os.Mastermind2.Control.{Rodata, Call, bytes_copied, start_bytes, quit_bytes, quit_text}
use cmsc421_os.Mastermind1.Score.{score}

-- The static variables; `user_view` is the page behind the pointer.
pub record Board : Type 0 where
  pub random_code : Bool
  pub game_active : Bool
  pub target_code : List ℕ
  pub num_guesses : ℕ
  pub game_status : List ℕ
  pub user_view : List ℕ

-- `uncopied` is what `copy_to_user` returns.
unfoldable pub mm_read : (uncopied size ppos : ℕ) → Board → Read
mm_read uncopied size ppos b =
    let left : ℕ = strlen b.game_status - ppos in
    let n : ℕ = size % 2 ^ 32 in
    let copied : ℕ = if ltb left n then left else n in
    if leb (strlen b.game_status) ppos
    then record { reply = count 0; bytes = []; ppos = ppos }
    else if uncopied == 0
    then record {
      reply = count copied;
      bytes = take copied (drop ppos b.game_status);
      ppos = ppos + copied;
    }
    else record {
      reply = error einval;
      bytes = take (copied - uncopied) (drop ppos b.game_status);
      ppos = ppos;
    }

unfoldable pub play : (guess : List ℕ) (size : ℕ) → Board → Reply × Board
play guess size b =
    let (black, white) = score b.target_code guess in
    let n : ℕ = next_int b.num_guesses in
    elim (strcat b.user_view (take 23 (log_text n guess black white))) [
      | none ↦ (fault, b)
      | some view ↦ (
        count size,
        record b {
          num_guesses = n;
          game_status = scnprintf b.game_status 41 (status_text n black white);
          user_view = view;
        },
      )
    ]

-- `user_guess` is that array after `copy_from_user`, whose result the code ignores.
unfoldable pub mm_write : (user_guess : List ℕ) (size : ℕ) → Board → Reply × Board
mm_write user_guess size b =
    let (valid, guess) = check_digits (pos 53) user_guess in
    if not b.game_active || ltb size num_pegs
    then (error einval, b)
    else if valid
    then play guess size b
    else (error einval, b)

unfoldable pub mm_mmap : (page_size size : ℕ) (remap_failed : Bool) → Reply
mm_mmap page_size size remap_failed =
    if ltb page_size size then error eio else if remap_failed then error eagain else count 0

unfoldable pub new_code : (digit : ℕ → ℕ) (random : Bool) → List ℕ
new_code digit random =
    if random
    then (digit 0 % 6) ∷ (digit 1 % 6) ∷ (digit 2 % 6) ∷ (digit 3 % 6) ∷ []
    else 0 ∷ 0 ∷ 1 ∷ 2 ∷ []

unfoldable pub start_game : Call → Board → Board
start_game c b = record b {
  game_active = true;
  num_guesses = 0;
  game_status = scnprintf (memset_zero b.game_status 80) 15 (codes "Starting game\n");
  user_view = memset_zero b.user_view 80;
  target_code = new_code c.digit b.random_code;
}

unfoldable pub stop_game : Board → Board
stop_game b =
    if b.game_active
    then record b {
      game_active = false;
      game_status = scnprintf b.game_status 31 (quit_text b.target_code);
    }
    else b

unfoldable pub mm_ctl_write : Rodata → Call → Board → Reply × Board
mm_ctl_write r c b =
    if not (c.missing == 0)
    then (error einval, b)
    else if mem_eq (bytes_copied c) c.user_input (start_bytes r)
    then (count c.size, start_game c b)
    else if mem_eq (bytes_copied c) c.user_input (quit_bytes r)
    then (count c.size, stop_game b)
    else (error einval, b)

-- What the module holds of the kernel, and how often it gave back a device that it does not hold.
pub record Held : Type 0 where
  pub page : Bool
  pub mm : Bool
  pub mm_ctl : Bool
  pub unmatched : ℕ

abbrev pub nothing_held : Held
nothing_held = record { page = false; mm = false; mm_ctl = false; unmatched = 0 }

unfoldable pub deregister_mm : Held → Held
deregister_mm h = if h.mm then record h { mm = false } else record h { unmatched = h.unmatched + 1 }

unfoldable pub deregister_ctl : Held → Held
deregister_ctl h =
    if h.mm_ctl then record h { mm_ctl = false } else record h { unmatched = h.unmatched + 1 }

-- What the kernel answers: `vmalloc` gives a page, the registrations succeed.
pub record Answers : Type 0 where
  pub page : Bool
  pub mm : Bool
  pub mm_ctl : Bool

-- Whether the module is loaded, and what is held then.
unfoldable pub mastermind_init : Answers → Held → Bool × Held
mastermind_init a h =
    let freed : Held → Held = λ h'. record (deregister_mm h') { page = false } in
    if not a.page
    then (false, h)
    else if not a.mm
    then (false, freed (record h { page = true }))
    else if not a.mm_ctl
    then (false, freed (deregister_ctl (record h { page = true; mm = true })))
    else (true, record h { page = true; mm = true; mm_ctl = true })

unfoldable pub mastermind_exit : Held → Held
mastermind_exit h = deregister_ctl (deregister_mm (record h { page = false }))
