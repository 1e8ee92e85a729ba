-- ===== src/Mastermind2/Game.antt =====
-- The callbacks of /dev/mm in proj2/mastermind2.c: `mm_read`, `mm_write` and `mm_mmap`. Each is the call
-- of `find_game`, which takes and releases the lock, and then a body that runs under the lock.
pub mod Write
pub mod Reading
pub mod Log
use cmsc421_os.Prelude.{
  ℕ, zero, suc, ◌+◌, ◌-◌, ◌%◌, ◌^◌, Bool, true, false, not, ◌&&◌, ◌||◌, Option, none, some, List,
  [], ◌∷◌, ◌++◌, ltb, leb, ◌==◌, if◌then◌else◌, get_elem?, get_or, take, drop,
}
use cmsc421_os.Prelude.Int.{ℤ, pos, ltb_ℤ}
use cmsc421_os.CString.{codes, concat, schar, strlen, scnprintf, strcat}
use cmsc421_os.CString.Decimal.{percent_d}
use cmsc421_os.Mastermind2.Score.{num_pegs, score}
use cmsc421_os.Mastermind2.State.{
  einval, eio, eagain, Reply, count, error, fault, Game, Driver, next_int, Memory, find_game,
  on_game, highest_digit,
}

-- A read: the reply, the bytes put into the user's buffer, and the new `*ppos`.
pub record Read : Type 0 where
  pub reply : Reply
  pub bytes : List ℕ
  pub ppos : ℕ

-- `uncopied` is what `copy_to_user` returns: the number of bytes that it could not copy.
unfoldable pub read_status : (uncopied n ppos : ℕ) → Game → Read
read_status uncopied n ppos g =
    let left : ℕ = strlen g.game_status - ppos in
    let bytes_copied : ℕ = if ltb left n then left else n in
    if leb (strlen g.game_status) ppos
    then record { reply = count 0; bytes = []; ppos = ppos }
    else if uncopied == 0
    then record {
      reply = count bytes_copied;
      bytes = take bytes_copied (drop ppos g.game_status);
      ppos = ppos + bytes_copied;
    }
    else record {
      reply = error einval;
      bytes = take (bytes_copied - uncopied) (drop ppos g.game_status);
      ppos = ppos;
    }

-- `bytes_copied` is an unsigned int, `size` a size_t.
unfoldable pub mm_read_body : (curr_player : Option ℕ) (uncopied size ppos : ℕ) → Driver → Read
mm_read_body none uncopied size ppos d = record { reply = error einval; bytes = []; ppos = ppos }
mm_read_body (some k) uncopied size ppos d = elim (get_elem? d.games_list k) [
  | none ↦ record { reply = fault; bytes = []; ppos = ppos }
  | some g ↦ read_status uncopied (size % 2 ^ 32) ppos g
]

unfoldable pub mm_read : (player : ℕ) → Memory → (uncopied size ppos : ℕ) → Driver → Read × Driver
mm_read player m uncopied size ppos d =
    let (curr_player, d') = find_game player m d in
    (mm_read_body curr_player uncopied size ppos d', d')

-- The loop that checks the bytes of a guess and turns them into digits.
unfoldable pub check_digits : ℤ → List ℕ → Bool × List ℕ
check_digits highest [] = (true, [])
check_digits highest (c ∷ cs) =
    let (valid, digits) = check_digits highest cs in
    if ltb_ℤ (schar c) (pos 48) || ltb_ℤ highest (schar c)
    then (false, c ∷ digits)
    else (valid, (c - 48) ∷ digits)

unfoldable pub status_text : (num_guesses num_black num_white : ℕ) → List ℕ
status_text n b w = concat (
    codes "Guess "
    ∷ percent_d n
    ∷ codes ": "
    ∷ percent_d b
    ∷ codes " black peg(s), "
    ∷ percent_d w
    ∷ codes " white peg(s)\n"
    ∷ [])

unfoldable pub log_text : ℕ → List ℕ → (num_black num_white : ℕ) → List ℕ
log_text n guess b w = concat (
    codes "Guess "
    ∷ percent_d n
    ∷ codes ": "
    ∷ percent_d (get_or guess 0 0)
    ∷ percent_d (get_or guess 1 0)
    ∷ percent_d (get_or guess 2 0)
    ∷ percent_d (get_or guess 3 0)
    ∷ codes "  | B"
    ∷ percent_d b
    ∷ codes " W"
    ∷ percent_d w
    ∷ codes "\n"
    ∷ [])

-- The new `game_status`, the string in `guess_log`, and the new `game_active`.
unfoldable pub answer :
    Game → (num_guesses num_black num_white : ℕ) → List ℕ → List ℕ × List ℕ × Bool
answer g n b w guess =
    if b == num_pegs
    then (
      scnprintf g.game_status 20 (codes "Correct! Game over\n"),
      take 25 (codes "Correct Guess! Game over\n"),
      false,
    )
    else (
      scnprintf g.game_status 41 (status_text n b w),
      take 23 (log_text n guess b w),
      g.game_active,
    )

-- A valid guess; `strcat` into `user_view` has no bound of its own.
unfoldable pub play : (target_code guess : List ℕ) (size : ℕ) → Game → Reply × Game
play target_code guess size g =
    let (b, w) = score target_code guess in
    let n : ℕ = next_int g.num_guesses in
    let (status, guess_log, active) = answer g n b w guess in
    elim (strcat g.user_view guess_log) [
      | none ↦ (fault, g)
      | some view ↦ (
        count size,
        record g { game_active = active; num_guesses = n; game_status = status; user_view = view },
      )
    ]

-- `user_guess` is that array after `copy_from_user`, whose result the code ignores.
unfoldable pub write_game : List ℕ → ℤ → (user_guess : List ℕ) (size : ℕ) → Game → Reply × Game
write_game target_code highest user_guess size g =
    let (valid, guess) = check_digits highest user_guess in
    if not g.game_active || ltb size num_pegs
    then (error einval, g)
    else if valid
    then play target_code guess size g
    else (error einval, g)

-- The highest digit is computed before the lock is taken.
unfoldable pub mm_write_body :
    Option ℕ → ℤ → (user_guess : List ℕ) (size : ℕ) → Driver → Reply × Driver
mm_write_body curr_player highest user_guess size d =
    on_game curr_player (write_game d.target_code highest user_guess size) d

unfoldable pub mm_write :
    (player : ℕ) → Memory → (user_guess : List ℕ) (size : ℕ) → Driver → Reply × Driver
mm_write player m user_guess size d =
    let (curr_player, d') = find_game player m d in
    mm_write_body curr_player (highest_digit d) user_guess size d'

-- A successful mapping: the node whose page is mapped, and the bytes that are; it is read-only.
pub record Mapping : Type 0 where
  pub reply : Reply
  pub page_of : Option ℕ
  pub size : ℕ

-- `size` is `vm_end - vm_start`; `remap_failed` is the result of `remap_pfn_range`.
unfoldable pub mm_mmap_body :
    (page_size : ℕ) (curr_player : Option ℕ) (size : ℕ) (remap_failed : Bool) → Mapping
mm_mmap_body page_size none size remap_failed = record {
  reply = error eagain;
  page_of = none;
  size = 0;
}
mm_mmap_body page_size (some k) size remap_failed =
    if ltb page_size size
    then record { reply = error eio; page_of = none; size = 0 }
    else if remap_failed
    then record { reply = error eagain; page_of = none; size = 0 }
    else record { reply = count 0; page_of = some k; size = size }

unfoldable pub mm_mmap :
    (page_size player : ℕ) → Memory → (size : ℕ) (remap_failed : Bool) → Driver → Mapping × Driver
mm_mmap page_size player m size remap_failed d =
    let (curr_player, d') = find_game player m d in
    (mm_mmap_body page_size curr_player size remap_failed, d')
