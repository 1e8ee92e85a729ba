-- ===== src/Mastermind2/Room/Runs.antt =====
-- When a sequence of critical sections of proj2/mastermind2.c completes.
use cmsc421_os.Prelude.{
  ℕ, suc, ◌*◌, ◌≤◌, ◌<◌, ◌≡◌, ◌≢◌, refl, inl, inr, false, Option, none, some, List, [], ◌∷◌, arith,
  length, get_elem?, Bool-cases, Option-cases, All, All-set, All-append, All-get_elem?, ◌==◌,
}
use cmsc421_os.Prelude.Int.{ℤ}
use cmsc421_os.CString.Laws.{strlen-memset_zero, length-memset_zero}
use cmsc421_os.Mastermind2.State.{
  Reply, fault, Game, Driver, Memory, new_game, find_game, add_game, on_game,
}
use cmsc421_os.Mastermind2.Game.{write_game, mm_write_body}
use cmsc421_os.Mastermind2.Control.{Rodata, Call, restart, stop_game, command, mm_ctl_write_body}
use cmsc421_os.Mastermind2.Network.{cs421net_bottom_body}
use cmsc421_os.Mastermind2.Valid.{GameOk, IsValid}
use cmsc421_os.Mastermind2.System.{
  Section, find, write, control, network, step, reply, is_fault, completes, Sane, step-IsValid,
  command_games,
}
use cmsc421_os.Mastermind2.Room.{
  Room, Pointing, HasNode, all-HasNode, write_game-Room, write_game-fine, command-fine,
  restart-Room, stop_game-Room, one_less,
}

no_fault : (r : Reply) → r ≢ fault → is_fault r ≡ false
no_fault (Reply.count n) ne = refl
no_fault (Reply.error e) ne = refl
no_fault fault ne = absurd (ne refl)

module _ {page_size : ℕ} (n : ℕ) (d : Driver) (v : IsValid page_size d)
    (room : All (Room (suc n)) d.games_list) where
  write-fine :
      (curr : Option ℕ) (highest : ℤ) (guess : List ℕ) (size : ℕ)
      → Pointing curr d
      → is_fault (mm_write_body curr highest guess size d).0 ≡ false
  unfolding mm_write_body on_game
  write-fine none highest guess size p = refl
  write-fine (some k) highest guess size (g, here) =
      rw (here, on_game)
        (no_fault (write_game d.target_code highest guess size g).0 (
          write_game-fine n d.target_code highest guess size g
            (All-get_elem? (Room (suc n)) d.games_list k room here)))

  control-fine :
      (r : Rodata) (c : Call) (curr : Option ℕ)
      → Pointing curr d
      → is_fault (mm_ctl_write_body r c curr d).0 ≡ false
  unfolding mm_ctl_write_body
  control-fine r c none p = refl
  control-fine r c (some k) (g, here) = elim (Bool-cases (c.missing == 0)) [
    | inl copied ↦
        rw (here, copied, mm_ctl_write_body)
          (no_fault (command r c k g d).0 (command-fine r c k g d v))
    | inr short ↦ rw (here, short, mm_ctl_write_body) refl
  ]

  step-fine : (s : Section) → HasNode s d → is_fault (reply s d) ≡ false
  unfolding reply
  step-fine (find player m) h = refl
  step-fine (write curr highest guess size) h = write-fine curr highest guess size h
  step-fine (control r c curr) h = control-fine r c curr h
  step-fine (network highest packet) h = refl

  find-Room :
      (player : ℕ) (m : Memory)
      → ((page : List ℕ) → m.page ≡ some page → length page ≡ page_size)
      → 25 * n < page_size
      → All (Room n) (find_game player m d).1.games_list
  unfolding find_game add_game new_game
  find-Room player m full big =
      let less = one_less n d.games_list room in
      elim (Option-cases m.page) [
        | inl no_page ↦ ground (arith, less)
        | inr (page, given) ↦
            let fresh : Room n (new_game player page) =
              omega
                (arith, full page given, strlen-memset_zero page 80, length-memset_zero page 80) in
            let longer =
              All-append (Room n) d.games_list (new_game player page ∷ []) less (fresh, tt) in
            ground (arith, less, longer)
      ]

  write-Room :
      (curr : Option ℕ) (highest : ℤ) (guess : List ℕ) (size : ℕ)
      → All (Room n) (mm_write_body curr highest guess size d).1.games_list
  unfolding mm_write_body on_game
  write-Room none highest guess size = one_less n d.games_list room
  write-Room (some k) highest guess size = elim (Option-cases (get_elem? d.games_list k)) [
    | inl dangling ↦ rw (dangling, on_game) (one_less n d.games_list room)
    | inr (g, here) ↦
        rw (here, on_game)
          (All-set (Room n) d.games_list k (write_game d.target_code highest guess size g).1
            (one_less n d.games_list room)
            (write_game-Room n d.target_code highest guess size g
              (All-get_elem? (GameOk page_size) d.games_list k v.games here)
              (All-get_elem? (Room (suc n)) d.games_list k room here)))
  ]

  command-Room :
      (r : Rodata) (c : Call) (k : ℕ) {g : Game}
      → get_elem? d.games_list k ≡ some g
      → All (Room n) (command r c k g d).1.games_list
  command-Room r c k {g} here =
      let less = one_less n d.games_list room in
      let room_here = All-get_elem? (Room (suc n)) d.games_list k room here in
      elim (command_games r c k g d) [
        | inl e ↦ rw e less
        | inr (inl e) ↦
            rw e (All-set (Room n) d.games_list k (restart g) less (restart-Room n g room_here))
        | inr (inr e) ↦ rw e (
            All-set (Room n) d.games_list k (stop_game d.target_code g) less
              (stop_game-Room n d.target_code g room_here))
      ]

  control-Room :
      (r : Rodata) (c : Call) (curr : Option ℕ)
      → All (Room n) (mm_ctl_write_body r c curr d).1.games_list
  unfolding mm_ctl_write_body
  control-Room r c none = one_less n d.games_list room
  control-Room r c (some k) = elim (Option-cases (get_elem? d.games_list k)) [
    | inl dangling ↦ rw (dangling, mm_ctl_write_body) (one_less n d.games_list room)
    | inr (g, here) ↦ elim (Bool-cases (c.missing == 0)) [
      | inl copied ↦ rw (here, copied, mm_ctl_write_body) (command-Room r c k here)
      | inr short ↦ rw (here, short, mm_ctl_write_body) (one_less n d.games_list room)
    ]
  ]

  step-Room :
      (s : Section) → Sane page_size s → 25 * n < page_size → All (Room n) (step s d).games_list
  unfolding step cs421net_bottom_body
  step-Room (find player m) full big = find-Room player m full big
  step-Room (write curr highest guess size) sane big = write-Room curr highest guess size
  step-Room (control r c curr) sane big = control-Room r c curr
  step-Room (network highest packet) sane big =
      let less = one_less n d.games_list room in ground (arith, less)

-- In a state in order, a sequence of critical sections completes, with no line written behind its page, no
-- dangling pointer and no division by zero, if every log and every new page have room for a line of 25 bytes
-- for each section, the pointers of the callbacks are nodes at the beginning, pages have at least 80 bytes,
-- `vmalloc` gives whole pages, privileged colors commands are whole, and the highest digits that the
-- interrupt handler reads are ASCII.
pub completes-some :
    {page_size : ℕ} (ss : List Section) (d : Driver)
    → 80 ≤ page_size
    → 25 * length ss < page_size
    → All (Sane page_size) ss
    → All (λ s. HasNode s d) ss
    → IsValid page_size d
    → All (Room (length ss)) d.games_list
    → (d' : Driver) × (completes ss d ≡ some d')
unfolding completes
completes-some [] d big many sane nodes v room = (d, refl)
completes-some (s ∷ ss) d big many sane nodes v room =
    let (d', e) =
      completes-some ss (step s d) big (omega arith) sane.1 (all-HasNode ss s d nodes.1)
        (step-IsValid s big sane.0 v) (step-Room (length ss) d v room s sane.0 (omega arith)) in
    (d', rw (step-fine (length ss) d v room s nodes.0) e)
