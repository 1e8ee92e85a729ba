-- ===== src/Mastermind2/Game/Reading.antt =====
-- What a user reads from /dev/mm: `mm_read` of proj2/mastermind2.c.
use cmsc421_os.Prelude.{
  ℕ, zero, suc, ◌+◌, ◌-◌, ◌%◌, ◌^◌, ◌≤◌, ◌<◌, ◌≡◌, refl, ◌∙◌, ap, min, Option, none, some, List, [],
  ◌∷◌, ◌++◌, arith, length, get_elem?, take, drop, ◌==◌, if◌then◌else◌, dec_lt, drop_of_le,
  take-drop_further,
}
use cmsc421_os.CString.{strlen, c_str}
use cmsc421_os.CString.Laws.{strlen-eq-length-c_str}
use cmsc421_os.Mastermind2.State.{count, error, fault, Game, Driver}
use cmsc421_os.Mastermind2.Game.{Read, read_status, mm_read_body}

-- The bytes before the end of the string are those of the string.
take-drop-c_str :
    (buf : List ℕ) (n ppos : ℕ)
    → n + ppos ≤ strlen buf
    → take n (drop ppos buf) ≡ take n (drop ppos (c_str buf))
unfolding strlen c_str
take-drop-c_str [] n ppos h = refl
take-drop-c_str (c ∷ cs) zero ppos h = refl
take-drop-c_str (c ∷ cs) (suc n) zero h = ground (arith, take-drop-c_str cs n zero)
take-drop-c_str (c ∷ cs) (suc n) (suc ppos) h = ground (arith, take-drop-c_str cs (suc n) ppos)

-- A read that the user's buffer takes returns the next bytes of the status, as many as asked for and
-- left, and moves the offset behind them.
pub read_status_lem :
    (n ppos : ℕ) (g : Game)
    → read_status 0 n ppos g ≡ record {
      reply = count (min n (length (c_str g.game_status) - ppos));
      bytes = take (min n (length (c_str g.game_status) - ppos)) (drop ppos (c_str g.game_status));
      ppos = ppos + min n (length (c_str g.game_status) - ppos);
    }
unfolding read_status
read_status_lem n ppos g =
    let len : strlen g.game_status ≡ length (c_str g.game_status) =
      strlen-eq-length-c_str g.game_status in
    elim (dec_lt ppos (strlen g.game_status)) [
      | yes inside ↦
          ground (
            arith,
            take-drop-c_str g.game_status (min n (length (c_str g.game_status) - ppos)) ppos,
          )
      | no behind ↦
          let none_left : min n (length (c_str g.game_status) - ppos) ≡ 0 = omega arith in
          rw none_left (ground arith)
    ]

mm_read_body_lem :
    (k size ppos : ℕ) (d : Driver) {g : Game}
    → get_elem? d.games_list k ≡ some g
    → mm_read_body (some k) 0 size ppos d ≡ read_status 0 (size % 2 ^ 32) ppos g
unfolding mm_read_body
mm_read_body_lem k size ppos d at = rw (at, mm_read_body)

abbrev prepend : List ℕ → Option (List ℕ) → Option (List ℕ)
prepend bytes none = none
prepend bytes (some more) = some (bytes ++ more)

-- What a reader has after a read, if it gets `rest` by reading on.
abbrev after : Read → Option (List ℕ) → Option (List ℕ)
after r rest = elim r.reply [
  | count n ↦ if n == 0 then some [] else prepend r.bytes rest
  | error e ↦ none
  | fault ↦ none
]

-- A reader that asks for `size` bytes again and again, until it is told that there are none.
unfoldable pub read_all : (fuel k size ppos : ℕ) → Driver → Option (List ℕ)
read_all zero k size ppos d = none
read_all (suc f) k size ppos d =
    let r = mm_read_body (some k) 0 size ppos d in after r (read_all f k size r.ppos d)

-- Reading to the end from any offset, in pieces of a size that is no multiple of 2^32, ends and gives the
-- rest of the status string: more reads than it has bytes are enough.
pub read_all_lem :
    (fuel k size ppos : ℕ) (d : Driver) {g : Game}
    → get_elem? d.games_list k ≡ some g
    → 0 < size % 2 ^ 32
    → length (c_str g.game_status) - ppos < fuel
    → read_all fuel k size ppos d ≡ some (drop ppos (c_str g.game_status))
unfolding read_all
read_all_lem zero k size ppos d at some_bytes enough = absurd (omega arith)
read_all_lem (suc f) k size ppos d {g} at some_bytes enough =
    let n : ℕ = min (size % 2 ^ 32) (length (c_str g.game_status) - ppos) in
    let once : mm_read_body (some k) 0 size ppos d ≡ record {
      reply = count n;
      bytes = take n (drop ppos (c_str g.game_status));
      ppos = ppos + n;
    } =
      mm_read_body_lem k size ppos d at ∙ read_status_lem (size % 2 ^ 32) ppos g in
    ap (λ r. after r (read_all f k size r.ppos d)) once
    ∙ elim (dec_lt ppos (length (c_str g.game_status))) [
      | yes inside ↦ ground (
        arith,
        read_all_lem f k size (ppos + n) d at some_bytes (omega arith),
        take-drop_further n ppos (c_str g.game_status),
      )
      | no behind ↦ ground (arith, drop_of_le ppos (c_str g.game_status))
    ]
