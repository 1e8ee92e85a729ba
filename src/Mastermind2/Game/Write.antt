-- ===== src/Mastermind2/Game/Write.antt =====
-- What `mm_write` of proj2/mastermind2.c does on each branch.
use cmsc421_os.Prelude.{
  ℕ, ◌+◌, ◌-◌, ◌≤◌, ◌<◌, ◌≡◌, refl, ◌∙◌, ◌↔◌, ◌⊎◌, inl, inr, true, false, Option, none, some, List,
  [], ◌∷◌, arith, length, get_elem?, set_same, length-map, map, All, Option-cases, Bool-cases,
}
use cmsc421_os.Prelude.Int.{ℤ, pos, ◌≤ℤ◌}
use cmsc421_os.CString.{strlen}
use cmsc421_os.CString.Laws.{strcat-none}
use cmsc421_os.Mastermind2.Score.{num_pegs, score}
use cmsc421_os.Mastermind2.Score.Sound.{score-win}
use cmsc421_os.Mastermind2.State.{
  einval, count, error, fault, Errno, Game, Driver, next_int, on_game,
}
use cmsc421_os.Mastermind2.Game.{check_digits, answer, play, write_game, mm_write_body}

-- The bytes of a guess are ASCII digits up to the highest one.
abbrev pub IsDigit : ℤ → ℕ → Type 0
IsDigit highest c = (48 ≤ c) × (c < 128) × (pos c ≤ℤ highest)

-- The check of a guess passes exactly for such bytes, and then gives their digits.
pub check_digits_lem :
    (highest : ℤ) (bytes : List ℕ)
    → ((check_digits highest bytes).0 ≡ true) ↔ All (IsDigit highest) bytes
unfolding check_digits
check_digits_lem highest [] = (λ _. tt, λ _. refl)
check_digits_lem highest (c ∷ cs) =
    let (there, back) = check_digits_lem highest cs in
    (λ e. ground (arith, there), λ h. ground (arith, back))

pub check_digits-valid :
    (highest : ℤ) (bytes : List ℕ)
    → (check_digits highest bytes).0 ≡ true
    → (check_digits highest bytes).1 ≡ map (λ c. c - 48) bytes
unfolding check_digits
check_digits-valid highest [] e = refl
check_digits-valid highest (c ∷ cs) e = ground (arith, check_digits-valid highest cs)

-- The line that a guess adds to the log.
abbrev pub new_line : (code guess : List ℕ) → Game → List ℕ
new_line code guess g =
    (answer g (next_int g.num_guesses) (score code guess).0 (score code guess).1 guess).1

-- The page has room for the line and the zero behind it.
abbrev pub HasRoom : (code guess : List ℕ) → Game → Type 0
HasRoom code guess g = strlen g.user_view + length (new_line code guess g) < length g.user_view

pub play-cases :
    (code guess : List ℕ) (size : ℕ) (g : Game)
    → (((play code guess size g).0 ≡ fault)
        × ((play code guess size g).1 ≡ g)
        × (length g.user_view ≤ strlen g.user_view + length (new_line code guess g)))
      ⊎ (((play code guess size g).0 ≡ count size) × HasRoom code guess g)
unfolding play
play-cases code guess size g = ground (arith, strcat-none g.user_view (new_line code guess g))

-- If the body of `mm_write` returns an error, it is EINVAL, and nothing is changed.
pub mm_write-error :
    (curr_player : Option ℕ) (highest : ℤ) (guess : List ℕ) (size : ℕ) (d : Driver) {e : Errno}
    → (mm_write_body curr_player highest guess size d).0 ≡ error e
    → (e ≡ einval) × ((mm_write_body curr_player highest guess size d).1 ≡ d)
unfolding mm_write_body on_game write_game
mm_write-error none highest guess size d h = ground arith
mm_write-error (some k) highest guess size d h = elim (Option-cases (get_elem? d.games_list k)) [
  | inl dangling ↦ ground arith
  | inr (g, at) ↦ ground (
    arith,
    play-cases d.target_code (check_digits highest guess).1 size g,
    set_same d.games_list k at,
  )
]

-- A guess is taken exactly in an active game, with four bytes or more, all of the first four digits in
-- range, and room for the line of the log.
pub write_game-count :
    (code : List ℕ) (highest : ℤ) (guess : List ℕ) (size : ℕ) (g : Game)
    → ((write_game code highest guess size g).0 ≡ count size) ↔ (
        (g.game_active ≡ true)
        × (num_pegs ≤ size)
        × All (IsDigit highest) guess
        × HasRoom code (map (λ c. c - 48) guess) g)
unfolding write_game
write_game-count code highest guess size g =
    let (there, back) = check_digits_lem highest guess in
    elim (Bool-cases (check_digits highest guess).0) [
      | inl good ↦
          let digits : (check_digits highest guess).1 ≡ map (λ c. c - 48) guess =
            check_digits-valid highest guess good in
          (
            λ e. ground (arith, there good, play-cases code (map (λ c. c - 48) guess) size g),
            λ h. ground (arith, play-cases code (map (λ c. c - 48) guess) size g),
          )
      | inr bad ↦ (λ e. ground arith, λ h. cc (back h.2))
    ]

play-wins :
    (code guess : List ℕ) (size : ℕ) (g : Game)
    → length code ≡ num_pegs
    → length guess ≡ num_pegs
    → g.game_active ≡ true
    → (play code guess size g).0 ≡ count size
    → ((play code guess size g).1.game_active ≡ false) ↔ (code ≡ guess)
unfolding play answer
play-wins code guess size g cs gs active e =
    let (there, back) = score-win code guess cs gs in
    (λ over. ground (arith, there), λ same. ground (arith, back))

write_game-play :
    (code : List ℕ) (highest : ℤ) (guess : List ℕ) (size : ℕ) (g : Game)
    → (write_game code highest guess size g).0 ≡ count size
    → (write_game code highest guess size g ≡ play code (map (λ c. c - 48) guess) size g)
      × (g.game_active ≡ true)
unfolding write_game
write_game-play code highest guess size g e = ground (arith, check_digits-valid highest guess)

-- For a code and a guess of four pegs, a guess that is taken ends the game exactly if it is the code.
pub write_game-wins :
    (code : List ℕ) (highest : ℤ) (guess : List ℕ) (size : ℕ) (g : Game)
    → length code ≡ num_pegs
    → length guess ≡ num_pegs
    → (write_game code highest guess size g).0 ≡ count size
    → ((write_game code highest guess size g).1.game_active ≡ false)
      ↔ (code ≡ map (λ c. c - 48) guess)
write_game-wins code highest guess size g cs gs e =
    let (same, active) = write_game-play code highest guess size g e in
    rw same (
      play-wins code (map (λ c. c - 48) guess) size g cs (length-map guess (λ c. c - 48) ∙ gs)
        active (rw same at e))
