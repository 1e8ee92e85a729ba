-- ===== src/Mastermind2/Valid.antt =====
-- The invariant of the state of proj2/mastermind2.c, and that each critical section keeps it.
pub mod Control
pub mod Network
use cmsc421_os.Prelude.{
  ℕ, zero, suc, ◌+◌, ◌-◌, ◌%◌, ◌^◌, ◌≤◌, ◌<◌, ◌≡◌, refl, sym, ◌∙◌, ap, ◌⊎◌, inl, inr, Bool, true,
  false, Option, none, some, List, [], ◌∷◌, ◌++◌, arith, ◌==◌, ltb, if◌then◌else◌, length,
  get_elem?, set, get_or, Bool-cases, Option-cases, All, All-set, All-append, All-get_elem?, take,
  replicate,
}
use cmsc421_os.Prelude.Int.{ℤ, pos, ◌≤ℤ◌}
use cmsc421_os.CString.{codes, schar, strlen, memset_zero, scnprintf, strcat, mem_eq}
use cmsc421_os.CString.Laws.{
  NoZero, NoZero-append, NoZero-take, NoZero-concat, length-memset_zero, length-scnprintf,
  strlen-scnprintf, strlen-memset_zero, strcat-some,
}
use cmsc421_os.CString.Decimal.{NoZero-percent_d}
use cmsc421_os.Mastermind2.Score.{num_pegs, score}
use cmsc421_os.Mastermind2.Score.Marks.{AllBelow}
use cmsc421_os.Mastermind2.State.{
  next_int, Reply, Game, Driver, loaded, Memory, new_game, find_index, find_game, on_game,
  highest_digit,
}
use cmsc421_os.Mastermind2.State.Find.{Distinct, Distinct-set, Distinct-append}
use cmsc421_os.Mastermind2.Game.{
  status_text, log_text, check_digits, answer, play, write_game, mm_write_body,
}

module _ (page_size : ℕ) where
  pub record GameOk (g : Game) : Type 0 where
    pub status_size : length g.game_status ≡ 80
    pub status_ends : strlen g.game_status < 80
    pub view_size : length g.user_view ≡ page_size
    pub view_ends : strlen g.user_view < page_size
    pub guesses : g.num_guesses < 2 ^ 32

  pub record IsValid (d : Driver) : Type 0 where
    pub pegs : length d.target_code ≡ 4
    pub small : AllBelow 79 d.target_code
    pub few : pos 2 ≤ℤ d.num_colors
    pub many : d.num_colors ≤ℤ pos 79
    pub games : All GameOk d.games_list
    pub distinct : Distinct d.games_list

  pub loaded-IsValid : (random : Bool) → IsValid (loaded random)
  loaded-IsValid random = record {
    pegs = refl;
    small = omega arith;
    few = omega arith;
    many = omega arith;
    games = tt;
    distinct = tt;
  }

  pub new_game-GameOk :
      (player : ℕ) (page : List ℕ)
      → length page ≡ page_size
      → 80 ≤ page_size
      → GameOk (new_game player page)
  unfolding new_game memset_zero
  new_game-GameOk player page e h = record {
    status_size = length-scnprintf (memset_zero (replicate 80 0) 80) (codes "No game yet\n") 13;
    status_ends = omega (
      arith,
      strlen-scnprintf (memset_zero (replicate 80 0) 80) (codes "No game yet\n") 13 (omega arith)
          (omega (arith, length-memset_zero (replicate 80 0) 80)),
    );
    view_size = omega (arith, length-memset_zero page 80);
    view_ends = omega (arith, strlen-memset_zero page 80);
    guesses = omega arith;
  }

  pub find_game-IsValid :
      (player : ℕ) (m : Memory) {d : Driver}
      → 80 ≤ page_size
      → ((page : List ℕ) → m.page ≡ some page → length page ≡ page_size)
      → IsValid d
      → IsValid (find_game player m d).1
  unfolding find_game new_game
  find_game-IsValid player m {d} big full v = elim (Option-cases m.page) [
    | inl no_page ↦ ground arith
    | inr (page, given) ↦ ground (
      arith,
      v,
      All-append GameOk d.games_list (new_game player page ∷ []) v.games
          (new_game-GameOk player page (full page given) big, tt),
      Distinct-append d.games_list (new_game player page),
    )
  ]

  -- A callback's code that keeps one node in order and its user keeps the state in order.
  on_game-IsValid :
      (curr_player : Option ℕ) (act : Game → Reply × Game) {d : Driver}
      → ((g : Game) → GameOk g → GameOk (act g).1 × ((act g).1.player_id ≡ g.player_id))
      → IsValid d
      → IsValid (on_game curr_player act d).1
  unfolding on_game
  on_game-IsValid none act keep v = v
  on_game-IsValid (some k) act {d} keep v = elim (Option-cases (get_elem? d.games_list k)) [
    | inl dangling ↦ rw (dangling, on_game) v
    | inr (g, at) ↦
        rw (at, on_game)
          (record {
            pegs = v.pegs;
            small = v.small;
            few = v.few;
            many = v.many;
            games =
                All-set GameOk d.games_list k (act g).1 v.games
                  (keep g (All-get_elem? GameOk d.games_list k v.games at)).0;
            distinct =
                Distinct-set d.games_list k (act g).1 at
                  (keep g (All-get_elem? GameOk d.games_list k v.games at)).1 v.distinct;
          })
  ]

  NoZero-log_text : (n : ℕ) (guess : List ℕ) (b w : ℕ) → NoZero (log_text n guess b w)
  unfolding log_text
  NoZero-log_text n guess b w = NoZero-concat _ (
    omega arith,
    (
      NoZero-percent_d n,
      (
        omega arith,
        (
          NoZero-percent_d (get_or guess 0 0),
          (
            NoZero-percent_d (get_or guess 1 0),
            (
              NoZero-percent_d (get_or guess 2 0),
              (
                NoZero-percent_d (get_or guess 3 0),
                (
                  omega arith,
                  (NoZero-percent_d b, (omega arith, (NoZero-percent_d w, (omega arith, tt)))),
                ),
              ),
            ),
          ),
        ),
      ),
    ),
  )

  -- What `answer` prints fits `game_status`, and `guess_log` is a string.
  pub record AnswerOk (a : List ℕ × List ℕ × Bool) : Type 0 where
    pub status_size : length a.0 ≡ 80
    pub status_ends : strlen a.0 < 80
    pub log : NoZero a.1

  pub answer-AnswerOk :
      (g : Game) (n b w : ℕ) (guess : List ℕ) → GameOk g → AnswerOk (answer g n b w guess)
  unfolding answer
  answer-AnswerOk g n b w guess ok = elim (Bool-cases (b == num_pegs)) [
    | inl win ↦ rw win (record {
      status_size =
          omega (
            arith,
            length-scnprintf g.game_status (codes "Correct! Game over\n") 20,
            ok.status_size,
          );
      status_ends =
          omega (
            arith,
            strlen-scnprintf g.game_status (codes "Correct! Game over\n") 20,
            ok.status_size,
          );
      log = omega arith;
    })
    | inr miss ↦ rw miss (record {
      status_size =
          omega (arith, length-scnprintf g.game_status (status_text n b w) 41, ok.status_size);
      status_ends =
          omega (arith, strlen-scnprintf g.game_status (status_text n b w) 41, ok.status_size);
      log = NoZero-take 23 (log_text n guess b w) (NoZero-log_text n guess b w);
    })
  ]

  play-GameOk :
      (code guess : List ℕ) (size : ℕ) (g : Game)
      → GameOk g
      → GameOk (play code guess size g).1 × ((play code guess size g).1.player_id ≡ g.player_id)
  unfolding play
  play-GameOk code guess size g ok =
      let (b, w) = score code guess in
      let n : ℕ = next_int g.num_guesses in
      let a : AnswerOk (answer g n b w guess) = answer-AnswerOk g n b w guess ok in
      elim (Option-cases (strcat g.user_view (answer g n b w guess).1)) [
        | inl over ↦ rw (over, play) (ok, refl)
        | inr (view, fits) ↦
            rw (fits, play)
              (
                record {
                  status_size = a.status_size;
                  status_ends = a.status_ends;
                  view_size = omega (arith, (strcat-some _ a.log g.user_view fits).1, ok.view_size);
                  view_ends = omega (
                    arith,
                    (strcat-some _ a.log g.user_view fits).1,
                    (strcat-some _ a.log g.user_view fits).2,
                    ok.view_size,
                  );
                  guesses = omega arith;
                },
                refl,
              )
      ]

  write_game-GameOk :
      (code : List ℕ) (highest : ℤ) (user_guess : List ℕ) (size : ℕ) (g : Game)
      → GameOk g
      → GameOk (write_game code highest user_guess size g).1
        × ((write_game code highest user_guess size g).1.player_id ≡ g.player_id)
  unfolding write_game
  write_game-GameOk code highest user_guess size g ok =
      ground (arith, ok, play-GameOk code (check_digits highest user_guess).1 size g ok)

  -- `mm_write` keeps the state in order, whatever is written and whatever the highest digit was.
  pub mm_write_body-IsValid :
      (curr_player : Option ℕ) (highest : ℤ) (user_guess : List ℕ) (size : ℕ) {d : Driver}
      → IsValid d
      → IsValid (mm_write_body curr_player highest user_guess size d).1
  unfolding mm_write_body
  mm_write_body-IsValid curr_player highest user_guess size {d} v =
      on_game-IsValid curr_player (write_game d.target_code highest user_guess size)
        (write_game-GameOk d.target_code highest user_guess size) v
