-- ===== src/Mastermind2/State/Find.antt =====
-- `find_game` of proj2/mastermind2.c: one node for each user, found again at the same place.
use cmsc421_os.Prelude.{
  ℕ, zero, suc, ◌+◌, ◌≡◌, refl, ◌↔◌, ◌∙◌, ◌⊎◌, inl, inr, true, false, none, some, List, [], ◌∷◌,
  ◌++◌, arith, ◌==◌, if◌then◌else◌, length, get_elem?, set, Bool-cases, Option-cases,
  get_elem?-append_last, get_elem?-append_left,
}
use cmsc421_os.Prelude.Loop.{for_range, for_range_inv}
use cmsc421_os.Mastermind2.State.{Game, Driver, Memory, new_game, find_index, find_game}

-- No two nodes have the same user.
abbrev pub Distinct : List Game → Type 0
Distinct [] = Unit
Distinct (g ∷ gs) = (find_index g.player_id gs ≡ none) × Distinct gs

pub find_index-some :
    (player : ℕ) (gs : List Game) {k : ℕ}
    → find_index player gs ≡ some k
    → (g : Game) × (get_elem? gs k ≡ some g) × (g.player_id ≡ player)
unfolding find_index
find_index-some player [] e = cc
find_index-some player (g ∷ gs) {k} e = elim (Bool-cases (player == g.player_id)) [
  | inl here ↦ (g, ground arith, ground arith)
  | inr other ↦ elim (Option-cases (find_index player gs)) [
    | inl no_game ↦ ground arith
    | inr (j, found) ↦
        let (h, at, same) = find_index-some player gs found in (h, ground arith, same)
  ]
]

-- The user of a node is found at that node.
pub find_index-Distinct :
    (gs : List Game) (k : ℕ) {g : Game}
    → Distinct gs
    → get_elem? gs k ≡ some g
    → find_index g.player_id gs ≡ some k
unfolding find_index
find_index-Distinct [] k d e = cc
find_index-Distinct (h ∷ gs) zero d e = ground arith
find_index-Distinct (h ∷ gs) (suc k) {g} d e =
    let (h', at, same) = find_index-some g.player_id gs (find_index-Distinct gs k d.1 e) in
    ground (arith, find_index-Distinct gs k d.1 e)

pub find_index-append :
    (player : ℕ) (gs : List Game) (g : Game)
    → find_index player (gs ++ g ∷ []) ≡ elim (find_index player gs) [
      | some k ↦ some k
      | none ↦ if player == g.player_id then some (length gs) else none
    ]
unfolding find_index
find_index-append player [] g = refl
find_index-append player (h ∷ gs) g = ground (arith, find_index-append player gs g)

pub find_index-set :
    (player : ℕ) (gs : List Game) (k : ℕ) {g : Game} (g' : Game)
    → get_elem? gs k ≡ some g
    → g'.player_id ≡ g.player_id
    → find_index player (set gs k g') ≡ find_index player gs
unfolding find_index
find_index-set player [] k g' e same = refl
find_index-set player (h ∷ gs) zero g' e same = ground arith
find_index-set player (h ∷ gs) (suc k) g' e same = rw (find_index-set player gs k g' e same)

pub Distinct-set :
    (gs : List Game) (k : ℕ) {g : Game} (g' : Game)
    → get_elem? gs k ≡ some g
    → g'.player_id ≡ g.player_id
    → Distinct gs
    → Distinct (set gs k g')
Distinct-set [] k g' e same d = tt
Distinct-set (h ∷ gs) zero {g} g' e same d = ground arith
Distinct-set (h ∷ gs) (suc k) g' e same d =
    (find_index-set h.player_id gs k g' e same ∙ d.0, Distinct-set gs k g' e same d.1)

pub Distinct-append :
    (gs : List Game) (g : Game)
    → find_index g.player_id gs ≡ none
    → Distinct gs
    → Distinct (gs ++ g ∷ [])
unfolding find_index
Distinct-append [] g e d = (refl, tt)
Distinct-append (h ∷ gs) g e d =
    (ground (arith, find_index-append h.player_id gs g), Distinct-append gs g (ground arith) d.1)

-- The pointer that `find_game` returns is a node of the list, and that of the user who asked.
pub find_game_lem :
    (player : ℕ) (m : Memory) (d : Driver) {k : ℕ} {d' : Driver}
    → find_game player m d ≡ (some k, d')
    → (g : Game) × (get_elem? d'.games_list k ≡ some g) × (g.player_id ≡ player)
unfolding find_game new_game
find_game_lem player m d {k} {d'} e = elim (Option-cases (find_index player d.games_list)) [
  | inl absent ↦ elim (Option-cases m.page) [
    | inl no_page ↦ ground arith
    | inr (page, given) ↦ (
      new_game player page,
      ground (arith, get_elem?-append_last d.games_list (new_game player page)),
      refl,
    )
  ]
  | inr (j, found) ↦
      let (g, at, same) = find_index-some player d.games_list found in (g, ground arith, same)
]

-- After `find_game` has returned a pointer, asking again gives the same pointer and changes nothing,
-- whatever memory there is.
pub find_game_again :
    (player : ℕ) (m later : Memory) (d : Driver) {k : ℕ} {d' : Driver}
    → find_game player m d ≡ (some k, d')
    → find_game player later d' ≡ (some k, d')
unfolding find_game new_game
find_game_again player m later d {k} {d'} e = elim (Option-cases (find_index player d.games_list)) [
  | inl absent ↦ elim (Option-cases m.page) [
    | inl no_page ↦ ground arith
    | inr (page, given) ↦
        ground (arith, find_index-append player d.games_list (new_game player page))
  ]
  | inr (j, found) ↦ ground arith
]

-- `find_game` returns NULL exactly for a user without a node when memory for a node or its page is short.
pub find_game-null :
    (player : ℕ) (m : Memory) (d : Driver)
    → ((find_game player m d).0 ≡ none)
      ↔ ((find_index player d.games_list ≡ none) × ((m.node ≡ false) ⊎ (m.page ≡ none)))
unfolding find_game
find_game-null player m d = (λ e. ground arith, λ h. ground arith)

-- No game that exists is changed, and no node moves.
pub find_game_keeps :
    (player : ℕ) (m : Memory) (d : Driver) (k : ℕ) {g : Game}
    → get_elem? d.games_list k ≡ some g
    → get_elem? (find_game player m d).1.games_list k ≡ some g
unfolding find_game new_game
find_game_keeps player m d k e = elim (Option-cases m.page) [
  | inl no_page ↦ ground arith
  | inr (page, given) ↦
      ground (arith, get_elem?-append_left d.games_list (new_game player page ∷ []) k e)
]

-- For a user without a node, `n` calls that get a node and no page lose `n` nodes and change nothing else.
pub find_game_leaks :
    (player n : ℕ) (d : Driver)
    → find_index player d.games_list ≡ none
    → for_range n 0 (λ _ s. (find_game player (record { node = true; page = none }) s).1) d
      ≡ record d { leaked = d.leaked + n }
find_game_leaks player n d absent =
    for_range_inv (λ i s. s ≡ record d { leaked = d.leaked + i }) _ n
      (λ i s lt e. rw e (find_game_leak i)) n 0 d (omega arith) start
  where
    start : d ≡ record d { leaked = d.leaked + 0 }
    start = ground arith

    find_game_leak :
        (i : ℕ)
        → (find_game player
            (record { node = true; page = none })
            (record d { leaked = d.leaked + i })).1
          ≡ record d { leaked = d.leaked + (i + 1) }
    find_game_leak i = unfold find_game in ground arith
