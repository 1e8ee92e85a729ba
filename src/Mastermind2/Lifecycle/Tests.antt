-- ===== src/Mastermind2/Lifecycle/Tests.antt =====
-- The module of proj2/mastermind2.c in some events, and the theorems at them.
use cmsc421_os.Prelude.{◌≡◌, refl, true, false, List, [], ◌∷◌, ◌++◌, if◌then◌else◌, some, replicate}
use cmsc421_os.Mastermind2.State.{loaded}
use cmsc421_os.Mastermind2.System.{Section, find, run}
use cmsc421_os.Mastermind2.Lifecycle.{Answers, nothing_held, mastermind_probe}
use cmsc421_os.Mastermind2.Lifecycle.Module.{
  Module, unloaded, bind, unbind, cs421_init, cs421_exit, Events, loads, works, finished, more,
  all_held, resources_held, bound_again,
}

abbrev all : Answers
all = record { stats = true; mm = true; mm_ctl = true; irq = true }

-- A user has opened a game.
abbrev one_game : List Section
one_game = find 1000 (record { node = true; page = some (replicate 96 0) }) ∷ []

abbrev bound : Module
bound = record unloaded {
  device = true;
  registered = true;
  bound = true;
  held = all_held;
  driver = loaded true;
}

abbrev in_use : Module
in_use = record bound { driver = run one_game bound.driver }

test_in_use : Events unloaded in_use
unfolding cs421_init bind mastermind_probe
test_in_use = more (loads true true true all refl refl) (more (works one_game refl) finished)

-- The driver is refused: the device stays.
test_refused : cs421_init true false all unloaded ≡ (false, record unloaded { device = true })
unfolding cs421_init
test_refused = refl

resources_held_example :
    (in_use.held ≡ (if in_use.bound then all_held else nothing_held))
    × ((cs421_exit in_use).held ≡ nothing_held)
    × ((cs421_exit in_use).device ≡ false)
resources_held_example = resources_held test_in_use

bound_again_example :
    ((bind all (unbind in_use)).bound ≡ true)
    × ((bind all (unbind in_use)).driver.games_list ≡ in_use.driver.games_list)
    × ((bind all (unbind in_use)).freed ≡ in_use.freed ++ in_use.driver.games_list)
bound_again_example = bound_again all test_in_use refl refl
