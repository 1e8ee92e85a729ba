-- ===== src/Mastermind2/Lifecycle.antt =====
-- `mastermind_probe` and `mastermind_remove` of proj2/mastermind2.c.
pub mod Module
mod Tests
use cmsc421_os.Prelude.{◌≡◌, Bool, true, false, arith, not, ◌&&◌, List, if◌then◌else◌}
use cmsc421_os.Mastermind2.State.{Game, Driver}

-- What the driver holds of the kernel, and whether the network raises interrupts for it.
pub record Held : Type 0 where
  pub stats : Bool
  pub mm : Bool
  pub mm_ctl : Bool
  pub irq : Bool
  pub enabled : Bool

abbrev pub nothing_held : Held
nothing_held = record { stats = false; mm = false; mm_ctl = false; irq = false; enabled = false }

-- Which of the driver's requests the kernel grants.
pub record Answers : Type 0 where
  pub stats : Bool
  pub mm : Bool
  pub mm_ctl : Bool
  pub irq : Bool

-- Whether it returns 0 (and not -ENODEV), and what is held then.
unfoldable pub mastermind_probe : Answers → Held → Bool × Held
mastermind_probe a h =
    let remove_file : Held → Held = λ h'. record h' { stats = false } in
    let deregister_mm : Held → Held = λ h'. remove_file (record h' { mm = false }) in
    let deregister_ctl : Held → Held = λ h'. deregister_mm (record h' { mm_ctl = false }) in
    if not a.stats
    then (false, h)
    else if not a.mm
    then (false, remove_file (record h { stats = true }))
    else if not a.mm_ctl
    then (false, deregister_mm (record h { stats = true; mm = true }))
    else if not a.irq
    then (false, deregister_ctl (record h { stats = true; mm = true; mm_ctl = true }))
    else (true, record h { stats = true; mm = true; mm_ctl = true; irq = true; enabled = true })

-- The nodes that are freed, and what is held then. The list itself is not reset.
unfoldable pub mastermind_remove : Driver → Held → List Game × Held
mastermind_remove d h = (
  d.games_list,
  record h { mm = false; mm_ctl = false; enabled = false; irq = false; stats = false },
)

-- A probe succeeds exactly if all requests are granted, and a failed one has given back all it took.
pub mastermind_probe_lem :
    (a : Answers)
    → ((mastermind_probe a nothing_held).0 ≡ (a.stats && (a.mm && (a.mm_ctl && a.irq))))
      × ((mastermind_probe a nothing_held).0 ≡ false
          → (mastermind_probe a nothing_held).1 ≡ nothing_held)
unfolding mastermind_probe
mastermind_probe_lem a = ground arith

-- Removal after any probe leaves nothing held, and frees every node of the list.
pub mastermind_remove_lem :
    (a : Answers) (d : Driver)
    → mastermind_remove d (mastermind_probe a nothing_held).1 ≡ (d.games_list, nothing_held)
unfolding mastermind_probe mastermind_remove
mastermind_remove_lem a d = ground arith
