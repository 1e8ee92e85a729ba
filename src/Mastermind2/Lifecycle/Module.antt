-- ===== src/Mastermind2/Lifecycle/Module.antt =====
-- The module of proj2/mastermind2.c from its loading to its unloading: `cs421_init`, `cs421_exit`, and the
-- binding of the driver to its device, which an administrator may undo and repeat while it is loaded. The
-- platform calls are parameters: whether they succeed; a driver that is registered is probed at once, and
-- stays registered if the probe fails.
use cmsc421_os.Prelude.{
  ◌≡◌, refl, arith, Bool, true, false, not, ◌&&◌, List, [], ◌++◌, if◌then◌else◌,
}
use cmsc421_os.Mastermind2.State.{Game, Driver, loaded}
use cmsc421_os.Mastermind2.System.{Section, run}
use cmsc421_os.Mastermind2.Lifecycle.{
  Held, nothing_held, Answers, mastermind_probe, mastermind_remove,
}

-- `pdev` and the driver at the kernel, whether the driver is bound to the device, the resources, the static
-- variables, and the nodes that were freed.
pub record Module : Type 0 where
  pub device : Bool
  pub registered : Bool
  pub bound : Bool
  pub held : Held
  pub driver : Driver
  pub freed : List Game

abbrev pub unloaded : Module
unloaded = record {
  device = false;
  registered = false;
  bound = false;
  held = nothing_held;
  driver = loaded false;
  freed = [];
}

unfoldable pub bind : Answers → Module → Module
bind a m =
    if m.device && (m.registered && not m.bound)
    then record m { held = (mastermind_probe a m.held).1; bound = (mastermind_probe a m.held).0 }
    else m

unfoldable pub unbind : Module → Module
unbind m =
    if m.bound
    then record m {
      held = (mastermind_remove m.driver m.held).1;
      bound = false;
      freed = m.freed ++ (mastermind_remove m.driver m.held).0;
    }
    else m

-- Whether it returns 0. Where the registration of the driver fails, the device stays.
unfoldable pub cs421_init : (has_device has_driver : Bool) → Answers → Module → Bool × Module
unfolding bind
cs421_init has_device has_driver a m =
    if not has_device
    then (false, m)
    else if not has_driver
    then (false, record m { device = true })
    else (true, bind a (record m { device = true; registered = true }))

unfoldable pub cs421_exit : Module → Module
unfolding unbind
cs421_exit m = record (unbind m) { registered = false; device = false }

-- What may happen to the module. Its static variables are fresh each time that it is loaded, and callbacks
-- run while it is bound.
pub data Event : Module → Module → Type 0 where
  loads :
      {m : Module} (random has_device has_driver : Bool) (a : Answers)
      → m.device ≡ false
      → m.registered ≡ false
      → Event m
          (cs421_init has_device has_driver a (record m { driver = loaded random; freed = [] })).1
  binds : {m : Module} (a : Answers) → Event m (bind a m)
  unbinds : {m : Module} → Event m (unbind m)
  works :
      {m : Module} (ss : List Section)
      → m.bound ≡ true
      → Event m (record m { driver = run ss m.driver })
  unloads : {m : Module} → m.registered ≡ true → Event m (cs421_exit m)

pub data Events : Module → Module → Type 0 where
  finished : {m : Module} → Events m m
  more : {m m' m'' : Module} → Event m m' → Events m' m'' → Events m m''

abbrev pub all_held : Held
all_held = record { stats = true; mm = true; mm_ctl = true; irq = true; enabled = true }

-- The resources are held while the driver is bound, which it is only while it is registered with its device.
pub record Tidy (m : Module) : Type 0 where
  pub resources : m.held ≡ (if m.bound then all_held else nothing_held)
  pub known : m.bound ≡ true → (m.registered ≡ true) × (m.device ≡ true)

bind-Tidy : (a : Answers) (m : Module) → Tidy m → Tidy (bind a m)
unfolding bind mastermind_probe
bind-Tidy a m t = record {
  resources = ground (arith, t.resources);
  known = ground (arith, t.known);
}

unbind-Tidy : (m : Module) → Tidy m → Tidy (unbind m)
unfolding unbind mastermind_remove
unbind-Tidy m t = record {
  resources = ground (arith, t.resources);
  known = ground (arith, t.known);
}

cs421_init-Tidy :
    (has_device has_driver : Bool) (a : Answers) (m : Module)
    → m.bound ≡ false
    → Tidy m
    → Tidy (cs421_init has_device has_driver a m).1
unfolding cs421_init
cs421_init-Tidy has_device has_driver a m off t =
    let here : Tidy (record m { device = true; registered = true }) = record {
      resources = t.resources;
      known = λ on. (refl, refl);
    } in
    ground (arith, t, off, bind-Tidy a (record m { device = true; registered = true }) here)

cs421_exit-Tidy : (m : Module) → Tidy m → Tidy (cs421_exit m)
unfolding cs421_exit unbind mastermind_remove
cs421_exit-Tidy m t = record {
  resources = ground (arith, t.resources);
  known = ground (arith, t.known);
}

Event-Tidy : {m m' : Module} → Event m m' → Tidy m → Tidy m'
Event-Tidy (loads {m} random has_device has_driver a no_device no_driver) t =
    let off : m.bound ≡ false = ground (arith, t.known, no_device) in
    cs421_init-Tidy has_device has_driver a (record m { driver = loaded random; freed = [] }) off
      (record { resources = t.resources; known = t.known })
Event-Tidy (binds {m} a) t = bind-Tidy a m t
Event-Tidy (unbinds {m}) t = unbind-Tidy m t
Event-Tidy (works ss on) t = record { resources = t.resources; known = t.known }
Event-Tidy (unloads {m} on) t = cs421_exit-Tidy m t

Events-Tidy : {m m' : Module} → Events m m' → Tidy m → Tidy m'
Events-Tidy finished t = t
Events-Tidy (more e es) t = Events-Tidy es (Event-Tidy e t)

unloaded-Tidy : Tidy unloaded
unloaded-Tidy = record { resources = refl; known = λ e. absurd (cc e) }

-- Whatever happens to the module from the beginning, it holds all five resources of the kernel while its
-- driver is bound and none otherwise, and unloading it leaves none held and no device.
pub resources_held :
    {m : Module}
    → Events unloaded m
    → (m.held ≡ (if m.bound then all_held else nothing_held))
      × ((cs421_exit m).held ≡ nothing_held)
      × ((cs421_exit m).device ≡ false)
unfolding cs421_exit unbind mastermind_remove
resources_held {m} es =
    let t = Events-Tidy es unloaded-Tidy in (t.resources, ground (arith, t.resources), ground arith)

-- Whatever has happened to the module from the beginning: if its driver is bound, is unbound, and is bound
-- again with all requests granted, it is bound with the list of games that it had, all of whose nodes were
-- just freed.
pub bound_again :
    (a : Answers) {m : Module}
    → Events unloaded m
    → m.bound ≡ true
    → (a.stats && (a.mm && (a.mm_ctl && a.irq))) ≡ true
    → ((bind a (unbind m)).bound ≡ true)
      × ((bind a (unbind m)).driver.games_list ≡ m.driver.games_list)
      × ((bind a (unbind m)).freed ≡ m.freed ++ m.driver.games_list)
unfolding bind unbind mastermind_probe mastermind_remove
bound_again a {m} es on granted =
    let t = Events-Tidy es unloaded-Tidy in
    let (r, d) = t.known on in
    (
      ground (arith, on, r, d, granted),
      ground (arith, on, r, d, granted),
      ground (arith, on, r, d, granted),
    )
