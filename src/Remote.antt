-- ===== src/Remote.antt =====
-- proj2/xt_cs421net.c and proj2/mastermind2.c together: the device raises an interrupt, and the driver's
-- handler asks it for the packet, while users make their calls.
pub mod Counted
mod Tests
use cmsc421_os.Prelude.{ℕ, ◌-◌, ◌≡◌, ◌≤◌, Bool, false, none, some, List, [], ◌∷◌, ◌++◌}
use cmsc421_os.Prelude.Int.{ℤ}
use cmsc421_os.Network.{System, handle}
use cmsc421_os.Network.Steps.{
  Log, Step, arrive, ignore, begin, begin_failed, take_packet, read, take_nothing, wake, end,
}
use cmsc421_os.Mastermind2.State.{Driver}
use cmsc421_os.Mastermind2.System.{Section, find, write, control, network, step, reply, is_fault}

-- The steps in which the handler does its work.
abbrev pub Handles : {s s' : System} {l l' : Log} → Step s l s' l' → Type 0
Handles (arrive p took) = ⊥
Handles (ignore p same) = ⊥
Handles (begin queued asleep) = ⊥
Handles (begin_failed queued asleep) = ⊥
Handles (take_packet irq e) = ⊥
Handles (read e) = Unit
Handles (take_nothing irq e) = Unit
Handles (wake waits called) = ⊥
Handles (end clears through) = ⊥

abbrev pub IsUser : Section → Type 0
IsUser (find player m) = Unit
IsUser (write curr highest guess size) = Unit
IsUser (control r c curr) = Unit
IsUser (network highest packet) = ⊥

-- A step of the device, its worker and the handler's first part, `cs421net_get_data`; the rest of
-- `cs421net_bottom`, which uses the packet and takes the lock; or a critical section of a user, if it has no
-- fault. The handler has read `highest_digit` at some time before.
-- It has the driver's lock when it asks the device; here users' sections may also come in between.
pub data Joint : System → Log → Driver → System → Log → Driver → Type 0 where
  device :
      {s s' : System} {l l' : Log} {d : Driver} (m : Step s l s' l')
      → ¬ Handles m
      → Joint s l d s' l' d
  handler :
      {s : System} {l : Log} {d : Driver} {p : List ℕ} (highest : ℤ)
      → s.reading ≡ some p
      → Joint s l d
          (record s { reading = none })
          (record l { delivered = l.delivered ++ p ∷ [] })
          (step (network highest p) d)
  handler_of_nothing :
      {s s' : System} {l : Log} {d : Driver} (highest : ℤ)
      → 1 ≤ s.irqs
      → handle s ≡ (none, s')
      → Joint s l d s' l (step (network highest []) d)
  user :
      {s : System} {l : Log} {d : Driver} (section : Section)
      → IsUser section
      → is_fault (reply section d) ≡ false
      → Joint s l d s l (step section d)

pub data Joints : System → Log → Driver → System → Log → Driver → Type 0 where
  finished : {s : System} {l : Log} {d : Driver} → Joints s l d s l d
  more :
      {s s' s'' : System} {l l' l'' : Log} {d d' d'' : Driver}
      → Joint s l d s' l' d'
      → Joints s' l' d' s'' l'' d''
      → Joints s l d s'' l'' d''
