-- ===== src/Network.antt =====
-- proj2/xt_cs421net.c, the virtual network device: captured packets wait in a list, and a work item
-- raises one interrupt for the oldest of them.
pub mod Steps
pub mod Delivery
pub mod Queue
pub mod Missed
mod Tests
use cmsc421_os.Prelude.{
  ℕ, zero, suc, ◌+◌, ◌-◌, ◌%◌, Bool, true, false, not, ◌&&◌, ◌||◌, Option, none, some, List, [],
  ◌∷◌, ◌++◌, ltb, leb, ◌==◌, if◌then◌else◌, length, drop,
}

-- `done` counts the calls of `complete` on `retrieved` that nobody has waited for; `open_all` says that
-- `complete_all` was called. `queued` says that `cs421net_work` waits to be run.
pub record Net : Type 0 where
  pub enabled : Bool
  pub done : ℕ
  pub open_all : Bool
  pub packets : List (List ℕ)
  pub queued : Bool

abbrev pub initial : Net
initial = record { enabled = false; done = 0; open_all = false; packets = []; queued = false }

unfoldable pub cs421net_enable : Net → Net
cs421net_enable n = record n { enabled = true; done = 0; open_all = false }

-- `completion_done` is tested before `complete_all`.
unfoldable pub cs421net_disable : Net → Net
cs421net_disable n =
    if n.open_all || not (n.done == 0)
    then record n { enabled = false }
    else record n { enabled = false; open_all = true }

-- The oldest packet stays in the list: the pointer to it is returned.
unfoldable pub get_oldest : List (List ℕ) → Net → Option (List ℕ) × Net
get_oldest [] n = (none, n)
get_oldest (p ∷ ps) n = (some p, record n { done = n.done + 1 })

unfoldable pub cs421net_get_data : Net → Option (List ℕ) × Net
unfolding get_oldest
cs421net_get_data n = get_oldest n.packets n

-- A packet as the filter sees it; `is_tcp` is false also without an IP header. `has_node` and `has_data`
-- say whether the two calls of `kmalloc` succeed.
pub record Skb : Type 0 where
  pub is_tcp : Bool
  pub bytes : List ℕ
  pub transport_offset : ℕ
  pub tcp_hdrlen : ℕ
  pub has_node : Bool
  pub has_data : Bool

-- `hdr_len` is a byte.
abbrev pub hdr_len : Skb → ℕ
hdr_len s = (s.transport_offset + s.tcp_hdrlen) % 256

-- `queue_work` does nothing for work that is queued already.
unfoldable pub filter_tg : Skb → Net → Net
filter_tg s n =
    if n.enabled && (s.is_tcp && (ltb (hdr_len s) (length s.bytes) && (s.has_node && s.has_data)))
    then record n { packets = n.packets ++ drop (hdr_len s) s.bytes ∷ []; queued = true }
    else n

-- `cs421net_work_func` behind `wait_for_completion_interruptible`, and its last part.
unfoldable pub reinit_retrieved : Net → Net
reinit_retrieved n = record n { done = 0; open_all = false }

unfoldable pub drop_oldest : Net → Net
drop_oldest n = record n { packets = drop 1 n.packets }

-- The thread that runs the work item: it sleeps, waits for the handler, or is about to drop the oldest
-- packet.
pub data Worker : Type 0 where
  sleeping waiting clearing : Worker

-- The device, its worker, the interrupts raised and not yet handled, and the packet that the interrupt
-- handler has a pointer to and is not through with.
pub record System : Type 0 where
  pub net : Net
  pub worker : Worker
  pub irqs : ℕ
  pub reading : Option (List ℕ)

-- The start of `cs421net_work_func`: `raised` says whether `trigger_irq` succeeds.
unfoldable pub work_begin : (raised : Bool) → System → System
work_begin raised s =
    if raised
    then record s { net = record s.net { queued = false }; worker = waiting; irqs = s.irqs + 1 }
    else record s { net = record s.net { queued = false }; worker = clearing }

unfoldable pub work_wake : System → System
unfolding reinit_retrieved
work_wake s = record s { net = reinit_retrieved s.net; worker = clearing }

unfoldable pub work_end : System → System
unfolding drop_oldest
work_end s = record s { net = drop_oldest s.net; worker = sleeping }

-- The handler takes one interrupt and asks for the oldest packet. `cs421net_get_data` calls `complete`
-- before it reads the packet, so that from here on the worker runs while the handler reads.
unfoldable pub handle : System → Option (List ℕ) × System
handle s =
    let (got, net) = cs421net_get_data s.net in
    (got, record s { net = net; irqs = s.irqs - 1; reading = got })

-- What the module holds of the kernel.
pub record Setup : Type 0 where
  pub workqueue : Bool
  pub target : Bool

-- Whether it returns 0, and what is held then.
unfoldable pub cs421net_init : (created registered : Bool) → Setup → Bool × Setup
cs421net_init created registered h =
    if not created
    then (false, h)
    else if not registered
    then (false, record h { workqueue = false })
    else (true, record h { workqueue = true; target = true })

-- The packets that are freed, the device and what is held then; the list itself is not reset.
unfoldable pub cs421net_exit : Net → Setup → List (List ℕ) × Net × Setup
cs421net_exit n h = (
  n.packets,
  record n { enabled = false; open_all = true; queued = false },
  record h { workqueue = false; target = false },
)
