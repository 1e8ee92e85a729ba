-- ===== src/Network/Steps.antt =====
-- The steps of proj2/xt_cs421net.c: the filter, the worker and the interrupt handler, in any order.
use cmsc421_os.Prelude.{
  ℕ, ◌+◌, ◌≡◌, ◌≤◌, true, false, none, some, List, [], ◌∷◌, ◌++◌, length, drop,
}
use cmsc421_os.Network.{
  initial, cs421net_enable, Skb, hdr_len, filter_tg, sleeping, waiting, clearing, System,
  work_begin, work_wake, work_end, handle,
}

-- The packets that the filter took, those that the handler got, and how many interrupts could not be
-- raised.
pub record Log : Type 0 where
  pub arrived : List (List ℕ)
  pub delivered : List (List ℕ)
  pub failed : ℕ

-- The steps while the device is enabled, in any order. The worker begins when its work is queued and it
-- sleeps, raises an interrupt or fails to, and goes on when the completion is done. The handler gets the
-- pointer in one step and is through with the packet in a later one; where the worker frees the packet in
-- between, the handler reads freed memory, and there is no step.
pub data Step : System → Log → System → Log → Type 0 where
  arrive :
      {s : System} {l : Log} (p : Skb)
      → length (filter_tg p s.net).packets ≡ length s.net.packets + 1
      → Step s l
          (record s { net = filter_tg p s.net })
          (record l { arrived = l.arrived ++ drop (hdr_len p) p.bytes ∷ [] })
  ignore : {s : System} {l : Log} (p : Skb) → filter_tg p s.net ≡ s.net → Step s l s l
  begin :
      {s : System} {l : Log}
      → s.net.queued ≡ true
      → s.worker ≡ sleeping
      → Step s l (work_begin true s) l
  begin_failed :
      {s : System} {l : Log}
      → s.net.queued ≡ true
      → s.worker ≡ sleeping
      → Step s l (work_begin false s) (record l { failed = l.failed + 1 })
  take_packet :
      {s s' : System} {l : Log} {p : List ℕ} → 1 ≤ s.irqs → handle s ≡ (some p, s') → Step s l s' l
  read :
      {s : System} {l : Log} {p : List ℕ}
      → s.reading ≡ some p
      → Step s l (record s { reading = none }) (record l { delivered = l.delivered ++ p ∷ [] })
  take_nothing : {s s' : System} {l : Log} → 1 ≤ s.irqs → handle s ≡ (none, s') → Step s l s' l
  wake : {s : System} {l : Log} → s.worker ≡ waiting → 1 ≤ s.net.done → Step s l (work_wake s) l
  end : {s : System} {l : Log} → s.worker ≡ clearing → s.reading ≡ none → Step s l (work_end s) l

pub data Steps : System → Log → System → Log → Type 0 where
  finished : {s : System} {l : Log} → Steps s l s l
  more :
      {s s' s'' : System} {l l' l'' : Log}
      → Step s l s' l'
      → Steps s' l' s'' l''
      → Steps s l s'' l''

abbrev pub start : System
start = record { net = cs421net_enable initial; worker = sleeping; irqs = 0; reading = none }

abbrev pub empty_log : Log
empty_log = record { arrived = []; delivered = []; failed = 0 }
