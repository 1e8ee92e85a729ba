-- ===== src/Network/Queue.antt =====
-- proj2/xt_cs421net.c and a queue of packets, its abstract view.
use mathlib.Core.Option.{some-injective}
use cmsc421_os.Prelude.{
  ℕ, ◌+◌, ◌-◌, ◌≡◌, ◌≤◌, inl, inr, refl, sym, ◌∙◌, ap, arith, Bool, true, false, Option, none, some,
  List, [], ◌∷◌, ◌++◌, ◌==◌, if◌then◌else◌, length, drop,
}
use cmsc421_os.Network.{
  get_oldest, cs421net_get_data, hdr_len, reinit_retrieved, drop_oldest, Worker, sleeping, waiting,
  clearing, System, work_begin, work_wake, work_end, handle,
}
use cmsc421_os.Network.Steps.{
  Log, Step, arrive, ignore, begin, begin_failed, take_packet, read, take_nothing, wake, end, Steps,
  start, empty_log,
}
use cmsc421_os.Network.Delivery.{
  Got, Phase, Ordered, filter-cases, packet-cases, nothing-Phase, reached-Ordered,
}

-- A queue of packets and the log: it rests, takes a packet in, gives its oldest one out, or loses it.
pub data Queue : List (List ℕ) → Log → List (List ℕ) → Log → Type 0 where
  rests : {q : List (List ℕ)} {l : Log} → Queue q l q l
  puts :
      {q : List (List ℕ)} {l : Log} (p : List ℕ)
      → Queue q l (q ++ p ∷ []) (record l { arrived = l.arrived ++ p ∷ [] })
  gives :
      {q : List (List ℕ)} {l : Log} (p : List ℕ)
      → Queue (p ∷ q) l q (record l { delivered = l.delivered ++ p ∷ [] })
  loses :
      {q : List (List ℕ)} {l : Log} (p : List ℕ)
      → Queue (p ∷ q) l q (record l { failed = l.failed + 1 })

-- The oldest packet stays in the list for a while after the handler is through with it.
abbrev pub behind_reading : Option (List ℕ) → List (List ℕ) → List (List ℕ)
behind_reading none packets = drop 1 packets
behind_reading (some p) packets = packets

-- The packets that the handler has still to get.
abbrev pub waiting_packets : Worker → (irqs : ℕ) → Option (List ℕ) → List (List ℕ) → List (List ℕ)
waiting_packets sleeping irqs reading packets = packets
waiting_packets waiting irqs reading packets =
    if irqs == 0 then behind_reading reading packets else packets
waiting_packets clearing irqs reading packets = behind_reading reading packets

abbrev pub pending : System → List (List ℕ)
pending s = waiting_packets s.worker s.irqs s.reading s.net.packets

behind-append :
    (reading : Option (List ℕ)) (p : List ℕ) (ps : List (List ℕ)) (x : List ℕ)
    → behind_reading reading (p ∷ ps ++ x ∷ []) ≡ behind_reading reading (p ∷ ps) ++ x ∷ []
behind-append none p ps x = refl
behind-append (some q) p ps x = refl

oldest :
    {dropped delivered : List (List ℕ)} {failed : ℕ} {reading : Option (List ℕ)} (q p : List ℕ)
    → reading ≡ some p
    → Got dropped delivered failed reading q
    → q ≡ p
oldest q p e (inl (same, left)) = some-injective q p (sym same ∙ e)
oldest q p e (inr (through, left)) = absurd (cc (through, e))

module _ (dropped delivered : List (List ℕ)) (failed : ℕ) (reading : Option (List ℕ))
    (irqs calls : ℕ) (queued : Bool) where
  one_more :
      (w : Worker) (packets : List (List ℕ)) (x : List ℕ)
      → Phase w dropped delivered failed reading irqs calls queued packets
      → waiting_packets w irqs reading (packets ++ x ∷ [])
        ≡ waiting_packets w irqs reading packets ++ x ∷ []
  one_more sleeping packets x h = refl
  one_more waiting [] x h = absurd h
  one_more waiting (p ∷ ps) x h = ground (arith, behind-append reading p ps x)
  one_more clearing [] x h = absurd h
  one_more clearing (p ∷ ps) x h = behind-append reading p ps x

  -- The pointer that the handler gets is that of a packet still to get.
  pointed_at :
      (w : Worker) (p : List ℕ) (ps : List (List ℕ))
      → 1 ≤ irqs
      → Phase w dropped delivered failed reading irqs calls queued (p ∷ ps)
      → waiting_packets w (irqs - 1) (some p) (p ∷ ps) ≡ waiting_packets w irqs reading (p ∷ ps)
  pointed_at sleeping p ps irq h = absurd (omega (arith, irq, h.2))
  pointed_at waiting p ps irq (inl h, q) = let one = h.0 in ground arith
  pointed_at waiting p ps irq (inr h, q) = absurd (omega (arith, irq, h.0))
  pointed_at clearing p ps irq h = absurd (omega (arith, irq, h.0))

  -- What the handler is through with is the oldest packet still to get.
  handed_over :
      (w : Worker) (packets : List (List ℕ)) (p : List ℕ)
      → reading ≡ some p
      → Phase w dropped delivered failed reading irqs calls queued packets
      → waiting_packets w irqs reading packets ≡ p ∷ waiting_packets w irqs none packets
  handed_over sleeping packets p e h = absurd (cc (h.1, e))
  handed_over waiting [] p e h = absurd h
  handed_over waiting (q ∷ ps) p e (inl h, k) = absurd (cc (h.2, e))
  handed_over waiting (q ∷ ps) p e (inr h, k) =
      let none_left = h.0 in let first = oldest q p e h.2 in ground (arith, first, e)
  handed_over clearing [] p e h = absurd h
  handed_over clearing (q ∷ ps) p e h = let first = oldest q p e h.2 in rw (e, first) refl

  all_handled :
      (packets : List (List ℕ))
      → 1 ≤ calls
      → Phase waiting dropped delivered failed reading irqs calls queued packets
      → waiting_packets waiting irqs reading packets ≡ behind_reading reading packets
  all_handled [] c h = absurd h
  all_handled (p ∷ ps) c (inl h, q) = absurd (omega (arith, c, h.1))
  all_handled (p ∷ ps) c (inr h, q) = let none_left = h.0 in ground arith

  -- An interrupt that cannot be raised is one for the oldest packet.
  given_up :
      (packets : List (List ℕ))
      → queued ≡ true
      → Phase sleeping dropped delivered failed reading irqs calls queued packets
      → (p : List ℕ) × (packets ≡ p ∷ behind_reading reading packets)
  given_up [] q h = absurd (omega (arith, h.4 q))
  given_up (p ∷ ps) q h = (p, rw (h.1) refl)

at_rest : {q q' : List (List ℕ)} (l : Log) → q' ≡ q → Queue q l q' l
at_rest l e = rw e rests

step-Queue :
    {s s' : System} {l l' : Log}
    → Step s l s' l'
    → Ordered s l
    → Queue (pending s) l (pending s') l'
unfolding handle cs421net_get_data get_oldest work_begin work_wake work_end reinit_retrieved
    drop_oldest
step-Queue {s} {l = l} (arrive p took) o = elim (filter-cases p s.net) [
  | inl added ↦
      let longer =
        one_more o.dropped l.delivered l.failed s.reading s.irqs s.net.done s.net.queued s.worker
          s.net.packets (drop (hdr_len p) p.bytes) o.phase in
      rw (added, longer) (puts (drop (hdr_len p) p.bytes))
  | inr same ↦ absurd (omega (arith, took, ap (λ n. length n.packets) same))
]
step-Queue (ignore p same) o = rests
step-Queue {s} {l = l} (begin queued asleep) o =
    let raised : (s.irqs + 1 == 0) ≡ false = ground arith in at_rest l (rw (raised, asleep) refl)
step-Queue {s} {l = l} (begin_failed queued asleep) o =
    let (p, list) =
      given_up o.dropped l.delivered l.failed s.reading s.irqs s.net.done s.net.queued s.net.packets
        queued (rw asleep at o.phase) in
    let rest : List (List ℕ) = behind_reading s.reading s.net.packets in
    let before : pending s ≡ p ∷ rest = rw asleep list in rw before (loses {q = rest} p)
step-Queue {s} {l = l} (read {p = p} e) o =
    let before =
      handed_over o.dropped l.delivered l.failed s.reading s.irqs s.net.done s.net.queued s.worker
        s.net.packets p e o.phase in
    rw before (gives p)
step-Queue {s} {s'} {l} (take_packet {p = p} irq e) o = elim (packet-cases s.net.packets) [
  | inl empty ↦ absurd (
      nothing-Phase o.dropped l.delivered l.failed s.reading s.irqs s.net.done s.net.queued s.worker
        irq (rw empty at o.phase))
  | inr (q, ps, list) ↦
      let after : System = record s {
        net = record s.net { done = s.net.done + 1 };
        irqs = s.irqs - 1;
        reading = some q;
      } in
      let got : handle s ≡ (some q, after) = rw (list, handle, get_oldest) refl in
      let same : s' ≡ after = cc (got, e) in
      let pointed =
        pointed_at o.dropped l.delivered l.failed s.reading s.irqs s.net.done s.net.queued s.worker
          q ps irq (rw list at o.phase) in
      at_rest l (rw (same, list) pointed)
]
step-Queue {s} {s'} {l} (take_nothing irq e) o = elim (packet-cases s.net.packets) [
  | inl empty ↦ absurd (
      nothing-Phase o.dropped l.delivered l.failed s.reading s.irqs s.net.done s.net.queued s.worker
        irq (rw empty at o.phase))
  | inr (q, ps, list) ↦
      let got : (handle s).0 ≡ some q = rw (list, handle, get_oldest) refl in absurd (cc (got, e))
]
step-Queue {s} {l = l} (wake waits called) o =
    let handled =
      all_handled o.dropped l.delivered l.failed s.reading s.irqs s.net.done s.net.queued
        s.net.packets called (rw waits at o.phase) in
    at_rest l (rw (waits, handled) refl)
step-Queue {s} {l = l} (end clears through) o = at_rest l (rw (clears, through) refl)

-- Every step of the device, its worker and its handler, also the one in which an interrupt cannot be raised,
-- is a step of a queue of packets with the same log, in a state that they reach from the start with the
-- device enabled and no packet freed while the handler has a pointer to it.
pub Step-Queue :
    {s s' : System} {l l' : Log}
    → Steps start empty_log s l
    → Step s l s' l'
    → Queue (pending s) l (pending s') l'
Step-Queue steps m = step-Queue m (reached-Ordered steps)
