-- ===== src/Network/Delivery.antt =====
-- Which packets of proj2/xt_cs421net.c reach the interrupt handler.
use mathlib.Core.List.{append_assoc}
use mathlib.Core.Option.{some-injective}
use cmsc421_os.Prelude.{
  ℕ, ◌+◌, ◌-◌, ◌≡◌, ◌≤◌, ◌⊎◌, inl, inr, refl, sym, ap, ◌∙◌, arith, Bool, true, false, Option, none,
  some, List, [], ◌∷◌, ◌++◌, length, drop, length-append,
}
use cmsc421_os.Network.{
  Net, cs421net_enable, get_oldest, cs421net_get_data, Skb, hdr_len, filter_tg, reinit_retrieved,
  drop_oldest, Worker, sleeping, waiting, clearing, System, work_begin, work_wake, work_end, handle,
}
use cmsc421_os.Network.Steps.{
  Log, Step, arrive, ignore, begin, begin_failed, take_packet, read, take_nothing, wake, end, Steps,
  finished, more, start, empty_log,
}

-- The packets that are left when so many of a list are taken out.
pub data Lacks : ℕ → List (List ℕ) → List (List ℕ) → Type 0 where
  no_packets : Lacks 0 [] []
  both :
      {n : ℕ} {ps qs : List (List ℕ)} (p : List ℕ)
      → Lacks n ps qs
      → Lacks n (ps ++ p ∷ []) (qs ++ p ∷ [])
  taken_out :
      {n : ℕ} {ps qs : List (List ℕ)} (p : List ℕ) → Lacks n ps qs → Lacks (n + 1) ps (qs ++ p ∷ [])

-- None is taken out exactly if all are left.
pub Lacks-length : {n : ℕ} {ps qs : List (List ℕ)} → Lacks n ps qs → length qs ≡ length ps + n
Lacks-length no_packets = refl
Lacks-length (both {n} {ps} {qs} p h) =
    omega (arith, Lacks-length h, length-append {0} ps (p ∷ []), length-append {0} qs (p ∷ []))
Lacks-length (taken_out {n} {ps} {qs} p h) =
    omega (arith, Lacks-length h, length-append {0} qs (p ∷ []))

pub Lacks-none : {n : ℕ} {ps qs : List (List ℕ)} → Lacks n ps qs → n ≡ 0 → ps ≡ qs
Lacks-none no_packets e = refl
Lacks-none (both p h) e = ap (λ ps. ps ++ p ∷ []) (Lacks-none h e)
Lacks-none (taken_out p h) e = absurd (omega (arith, e))

-- The handler has the pointer to the packet, or is through with it, or there was no interrupt for it.
abbrev pub Got :
    (dropped delivered : List (List ℕ)) (failed : ℕ) (reading : Option (List ℕ)) → List ℕ → Type 0
Got dropped delivered failed reading p =
    ((reading ≡ some p) × Lacks failed delivered dropped)
    ⊎ ((reading ≡ none) × Lacks failed delivered (dropped ++ p ∷ []))

-- What the worker's state says of the list, given the packets that were dropped from it.
abbrev pub Phase :
    Worker
    → (dropped delivered : List (List ℕ)) (failed : ℕ) (reading : Option (List ℕ)) (irqs calls : ℕ)
      (queued : Bool)
    → (packets : List (List ℕ)) → Type 0
Phase sleeping dropped delivered failed reading irqs calls queued packets =
    Lacks failed delivered dropped
    × (reading ≡ none)
    × (irqs ≡ 0)
    × (calls ≡ 0)
    × (queued ≡ true → 1 ≤ length packets)
Phase waiting dropped delivered failed reading irqs calls queued [] = ⊥
Phase waiting dropped delivered failed reading irqs calls queued (p ∷ ps) =
    (((irqs ≡ 1) × (calls ≡ 0) × (reading ≡ none) × Lacks failed delivered dropped)
      ⊎ ((irqs ≡ 0) × (calls ≡ 1) × Got dropped delivered failed reading p))
    × (queued ≡ true → 1 ≤ length ps)
Phase clearing dropped delivered failed reading irqs calls queued [] = ⊥
Phase clearing dropped delivered failed reading irqs calls queued (p ∷ ps) =
    (irqs ≡ 0)
    × (calls ≡ 0)
    × Got dropped delivered failed reading p
    × (queued ≡ true → 1 ≤ length ps)

Got-read :
    {dropped delivered : List (List ℕ)} {failed : ℕ} {reading : Option (List ℕ)} {q : List ℕ}
    (p : List ℕ)
    → reading ≡ some p
    → Got dropped delivered failed reading q
    → Got dropped (delivered ++ p ∷ []) failed none q
Got-read {q = q} p e (inl (same, left)) =
    let which : p ≡ q = some-injective p q (sym e ∙ same) in inr (refl, rw which (both q left))
Got-read p e (inr (through, left)) = absurd (cc (through, e))

module _ (dropped delivered : List (List ℕ)) (failed : ℕ) (reading : Option (List ℕ))
    (irqs calls : ℕ) (queued : Bool) where
  arrive-Phase :
      (w : Worker) (packets : List (List ℕ)) (x : List ℕ)
      → Phase w dropped delivered failed reading irqs calls queued packets
      → Phase w dropped delivered failed reading irqs calls true (packets ++ x ∷ [])
  arrive-Phase sleeping packets x h =
      (h.0, h.1, h.2, h.3, λ _. omega (arith, length-append {0} packets (x ∷ [])))
  arrive-Phase waiting [] x h = absurd h
  arrive-Phase waiting (p ∷ ps) x h = (h.0, λ _. omega (arith, length-append {0} ps (x ∷ [])))
  arrive-Phase clearing [] x h = absurd h
  arrive-Phase clearing (p ∷ ps) x h =
      (h.0, h.1, h.2, λ _. omega (arith, length-append {0} ps (x ∷ [])))

  begin-Phase :
      (packets : List (List ℕ))
      → queued ≡ true
      → Phase sleeping dropped delivered failed reading irqs calls queued packets
      → Phase waiting dropped delivered failed reading (irqs + 1) calls false packets
  begin-Phase [] q h = absurd (omega (arith, h.4 q))
  begin-Phase (p ∷ ps) q h = (inl (omega (arith, h.2), h.3, h.1, h.0), λ e. absurd (cc e))

  begin_failed-Phase :
      (packets : List (List ℕ))
      → queued ≡ true
      → Phase sleeping dropped delivered failed reading irqs calls queued packets
      → Phase clearing dropped delivered (failed + 1) reading irqs calls false packets
  begin_failed-Phase [] q h = absurd (omega (arith, h.4 q))
  begin_failed-Phase (p ∷ ps) q h = (h.2, h.3, inr (h.1, taken_out p h.0), λ e. absurd (cc e))

  take-Phase :
      (w : Worker) (p : List ℕ) (ps : List (List ℕ))
      → 1 ≤ irqs
      → Phase w dropped delivered failed reading irqs calls queued (p ∷ ps)
      → Phase w dropped delivered failed (some p) (irqs - 1) (calls + 1) queued (p ∷ ps)
  take-Phase sleeping p ps irq h = absurd (omega (arith, irq, h.2))
  take-Phase waiting p ps irq (inl h, q) =
      (inr (omega (arith, h.0), omega (arith, h.1), inl (refl, h.3)), q)
  take-Phase waiting p ps irq (inr h, q) = absurd (omega (arith, irq, h.0))
  take-Phase clearing p ps irq h = absurd (omega (arith, irq, h.0))

  read-Phase :
      (w : Worker) (packets : List (List ℕ)) (p : List ℕ)
      → reading ≡ some p
      → Phase w dropped delivered failed reading irqs calls queued packets
      → Phase w dropped (delivered ++ p ∷ []) failed none irqs calls queued packets
  read-Phase sleeping packets p e h = absurd (cc (h.1, e))
  read-Phase waiting [] p e h = absurd h
  read-Phase waiting (q ∷ ps) p e (inl h, k) = absurd (cc (h.2, e))
  read-Phase waiting (q ∷ ps) p e (inr h, k) = (inr (h.0, h.1, Got-read p e h.2), k)
  read-Phase clearing [] p e h = absurd h
  read-Phase clearing (q ∷ ps) p e h = (h.0, h.1, Got-read p e h.2, h.3)

  pub nothing-Phase :
      (w : Worker) → 1 ≤ irqs → ¬ Phase w dropped delivered failed reading irqs calls queued []
  nothing-Phase sleeping irq h = omega (arith, irq, h.2)
  nothing-Phase waiting irq h = h
  nothing-Phase clearing irq h = h

  wake-Phase :
      (packets : List (List ℕ))
      → 1 ≤ calls
      → Phase waiting dropped delivered failed reading irqs calls queued packets
      → Phase clearing dropped delivered failed reading irqs 0 queued packets
  wake-Phase [] c h = h
  wake-Phase (p ∷ ps) c (inl h, q) = absurd (omega (arith, c, h.1))
  wake-Phase (p ∷ ps) c (inr h, q) = (h.0, refl, h.2, q)

pub filter-cases :
    (p : Skb) (n : Net)
    → (filter_tg p n
        ≡ record n { packets = n.packets ++ drop (hdr_len p) p.bytes ∷ []; queued = true })
      ⊎ (filter_tg p n ≡ n)
unfolding filter_tg
filter-cases p n = ground arith

pub packet-cases :
    (packets : List (List ℕ))
    → (packets ≡ []) ⊎ ((p : List ℕ) × (ps : List (List ℕ)) × (packets ≡ p ∷ ps))
packet-cases [] = inl refl
packet-cases (p ∷ ps) = inr (p, ps, refl)

all_through :
    {dropped delivered : List (List ℕ)} {failed : ℕ} {reading : Option (List ℕ)} {p : List ℕ}
    → reading ≡ none
    → Got dropped delivered failed reading p
    → Lacks failed delivered (dropped ++ p ∷ [])
all_through e (inl (busy, left)) = absurd (cc (busy, e))
all_through e (inr (through, left)) = left

pub record Ordered (s : System) (l : Log) : Type 0 where
  pub dropped : List (List ℕ)
  pub kept : l.arrived ≡ dropped ++ s.net.packets
  pub phase :
      Phase s.worker dropped l.delivered l.failed s.reading s.irqs s.net.done s.net.queued
        s.net.packets

pub Step-Ordered : {s s' : System} {l l' : Log} → Step s l s' l' → Ordered s l → Ordered s' l'
unfolding handle cs421net_get_data get_oldest work_begin work_wake work_end reinit_retrieved
    drop_oldest
Step-Ordered {s} {s'} {l} {l'} (arrive p took) o = elim (filter-cases p s.net) [
  | inl added ↦ rw added (record {
    dropped = o.dropped;
    kept =
        ap (λ a. a ++ drop (hdr_len p) p.bytes ∷ []) o.kept
        ∙ append_assoc o.dropped s.net.packets _;
    phase =
        arrive-Phase o.dropped l.delivered l.failed s.reading s.irqs s.net.done s.net.queued
          s.worker s.net.packets (drop (hdr_len p) p.bytes) o.phase;
  })
  | inr same ↦ absurd (omega (arith, took, ap (λ n. length n.packets) same))
]
Step-Ordered (ignore p same) o = o
Step-Ordered {s} {l = l} (begin queued asleep) o = record {
  dropped = o.dropped;
  kept = o.kept;
  phase =
      begin-Phase o.dropped l.delivered l.failed s.reading s.irqs s.net.done s.net.queued
        s.net.packets queued (rw asleep at o.phase);
}
Step-Ordered {s} {l = l} (begin_failed queued asleep) o = record {
  dropped = o.dropped;
  kept = o.kept;
  phase =
      begin_failed-Phase o.dropped l.delivered l.failed s.reading s.irqs s.net.done s.net.queued
        s.net.packets queued (rw asleep at o.phase);
}
Step-Ordered {s} {l = l} (read {p = p} e) o = record {
  dropped = o.dropped;
  kept = o.kept;
  phase =
      read-Phase o.dropped l.delivered l.failed s.reading s.irqs s.net.done s.net.queued s.worker
        s.net.packets p e o.phase;
}
Step-Ordered {s} {s'} {l} (take_packet {p = p} irq e) o = elim (packet-cases s.net.packets) [
  | inl empty ↦ absurd (
      nothing-Phase o.dropped l.delivered l.failed s.reading s.irqs s.net.done s.net.queued s.worker
        irq (rw empty at o.phase))
  | inr (q, ps, list) ↦
      let got : handle s ≡ (
        some q,
        record s {
          net = record s.net { done = s.net.done + 1 };
          irqs = s.irqs - 1;
          reading = some q;
        },
      ) =
        rw (list, handle, get_oldest) refl in
      let same : s' ≡ record s {
        net = record s.net { done = s.net.done + 1 };
        irqs = s.irqs - 1;
        reading = some q;
      } =
        cc (got, e) in
      rw same (record {
        dropped = o.dropped;
        kept = o.kept;
        phase = rw list (
            take-Phase o.dropped l.delivered l.failed s.reading s.irqs s.net.done s.net.queued
              s.worker q ps irq (rw list at o.phase));
      })
]
Step-Ordered {s} {s'} {l} (take_nothing irq e) o = elim (packet-cases s.net.packets) [
  | inl empty ↦ absurd (
      nothing-Phase o.dropped l.delivered l.failed s.reading s.irqs s.net.done s.net.queued s.worker
        irq (rw empty at o.phase))
  | inr (q, ps, list) ↦
      let got : (handle s).0 ≡ some q = rw (list, handle, get_oldest) refl in absurd (cc (got, e))
]
Step-Ordered {s} {l = l} (wake waits called) o = record {
  dropped = o.dropped;
  kept = o.kept;
  phase =
      wake-Phase o.dropped l.delivered l.failed s.reading s.irqs s.net.done s.net.queued
        s.net.packets called (rw waits at o.phase);
}
Step-Ordered {s} {l = l} (end clears through) o = elim (packet-cases s.net.packets) [
  | inl empty ↦ absurd (rw (clears, empty) at o.phase)
  | inr (p, ps, list) ↦
      let phase : Phase clearing o.dropped l.delivered l.failed s.reading s.irqs s.net.done
          s.net.queued (p ∷ ps) =
        rw (clears, list) at o.phase in
      let left = all_through through phase.2 in
      record {
        dropped = o.dropped ++ p ∷ [];
        kept = rw list (o.kept ∙ (rw list (sym (append_assoc o.dropped (p ∷ []) ps))));
        phase = rw list (left, through, phase.0, phase.1, phase.3);
      }
]

Steps-Ordered : {s s' : System} {l l' : Log} → Steps s l s' l' → Ordered s l → Ordered s' l'
Steps-Ordered finished o = o
Steps-Ordered (more step steps) o = Steps-Ordered steps (Step-Ordered step o)

pub start-Ordered : Ordered start empty_log
unfolding cs421net_enable
start-Ordered = record {
  dropped = [];
  kept = refl;
  phase = (no_packets, refl, refl, refl, λ e. absurd (cc e));
}

pub reached-Ordered : {s : System} {l : Log} → Steps start empty_log s l → Ordered s l
reached-Ordered steps = Steps-Ordered steps start-Ordered

-- The packets that an interrupt was raised for or that it failed for, and those that are left of them.
abbrev pub HandedOver : (arrived delivered : List (List ℕ)) (failed : ℕ) → Type 0
HandedOver arrived delivered failed =
    (first rest : List (List ℕ)) × (arrived ≡ first ++ rest) × Lacks failed delivered first

Got-first :
    {dropped delivered : List (List ℕ)} {failed : ℕ} {reading : Option (List ℕ)} (p : List ℕ)
    (ps : List (List ℕ))
    → Got dropped delivered failed reading p
    → HandedOver (dropped ++ p ∷ ps) delivered failed
Got-first {dropped} p ps (inl (busy, left)) = (dropped, p ∷ ps, refl, left)
Got-first {dropped} p ps (inr (through, left)) =
    (dropped ++ p ∷ [], ps, sym (append_assoc dropped (p ∷ []) ps), left)

delivered_first :
    (w : Worker) (dropped delivered : List (List ℕ)) (failed : ℕ) (reading : Option (List ℕ))
    (irqs calls : ℕ) (queued : Bool) (packets : List (List ℕ))
    → Phase w dropped delivered failed reading irqs calls queued packets
    → HandedOver (dropped ++ packets) delivered failed
delivered_first sleeping dropped delivered failed reading irqs calls queued packets h =
    (dropped, packets, refl, h.0)
delivered_first waiting dropped delivered failed reading irqs calls queued [] h = absurd h
delivered_first waiting dropped delivered failed reading irqs calls queued (p ∷ ps) (inl h, q) =
    (dropped, p ∷ ps, refl, h.3)
delivered_first waiting dropped delivered failed reading irqs calls queued (p ∷ ps) (inr h, q) =
    Got-first p ps h.2
delivered_first clearing dropped delivered failed reading irqs calls queued [] h = absurd h
delivered_first clearing dropped delivered failed reading irqs calls queued (p ∷ ps) h =
    Got-first p ps h.2

pub Ordered-first : {s : System} {l : Log} → Ordered s l → HandedOver l.arrived l.delivered l.failed
Ordered-first {s} {l} o =
    let (first, rest, e, left) =
      delivered_first s.worker o.dropped l.delivered l.failed s.reading s.irqs s.net.done
        s.net.queued s.net.packets o.phase in
    (first, rest, o.kept ∙ e, left)

-- In every run from the start, with the device enabled and no packet freed while the handler has a pointer
-- to it, the packets that the handler has got are the first ones that arrived, each once and in their
-- order, without as many of them as there were interrupts that could not be raised.
pub Steps-in_order :
    {s : System} {l : Log} → Steps start empty_log s l → HandedOver l.arrived l.delivered l.failed
Steps-in_order steps = Ordered-first (reached-Ordered steps)
