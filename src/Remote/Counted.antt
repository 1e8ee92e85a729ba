-- ===== src/Remote/Counted.antt =====
-- What becomes in proj2/mastermind2.c of the packets that proj2/xt_cs421net.c captures.
use mathlib.Core.List.{append-nil, append_assoc}
use mathlib.Core.Option.{some-injective}
use cmsc421_os.Prelude.{
  ℕ, ◌+◌, ◌%◌, ◌^◌, ◌≡◌, ◌≤◌, refl, sym, ap, ◌∙◌, arith, inl, inr, Bool-cases, false, Option, none,
  some, List, [], ◌∷◌, ◌++◌, length,
}
use cmsc421_os.Prelude.Int.{ℤ}
use cmsc421_os.Network.{System, handle, get_oldest, cs421net_get_data}
use cmsc421_os.Network.Steps.{
  Log, Step, arrive, ignore, begin, begin_failed, take_packet, read, take_nothing, wake, end, start,
  empty_log,
}
use cmsc421_os.Network.Delivery.{
  Ordered, Step-Ordered, start-Ordered, packet-cases, nothing-Phase, Ordered-first, Lacks-length,
  HandedOver,
}
use cmsc421_os.Mastermind2.State.{Memory, Driver, find_game, add_game, on_game}
use cmsc421_os.Mastermind2.Game.{mm_write_body}
use cmsc421_os.Mastermind2.Control.{
  Rodata, Call, start_game, set_colors, command, mm_ctl_write_body,
}
use cmsc421_os.Mastermind2.Network.{cs421net_bottom_body}
use cmsc421_os.Mastermind2.System.{
  Section, find, write, control, network, step, run, reply, is_fault, completes, completes-run,
}
use cmsc421_os.Remote.{
  Handles, IsUser, Joint, device, handler, handler_of_nothing, user, Joints, finished, more,
}

-- The packets that the handler works on, in the order of the sections.
unfoldable pub packets : List Section → List (List ℕ)
packets [] = []
packets (find player m ∷ ss) = packets ss
packets (write curr highest guess size ∷ ss) = packets ss
packets (control r c curr ∷ ss) = packets ss
packets (network highest packet ∷ ss) = packet ∷ packets ss

-- The packets that have been counted, as a change or as an invalid attempt.
abbrev pub counted : Driver → ℕ
counted d = d.times_target_code_changed + d.num_invalid_change_attempts

find-counted : (player : ℕ) (m : Memory) (d : Driver) → counted (find_game player m d).1 ≡ counted d
unfolding find_game add_game
find-counted player m d = ground arith

write-counted :
    (curr : Option ℕ) (highest : ℤ) (guess : List ℕ) (size : ℕ) (d : Driver)
    → counted (mm_write_body curr highest guess size d).1 ≡ counted d
unfolding mm_write_body on_game
write-counted curr highest guess size d = ground arith

control-counted :
    (r : Rodata) (c : Call) (curr : Option ℕ) (d : Driver)
    → counted (mm_ctl_write_body r c curr d).1 ≡ counted d
unfolding mm_ctl_write_body command start_game set_colors
control-counted r c curr d = ground arith

bottom-counted :
    (highest : ℤ) (packet : List ℕ) (d : Driver)
    → counted (cs421net_bottom_body highest packet d) % 2 ^ 32 ≡ (counted d + 1) % 2 ^ 32
unfolding cs421net_bottom_body
bottom-counted highest packet d = ground arith

-- A run of critical sections counts each packet once, modulo 2^32.
run-counted :
    (ss : List Section) (d : Driver)
    → counted (run ss d) % 2 ^ 32 ≡ (counted d + length (packets ss)) % 2 ^ 32
unfolding run step packets
run-counted [] d = omega arith
run-counted (find player m ∷ ss) d =
    omega (arith, run-counted ss (find_game player m d).1, find-counted player m d)
run-counted (write curr highest guess size ∷ ss) d = omega (
  arith,
  run-counted ss (mm_write_body curr highest guess size d).1,
  write-counted curr highest guess size d,
)
run-counted (control r c curr ∷ ss) d =
    omega (arith, run-counted ss (mm_ctl_write_body r c curr d).1, control-counted r c curr d)
run-counted (network highest packet ∷ ss) d =
    omega (
      arith,
      run-counted ss (cs421net_bottom_body highest packet d),
      bottom-counted highest packet d,
    )

completes-append :
    (ss ts : List Section) (d : Driver) {d' : Driver}
    → completes ss d ≡ some d'
    → completes (ss ++ ts) d ≡ completes ts d'
unfolding completes
completes-append [] ts d e = ap (completes ts) (some-injective d _ e)
completes-append (s ∷ ss) ts d e = elim (Bool-cases (is_fault (reply s d))) [
  | inl bad ↦ absurd (cc (rw bad at e))
  | inr good ↦ rw good (completes-append ss ts (step s d) (rw good at e))
]

packets-append : (ss ts : List Section) → packets (ss ++ ts) ≡ packets ss ++ packets ts
unfolding packets
packets-append [] ts = refl
packets-append (find player m ∷ ss) ts = packets-append ss ts
packets-append (write curr highest guess size ∷ ss) ts = packets-append ss ts
packets-append (control r c curr ∷ ss) ts = packets-append ss ts
packets-append (network highest packet ∷ ss) ts = ap (λ ps. packet ∷ ps) (packets-append ss ts)

quiet : {s s' : System} {l l' : Log} (m : Step s l s' l') → ¬ Handles m → l'.delivered ≡ l.delivered
quiet (arrive p took) n = refl
quiet (ignore p same) n = refl
quiet (begin queued asleep) n = refl
quiet (begin_failed queued asleep) n = refl
quiet (take_packet irq e) n = refl
quiet (read e) n = absurd (n tt)
quiet (take_nothing irq e) n = absurd (n tt)
quiet (wake waits called) n = refl
quiet (end clears through) n = refl

-- An interrupt is raised only while a packet waits.
gets : {s s' : System} {l : Log} → Ordered s l → 1 ≤ s.irqs → ¬ (handle s ≡ (none, s'))
unfolding handle get_oldest cs421net_get_data
gets {s} {s'} {l} o irq e = elim (packet-cases s.net.packets) [
  | inl empty ↦
      nothing-Phase o.dropped l.delivered l.failed s.reading s.irqs s.net.done s.net.queued s.worker
        irq (rw empty at o.phase)
  | inr (q, ps, list) ↦
      let got : (handle s).0 ≡ some q = rw (list, handle, get_oldest) refl in cc (got, e)
]

no_packet : (section : Section) → IsUser section → packets (section ∷ []) ≡ []
unfolding packets
no_packet (find player m) u = refl
no_packet (write curr highest guess size) u = refl
no_packet (control r c curr) u = refl
no_packet (network highest packet) u = absurd u

-- What a run of both programs is for the driver: sections that handle the packets of the log.
pub record Explained (l : Log) (d : Driver) (l' : Log) (d' : Driver) : Type 0 where
  pub sections : List Section
  pub driver : completes sections d ≡ some d'
  pub handled : l'.delivered ≡ l.delivered ++ packets sections

nothing_done : {l l' : Log} (d : Driver) → l'.delivered ≡ l.delivered → Explained l d l' d
unfolding completes packets
nothing_done {l} d e = record {
  sections = [];
  driver = refl;
  handled = e ∙ sym (append-nil l.delivered);
}

one_section :
    (section : Section) (d : Driver)
    → is_fault (reply section d) ≡ false
    → completes (section ∷ []) d ≡ some (step section d)
unfolding completes
one_section section d fine = rw fine refl

Joint-Explained :
    {s s' : System} {l l' : Log} {d d' : Driver}
    → Joint s l d s' l' d'
    → Ordered s l
    → Ordered s' l' × Explained l d l' d'
unfolding packets reply
Joint-Explained (device {d = d} m n) o = (Step-Ordered m o, nothing_done d (quiet m n))
Joint-Explained (handler_of_nothing highest irq e) o = absurd (gets o irq e)
Joint-Explained (handler {d = d} {p = p} highest e) o = (
  Step-Ordered (read e) o,
  record {
    sections = network highest p ∷ [];
    driver = one_section (network highest p) d refl;
    handled = refl;
  },
)
Joint-Explained (user {l = l} {d = d} section u fine) o = (
  o,
  record {
    sections = section ∷ [];
    driver = one_section section d fine;
    handled =
        sym (append-nil l.delivered) ∙ ap (λ ps. l.delivered ++ ps) (sym (no_packet section u));
  },
)

joined :
    {l l' l'' : Log} {d d' d'' : Driver}
    → Explained l d l' d'
    → Explained l' d' l'' d''
    → Explained l d l'' d''
joined {l} {d = d} a b = record {
  sections = a.sections ++ b.sections;
  driver = completes-append a.sections b.sections d a.driver ∙ b.driver;
  handled =
      b.handled
      ∙ ap (λ ps. ps ++ packets b.sections) a.handled
      ∙ append_assoc l.delivered (packets a.sections) (packets b.sections)
      ∙ ap (λ ps. l.delivered ++ ps) (sym (packets-append a.sections b.sections));
}

Joints-Explained :
    {s s' : System} {l l' : Log} {d d' : Driver}
    → Joints s l d s' l' d'
    → Ordered s l
    → Ordered s' l' × Explained l d l' d'
Joints-Explained (finished {d = d}) o = (o, nothing_done d refl)
Joints-Explained (more m rest) o =
    let (o', a) = Joint-Explained m o in
    let (o'', b) = Joints-Explained rest o' in (o'', joined a b)

-- A run of the device, its worker, the handler and users' calls, in any order from the start, with the
-- device enabled, no packet freed while the handler has a pointer to it, and no call with a fault, leaves
-- the driver where a sequence of its critical sections does whose packets are the first ones that arrived,
-- each once and in their order, without as many of them as there were interrupts that could not be raised.
pub joint_run :
    {s : System} {l : Log} (d : Driver) {d' : Driver}
    → Joints start empty_log d s l d'
    → (ss : List Section) × (completes ss d ≡ some d') × HandedOver l.arrived (packets ss) l.failed
joint_run {l = l} d js =
    let (o, x) = Joints-Explained js start-Ordered in
    let (first, rest, e, left) = Ordered-first o in
    (x.sections, x.driver, (first, rest, e, rw (← x.handled) left))

-- In a run of the device, its worker, the handler and users' calls, in any order from the start, with the
-- device enabled, no packet freed while the handler has a pointer to it, and no call with a fault, the two
-- counters of the statistics grow together by one for each packet that the handler got, modulo 2^32. With
-- the packets that no interrupt could be raised for, these are as many as some first ones that arrived.
pub all_counted :
    {s : System} {l : Log} (d : Driver) {d' : Driver}
    → Joints start empty_log d s l d'
    → (counted d' % 2 ^ 32 ≡ (counted d + length l.delivered) % 2 ^ 32)
      × (first rest : List (List ℕ)) × (l.arrived ≡ first ++ rest)
      × (length first ≡ length l.delivered + l.failed)
all_counted {l = l} d js =
    let (o, x) = Joints-Explained js start-Ordered in
    let many : length l.delivered ≡ length (packets x.sections) = ap (λ ps. length ps) x.handled in
    let (first, rest, e, left) = Ordered-first o in
    (
      sym (ap (λ k. counted k % 2 ^ 32) (completes-run x.sections d x.driver))
          ∙ run-counted x.sections d
          ∙ ap (λ n. (counted d + n) % 2 ^ 32) (sym many),
      first,
      rest,
      e,
      Lacks-length left,
    )
