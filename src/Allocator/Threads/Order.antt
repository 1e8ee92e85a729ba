-- ===== src/Allocator/Threads/Order.antt =====
-- Whether the threads of hw4/hw4.c get into each other's way.
use mathlib.Core.Option.{some-injective}
use cmsc421_os.Prelude.{
  ℕ, zero, suc, ◌+◌, ◌≤◌, ◌<◌, ◌≡◌, ◌⊎◌, inl, inr, refl, sym, ap, ◌∙◌, arith, Bool, true, false,
  some, List, get_elem?, set, replicate, All, All-set, All-get_elem?, get_elem?-set_self,
  lt_of_get_elem?, ℕ_discrete, get_elem?-set_ne,
}
use cmsc421_os.Prelude.Count.{one_if, count_if, count_if-set, count_if_one, count_if_two}
use cmsc421_os.Allocator.Heap.{frame, Heap, initial}
use cmsc421_os.Allocator.Owned.{Block}
use cmsc421_os.Allocator.Reach.{
  Reach_apart, Step, Reach, here, after, Sound, initial-Sound, Step-Sound,
}
use cmsc421_os.Allocator.Threads.{
  Call, perform, Place, between, wants, inside, posting, World, at_work, Turn, asks, enters,
  working, reads, writes, posts, gets_back, Turns, finished, more, mover, Own, Proper,
}
use cmsc421_os.Allocator.Threads.Alone.{perform-Alone, perform-some}

-- The thread is in a critical section.
abbrev pub is_busy : Place → Bool
is_busy between = false
is_busy (wants c) = false
is_busy (inside c) = true
is_busy (working c k) = true
is_busy (posting zero p) = false
is_busy (posting (suc n) p) = true

abbrev pub OwesOne : Place → Type 0
OwesOne between = Unit
OwesOne (wants c) = Unit
OwesOne (inside c) = Unit
OwesOne (working c k) = Unit
OwesOne (posting n p) = n ≤ 1

-- The heap as a thread finds it that has the semaphore.
abbrev pub seen : World → Heap
seen w = at_work w.heap

pub record InTurn (w : World) : Type 0 where
  pub one_inside : w.heap.lock + count_if is_busy w.threads ≡ 1
  pub posts_left : All OwesOne w.threads
  pub sound : Sound (seen w)
  pub up_to_date :
      (j : ℕ) {c : Call} {k : Heap}
      → get_elem? w.threads j ≡ some (working c k)
      → (k ≡ seen w) × Proper (seen w) c

module _ (w : World) (i : ℕ) {q : Place} (at_i : get_elem? w.threads i ≡ some q) where
  at_self : (r : Place) → get_elem? (set w.threads i r) i ≡ some r
  at_self r = get_elem?-set_self w.threads i r (lt_of_get_elem? w.threads i at_i)

  -- Another thread that works has read what the heap still is, also if this one writes, which it does alone.
  others :
      (r : Place) (h : Heap) (j : ℕ) {c : Call} {k : Heap}
      → ((at_work h ≡ seen w) ⊎ (is_busy q ≡ true))
      → ((c : Call) (k : Heap) → r ≡ working c k → (k ≡ at_work h) × Proper (at_work h) c)
      → InTurn w
      → get_elem? (set w.threads i r) j ≡ some (working c k)
      → (k ≡ at_work h) × Proper (at_work h) c
  others r h j {c} {k} change own t e = elim (ℕ_discrete i j) [
    | yes same ↦ own c k (
        some-injective r (working c k)
          (sym (at_self r) ∙ ap (λ m. get_elem? (set w.threads i r) m) same ∙ e))
    | no other ↦
        let at_j : get_elem? w.threads j ≡ some (working c k) =
          sym (get_elem?-set_ne w.threads r other) ∙ e in
        elim change [
          | inl same ↦ rw same (t.up_to_date j at_j)
          | inr busy ↦ absurd (
              omega
                (arith, t.one_inside, count_if_two is_busy w.threads i j at_i at_j busy refl other))
        ]
  ]

  -- A thread goes to another place.
  goes :
      (r : Place) (h : Heap)
      → ((at_work h ≡ seen w) ⊎ (is_busy q ≡ true))
      → ((c : Call) (k : Heap) → r ≡ working c k → (k ≡ at_work h) × Proper (at_work h) c)
      → h.lock + one_if (is_busy r) ≡ w.heap.lock + one_if (is_busy q)
      → OwesOne r
      → Sound (at_work h)
      → InTurn w
      → InTurn (record { heap = h; threads = set w.threads i r })
  goes r h change own e owes snd t = record {
    one_inside = omega (arith, e, t.one_inside, count_if-set is_busy w.threads i r at_i);
    posts_left = All-set OwesOne w.threads i r t.posts_left owes;
    sound = snd;
    up_to_date = λ j e. others r h j change own t e;
  }

-- A turn keeps the threads out of each other's way, and is a step of the program with one thread, or
-- nothing, for the heap.
Turn-InTurn :
    {w w' : World}
    → Turn Proper w w'
    → InTurn w
    → InTurn w' × ((seen w' ≡ seen w) ⊎ Step (seen w) (seen w'))
Turn-InTurn (asks {w} i c at_i) t =
    (goes w i at_i (wants c) w.heap (inl refl) (λ d k e. cc) refl tt t.sound t, inl refl)
Turn-InTurn (enters {w} {c} i n at_i e) t = (
  goes w i at_i (inside c) (record w.heap { lock = n }) (inl refl) (λ d k e. cc) (omega (arith, e))
      tt t.sound t,
  inl refl,
)
Turn-InTurn (reads {w} {c} i at_i proper) t =
    (goes w i at_i (working c (seen w)) w.heap (inl refl) own refl tt t.sound t, inl refl)
  where
    own :
        (d : Call) (k : Heap) → working c (seen w) ≡ working d k → (k ≡ seen w) × Proper (seen w) d
    own d k e = let this : d ≡ c = cc in (cc, rw this proper)
Turn-InTurn (writes {w} {c} {k} {p} {h} i at_i ran) t =
    let (same, proper) = t.up_to_date i at_i in
    let ran' : perform c (seen w) ≡ some (p, h) = rw same at ran in
    let (one, step) = perform-Alone c (seen w) h p t.sound proper ran' in
    let whole : at_work h ≡ h = cc in
    let later : (at_work h ≡ seen w) ⊎ Step (seen w) (at_work h) = rw whole step in
    (
      goes w i at_i (posting h.lock p) (record h { lock = w.heap.lock }) (inr refl) (λ d k e. cc)
          (rw one refl) (omega (arith, one)) (still later t.sound) t,
      later,
    )
  where
    still : {k k' : Heap} → (k' ≡ k) ⊎ Step k k' → Sound k → Sound k'
    still (inl same) snd = rw same snd
    still (inr step) snd = Step-Sound step snd
Turn-InTurn (posts {w} {p} i n at_i) t =
    let last : n ≡ 0 = omega (arith, All-get_elem? OwesOne w.threads i t.posts_left at_i) in
    (
      goes w i at_i (posting n p) (record w.heap { lock = w.heap.lock + 1 }) (inl refl)
          (λ d k e. cc) (rw last (omega arith)) (omega (arith, last)) t.sound t,
      inl refl,
    )
Turn-InTurn (gets_back {w} i at_i) t =
    (goes w i at_i between w.heap (inl refl) (λ d k e. cc) refl tt t.sound t, inl refl)

follows : {k k' k'' : Heap} → (k' ≡ k) ⊎ Step k k' → Reach k' k'' → Reach k k''
follows (inl same) rest = rw same at rest
follows (inr step) rest = after step rest

Turns-InTurn : {w w' : World} → Turns Proper w w' → InTurn w → InTurn w' × Reach (seen w) (seen w')
Turns-InTurn finished t = (t, here)
Turns-InTurn (more m rest) t =
    let (t', step) = Turn-InTurn m t in
    let (t'', reach) = Turns-InTurn rest t' in (t'', follows step reach)

-- `main` has started so many threads.
abbrev pub begin : ℕ → World
begin k = record { heap = initial; threads = replicate k between }

idle : (k : ℕ) → count_if is_busy (replicate k between) ≡ 0
unfolding count_if
idle zero = refl
idle (suc k) = omega (arith, idle k)

owes_none : (k : ℕ) → All OwesOne (replicate k between)
owes_none zero = tt
owes_none (suc k) = (tt, owes_none k)

nobody_works :
    (n j : ℕ) {c : Call} {h : Heap} → ¬ (get_elem? (replicate n between) j ≡ some (working c h))
nobody_works zero j e = cc
nobody_works (suc n) zero e = cc
nobody_works (suc n) (suc j) e = nobody_works n j e

begin-InTurn : (k : ℕ) → InTurn (begin k)
begin-InTurn k = record {
  one_inside = omega (arith, idle k);
  posts_left = owes_none k;
  sound = initial-Sound;
  up_to_date = λ j e. absurd (nobody_works k j e);
}

-- Whatever the order in which any number of threads make their calls, as long as they release and cut only
-- blocks in use, two threads in a critical section are one and the same.
pub one_thread_inside :
    {w : World} {p q : Place} (k i j : ℕ)
    → Turns Proper (begin k) w
    → get_elem? w.threads i ≡ some p
    → get_elem? w.threads j ≡ some q
    → is_busy p ≡ true
    → is_busy q ≡ true
    → i ≡ j
one_thread_inside {w} k i j run at_i at_j busy busy' = elim (ℕ_discrete i j) [
  | yes same ↦ same
  | no other ↦ absurd (
      omega (
        arith,
        (Turns-InTurn run (begin-InTurn k)).0.one_inside,
        count_if_two is_busy w.threads i j at_i at_j busy busy' other,
      ))
]

-- Whatever the order in which any number of threads make their calls, as long as they release and cut only
-- blocks in use, the heap, as the next thread finds it that gets the semaphore, is one that a single thread
-- reaches with calls one after another.
pub Turns-Reach : {w : World} (k : ℕ) → Turns Proper (begin k) w → Reach initial (seen w)
Turns-Reach k run = (Turns-InTurn run (begin-InTurn k)).1

-- Whatever the order in which any number of threads make their calls, as long as they release and cut only
-- blocks in use, of two blocks in use at any time the first ends before the second begins.
pub threads_apart :
    {w : World} (k i j : ℕ)
    → Turns Proper (begin k) w
    → Block w.heap.flags i
    → Block w.heap.flags j
    → i < j
    → i + (frame w.heap.flags i).run ≤ j
threads_apart k i j run b c less = Reach_apart i j (Turns-Reach k run) b c less

-- Whatever the order in which any number of threads make their calls, as long as they release and cut only
-- blocks in use, a thread behind the wait of such a call can return from it by turns that are all its own,
-- and the semaphore is 1 then.
pub comes_out :
    {w : World} {c : Call} (k i : ℕ)
    → Turns Proper (begin k) w
    → get_elem? w.threads i ≡ some (inside c)
    → Proper w.heap c
    → (w' : World) × (ms : Turns Proper w w') × Own i ms
      × (get_elem? w'.threads i ≡ some between)
      × (w'.heap.lock ≡ 1)
unfolding mover
comes_out {w} {c} k i run at_i proper =
    let t = (Turns-InTurn run (begin-InTurn k)).0 in
    let (p, h, ran) = perform-some c (seen w) t.sound proper in
    let read : List Place = set w.threads i (working c (seen w)) in
    let one = (perform-Alone c (seen w) h p t.sound proper ran).0 in
    let taken : w.heap.lock ≡ 0 =
      omega (arith, t.one_inside, count_if_one is_busy w.threads i at_i refl) in
    let posted : List Place = set read i (posting h.lock p) in
    let back : List Place = set posted i (posting 0 p) in
    let there = lt_of_get_elem? w.threads i at_i in
    let at_read : get_elem? read i ≡ some (working c (seen w)) =
      get_elem?-set_self w.threads i (working c (seen w)) there in
    let at_post : get_elem? posted i ≡ some (posting 1 p) =
      get_elem?-set_self read i (posting h.lock p) (lt_of_get_elem? read i at_read) ∙ rw one refl in
    let at_end : get_elem? back i ≡ some (posting 0 p) =
      get_elem?-set_self posted i (posting 0 p) (lt_of_get_elem? posted i at_post) in
    (
      record { heap = record h { lock = w.heap.lock + 1 }; threads = set back i between },
      more (reads i at_i proper) (
          more (writes i at_read ran)
            (more (posts i 0 at_post) (more (gets_back i at_end) finished))),
      (refl, (refl, (refl, (refl, tt)))),
      get_elem?-set_self back i between (lt_of_get_elem? back i at_end),
      omega (arith, taken),
    )
