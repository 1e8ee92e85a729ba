-- ===== src/Allocator/Threads.antt =====
-- hw4/hw4.c with several threads, as its semaphore is for: the calls in steps, taken in any order.
pub mod Alone
pub mod Order
pub mod Excess
mod Tests
use cmsc421_os.Prelude.{
  ℕ, zero, suc, ◌+◌, ◌*◌, ◌≤◌, ◌<◌, ◌≡◌, ◌≢◌, Bool, true, false, Option, none, some, List,
  get_elem?, set,
}
use cmsc421_os.Allocator.Heap.{Heap, Ptr, M, ◌>>=◌, ◌>>◌, return, frame, frames_for}
use cmsc421_os.Allocator.Alloc.{my_malloc}
use cmsc421_os.Allocator.Release.{my_free, my_realloc, my_malloc_stats}
use cmsc421_os.Allocator.Owned.{Block}

-- A call that waits for the semaphore at its beginning; `my_realloc` of NULL is a call of `my_malloc`.
pub data Call : Type 0 where
  malloc : (size : ℕ) → Call
  free : Ptr → Call
  realloc : (address size : ℕ) → Call
  stats : Call

-- The call, alone, with the pointer that it returns.
unfoldable pub perform : Call → M Ptr
perform (malloc size) = my_malloc size
perform (free p) = my_free p >> return none
perform (realloc address size) = my_realloc (some address) size
perform stats = my_malloc_stats >> return none

-- Where a thread stands: between two calls, at the `sem_wait` of a call, behind it, with what it has read,
-- at a `sem_post` with so many still to come.
pub data Place : Type 0 where
  between : Place
  wants : Call → Place
  inside : Call → Place
  working : Call → Heap → Place
  posting : (owed : ℕ) → Ptr → Place

pub record World : Type 0 where
  pub heap : Heap
  pub threads : List Place

-- With the semaphore at 1 before the call, its value behind it is the number of posts.
abbrev pub at_work : Heap → Heap
at_work h = record h { lock = 1 }

-- `errno` is one field here, though each thread has its own: a turn of another thread may change it before
-- the caller reads it. A turn of one thread. Between its wait and its first post a call reads the heap in one turn and writes it in
-- a later one, so that it undoes what others write in between; what it writes is what the call does alone. A
-- call that does not return alone, as a `my_realloc` that grows its block, stays inside.
-- `Allowed` says which calls the program makes.
module _ (Allowed : Heap → Call → Type 0) where
  pub data Turn : World → World → Type 0 where
    asks :
        {w : World} (i : ℕ) (c : Call)
        → get_elem? w.threads i ≡ some between
        → Turn w (record w { threads = set w.threads i (wants c) })
    enters :
        {w : World} {c : Call} (i n : ℕ)
        → get_elem? w.threads i ≡ some (wants c)
        → w.heap.lock ≡ suc n
        → Turn w
            (record { heap = record w.heap { lock = n }; threads = set w.threads i (inside c) })
    reads :
        {w : World} {c : Call} (i : ℕ)
        → get_elem? w.threads i ≡ some (inside c)
        → Allowed w.heap c
        → Turn w (record w { threads = set w.threads i (working c (at_work w.heap)) })
    writes :
        {w : World} {c : Call} {k : Heap} {p : Ptr} {h : Heap} (i : ℕ)
        → get_elem? w.threads i ≡ some (working c k)
        → perform c k ≡ some (p, h)
        → Turn w (record {
          heap = record h { lock = w.heap.lock };
          threads = set w.threads i (posting h.lock p);
        })
    posts :
        {w : World} {p : Ptr} (i n : ℕ)
        → get_elem? w.threads i ≡ some (posting (suc n) p)
        → Turn w (record {
          heap = record w.heap { lock = w.heap.lock + 1 };
          threads = set w.threads i (posting n p);
        })
    gets_back :
        {w : World} {p : Ptr} (i : ℕ)
        → get_elem? w.threads i ≡ some (posting zero p)
        → Turn w (record w { threads = set w.threads i between })

  pub data Turns : World → World → Type 0 where
    finished : {w : World} → Turns w w
    more : {w w' w'' : World} → Turn w w' → Turns w' w'' → Turns w w''

-- The thread whose turn it is, and turns that are all the same thread's.
unfoldable pub mover : {Allowed : Heap → Call → Type 0} {w w' : World} → Turn Allowed w w' → ℕ
mover (asks i c at_i) = i
mover (enters i n at_i e) = i
mover (reads i at_i allowed) = i
mover (writes i at_i ran) = i
mover (posts i n at_i) = i
mover (gets_back i at_i) = i

abbrev pub Own :
    (i : ℕ) {Allowed : Heap → Call → Type 0} {w w' : World} → Turns Allowed w w' → Type 0
Own i finished = Unit
Own i (more m rest) = (mover m ≡ i) × Own i rest

-- The calls that the interface of the allocator asks for: releases and cuts of blocks in use.
abbrev pub Proper : Heap → Call → Type 0
Proper h (malloc size) = Unit
Proper h (free none) = Unit
Proper h (free (some address)) = (i : ℕ) × (address ≡ i * 32) × Block h.flags i
Proper h (realloc address size) =
    (i : ℕ) × (address ≡ i * 32)
    × Block h.flags i
    × (size ≢ 0)
    × (size ≤ 384)
    × (frames_for size < (frame h.flags i).run)
Proper h stats = Unit

abbrev pub Anything : Heap → Call → Type 0
Anything h c = Unit
