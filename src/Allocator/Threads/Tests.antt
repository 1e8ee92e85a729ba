-- ===== src/Allocator/Threads/Tests.antt =====
-- Runs of the threads of hw4/hw4.c, and the theorems at them.
use cmsc421_os.Prelude.{◌+◌, ◌≤◌, ℕ, ◌≡◌, refl, arith, some, [], ◌∷◌, get_elem?}
use cmsc421_os.Allocator.Heap.{initial}
use cmsc421_os.Allocator.Reach.{Reach}
use cmsc421_os.Allocator.Tests.{
  two_blocks, served_second, Block-first, Block-second, two_frames, served_first, stray_40,
}
use cmsc421_os.Allocator.Threads.{
  malloc, free, stats, perform, between, wants, inside, posting, World, asks, enters, posts,
  gets_back, reads, writes, Turns, finished, more, Own, Proper, Anything,
}
use cmsc421_os.Allocator.Threads.Order.{
  begin, one_thread_inside, Turns-Reach, threads_apart, comes_out,
}
use cmsc421_os.Allocator.Threads.Excess.{two_inside}

-- One of two threads has its block and is about to post, while the other one waits.
abbrev served : World
served = record {
  heap = record two_frames { lock = 0 };
  threads = posting 1 (some 0) ∷ wants stats ∷ [];
}

test_served : Turns Proper (begin 2) served
unfolding perform
test_served = more (asks 0 (malloc 40) refl) (
    more (enters 0 0 refl refl) (
      more (asks 1 stats refl)
        (more (reads 0 refl tt) (more (writes 0 refl served_first) finished))))

one_thread_inside_example : ◌≡◌ {A = ℕ} 0 0
one_thread_inside_example = one_thread_inside 2 0 0 test_served refl refl refl refl

Turns-Reach_example : Reach initial two_frames
Turns-Reach_example = Turns-Reach 2 test_served

-- A thread is behind the wait of its call.
abbrev entered : World
entered = record { heap = record initial { lock = 0 }; threads = inside (malloc 40) ∷ between ∷ [] }

test_entered : Turns Proper (begin 2) entered
test_entered = more (asks 0 (malloc 40) refl) (more (enters 0 0 refl refl) finished)

comes_out_example :
    (w : World) × (ms : Turns Proper entered w) × Own 0 ms
    × (get_elem? w.threads 0 ≡ some between)
    × (w.heap.lock ≡ 1)
comes_out_example = comes_out 2 0 test_entered refl tt

-- Of three threads one frees a pointer into the middle of a block.
abbrev crowd : World
crowd = record {
  heap = record two_frames { lock = 0 };
  threads = inside (free (some 40)) ∷ wants stats ∷ wants (malloc 40) ∷ [];
}

two_inside_example :
    (w : World) × Turns Anything crowd w
    × (get_elem? w.threads 1 ≡ some (inside stats))
    × (get_elem? w.threads 2 ≡ some (inside (malloc 40)))
two_inside_example =
    two_inside crowd 0 1 2 40 stats (malloc 40) refl refl refl stray_40 refl (omega arith)
      (omega arith) (omega arith)

-- Two threads have a block each.
abbrev both_served : World
both_served = record {
  heap = record two_blocks { lock = 0 };
  threads = between ∷ posting 1 (some 64) ∷ [];
}

test_both_served : Turns Proper (begin 2) both_served
unfolding perform
test_both_served = more (asks 0 (malloc 40) refl) (
    more (enters 0 0 refl refl) (
      more (asks 1 (malloc 40) refl) (
        more (reads 0 refl tt) (
          more (writes 0 refl served_first) (
            more (posts 0 0 refl) (
              more (gets_back 0 refl) (
                more (enters 1 0 refl refl)
                  (more (reads 1 refl tt) (more (writes 1 refl served_second) finished)))))))))

threads_apart_example : 0 + 2 ≤ 2
threads_apart_example = threads_apart 2 0 2 test_both_served Block-first Block-second (omega arith)
