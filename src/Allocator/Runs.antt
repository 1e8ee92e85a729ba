-- ===== src/Allocator/Runs.antt =====
-- Runs of hw4/hw4_test.c.
use cmsc421_os.Prelude.{ℕ, ◌≡◌, refl, Option, none, some}
use cmsc421_os.Prelude.Loop.{for_range}
use cmsc421_os.Allocator.Heap.{
  Heap, initial, fill, find_frame, frames_for, sem_wait, sem_post, raise_segv, down, ◌>>◌,
}
use cmsc421_os.Allocator.Alloc.{
  my_malloc, search_region, search_step, keep_larger, grow, reserve, take_region,
}
use cmsc421_os.Allocator.Release.{
  my_free, my_realloc, my_malloc_usable_size, my_malloc_stats, give_back, resize, grow_block,
  copy_bytes, shrink, shrink_loop,
}
use cmsc421_os.Allocator.TestProgram.{Tally, first_tests, last_tests, hw4_test}
use cmsc421_os.Allocator.TestProgram.Threads

-- The verdicts of a run and the value of the semaphore behind it.
abbrev outcome : Option (Tally × Heap) → Option (ℕ × ℕ × ℕ)
outcome none = none
outcome (some ((passed, failed), h)) = some (passed, failed, h.lock)

-- The double free of test 5 posts the semaphore once too often: it is 2 from there on.
test_first_tests : outcome (first_tests initial) ≡ some (7, 0, 2)
unfolding first_tests my_malloc my_free my_realloc my_malloc_usable_size my_malloc_stats give_back
    resize grow_block copy_bytes shrink shrink_loop search_region search_step keep_larger grow
    reserve take_region fill find_frame frames_for sem_wait sem_post raise_segv down for_range
test_first_tests = refl

-- All tests pass then; alone, test 6 waits for ever where `my_realloc` calls `my_malloc`.
test_hw4_test : outcome (hw4_test initial) ≡ some (12, 0, 2)
unfolding hw4_test first_tests last_tests my_malloc my_free my_realloc my_malloc_usable_size
    my_malloc_stats give_back resize grow_block copy_bytes shrink shrink_loop search_region
    search_step keep_larger grow reserve take_region fill find_frame frames_for sem_wait sem_post
    raise_segv down for_range
test_hw4_test = refl

test_last_tests : outcome (last_tests (0, 0) initial) ≡ none
unfolding last_tests my_malloc my_free my_realloc my_malloc_usable_size my_malloc_stats give_back
    resize grow_block copy_bytes shrink shrink_loop search_region search_step keep_larger grow
    reserve take_region fill find_frame frames_for sem_wait sem_post raise_segv down for_range
test_last_tests = refl

-- One thread after another: the second one does not get the block of test 2, and fills it through NULL.
test_two_threads : outcome ((Threads.hw4_test none >> Threads.hw4_test none) initial) ≡ none
unfolding hw4_test Threads.hw4_test first_tests last_tests my_malloc my_free my_realloc
    my_malloc_usable_size my_malloc_stats give_back resize grow_block copy_bytes shrink shrink_loop
    search_region search_step keep_larger grow reserve take_region fill find_frame frames_for
    sem_wait sem_post raise_segv down for_range
test_two_threads = refl
