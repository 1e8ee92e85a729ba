-- ===== src/Allocator/TestProgram/Threads.antt =====
-- The test program hw4/hw4_test2.c on the allocator: that of hw4/hw4_test.c as the routine that a thread
-- starts with, which takes an argument and leaves it alone; the text is the same otherwise.
use cmsc421_os.Allocator.Heap.{Ptr, M, ◌>>=◌}
use cmsc421_os.Allocator.TestProgram.{Tally, first_tests, last_tests}

unfoldable pub hw4_test : (args : Ptr) → M Tally
hw4_test args = first_tests >>= last_tests
