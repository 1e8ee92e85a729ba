-- ===== src/Lib.antt =====
-- A model of the programs of this repository: the two Mastermind drivers, the virtual network device that
-- feeds the second one, the memory allocator of hw4, the threads of hw3, the quiz of midterm and final, the
-- listing of ports of hw1, and the test programs of the drivers and of the allocator.
--
-- Parts and files:
-- - proj2/mastermind2.c, the driver with one game for each user. Mastermind2/State holds the static
--   variables as the record Driver, struct mm_game as Game, and find_game; Mastermind2/Game has the
--   callbacks of /dev/mm (mm_read, mm_write, mm_mmap), Mastermind2/Score the two loops that count pegs,
--   Mastermind2/Control has mm_ctl_write, Mastermind2/Network the interrupt handlers cs421net_top and
--   cs421net_bottom and mm_stats_show, Mastermind2/Lifecycle mastermind_probe and mastermind_remove, and
--   Lifecycle/Module the module from its loading to its unloading. Mastermind2/Valid is the invariant of
--   the state, and Mastermind2/System runs the critical sections of any callers in any order: a callback is
--   the section of find_game and then a section that works on the pointer it returned, as in the code. A
--   run that completes has no section with the reply fault; mastermind_remove, which takes no lock, is not
--   in these runs. Mastermind2/Room and Room/Runs are about when a run completes.
-- - proj1/mastermind.c, the first version with one game for all: Mastermind1/Score and Mastermind1/Device;
--   what its pegs count is in Mastermind1/Match, and loading and unloading in Mastermind1/Load.
-- - proj2/xt_cs421net.c: Network has the list of packets, the filter and the parts of the work item,
--   Network/Steps the steps of the filter, the worker and the handler in any order, where the handler gets
--   the pointer to a packet and is through with it in two steps, Network/Delivery the order in which
--   packets are handed over, Network/Queue the abstract queue, and Network/Missed packets that are not
--   handed over.
-- - Remote has the device and the second driver together, where the driver's handler takes the packets from
--   the device, and Remote/Counted is about what becomes of the packets.
-- - proj2/cs421net.c, which sends packets from the test program: Sender has cs421net_init and
--   cs421net_send, Sender/Connecting and Sender/Writing are about the one and the other.
-- - hw4/hw4.c: Allocator/Heap has the flags of the frames, the bytes and the semaphore, Allocator/Alloc
--   my_malloc, Allocator/Release the other calls. Allocator/Alloc/Scan is about the search for a region,
--   Allocator/Blocks is the invariant of the flags, Allocator/Calls, Allocator/Owned and Allocator/Realloc
--   are about single calls, Allocator/Reach about programs that make them, and Allocator/Threads about
--   several threads that do: Threads/Alone is about a call alone, Threads/Order takes them together, and
--   Threads/Excess has a thread that frees what is no block.
-- - hw3/hw3.c: TrickOrTreat has the houses, the groups and findClosestHouse, TrickOrTreat/Distance when its
--   int arithmetic is exact, and TrickOrTreat/Closest what it chooses. TrickOrTreat/Threads has the
--   threads: ChildGroupFunction and neighborhoodFunction as turns between two accesses of shared state,
--   taken in any order; Threads/Load is how main begins. Threads/Keys is about the semaphores,
--   Threads/Candy about a single turn, Threads/Shared about all of them together, Threads/Amounts about
--   when the amounts of candy fit an int, Threads/Ends and Threads/Returns about the end of the simulation.
--   TrickOrTreat/File is the reading of the file and printStatus, File/Numbers and File/Printed are about a
--   file that is written as its numbers.
-- - midterm/midterm.c: Jeopardy has the contestants and Alex, with what each does between two waits for a
--   condition as one turn, since a thread keeps the lock until it waits. Jeopardy/Rules, Jeopardy/Invariant
--   and Jeopardy/Asking are its invariant, Jeopardy/Progress and Jeopardy/Ending how it goes on and ends.
-- - final/final.c: FinalJeopardy has the same show with completions, FinalJeopardy/Lost what happens when
--   the turn goes to a contestant who may not buzz in. FinalJeopardy/Baton is the invariant, who has the
--   turn, FinalJeopardy/Playing and FinalJeopardy/Asking are its proof, and FinalJeopardy/Standing is about
--   whether a thread can go on, and FinalJeopardy/Ending about how long. FinalJeopardy/Exit is jeop_exit.
-- - hw1/hw1.c: Ports, with Ports/Text about the argument and the lines of a file.
-- - proj1/mastermind-test.c and proj2/mastermind2-test.c, which have the same text: MastermindTest has the
--   tests over the two devices, MastermindTest/First and MastermindTest/Second run them on the two drivers,
--   and MastermindTest/Verdicts is about what they say. hw4/hw4_test.c is Allocator/TestProgram, with its
--   runs in Allocator/Runs, and hw4/hw4_test2.c, its copy for threads, Allocator/TestProgram/Threads.
-- - CString has C's strings and the string functions that the drivers call, Prelude the shared lists,
--   integers, loops and tests.
--
-- How the code is read: a pointer to a node of games_list is its index in the list, since nodes are only
-- added at the end. A pointer of the allocator is its distance from TOTAL_MEM. The int and unsigned
-- variables of the drivers are bit patterns below 2^32 that wrap around, and so do the distances of hw3;
-- the amounts of candy and the scores of the quizzes are integers. char is signed. Undefined behaviour is
-- the reply fault. What the kernel answers (memory, copies between user and kernel, random numbers,
-- capabilities, registrations) is an argument of each call. A wait for a semaphore that nobody can post is
-- none. A completion is the number of calls of complete that nobody has waited for. raise(SIGSEGV) is
-- counted and goes on, as it does where the program has a handler that returns; errno is one variable,
-- though each thread has its own.
--
-- Loops are counted loops over the pegs, the frames or a list; the loop of my_realloc that frees the tail
-- of a block has the length of the block as its number of rounds, which it cannot exceed. Decimal numbers
-- have ten digits, enough below 2^32. A reader of /dev/mm has fuel, of which more than the bytes of the
-- status is enough.
--
-- Not modelled: interrupts in the middle of a critical section, callbacks that mastermind_remove overtakes,
-- what the handler reads of a packet that the worker has freed, my_malloc_usable_size in several threads,
-- log messages, the lines that the threads of hw3.c print and its sem_destroy, behind which the threads are
-- undefined, interrupted waits in final.c, since kernel threads get no signals unless they ask for them,
-- and the programs of ex.c and hw2.
pub mod MastermindTest
pub mod Jeopardy
pub mod FinalJeopardy
pub mod Ports
pub mod Prelude
pub mod CString
pub mod Mastermind1
pub mod Mastermind2
pub mod Network
pub mod TrickOrTreat
pub mod Allocator
pub mod Sender
pub mod Remote
