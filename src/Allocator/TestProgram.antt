-- ===== src/Allocator/TestProgram.antt =====
-- The test program hw4/hw4_test.c on the allocator. `num_caught_faults` is the heap's count of signals;
-- the texts that it prints are left out.
pub mod Threads
use cmsc421_os.Prelude.{ℕ, ◌+◌, Bool, true, false, none, some, ◌++◌, ◌==◌, take, drop, replicate}
use cmsc421_os.Allocator.Heap.{Ptr, M, ◌>>=◌, ◌>>◌, return, modify}
use cmsc421_os.Allocator.Alloc.{my_malloc}
use cmsc421_os.Allocator.Release.{my_free, my_realloc, my_malloc_usable_size, my_malloc_stats}

-- `test_passed` and `test_failed`.
abbrev pub Tally : Type 0
Tally = ℕ × ℕ

abbrev pub check : Bool → Tally → Tally
check true (passed, failed) = (passed + 1, failed)
check false (passed, failed) = (passed, failed + 1)

abbrev pub is_not_null : Ptr → Bool
is_not_null none = false
is_not_null (some a) = true

abbrev pub same_ptr : Ptr → Ptr → Bool
same_ptr none none = true
same_ptr none (some b) = false
same_ptr (some a) none = false
same_ptr (some a) (some b) = a == b

abbrev pub plus : Ptr → ℕ → Ptr
plus none n = none
plus (some a) n = some (a + n)

-- `memset(p, c, n)`; through NULL it is undefined.
abbrev pub memset : Ptr → (c n : ℕ) → M (Unit {0})
memset none c n h = none
memset (some a) c n h =
    some (tt, record h { bytes = take a h.bytes ++ replicate n c ++ drop (a + n) h.bytes })

abbrev pub faults_so_far : M ℕ
faults_so_far h = some (h.faults, h)

abbrev pub errno_is_enomem : M Bool
errno_is_enomem h = some (h.enomem, h)

-- Tests 1 to 5, with `m2` for what follows.
unfoldable pub first_tests : M Tally
first_tests = do
  my_malloc_stats
  let t : Tally = (1, 0)
  m1 ← my_malloc 30
  let t = check (is_not_null m1) t
  memset m1 b'A' 30
  m2 ← my_malloc 100
  let t = check (is_not_null m2) t
  memset m2 b'B' 100
  my_free m1
  m3 ← my_malloc 20
  let t = check (same_ptr m3 (plus m2 128)) t
  memset m3 b'C' 8
  my_malloc_stats
  modify (λ h. record h { enomem = false })
  m1 ← my_malloc 200
  let t = check (same_ptr m1 none) t
  out_of_memory ← errno_is_enomem
  let t = check out_of_memory t
  my_free m3
  my_free m2
  my_free m2
  caught ← faults_so_far
  let t = check (caught == 1) t
  my_malloc_stats
  return t

-- Tests 6 and 7.
unfoldable pub last_tests : Tally → M Tally
last_tests t = do
  m1 ← my_realloc none 129
  let t = check (is_not_null m1) t
  memset m1 b'D' 129
  usable ← my_malloc_usable_size m1
  let t = check (usable == 160) t
  m2 ← my_realloc m1 192
  let t = check (is_not_null m2) t
  usable ← my_malloc_usable_size m1
  let t = check (usable == 0) t
  my_malloc_stats
  m3 ← my_realloc m2 66
  m2 ← my_malloc 64
  let t = check (same_ptr m1 m2) t
  memset m2 b'E' 40
  my_malloc_stats
  return t

unfoldable pub hw4_test : M Tally
hw4_test = first_tests >>= last_tests
