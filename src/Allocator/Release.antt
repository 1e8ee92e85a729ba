-- ===== src/Allocator/Release.antt =====
-- `my_free`, `my_realloc`, `my_malloc_usable_size` and `my_malloc_stats` of hw4/hw4.c.
use cmsc421_os.Prelude.{
  ℕ, zero, suc, ◌+◌, ◌*◌, Bool, true, not, ◌||◌, ◌&&◌, none, some, List, [], ◌∷◌, ◌++◌, leb, ltb,
  ◌==◌, if◌then◌else◌, set, take, drop, map,
}
use cmsc421_os.Prelude.Int.{pos, ltb_ℤ}
use cmsc421_os.CString.{codes, schar, concat}
use cmsc421_os.Allocator.Heap.{
  num_of_frames, bytes_per_frame, Frame, free_frame, Heap, Ptr, M, ◌>>=◌, ◌>>◌, return, modify,
  sem_wait, sem_post, raise_segv, frame, fill, find_frame, frames_for,
}
use cmsc421_os.Allocator.Alloc.{my_malloc}

-- The frame is not the start of a block in use.
abbrev pub not_block : Frame → Bool
not_block f = not f.start_frame || f.free

-- The flags after the block at `i` is given back.
unfoldable pub give_back : ℕ → List Frame → List Frame
give_back i flags = fill free_frame (frame flags i).run i flags

-- For a pointer that is not a block the semaphore is posted before the signal and again at the end.
unfoldable pub my_free : Ptr → M (Unit {0})
unfolding sem_wait sem_post raise_segv
my_free none = sem_wait >> sem_post
my_free (some address) = do
  sem_wait
  elim (find_frame num_of_frames 0 address) [
    | none ↦ sem_post >> raise_segv
    | some i ↦ λ h.
        if not_block (frame h.flags i)
        then (sem_post >> raise_segv) h
        else modify (λ h'. record h' { flags = give_back i h'.flags }) h
  ]
  sem_post

-- The loop that cuts the block at `i` to `n` frames. Its bound is read anew in each round; it never
-- grows, so the frames of the block are rounds enough.
unfoldable pub shrink_loop : (rounds j i n : ℕ) → List Frame → List Frame
shrink_loop zero j i n flags = flags
shrink_loop (suc f) j i n flags =
    let rest : List Frame =
      shrink_loop f (j + 1) i n (if leb (i + n) j then set flags j free_frame else flags) in
    if ltb j (i + (frame flags i).run) then rest else flags

-- The flags after the block at `i` is cut to `n` frames.
unfoldable pub shrink : (i n : ℕ) → List Frame → List Frame
shrink i n flags =
    let cut : List Frame = shrink_loop (frame flags i).run i i n flags in
    set cut i (record (frame cut i) { run = n })

-- `memcpy` of `n` bytes inside the memory.
unfoldable pub copy_bytes : (to from n : ℕ) → List ℕ → List ℕ
copy_bytes to from n bytes = take to bytes ++ (take n (drop from bytes) ++ drop (to + n) bytes)

-- The branch for a larger size, which is entered with the semaphore taken.
unfoldable pub grow_block : (i size : ℕ) → M Ptr
grow_block i size = do
  p ← my_malloc size
  elim p [
    | some to ↦ do
      modify (λ h. record h {
        bytes =
            copy_bytes to (i * bytes_per_frame) ((frame h.flags i).run * bytes_per_frame) h.bytes;
      })
      my_free (some (i * bytes_per_frame))
      sem_post
      return (some to)
    | none ↦ do modify (λ h. record h { enomem = true }); sem_post; return none
  ]

-- The branches by the number of frames; for the same number the code runs on to the `return NULL` behind
-- the loop.
unfoldable pub resize : (i size : ℕ) → M Ptr
unfolding sem_post
resize i size h =
    if ltb (frames_for size) (frame h.flags i).run
    then (do
      modify (λ h'. record h' { flags = shrink i (frames_for size) h'.flags })
      sem_post
      return (some (i * bytes_per_frame)))
        h
    else if ltb (frame h.flags i).run (frames_for size)
    then grow_block i size h
    else return none h

unfoldable pub my_realloc : Ptr → ℕ → M Ptr
unfolding sem_wait sem_post raise_segv resize
my_realloc none size h = my_malloc size h
my_realloc (some address) size h =
    if size == 0
    then (my_free (some address) >> return none) h
    else (do
      sem_wait
      elim (find_frame num_of_frames 0 address) [
        | none ↦ sem_post >> (raise_segv >> return none)
        | some i ↦ λ h'.
            if not_block (frame h'.flags i)
            then (sem_post >> (raise_segv >> return none)) h'
            else resize i size h'
      ])
        h

unfoldable pub my_malloc_usable_size : Ptr → M ℕ
unfolding sem_wait sem_post
my_malloc_usable_size none = return 0
my_malloc_usable_size (some address) = do
  sem_wait
  elim (find_frame num_of_frames 0 address) [
    | none ↦ sem_post >> return 0
    | some i ↦ λ h.
        if not_block (frame h.flags i)
        then (sem_post >> return 0) h
        else (sem_post >> return ((frame h.flags i).run * bytes_per_frame)) h
  ]

-- A byte as `my_malloc_stats` shows it.
unfoldable pub shown : ℕ → ℕ
shown c = if ltb_ℤ (pos 32) (schar c) && ltb_ℤ (schar c) (pos 126) then c else b'.'

unfoldable pub memory_lines : (rounds : ℕ) → List ℕ → List ℕ
memory_lines zero bytes = []
memory_lines (suc n) bytes = concat (
    codes "  "
    ∷ map shown (take bytes_per_frame bytes)
    ∷ codes "\n"
    ∷ memory_lines n (drop bytes_per_frame bytes)
    ∷ [])

abbrev pub letter : Frame → ℕ
letter f = if f.free then b'f' else b'R'

unfoldable pub stats_text : Heap → List ℕ
stats_text h = concat (
    codes "Memory contents:\n"
    ∷ memory_lines num_of_frames h.bytes
    ∷ codes "Memory allocations:\n"
    ∷ codes "  "
    ∷ map letter h.flags
    ∷ codes "\n"
    ∷ [])

unfoldable pub my_malloc_stats : M (List ℕ)
unfolding sem_wait sem_post
my_malloc_stats = do sem_wait; λ h. (sem_post >> return (stats_text h)) h
