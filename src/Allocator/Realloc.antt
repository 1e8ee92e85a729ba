-- ===== src/Allocator/Realloc.antt =====
-- `my_realloc` of hw4/hw4.c on a block, by the number of frames of the new size.
use cmsc421_os.Prelude.{
  ℕ, zero, suc, ◌+◌, ◌*◌, ◌≤◌, ◌<◌, ◌≡◌, ◌≢◌, refl, List, none, some, arith, ◌==◌, ◌&&◌, leb,
  dec_lt, ltb, if◌then◌else◌, length, set, get_or-set, length-set,
}
use cmsc421_os.Allocator.Heap.{Frame, free_frame, Heap, frame, frames_for}
use cmsc421_os.Allocator.Alloc.{my_malloc}
use cmsc421_os.Allocator.Release.{shrink_loop, shrink, grow_block, resize, my_realloc}
use cmsc421_os.Allocator.Blocks.{IsValid}
use cmsc421_os.Allocator.Calls.{frames_for_lem}
use cmsc421_os.Allocator.Owned.{Block, find_frame-start}

module _ (i : ℕ) (h : Heap) (b : Block h.flags i) (size : ℕ) (pos : size ≢ 0) where
  enter :
      {n : ℕ}
      → h.lock ≡ suc n
      → my_realloc (some (i * 32)) size h ≡ resize i size (record h { lock = n })
  unfolding my_realloc
  enter lock = ground (arith, find_frame-start i b.inside, b.start, b.used, lock)

  -- With the semaphore at one, a call for more frames than the block has never returns: the call to
  -- `my_malloc` inside waits for the semaphore that `my_realloc` holds.
  pub my_realloc_deadlock :
      h.lock ≡ 1
      → (frame h.flags i).run < frames_for size
      → my_realloc (some (i * 32)) size h ≡ none
  unfolding resize grow_block my_malloc
  my_realloc_deadlock lock more = rw (enter lock) (ground (arith))

  -- With the semaphore above zero, a size above zero of as many frames as the block has returns NULL, and
  -- leaves the semaphore taken.
  pub my_realloc_same :
      {n : ℕ}
      → h.lock ≡ suc n
      → (frame h.flags i).run ≡ frames_for size
      → my_realloc (some (i * 32)) size h ≡ some (none, record h { lock = n })
  unfolding resize
  my_realloc_same lock same = rw (enter lock) (ground (arith))

  pub my_realloc_less :
      {n : ℕ}
      → h.lock ≡ suc n
      → frames_for size < (frame h.flags i).run
      → my_realloc (some (i * 32)) size h
        ≡ some (some (i * 32), record h { flags = shrink i (frames_for size) h.flags })
  unfolding resize
  my_realloc_less lock less = rw (enter lock) (ground arith)

length-shrink_loop :
    (rounds j i n : ℕ) (flags : List Frame) → length (shrink_loop rounds j i n flags) ≡ length flags
unfolding shrink_loop
length-shrink_loop zero j i n flags = refl
length-shrink_loop (suc f) j i n flags = ground (
  arith,
  length-shrink_loop f (j + 1) i n flags,
  length-shrink_loop f (j + 1) i n (set flags j free_frame),
  length-set flags j free_frame,
)

frame-shrink_loop :
    (rounds j i n k : ℕ) (flags : List Frame)
    → 1 ≤ n
    → i ≤ j
    → i + (frame flags i).run ≤ length flags
    → i + (frame flags i).run ≤ j + rounds
    → frame (shrink_loop rounds j i n flags) k ≡ (
        if leb j k && (leb (i + n) k && ltb k (i + (frame flags i).run))
        then free_frame
        else frame flags k)
unfolding shrink_loop
frame-shrink_loop zero j i n k flags pos le fits enough = ground arith
frame-shrink_loop (suc f) j i n k flags pos le fits enough = elim (dec_lt j (i + n)) [
  | no behind ↦ ground (
    arith,
    frame-shrink_loop f (j + 1) i n k (set flags j free_frame),
    length-set flags j free_frame,
    get_or-set flags j i free_frame free_frame,
    get_or-set flags j k free_frame free_frame,
  )
  | yes inside ↦ ground (arith, frame-shrink_loop f (j + 1) i n k flags)
]

length-shrink : (i n : ℕ) (flags : List Frame) → length (shrink i n flags) ≡ length flags
unfolding shrink
length-shrink i n flags = ground (
  arith,
  length-shrink_loop (frame flags i).run i i n flags,
  length-set (shrink_loop (frame flags i).run i i n flags) i
      (record (frame (shrink_loop (frame flags i).run i i n flags) i) { run = n }),
)

-- The frames of a block cut to `n` frames: the first keeps its flags and holds the new length, those
-- behind the new end are free, all others are as they were.
pub frame-shrink :
    (i n k : ℕ) (flags : List Frame)
    → 1 ≤ n
    → n ≤ (frame flags i).run
    → i + (frame flags i).run ≤ length flags
    → frame (shrink i n flags) k ≡ (
        if k == i
        then record (frame flags i) { run = n }
        else if leb (i + n) k && ltb k (i + (frame flags i).run)
        then free_frame
        else frame flags k)
unfolding shrink
frame-shrink i n k flags pos le fits = ground (
  arith,
  length-shrink_loop (frame flags i).run i i n flags,
  get_or-set (shrink_loop (frame flags i).run i i n flags) i k
      (record (frame (shrink_loop (frame flags i).run i i n flags) i) { run = n }) free_frame,
  frame-shrink_loop (frame flags i).run i i n i flags pos,
  frame-shrink_loop (frame flags i).run i i n k flags pos,
)

pub shrink-IsValid :
    (i n : ℕ) (flags : List Frame)
    → 1 ≤ n
    → n ≤ (frame flags i).run
    → Block flags i
    → IsValid flags
    → IsValid (shrink i n flags)
shrink-IsValid i n flags pos le b v = record {
  size = omega (arith, length-shrink i n flags, v.size);
  clean = λ j e. ground (arith, at j, v.clean j, b.used);
  extent = λ j e. ground (arith, at j, v.extent j, v.extent i, b.start);
  inner = λ j k e lt less.
      ground (arith, at j, at k, v.inner j k, v.inner i k, v.inner i j, v.inner j i, b.start);
  owner = λ j e.
      let (o, is_start, before, less) = v.owner j (ground (arith, at j, b.used)) in
      (
        o,
        ground (arith, at o, at j, v.inner i o, v.inner o i, b.start),
        before,
        ground (arith, at o, at j, v.inner i o, v.inner o i, b.start),
      );
}
  where
    at :
        (j : ℕ)
        → frame (shrink i n flags) j ≡ (
            if j == i
            then record (frame flags i) { run = n }
            else if leb (i + n) j && ltb j (i + (frame flags i).run)
            then free_frame
            else frame flags j)
    at j = frame-shrink i n j flags pos le (omega (arith, v.extent i b.start, v.size))

-- With the semaphore above zero and the frames in order, a size from 1 to 384 of fewer frames than the block
-- has keeps the block at its place, with room for the size, frees the frames behind it, and
-- leaves the frames in order.
pub my_realloc_shrinks :
    (i size : ℕ) (h : Heap) {n : ℕ}
    → h.lock ≡ suc n
    → IsValid h.flags
    → Block h.flags i
    → size ≢ 0
    → size ≤ 384
    → frames_for size < (frame h.flags i).run
    → (flags : List Frame) × (my_realloc (some (i * 32)) size h
        ≡ some (some (i * 32), record h { flags = flags }))
      × IsValid flags
      × Block flags i
      × ((frame flags i).run ≡ frames_for size)
      × (size ≤ frames_for size * 32)
      × ((k : ℕ)
          → i + frames_for size ≤ k
          → k < i + (frame h.flags i).run
          → frame flags k ≡ free_frame)
my_realloc_shrinks i size h lock v b pos small less =
    let (one, large, _) = frames_for_lem size (omega (arith, pos)) small in
    let fits : i + (frame h.flags i).run ≤ length h.flags =
      omega (arith, v.extent i b.start, v.size) in
    let here = frame-shrink i (frames_for size) i h.flags one (omega (arith, less)) fits in
    (
      shrink i (frames_for size) h.flags,
      my_realloc_less i h b size pos lock less,
      shrink-IsValid i (frames_for size) h.flags one (omega (arith, less)) b v,
      record {
        inside = b.inside;
        start = ground (arith, here, b.start);
        used = ground (arith, here, b.used);
      },
      ground (arith, here),
      large,
      λ k from to.
          ground (arith, frame-shrink i (frames_for size) k h.flags one (omega (arith, less)) fits),
    )
