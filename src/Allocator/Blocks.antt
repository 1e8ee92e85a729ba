-- ===== src/Allocator/Blocks.antt =====
-- The frames as blocks: what `my_malloc` of hw4/hw4.c leaves in the flags.
use cmsc421_os.Prelude.{
  ℕ, zero, suc, ◌+◌, ◌-◌, ◌≤◌, ◌<◌, ◌≡◌, refl, true, false, List, arith, ◌==◌, ◌&&◌, leb, dec_lt,
  ltb, if◌then◌else◌, length, set, get_or-set, length-set,
}
use cmsc421_os.Prelude.Loop.{for_range}
use cmsc421_os.Allocator.Heap.{num_of_frames, Frame, free_frame, frame, fill}
use cmsc421_os.Allocator.Alloc.{reserve}
use cmsc421_os.Allocator.Release.{give_back}
use cmsc421_os.Allocator.Alloc.Scan.{FreeRun}

pub length-fill :
    (f : Frame) (rounds i : ℕ) (flags : List Frame) → length (fill f rounds i flags) ≡ length flags
unfolding fill for_range
length-fill f zero i flags = refl
length-fill f (suc n) i flags =
    omega (arith, length-fill f n (i + 1) (set flags i f), length-set {0} flags i f)

pub frame-fill :
    (f : Frame) (rounds i j : ℕ) (flags : List Frame)
    → i + rounds ≤ length flags
    → frame (fill f rounds i flags) j ≡ (if leb i j && ltb j (i + rounds) then f else frame flags j)
unfolding fill for_range
frame-fill f zero i j flags h = ground arith
frame-fill f (suc n) i j flags h = ground (
  arith,
  frame-fill f n (i + 1) j (set flags i f),
  length-set flags i f,
  get_or-set flags i j f free_frame,
)

-- Every frame is free or belongs to one block, which begins with a start frame that holds its length.
pub record IsValid (flags : List Frame) : Type 0 where
  pub size : length flags ≡ num_of_frames
  pub clean :
      (i : ℕ)
      → (frame flags i).free ≡ true
      → ((frame flags i).start_frame ≡ false) × ((frame flags i).run ≡ 0)
  pub extent :
      (i : ℕ)
      → (frame flags i).start_frame ≡ true
      → (1 ≤ (frame flags i).run) × (i + (frame flags i).run ≤ num_of_frames)
  pub inner :
      (i k : ℕ)
      → (frame flags i).start_frame ≡ true
      → i < k
      → k < i + (frame flags i).run
      → ((frame flags k).free ≡ false) × ((frame flags k).start_frame ≡ false)
  pub owner :
      (j : ℕ)
      → (frame flags j).free ≡ false
      → (i : ℕ) × ((frame flags i).start_frame ≡ true) × (i ≤ j) × (j < i + (frame flags i).run)

pub frame-reserve :
    (start n j : ℕ) (flags : List Frame)
    → 1 ≤ n
    → start + n ≤ length flags
    → frame (reserve start n flags) j ≡ (
        if j == start
        then record { free = false; start_frame = true; run = n }
        else if ltb start j && ltb j (start + n)
        then record { free = false; start_frame = false; run = n }
        else frame flags j)
unfolding reserve
frame-reserve start n j flags pos fits = ground (
  arith,
  frame-fill (record { free = false; start_frame = false; run = n }) (n - 1) (start + 1) j
      (set flags start (record { free = false; start_frame = true; run = n })),
  length-set flags start (record { free = false; start_frame = true; run = n }),
  get_or-set flags start j (record { free = false; start_frame = true; run = n }) free_frame,
)

pub length-reserve :
    (start n : ℕ) (flags : List Frame) → length (reserve start n flags) ≡ length flags
unfolding reserve
length-reserve start n flags = omega (
  arith,
  length-fill (record { free = false; start_frame = false; run = n }) (n - 1) (start + 1)
      (set flags start (record { free = false; start_frame = true; run = n })),
  length-set {0} flags start (record { free = false; start_frame = true; run = n }),
)

-- A block in a free region leaves the frames in order.
pub reserve-IsValid :
    (start n : ℕ) (flags : List Frame)
    → 1 ≤ n
    → FreeRun flags start n
    → IsValid flags
    → IsValid (reserve start n flags)
reserve-IsValid start n flags pos r v = record {
  size = omega (arith, length-reserve start n flags, v.size);
  clean = λ i e. ground (arith, at i, v.clean i);
  extent = λ i e. ground (arith, r.inside, at i, v.extent i, v.clean i, r.all_free i);
  inner = λ i k e lt less.
      ground (arith, at i, at k, v.inner i k, r.all_free i, r.all_free k, v.clean k, v.clean i);
  owner = λ j e. elim (dec_lt j start) [
    | yes below ↦ old j (ground (arith, at j))
    | no above ↦ elim (dec_lt j (start + n)) [
      | yes in_block ↦ (start, ground (arith, at start), omega arith, ground (arith, at start))
      | no behind ↦ old j (ground (arith, at j))
    ]
  ];
}
  where
    at :
        (j : ℕ)
        → frame (reserve start n flags) j ≡ (
            if j == start
            then record { free = false; start_frame = true; run = n }
            else if ltb start j && ltb j (start + n)
            then record { free = false; start_frame = false; run = n }
            else frame flags j)
    at j = frame-reserve start n j flags pos (omega (arith, r.inside, v.size))

    old :
        (j : ℕ)
        → (frame flags j).free ≡ false
        → (i : ℕ) × ((frame (reserve start n flags) i).start_frame ≡ true)
          × (i ≤ j)
          × (j < i + (frame (reserve start n flags) i).run)
    old j e =
        let (i, is_start, le, less) = v.owner j e in
        (
          i,
          ground (arith, at i, r.all_free i, v.clean i),
          le,
          ground (arith, at i, r.all_free i, v.clean i),
        )

-- Giving back a block leaves the frames in order.
pub give_back-IsValid :
    (i : ℕ) (flags : List Frame)
    → (frame flags i).start_frame ≡ true
    → IsValid flags
    → IsValid (give_back i flags)
unfolding give_back
give_back-IsValid i flags s v = record {
  size = omega (arith, length-fill free_frame (frame flags i).run i flags, v.size);
  clean = λ j e. ground (arith, at j, v.clean j);
  extent = λ j e. ground (arith, at j, v.extent j);
  inner = λ j k e lt less.
      ground (arith, at j, at k, v.inner j k, v.inner i k, v.inner i j, v.inner j i, s);
  owner = λ j e.
      let (b, is_start, le, less) = v.owner j (ground (arith, at j)) in
      (
        b,
        ground (arith, at b, at j, v.inner i b, v.inner b i, s),
        le,
        ground (arith, at b, at j, v.inner i b, v.inner b i, s),
      );
}
  where
    at :
        (j : ℕ)
        → frame (fill free_frame (frame flags i).run i flags) j
          ≡ (if leb i j && ltb j (i + (frame flags i).run) then free_frame else frame flags j)
    at j = frame-fill free_frame (frame flags i).run i j flags (omega (arith, v.extent i s, v.size))
