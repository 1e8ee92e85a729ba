-- ===== src/Allocator/Owned.antt =====
-- `my_free` and `my_malloc_usable_size` of hw4/hw4.c on blocks and on pointers that are none.
use cmsc421_os.Prelude.{
  ℕ, suc, ◌+◌, ◌*◌, ◌≤◌, ◌<◌, ◌≡◌, refl, ◌⊎◌, inl, inr, true, false, List, none, some, arith,
  Bool-cases, Option-cases, get_or-ext,
}
use cmsc421_os.Allocator.Heap.{
  num_of_frames, Frame, free_frame, Heap, frame, fill, find_frame, frames_for,
}
use cmsc421_os.Allocator.Alloc.{reserve, my_malloc}
use cmsc421_os.Allocator.Alloc.Scan.{FreeRun}
use cmsc421_os.Allocator.Release.{not_block, give_back, my_free, my_malloc_usable_size}
use cmsc421_os.Allocator.Blocks.{IsValid, frame-reserve, frame-fill, length-fill, length-reserve}
use cmsc421_os.Allocator.Calls.{find_frame_lem, frames_for_lem, my_malloc-some}

-- A block in use begins at frame `i`.
pub record Block (flags : List Frame) (i : ℕ) : Type 0 where
  pub inside : i < num_of_frames
  pub start : (frame flags i).start_frame ≡ true
  pub used : (frame flags i).free ≡ false

used : {flags : List Frame} (i : ℕ) → i < 12 → not_block (frame flags i) ≡ false → Block flags i
used i inside e = record { inside = inside; start = ground arith; used = ground arith }

-- No block begins at an address.
abbrev pub Stray : List Frame → ℕ → Type 0
Stray flags address = (i : ℕ) → address ≡ i * 32 → ¬ Block flags i

pub find_frame-start : (i : ℕ) → i < 12 → find_frame 12 0 (i * 32) ≡ some i
find_frame-start i small = (find_frame_lem 12 0 (i * 32) {j = i}).1 (refl, omega arith, omega arith)

module _ (n i : ℕ) (h : Heap) (lock : h.lock ≡ suc n) (b : Block h.flags i) where
  pub usable-block : my_malloc_usable_size (some (i * 32)) h ≡ some ((frame h.flags i).run * 32, h)
  unfolding my_malloc_usable_size
  usable-block = ground (arith, find_frame-start i b.inside, b.start, b.used, lock)

  pub my_free-block :
      my_free (some (i * 32)) h ≡ some (tt, record h { flags = give_back i h.flags })
  unfolding my_free
  my_free-block = ground (arith, find_frame-start i b.inside, b.start, b.used, lock)

-- Where the search ends that the calls begin with.
pub lookup-cases :
    (flags : List Frame) (address : ℕ)
    → ((i : ℕ) × (find_frame 12 0 address ≡ some i) × (address ≡ i * 32) × (i < 12))
      ⊎ (find_frame 12 0 address ≡ none)
lookup-cases flags address = elim (Option-cases (find_frame 12 0 address)) [
  | inl e ↦ inr e
  | inr (i, e) ↦
      let (at, _, less) = (find_frame_lem 12 0 address {j = i}).0 e in
      inl (i, e, at, omega (arith, less))
]

module _ (n address : ℕ) (h : Heap) (lock : h.lock ≡ suc n) (stray : Stray h.flags address) where
  no_block : (i : ℕ) → address ≡ i * 32 → i < 12 → not_block (frame h.flags i) ≡ true
  no_block i at inside = elim (Bool-cases (not_block (frame h.flags i))) [
    | inl e ↦ e
    | inr e ↦ absurd (stray i at (used i inside e))
  ]

  -- With the semaphore above zero, freeing a pointer at which no block begins raises one signal and leaves the semaphore one higher than
  -- before: it is posted twice for one wait.
  pub my_free-stray :
      my_free (some address) h ≡ some (tt, record h { lock = h.lock + 1; faults = h.faults + 1 })
  unfolding my_free
  my_free-stray = elim (lookup-cases h.flags address) [
    | inl (i, e, at, inside) ↦ ground (arith, e, no_block i at inside, lock)
    | inr e ↦ ground (arith, e, lock)
  ]

  pub usable-stray : my_malloc_usable_size (some address) h ≡ some (0, h)
  unfolding my_malloc_usable_size
  usable-stray = elim (lookup-cases h.flags address) [
    | inl (i, e, at, inside) ↦ ground (arith, e, no_block i at inside, lock)
    | inr e ↦ ground (arith, e, lock)
  ]

free_frame_lem : (f : Frame) → f.free ≡ true → f.start_frame ≡ false → f.run ≡ 0 → f ≡ free_frame
free_frame_lem f free start run = ground arith

-- A block that is reserved in a free region and given back leaves no trace.
give_back-reserve :
    (start n : ℕ) (flags : List Frame)
    → 1 ≤ n
    → FreeRun flags start n
    → IsValid flags
    → give_back start (reserve start n flags) ≡ flags
unfolding give_back
give_back-reserve start n flags pos r v =
    get_or-ext
      (fill free_frame (frame (reserve start n flags) start).run start (reserve start n flags))
      flags free_frame
      (omega (
        arith,
        length-reserve start n flags,
        length-fill free_frame (frame (reserve start n flags) start).run start
            (reserve start n flags),
      ))
      λ j. ground (
        arith,
        frame-fill free_frame (frame (reserve start n flags) start).run start j
            (reserve start n flags),
        length-reserve start n flags,
        frame-reserve start n j flags pos,
        frame-reserve start n start flags pos,
        r.inside,
        v.size,
        r.all_free j,
        v.clean j,
        free_frame_lem (frame flags j),
      )

reserve-Block :
    (start n : ℕ) (flags : List Frame)
    → 1 ≤ n
    → FreeRun flags start n
    → IsValid flags
    → Block (reserve start n flags) start × ((frame (reserve start n flags) start).run ≡ n)
reserve-Block start n flags pos r v =
    let at = frame-reserve start n start flags pos (omega (arith, r.inside, v.size)) in
    (
      record {
        inside = omega (arith, r.inside);
        start = ground (arith, at);
        used = ground (arith, at);
      },
      ground (arith, at),
    )

module _ (size n : ℕ) (h h' : Heap) (a : ℕ) (lock : h.lock ≡ suc n) (v : IsValid h.flags)
    (e : my_malloc size h ≡ some (some a, h')) where
  -- With the semaphore above zero and the frames in order, a block that was just served has at least its
  -- size usable, namely all of its frames.
  pub my_malloc-usable :
      (size ≤ frames_for size * 32)
      × (my_malloc_usable_size (some a) h' ≡ some (frames_for size * 32, h'))
  my_malloc-usable =
      let (start, at, al) = my_malloc-some size n h lock v e in
      let (pos, large, _) = frames_for_lem size al.served.0 al.served.1 in
      let (b, run) = reserve-Block start (frames_for size) h.flags pos al.was_free v in
      let got =
        usable-block n start (record h { flags = reserve start (frames_for size) h.flags }) lock
          b in
      (large, rw (at, al.result, got, run) refl)

  -- With the semaphore above zero and the frames in order, giving back a block that was just served restores
  -- the whole state from before it.
  pub my_malloc-my_free : my_free (some a) h' ≡ some (tt, h)
  my_malloc-my_free =
      let (start, at, al) = my_malloc-some size n h lock v e in
      let (pos, _, _) = frames_for_lem size al.served.0 al.served.1 in
      let (b, _) = reserve-Block start (frames_for size) h.flags pos al.was_free v in
      let got =
        my_free-block n start (record h { flags = reserve start (frames_for size) h.flags }) lock
          b in
      rw (at, al.result, got, give_back-reserve start (frames_for size) h.flags pos al.was_free v)
        refl
