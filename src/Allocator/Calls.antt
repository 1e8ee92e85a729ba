-- ===== src/Allocator/Calls.antt =====
-- `my_malloc` of hw4/hw4.c, call by call.
use cmsc421_os.Prelude.{
  ℕ, zero, suc, ◌+◌, ◌*◌, ◌≤◌, ◌<◌, ◌≡◌, refl, ◌⊎◌, ◌↔◌, inl, inr, true, List, Option, none, some,
  arith,
}
use cmsc421_os.Allocator.Heap.{Frame, Heap, find_frame, frames_for}
use cmsc421_os.Allocator.Alloc.{search_region, reserve, my_malloc}
use cmsc421_os.Allocator.Alloc.Scan.{FreeRun, search_region-FreeRun, search_region_worst_fit}
use cmsc421_os.Allocator.Blocks.{IsValid, reserve-IsValid}

-- The frames that a size takes hold it, and one frame less would not.
pub frames_for_lem :
    (size : ℕ)
    → 0 < size
    → size ≤ 384
    → (1 ≤ frames_for size) × (size ≤ frames_for size * 32) × (frames_for size * 32 < size + 32)
unfolding frames_for
frames_for_lem size pos small = ground arith

-- The search over frames finds the frame that begins at an address.
pub find_frame_lem :
    (rounds i address : ℕ) {j : ℕ}
    → (find_frame rounds i address ≡ some j) ↔ ((address ≡ j * 32) × (i ≤ j) × (j < i + rounds))
unfolding find_frame
find_frame_lem zero i address = (λ e. cc, λ h. absurd (omega arith))
find_frame_lem (suc n) i address {j} =
    let (there, back) = find_frame_lem n (i + 1) address {j = j} in
    (λ e. ground (arith, there), λ h. ground (arith, back))

-- A size that the allocator serves.
abbrev pub Served : ℕ → Type 0
Served size = (0 < size) × (size ≤ 384)

-- Where a call of `my_malloc` puts its block.
abbrev pub spot : List Frame → ℕ
spot flags = (search_region flags).largest_start

abbrev pub largest : List Frame → ℕ
largest flags = (search_region flags).largest_size

-- The branches of `my_malloc`, entered with the semaphore at `n + 1`.
module _ (size n : ℕ) (h : Heap) (lock : h.lock ≡ suc n) where
  pub malloc-refuses : ¬ Served size → my_malloc size h ≡ some (none, h)
  unfolding my_malloc
  malloc-refuses other = ground arith

  pub malloc-full :
      Served size
      → largest h.flags * 32 < size
      → my_malloc size h ≡ some (none, record h { enomem = true })
  unfolding my_malloc
  malloc-full served small = ground arith

  pub malloc-takes :
      Served size
      → size ≤ largest h.flags * 32
      → my_malloc size h
        ≡ some (
          some (spot h.flags * 32),
          record h { flags = reserve (spot h.flags) (frames_for size) h.flags },
        )
  unfolding my_malloc
  malloc-takes served large = ground arith

  pub malloc-cases :
      (¬ Served size)
      ⊎ ((Served size × (largest h.flags * 32 < size))
          ⊎ (Served size × (size ≤ largest h.flags * 32)))
  malloc-cases = ground arith

FreeRun_prefix :
    {flags : List Frame} {a m : ℕ} (n : ℕ) → n ≤ m → FreeRun flags a m → FreeRun flags a n
FreeRun_prefix n le r = record {
  inside = omega (arith, r.inside);
  all_free = λ k from to. r.all_free k from (omega arith);
}

-- What a successful call says of its block, which begins at frame `start`.
pub record Allocated (size : ℕ) (h h' : Heap) (start : ℕ) : Type 0 where
  pub served : Served size
  pub was_free : FreeRun h.flags start (frames_for size)
  pub large : size ≤ frames_for size * 32
  pub result : h' ≡ record h { flags = reserve start (frames_for size) h.flags }
  pub valid : IsValid h'.flags
  pub worst_fit :
      (m : ℕ) × FreeRun h.flags start m
      × ((a n : ℕ) → FreeRun h.flags a n → 0 < n → (n < m) ⊎ ((n ≡ m) × (start ≤ a)))

module _ (size n : ℕ) (h : Heap) (lock : h.lock ≡ suc n) (v : IsValid h.flags) where
  region :
      Served size → size ≤ largest h.flags * 32 → FreeRun h.flags (spot h.flags) (largest h.flags)
  region served large = search_region-FreeRun h.flags (omega arith)

  block :
      Served size → size ≤ largest h.flags * 32 → FreeRun h.flags (spot h.flags) (frames_for size)
  block served large =
      FreeRun_prefix (frames_for size) (omega (arith, frames_for_lem size served.0 served.1))
        (region served large)

  -- With the semaphore above zero and the frames in order, a block that is returned begins at the first of
  -- the largest free regions, lies in it, holds the size, and leaves the frames in order.
  pub my_malloc-some :
      {a : ℕ} {h' : Heap}
      → my_malloc size h ≡ some (some a, h')
      → (start : ℕ) × (a ≡ start * 32) × Allocated size h h' start
  my_malloc-some {a} {h'} e = elim (malloc-cases size n h lock) [
    | inl other ↦ absurd (cc (malloc-refuses size n h lock other))
    | inr (inl (served, small)) ↦ absurd (cc (malloc-full size n h lock served small))
    | inr (inr (served, large)) ↦
        let same : h' ≡ record h { flags = reserve (spot h.flags) (frames_for size) h.flags } =
          cc (malloc-takes size n h lock served large) in
        (
          spot h.flags,
          cc (malloc-takes size n h lock served large),
          record {
            served = served;
            was_free = block served large;
            large = (frames_for_lem size served.0 served.1).1;
            result = same;
            valid = rw same (
                reserve-IsValid (spot h.flags) (frames_for size) h.flags
                  (frames_for_lem size served.0 served.1).0 (block served large) v);
            worst_fit = (largest h.flags, region served large, search_region_worst_fit h.flags);
          },
        )
  ]

  -- Every call returns, with the semaphore as it was.
  pub my_malloc_returns :
      (p : Option ℕ) × (h' : Heap) × (my_malloc size h ≡ some (p, h')) × (h'.lock ≡ h.lock)
  my_malloc_returns = elim (malloc-cases size n h lock) [
    | inl other ↦ (none, h, malloc-refuses size n h lock other, refl)
    | inr (inl (served, small)) ↦
        (none, record h { enomem = true }, malloc-full size n h lock served small, refl)
    | inr (inr (served, large)) ↦ (
      some (spot h.flags * 32),
      record h { flags = reserve (spot h.flags) (frames_for size) h.flags },
      malloc-takes size n h lock served large,
      refl,
    )
  ]

  -- With the semaphore above zero and the frames in order, a size from 1 to 384 is refused, with ENOMEM and
  -- nothing else changed, exactly if no free region has the frames for it.
  pub my_malloc-none :
      Served size
      → (my_malloc size h ≡ some (none, record h { enomem = true }))
        ↔ ((a : ℕ) → ¬ FreeRun h.flags a (frames_for size))
  my_malloc-none served = elim (malloc-cases size n h lock) [
    | inl other ↦ absurd (other served)
    | inr (inl (served', small)) ↦ (
      λ e a r. omega (
        arith,
        search_region_worst_fit h.flags a (frames_for size) r,
        frames_for_lem size served.0 served.1,
      ),
      λ _. malloc-full size n h lock served small,
    )
    | inr (inr (served', large)) ↦ (
      λ e. absurd (cc (malloc-takes size n h lock served large)),
      λ nowhere. absurd (nowhere (spot h.flags) (block served large)),
    )
  ]
