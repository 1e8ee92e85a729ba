-- ===== src/Allocator/Reach.antt =====
-- Programs that use the allocator of hw4/hw4.c as its interface asks: the calls as a step relation.
use cmsc421_os.Prelude.{
  ℕ, ◌+◌, ◌*◌, ◌≤◌, ◌<◌, ◌≡◌, ◌≢◌, refl, inl, inr, true, List, some, arith, get_or-replicate,
}
use cmsc421_os.Allocator.Heap.{Frame, free_frame, Heap, Ptr, initial, frame, frames_for}
use cmsc421_os.Allocator.Alloc.{reserve, my_malloc}
use cmsc421_os.Allocator.Release.{give_back, shrink, my_free, my_realloc}
use cmsc421_os.Allocator.Blocks.{IsValid, give_back-IsValid, frame-fill, frame-reserve}
use cmsc421_os.Allocator.Calls.{
  frames_for_lem, my_malloc-some, malloc-cases, malloc-refuses, malloc-full, malloc-takes, spot,
}
use cmsc421_os.Allocator.Owned.{Block, my_free-block}
use cmsc421_os.Allocator.Realloc.{frame-shrink, shrink-IsValid, my_realloc_less}

-- One call: any allocation, the release of a block in use, and a smaller size for a block in use.
pub data Step : Heap → Heap → Type 0 where
  allocate : {h h' : Heap} {p : Ptr} (size : ℕ) → my_malloc size h ≡ some (p, h') → Step h h'
  release :
      {h h' : Heap} (i : ℕ)
      → Block h.flags i
      → my_free (some (i * 32)) h ≡ some (tt, h')
      → Step h h'
  cut :
      {h h' : Heap} {p : Ptr} (i size : ℕ)
      → Block h.flags i
      → size ≢ 0
      → size ≤ 384
      → frames_for size < (frame h.flags i).run
      → my_realloc (some (i * 32)) size h ≡ some (p, h')
      → Step h h'

pub data Reach : Heap → Heap → Type 0 where
  here : {h : Heap} → Reach h h
  after : {h h' h'' : Heap} → Step h h' → Reach h' h'' → Reach h h''

-- Between calls the semaphore is free, no signal was raised and the frames are in order.
pub record Sound (h : Heap) : Type 0 where
  pub lock : h.lock ≡ 1
  pub faults : h.faults ≡ 0
  pub blocks : IsValid h.flags

pub initial-Sound : Sound initial
initial-Sound = record {
  lock = refl;
  faults = refl;
  blocks = record {
    size = refl;
    clean = λ i e. ground (arith, unused i);
    extent = λ i e. ground (arith, unused i);
    inner = λ i k e lt less. ground (arith, unused i);
    owner = λ j e. absurd (ground (arith, unused j));
  };
}
  where
    unused : (i : ℕ) → frame initial.flags i ≡ free_frame
    unused i = get_or-replicate 12 i free_frame

malloc-Sound :
    {h h' : Heap} {p : Ptr} (size : ℕ) → my_malloc size h ≡ some (p, h') → Sound h → Sound h'
malloc-Sound {h} {h'} {p} size e s = elim (malloc-cases size 0 h s.lock) [
  | inl other ↦ let same : h' ≡ h = cc (malloc-refuses size 0 h s.lock other) in rw same s
  | inr (inl (served, small)) ↦
      let same : h' ≡ record h { enomem = true } = cc (malloc-full size 0 h s.lock served small) in
      rw same (record { lock = s.lock; faults = s.faults; blocks = s.blocks })
  | inr (inr (served, large)) ↦
      let took = malloc-takes size 0 h s.lock served large in
      let (_, _, al) = my_malloc-some size 0 h s.lock s.blocks took in
      let same : h' ≡ record h { flags = reserve (spot h.flags) (frames_for size) h.flags } =
        cc took in
      rw same (record { lock = s.lock; faults = s.faults; blocks = al.valid })
]

-- A step ends in order.
pub Step-Sound : {h h' : Heap} → Step h h' → Sound h → Sound h'
Step-Sound (allocate size e) s = malloc-Sound size e s
Step-Sound {h} {h'} (release i b e) s =
    let same : h' ≡ record h { flags = give_back i h.flags } = cc (my_free-block 0 i h s.lock b) in
    rw same (record {
      lock = s.lock;
      faults = s.faults;
      blocks = give_back-IsValid i h.flags b.start s.blocks;
    })
Step-Sound {h} {h'} (cut i size b pos small less e) s =
    let same : h' ≡ record h { flags = shrink i (frames_for size) h.flags } =
      cc (my_realloc_less i h b size pos s.lock less) in
    rw same (record {
      lock = s.lock;
      faults = s.faults;
      blocks =
          shrink-IsValid i (frames_for size) h.flags
            (omega (arith, frames_for_lem size (omega (arith, pos)) small)) (omega (arith, less)) b
            s.blocks;
    })

-- Every run of allocations, releases of blocks in use and cuts of blocks in use that begins in order ends in
-- order: the semaphore is free, no signal was raised and the frames are in order.
pub Reach-Sound : {h h' : Heap} → Reach h h' → Sound h → Sound h'
Reach-Sound here s = s
Reach-Sound (after step more) s = Reach-Sound more (Step-Sound step s)

blocks_apart :
    {flags : List Frame} (i k : ℕ)
    → IsValid flags
    → Block flags i
    → Block flags k
    → i < k
    → i + (frame flags i).run ≤ k
blocks_apart i k v b c less = ground (arith, v.inner i k, b.start, c.start)

-- After any run of allocations, releases of blocks in use and cuts of blocks in use from the initial state,
-- of two blocks in use the first ends before the second begins.
pub Reach_apart :
    {h : Heap} (i k : ℕ)
    → Reach initial h
    → Block h.flags i
    → Block h.flags k
    → i < k
    → i + (frame h.flags i).run ≤ k
Reach_apart i k run b c less = blocks_apart i k (Reach-Sound run initial-Sound).blocks b c less

-- The block that a call is about.
abbrev pub About : {h h' : Heap} → Step h h' → ℕ → Type 0
About (allocate size e) k = ⊥
About (release i b e) k = i ≡ k
About (cut i size b pos small less e) k = i ≡ k

keeps :
    {flags flags' : List Frame} (k : ℕ)
    → frame flags' k ≡ frame flags k
    → Block flags k
    → Block flags' k × ((frame flags' k).run ≡ (frame flags k).run)
keeps k same b = (
  record {
    inside = b.inside;
    start = ground (arith, same, b.start);
    used = ground (arith, same, b.used);
  },
  ground (arith, same),
)

give_back-other :
    (i k : ℕ) (flags : List Frame)
    → Block flags i
    → Block flags k
    → i ≢ k
    → IsValid flags
    → frame (give_back i flags) k ≡ frame flags k
unfolding give_back
give_back-other i k flags c b other v = ground (
  arith,
  frame-fill free_frame (frame flags i).run i k flags,
  v.size,
  v.extent i c.start,
  v.inner i k c.start,
  b.start,
)

malloc-keeps :
    {h h' : Heap} {p : Ptr} (size k : ℕ)
    → my_malloc size h ≡ some (p, h')
    → Sound h
    → Block h.flags k
    → frame h'.flags k ≡ frame h.flags k
malloc-keeps {h} {h'} {p} size k e s b = elim (malloc-cases size 0 h s.lock) [
  | inl other ↦ let same : h' ≡ h = cc (malloc-refuses size 0 h s.lock other) in rw same refl
  | inr (inl (served, small)) ↦
      let same : h' ≡ record h { enomem = true } = cc (malloc-full size 0 h s.lock served small) in
      rw same refl
  | inr (inr (served, large)) ↦
      let took = malloc-takes size 0 h s.lock served large in
      let (start, at, al) = my_malloc-some size 0 h s.lock s.blocks took in
      let same : h' ≡ record h { flags = reserve start (frames_for size) h.flags } =
        cc (took, al.result) in
      rw same (
        ground (
          arith,
          frame-reserve start (frames_for size) k h.flags,
          frames_for_lem size served.0 served.1,
          al.was_free.inside,
          al.was_free.all_free k,
          s.blocks.size,
          b.used,
        ))
]

-- From a state in order, an allocation, or a release or cut of another block in use, leaves a block in use
-- at its place, in use and with its length.
pub Step-keeps :
    {h h' : Heap} (step : Step h h') (k : ℕ)
    → Sound h
    → Block h.flags k
    → ¬ About step k
    → Block h'.flags k × ((frame h'.flags k).run ≡ (frame h.flags k).run)
Step-keeps (allocate size e) k s b other = keeps k (malloc-keeps size k e s b) b
Step-keeps {h} {h'} (release i c e) k s b other =
    let same : h' ≡ record h { flags = give_back i h.flags } = cc (my_free-block 0 i h s.lock c) in
    keeps k (rw same (ground (arith, give_back-other i k h.flags c b other s.blocks))) b
Step-keeps {h} {h'} (cut i size c pos small less e) k s b other =
    let same : h' ≡ record h { flags = shrink i (frames_for size) h.flags } =
      cc (my_realloc_less i h c size pos s.lock less) in
    keeps k
      (rw same (
        ground (
          arith,
          frame-shrink i (frames_for size) k h.flags,
          frames_for_lem size,
          s.blocks.size,
          s.blocks.extent i c.start,
          s.blocks.inner i k c.start,
          b.start,
        )))
      b
