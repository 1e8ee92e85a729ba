-- ===== src/Allocator/Alloc.antt =====
-- `my_malloc` of hw4/hw4.c.
pub mod Scan
use cmsc421_os.Prelude.{
  ℕ, ◌+◌, ◌-◌, ◌*◌, ◌^◌, Bool, true, false, ◌||◌, Option, none, some, List, leb, ltb, ◌==◌,
  if◌then◌else◌, set,
}
use cmsc421_os.Prelude.Loop.{for_range}
use cmsc421_os.Allocator.Heap.{
  num_of_frames, bytes_per_frame, Frame, Heap, Ptr, M, ◌>>=◌, ◌>>◌, return, modify, sem_wait,
  sem_post, frame, fill, frames_for,
}

-- The variables of the search; a start of -1 is its bit pattern.
pub record Search : Type 0 where
  pub largest_start : ℕ
  pub largest_size : ℕ
  pub curr_start : ℕ
  pub curr_size : ℕ
  pub first : Bool

abbrev pub search_start : Search
search_start = record {
  largest_start = 2 ^ 32 - 1;
  largest_size = 0;
  curr_start = 2 ^ 32 - 1;
  curr_size = 0;
  first = true;
}

-- The comparison that ends a region.
unfoldable pub keep_larger : Search → Search
keep_larger s =
    if ltb s.largest_size s.curr_size
    then record s { largest_start = s.curr_start; largest_size = s.curr_size }
    else s

unfoldable pub grow : ℕ → Search → Search
grow i s =
    if s.first
    then record s { curr_start = i; curr_size = 1; first = false }
    else record s { curr_size = s.curr_size + 1 }

unfoldable pub search_step : List Frame → ℕ → Search → Search
search_step flags i s =
    if (frame flags i).free
    then (if i == num_of_frames - 1 then keep_larger (grow i s) else grow i s)
    else record (keep_larger s) { first = true; curr_size = 0 }

unfoldable pub search_region : List Frame → Search
search_region flags = for_range num_of_frames 0 (search_step flags) search_start

-- The flags of a block of `n` frames from `start` on.
unfoldable pub reserve : (start n : ℕ) → List Frame → List Frame
reserve start n flags =
    fill (record { free = false; start_frame = false; run = n }) (n - 1) (start + 1)
      (set flags start (record { free = false; start_frame = true; run = n }))

unfoldable pub take_region : ℕ → Search → M Ptr
take_region size s h =
    if leb size (s.largest_size * bytes_per_frame)
    then (do
      modify (λ h'. record h' { flags = reserve s.largest_start (frames_for size) h'.flags })
      sem_post
      return (some (s.largest_start * bytes_per_frame)))
        h
    else (do modify (λ h'. record h' { enomem = true }); sem_post; return none) h

unfoldable pub my_malloc : ℕ → M Ptr
unfolding sem_wait sem_post take_region
my_malloc size = do
  sem_wait
  λ h.
      if size == 0 || ltb (num_of_frames * bytes_per_frame) size
      then (sem_post >> return none) h
      else take_region size (search_region h.flags) h
