-- ===== src/Allocator/Tests.antt =====
-- Runs of the model of hw4/hw4.c, and the theorems at concrete inputs.
use cmsc421_os.Prelude.{ℕ, ◌*◌, ◌≡◌, ◌↔◌, refl, true, false, none, some, ◌∷◌, arith, replicate}
use cmsc421_os.Prelude.Loop.{for_range}
use cmsc421_os.Allocator.Heap.{Frame, free_frame, Heap, initial, fill, frames_for}
use cmsc421_os.Allocator.Alloc.{search_region, search_step, keep_larger, grow, reserve, my_malloc}
use cmsc421_os.Allocator.Alloc.Scan.{FreeRun}
use cmsc421_os.Allocator.Release.{my_free}
use cmsc421_os.Allocator.Calls.{Allocated, my_malloc-some, my_malloc-none}
use cmsc421_os.Allocator.Owned.{Block, my_malloc-my_free}
use cmsc421_os.Allocator.Reach.{allocate, here, after, Sound, initial-Sound, Reach-Sound}

abbrev pub first : Frame
first = record { free = false; start_frame = true; run = 2 }

abbrev pub inner : Frame
inner = record { free = false; start_frame = false; run = 2 }

-- After a call for 40 bytes.
abbrev pub two_frames : Heap
two_frames = record initial { flags = first ∷ inner ∷ replicate 10 free_frame }

-- After a second one.
abbrev pub two_blocks : Heap
two_blocks = record initial { flags = first ∷ inner ∷ first ∷ inner ∷ replicate 8 free_frame }

pub served_first : my_malloc 40 initial ≡ some (some 0, two_frames)
unfolding my_malloc search_region search_step keep_larger grow reserve fill for_range frames_for
served_first = refl

pub served_second : my_malloc 40 two_frames ≡ some (some 64, two_blocks)
unfolding my_malloc search_region search_step keep_larger grow reserve fill for_range frames_for
served_second = refl

Sound-one : Sound two_frames
Sound-one = Reach-Sound (after (allocate 40 served_first) here) initial-Sound

my_malloc-some_example : (start : ℕ) × (64 ≡ start * 32) × Allocated 40 two_frames two_blocks start
my_malloc-some_example = my_malloc-some 40 0 two_frames refl Sound-one.blocks served_second

my_malloc-none_example :
    (my_malloc 330 two_frames ≡ some (none, record two_frames { enomem = true }))
    ↔ ((a : ℕ) → ¬ FreeRun two_frames.flags a (frames_for 330))
my_malloc-none_example =
    my_malloc-none 330 0 two_frames refl Sound-one.blocks (omega arith, omega arith)

Reach-Sound_example : Sound two_blocks
Reach-Sound_example =
    Reach-Sound (after (allocate 40 served_first) (after (allocate 40 served_second) here))
      initial-Sound

my_malloc-my_free_example : my_free (some 64) two_blocks ≡ some (tt, two_frames)
my_malloc-my_free_example =
    my_malloc-my_free 40 0 two_frames two_blocks 64 refl Sound-one.blocks served_second

pub Block-first : Block two_blocks.flags 0
Block-first = record { inside = omega arith; start = refl; used = refl }

pub Block-second : Block two_blocks.flags 2
Block-second = record { inside = omega arith; start = refl; used = refl }

Block-alone : Block two_frames.flags 0
Block-alone = record { inside = omega arith; start = refl; used = refl }

pub stray_40 : (i : ℕ) → 40 ≡ i * 32 → ¬ Block two_frames.flags i
stray_40 i e b = omega (arith, e)
