-- ===== src/Allocator/Heap.antt =====
-- The state of hw4/hw4.c, and the semaphore that guards it. A call runs in one thread: `none` is a call
-- that waits for the semaphore while nothing but this thread could post it, so that it never returns.
use cmsc421_os.Prelude.{
  ℕ, zero, suc, ◌+◌, ◌*◌, ◌/◌, ◌%◌, ◌^◌, Bool, true, false, Option, none, some, List, ◌==◌,
  if◌then◌else◌, get_or, set, replicate,
}
use cmsc421_os.Prelude.Loop.{for_range}

abbrev pub num_of_frames : ℕ
num_of_frames = 12

abbrev pub bytes_per_frame : ℕ
bytes_per_frame = 32

-- `struct MEM_FLAG`; `run` is its field `num_of_frames`.
pub record Frame : Type 0 where
  pub free : Bool
  pub start_frame : Bool
  pub run : ℕ

abbrev pub free_frame : Frame
free_frame = record { free = true; start_frame = false; run = 0 }

-- `raise(SIGSEGV)` is counted: the program goes on behind it if a handler is installed, as the one of
-- hw4_test.c is, and ends there otherwise.
pub record Heap : Type 0 where
  pub flags : List Frame  -- TOTAL_FLAGS
  pub bytes : List ℕ  -- TOTAL_MEM
  pub lock : ℕ  -- the value of the semaphore
  pub enomem : Bool  -- `errno` is ENOMEM, in one variable for all threads
  pub faults : ℕ  -- signals raised

-- A pointer: NULL is `none`, any other its distance from `TOTAL_MEM`, modulo 2^64.
abbrev pub Ptr : Type 0
Ptr = Option ℕ

-- `main` before the test.
abbrev pub initial : Heap
initial = record {
  flags = replicate num_of_frames free_frame;
  bytes = replicate 384 0;
  lock = 1;
  enomem = false;
  faults = 0;
}

abbrev pub M : Type 0 → Type 0
M A = Heap → Option (A × Heap)

infixl 5 ◌>>=◌ ◌>>◌
abbrev pub ◌>>=◌ : {A B : Type 0} → M A → (A → M B) → M B
◌>>=◌ act next h = elim (act h) [ none ↦ none | some (result, later) ↦ next result later ]

abbrev pub ◌>>◌ : {A B : Type 0} → M A → M B → M B
act >> next = act >>= λ _. next

abbrev pub return : {A : Type 0} → A → M A
return a h = some (a, h)

abbrev pub modify : (Heap → Heap) → M (Unit {0})
modify f h = some (tt, f h)

unfoldable pub down : (value : ℕ) → M (Unit {0})
down zero h = none
down (suc n) h = some (tt, record h { lock = n })

unfoldable pub sem_wait : M (Unit {0})
unfolding down
sem_wait h = down h.lock h

unfoldable pub sem_post : M (Unit {0})
sem_post h = some (tt, record h { lock = h.lock + 1 })

unfoldable pub raise_segv : M (Unit {0})
raise_segv h = some (tt, record h { faults = h.faults + 1 })

abbrev pub frame : List Frame → ℕ → Frame
frame flags i = get_or flags i free_frame

-- The loops that give the frames from `i` on one flag each.
unfoldable pub fill : Frame → (rounds i : ℕ) → List Frame → List Frame
fill f rounds i flags = for_range rounds i (λ j fs. set fs j f) flags

-- The first frame from `i` on that begins at the pointer.
unfoldable pub find_frame : (rounds i address : ℕ) → Option ℕ
find_frame zero i address = none
find_frame (suc n) i address =
    if i * bytes_per_frame == address then some i else find_frame n (i + 1) address

-- `numOfFrames`: bytes in frames, rounded up, as an `int`; the bit pattern.
unfoldable pub frames_for : ℕ → ℕ
frames_for size =
    if size % bytes_per_frame == 0
    then size / bytes_per_frame % 2 ^ 32
    else (size / bytes_per_frame + 1) % 2 ^ 32
