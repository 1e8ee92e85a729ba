-- ===== src/Allocator/Alloc/Scan.antt =====
-- The search of `my_malloc` in hw4/hw4.c finds the largest free region, the first one of that size.
use cmsc421_os.Prelude.{
  ℕ, suc, ◌+◌, ◌-◌, ◌≤◌, ◌<◌, ◌≡◌, refl, ◌⊎◌, inl, inr, true, false, List, arith, ◌==◌, Bool-cases,
  dec_lt, lt→ltb,
}
use mathlib.Core.Path.{subst}
use native.Mathlib.Numerals.{add-one}
use cmsc421_os.Prelude.Loop.{for_range_inv}
use cmsc421_os.Allocator.Heap.{num_of_frames, Frame, frame}
use cmsc421_os.Allocator.Alloc.{Search, search_start, keep_larger, grow, search_step, search_region}

-- The `n` frames from `a` on are free.
pub record FreeRun (flags : List Frame) (a n : ℕ) : Type 0 where
  pub inside : a + n ≤ num_of_frames
  pub all_free : (k : ℕ) → a ≤ k → k < a + n → (frame flags k).free ≡ true

FreeRun_one :
    (flags : List Frame) (i : ℕ)
    → i < num_of_frames
    → (frame flags i).free ≡ true
    → FreeRun flags i 1
FreeRun_one flags i lt e = record {
  inside = omega arith;
  all_free = λ k le less. subst (λ (j : ℕ). (frame flags j).free ≡ true) (omega arith) e;
}

FreeRun_longer :
    (flags : List Frame) (a n i : ℕ)
    → a + n ≡ i
    → i < num_of_frames
    → (frame flags i).free ≡ true
    → FreeRun flags a n
    → FreeRun flags a (n + 1)
FreeRun_longer flags a n i eq lt e r = record {
  inside = omega arith;
  all_free = λ k le less. elim (dec_lt k i) [
    | yes old ↦ r.all_free k le (omega arith)
    | no new ↦ subst (λ (j : ℕ). (frame flags j).free ≡ true) (omega arith) e
  ];
}

module _ (flags : List Frame) where
  -- The largest region found is larger, or as large and not behind.
  abbrev Beaten : Search → ℕ → ℕ → Type 0
  Beaten s a n = (n < s.largest_size) ⊎ ((n ≡ s.largest_size) × (s.largest_start ≤ a))

  -- The search when it comes to frame `i`.
  record Scanned (i : ℕ) (s : Search) : Type 0 where
    largest : 0 < s.largest_size → FreeRun flags s.largest_start s.largest_size
    before : 0 < s.largest_size → s.first ≡ false → s.largest_start ≤ s.curr_start
    current : s.first ≡ false → FreeRun flags s.curr_start s.curr_size
    extent : s.first ≡ false → (s.curr_start + s.curr_size ≡ i) × (0 < s.curr_size)
    closed : s.first ≡ true → s.curr_size ≡ 0
    edge : s.first ≡ false → 0 < s.curr_start → (frame flags (s.curr_start - 1)).free ≡ false
    shut : s.first ≡ true → 0 < i → (frame flags (i - 1)).free ≡ false
    behind : 0 < s.largest_size → s.largest_start < i
    top :
        (a n : ℕ)
        → FreeRun flags a n
        → 0 < n
        → a + n ≤ i
        → Beaten s a n ⊎ ((s.first ≡ false) × (s.curr_start ≤ a))

  -- The current region is not larger than the largest one.
  abbrev Settled : Search → Type 0
  Settled s = s.curr_size ≤ s.largest_size

  keep_larger-Scanned :
      (i : ℕ) (s : Search) → Scanned i s → Scanned i (keep_larger s) × Settled (keep_larger s)
  unfolding keep_larger
  keep_larger-Scanned i s v = elim (dec_lt s.largest_size s.curr_size) [
    | yes larger ↦ rw (lt→ltb _ _ larger) (updated (ground (arith, v.closed)) larger, omega arith)
    | no small ↦ ground (arith, v)
  ]
    where
      updated :
          s.first ≡ false
          → s.largest_size < s.curr_size
          → Scanned i (record s { largest_start = s.curr_start; largest_size = s.curr_size })
      updated open_now larger = record {
        largest = λ _. v.current open_now;
        before = λ _ _. omega arith;
        current = v.current;
        extent = v.extent;
        closed = v.closed;
        edge = v.edge;
        shut = v.shut;
        behind = λ _. omega (arith, v.extent open_now);
        top = λ a n r p le. ground (arith, v.top a n r p le);
      }

  grow-Scanned :
      (i : ℕ) (s : Search)
      → i < num_of_frames
      → (frame flags i).free ≡ true
      → Scanned i s
      → Scanned (suc i) (grow i s)
  unfolding grow
  grow-Scanned i s lt e v = elim (Bool-cases s.first) [
    | inl fresh ↦ rw fresh (record {
      largest = v.largest;
      before = λ p _. omega (arith, v.behind p);
      current = λ _. FreeRun_one flags i lt e;
      extent = λ _. omega arith;
      closed = λ h. cc;
      edge = λ _ p. v.shut fresh p;
      shut = λ h. cc;
      behind = λ p. omega (arith, v.behind p);
      top = λ a n r p le. ground (arith, v.top a n r p, r.all_free (i - 1), v.shut);
    })
    | inr going ↦ rw going (record {
      largest = v.largest;
      before = λ p _. v.before p going;
      current = λ _.
          FreeRun_longer flags s.curr_start s.curr_size i (v.extent going).0 lt e (v.current going);
      extent = λ _. omega (arith, v.extent going);
      closed = λ h. cc;
      edge = λ _. v.edge going;
      shut = λ h. cc;
      behind = λ p. omega (arith, v.behind p);
      top = λ a n r p le.
          ground (arith, v.top a n r p, r.all_free (s.curr_start - 1), v.edge, v.extent);
    })
  ]

  -- The end of a region at a frame in use.
  abbrev leave : Search → Search
  leave s = record s { first = true; curr_size = 0 }

  leave-Scanned :
      (i : ℕ) (s : Search)
      → (frame flags i).free ≡ false
      → Scanned i s
      → Settled s
      → Scanned (suc i) (leave s)
  leave-Scanned i s e v settled = record {
    largest = v.largest;
    before = λ p h. cc;
    current = λ h. cc;
    extent = λ h. cc;
    closed = λ _. refl;
    edge = λ h. cc;
    shut = λ _ _. subst (λ (j : ℕ). (frame flags j).free ≡ false) (omega arith) e;
    behind = λ p. omega (arith, v.behind p);
    top = λ a n r p le. ground (arith, v.top a n r p, r.all_free i, v.extent, v.before);
  }

  -- At the last frame the current region is compared too.
  record Round (i : ℕ) (s : Search) : Type 0 where
    scanned : Scanned i s
    ended : i ≡ num_of_frames → Settled s

  search_step-Round :
      (i : ℕ) (s : Search) → i < num_of_frames → Round i s → Round (suc i) (search_step flags i s)
  unfolding search_step
  search_step-Round i s lt v = elim (Bool-cases (frame flags i).free) [
    | inl is_free ↦
        rw (is_free, search_step)
          (elim (Bool-cases (i == num_of_frames - 1)) [
            | inl last ↦
                let (kept, settled) =
                  keep_larger-Scanned (suc i) (grow i s) (grow-Scanned i s lt is_free v.scanned) in
                rw last (record { scanned = kept; ended = λ _. settled })
            | inr more ↦ rw more (record {
              scanned = grow-Scanned i s lt is_free v.scanned;
              ended = λ e. absurd (ground arith);
            })
          ])
    | inr used ↦
        let (kept, settled) = keep_larger-Scanned i s v.scanned in
        rw (used, search_step)
          (record {
            scanned = leave-Scanned i (keep_larger s) used kept settled;
            ended = λ _. omega arith;
          })
  ]

  search_end : Round num_of_frames (search_region flags)
  unfolding search_region
  search_end =
      for_range_inv Round (search_step flags) num_of_frames
        (λ i s lt v. rw (add-one i) (search_step-Round i s lt v)) num_of_frames 0 search_start refl
        (record {
          scanned = record {
            largest = λ h. absurd (omega arith);
            before = λ h. absurd (omega arith);
            current = λ h. cc;
            extent = λ h. cc;
            closed = λ _. refl;
            edge = λ h. cc;
            shut = λ _ h. absurd (omega arith);
            behind = λ h. absurd (omega arith);
            top = λ a n r p le. absurd (omega arith);
          };
          ended = λ e. absurd (omega arith);
        })

  -- The region that the search ends with is free, if it is not empty.
  pub search_region-FreeRun :
      0 < (search_region flags).largest_size
      → FreeRun flags (search_region flags).largest_start (search_region flags).largest_size
  search_region-FreeRun = search_end.scanned.largest

  -- No free region is larger, and none of the same size begins before it.
  pub search_region_worst_fit :
      (a n : ℕ)
      → FreeRun flags a n
      → 0 < n
      → (n < (search_region flags).largest_size)
        ⊎ ((n ≡ (search_region flags).largest_size) × ((search_region flags).largest_start ≤ a))
  search_region_worst_fit a n r p = ground (
    arith,
    search_end.scanned.top a n r p r.inside,
    search_end.scanned.extent,
    search_end.scanned.before,
    search_end.ended,
  )
