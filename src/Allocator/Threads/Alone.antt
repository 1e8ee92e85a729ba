-- ===== src/Allocator/Threads/Alone.antt =====
-- The calls of hw4/hw4.c that a thread makes, with the semaphore free.
use cmsc421_os.Prelude.{ℕ, ◌*◌, ◌≡◌, ◌⊎◌, inl, inr, refl, sym, ap, ◌∙◌, arith, none, some, List}
use cmsc421_os.Allocator.Heap.{
  Heap, Ptr, M, sem_wait, sem_post, down, ◌>>=◌, ◌>>◌, return, frames_for,
}
use cmsc421_os.Allocator.Release.{
  give_back, shrink, my_free, my_realloc, my_malloc_stats, stats_text,
}
use cmsc421_os.Allocator.Calls.{my_malloc_returns}
use cmsc421_os.Allocator.Owned.{my_free-block}
use cmsc421_os.Allocator.Realloc.{my_realloc_less}
use cmsc421_os.Allocator.Reach.{Step, allocate, release, cut, Sound}
use cmsc421_os.Allocator.Threads.{Call, malloc, free, realloc, stats, perform, Proper}

-- A proper call alone: one post, and a step of the program with one thread, or nothing.
abbrev pub Alone : Heap → Heap → Type 0
Alone h h' = (h'.lock ≡ 1) × ((h' ≡ h) ⊎ Step h h')

free_null : (h : Heap) → h.lock ≡ 1 → my_free none h ≡ some (tt, h)
unfolding my_free sem_wait sem_post down
free_null h e = ground arith

shows : (h : Heap) → h.lock ≡ 1 → (text : List ℕ) × (my_malloc_stats h ≡ some (text, h))
unfolding my_malloc_stats sem_wait sem_post down stats_text
shows h e = (stats_text h, ground arith)

pub then_null :
    {A : Type 0} (act : M A) {h k : Heap} {a : A}
    → act h ≡ some (a, k)
    → (act >> return {A = Ptr} none) h ≡ some (none, k)
then_null act e = rw (◌>>◌, ◌>>=◌, e) refl

pub perform-Alone :
    (c : Call) (h h' : Heap) (p : Ptr)
    → Sound h
    → Proper h c
    → perform c h ≡ some (p, h')
    → Alone h h'
unfolding perform
perform-Alone (malloc size) h h' p e proper ran =
    let (q, k, served, same) = my_malloc_returns size 0 h e.lock e.blocks in
    let this : h' ≡ k = cc in (ap (λ x. x.lock) this ∙ same ∙ e.lock, inr (allocate size ran))
perform-Alone (free none) h h' p e proper ran =
    let this : h' ≡ h = cc (then_null (my_free none) (free_null h e.lock)) in
    (ap (λ x. x.lock) this ∙ e.lock, inl this)
perform-Alone (free (some address)) h h' p e (i, at, b) ran =
    let freed = my_free-block 0 i h e.lock b in
    let ran' : (my_free (some (i * 32)) >> return none) h ≡ some (p, h') = rw at at ran in
    let this : h' ≡ record h { flags = give_back i h.flags } =
      cc (then_null (my_free (some (i * 32))) freed) in
    (ap (λ x. x.lock) this ∙ e.lock, inr (release i b (freed ∙ ap (λ k. some (tt, k)) (sym this))))
perform-Alone (realloc address size) h h' p e (i, at, b, pos, small, less) ran =
    let cut_down = my_realloc_less i h b size pos e.lock less in
    let ran' : my_realloc (some (i * 32)) size h ≡ some (p, h') = rw at at ran in
    let this : h' ≡ record h { flags = shrink i (frames_for size) h.flags } = cc in
    (ap (λ x. x.lock) this ∙ e.lock, inr (cut i size b pos small less ran'))
perform-Alone stats h h' p e proper ran =
    let (text, shown) = shows h e.lock in
    let this : h' ≡ h = cc (then_null my_malloc_stats shown) in
    (ap (λ x. x.lock) this ∙ e.lock, inl this)

pub perform-some :
    (c : Call) (h : Heap)
    → Sound h
    → Proper h c
    → (p : Ptr) × (h' : Heap) × (perform c h ≡ some (p, h'))
unfolding perform
perform-some (malloc size) h e proper =
    let (p, h', served, _) = my_malloc_returns size 0 h e.lock e.blocks in (p, h', served)
perform-some (free none) h e proper = (none, h, then_null (my_free none) (free_null h e.lock))
perform-some (free (some address)) h e (i, at, b) =
    let freed = then_null (my_free (some (i * 32))) (my_free-block 0 i h e.lock b) in
    (none, record h { flags = give_back i h.flags }, rw at freed)
perform-some (realloc address size) h e (i, at, b, pos, small, less) =
    let cut_down = my_realloc_less i h b size pos e.lock less in
    (some (i * 32), record h { flags = shrink i (frames_for size) h.flags }, rw at cut_down)
perform-some stats h e proper = (none, h, then_null my_malloc_stats (shows h e.lock).1)
