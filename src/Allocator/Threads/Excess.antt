-- ===== src/Allocator/Threads/Excess.antt =====
-- The semaphore of hw4/hw4.c after a thread frees a pointer that is no block.
use cmsc421_os.Prelude.{
  ℕ, ◌+◌, ◌≡◌, ◌≢◌, ◌∙◌, refl, sym, arith, some, none, List, get_elem?, set, get_elem?-set_self,
  get_elem?-set_ne, lt_of_get_elem?,
}
use cmsc421_os.Allocator.Heap.{Heap}
use cmsc421_os.Allocator.Release.{my_free}
use cmsc421_os.Allocator.Owned.{Stray, my_free-stray}
use cmsc421_os.Allocator.Threads.{
  Call, free, perform, Place, wants, inside, posting, World, at_work, enters, working, reads,
  writes, posts, Turns, finished, more, Anything,
}
use cmsc421_os.Allocator.Threads.Alone.{then_null}

elsewhere :
    (places : List Place) {i j : ℕ} {q : Place} (p : Place)
    → i ≢ j
    → get_elem? places j ≡ some q
    → get_elem? (set places i p) j ≡ some q
elsewhere places p other e = get_elem?-set_ne places p other ∙ e

module _ (w : World) (i j k address : ℕ) (c d : Call)
    (at_i : get_elem? w.threads i ≡ some (inside (free (some address))))
    (at_j : get_elem? w.threads j ≡ some (wants c)) (at_k : get_elem? w.threads k ≡ some (wants d))
    (stray : Stray w.heap.flags address) (taken : w.heap.lock ≡ 0) (i_j : i ≢ j) (i_k : i ≢ k)
    (j_k : j ≢ k) where
  -- While a thread is behind the wait of a call of `my_free` for a pointer at which no block begins, and two
  -- other threads wait for the semaphore, both of them can come into their critical sections together.
  pub two_inside :
      (w' : World) × Turns Anything w w'
      × (get_elem? w'.threads j ≡ some (inside c))
      × (get_elem? w'.threads k ≡ some (inside d))
  unfolding perform
  two_inside =
      let h : Heap = at_work w.heap in
      let ran = then_null (my_free (some address)) (my_free-stray 0 address h refl stray) in
      let there = lt_of_get_elem? w.threads i at_i in
      let read : List Place = set w.threads i (working (free (some address)) h) in
      let one : List Place = set read i (posting 2 none) in
      let two : List Place = set one i (posting 1 none) in
      let three : List Place = set two i (posting 0 none) in
      let four : List Place = set three j (inside c) in
      let five : List Place = set four k (inside d) in
      let at_read = get_elem?-set_self w.threads i (working (free (some address)) h) there in
      let at_one = get_elem?-set_self read i (posting 2 none) (lt_of_get_elem? read i at_read) in
      let at_two = get_elem?-set_self one i (posting 1 none) (lt_of_get_elem? one i at_one) in
      let j_waits : get_elem? three j ≡ some (wants c) = elsewhere two (posting 0 none) i_j (
        elsewhere one (posting 1 none) i_j (
          elsewhere read (posting 2 none) i_j
            (elsewhere w.threads (working (free (some address)) h) i_j at_j))) in
      let k_waits : get_elem? four k ≡ some (wants d) = elsewhere three (inside c) j_k (
        elsewhere two (posting 0 none) i_k (
          elsewhere one (posting 1 none) i_k (
            elsewhere read (posting 2 none) i_k
              (elsewhere w.threads (working (free (some address)) h) i_k at_k)))) in
      let j_in : get_elem? four j ≡ some (inside c) =
        get_elem?-set_self three j (inside c) (lt_of_get_elem? three j j_waits) in
      let k_in : get_elem? five k ≡ some (inside d) =
        get_elem?-set_self four k (inside d) (lt_of_get_elem? four k k_waits) in
      let posted : w.heap.lock + 1 + 1 ≡ 2 = omega (arith, taken) in
      (
        _,
        more (reads i at_i tt) (
            more (writes i at_read ran) (
              more (posts i 1 at_one) (
                more (posts i 0 at_two)
                  (more (enters j 1 j_waits posted) (more (enters k 0 k_waits refl) finished))))),
        elsewhere four (inside d) (λ e. j_k (sym e)) j_in,
        k_in,
      )
