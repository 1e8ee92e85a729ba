-- ===== src/Mastermind2/Score/Sound.antt =====
-- What `num_black` and `num_white` of proj2/mastermind2.c count.
use cmsc421_os.Prelude.{
  ℕ, zero, suc, ◌+◌, ◌≤◌, ◌<◌, ◌≡◌, refl, sym, ◌∙◌, ◌↔◌, inl, inr, min, Bool, true, false, List, [],
  ◌∷◌, arith, ◌==◌, length, get_or, set, length-set, get_or-set, replicate, Bool-cases,
}
use native.Mathlib.Numerals.{add-one}
use cmsc421_os.Prelude.Loop.{for_range_inv}
use cmsc421_os.Mastermind2.Score.{
  num_pegs, Pegs, black_step, find_color, white_step, black_loop, white_loop, score,
}
use cmsc421_os.Mastermind2.Score.Marks.{
  one_if, count, marked, total, black, other, hits, hits-suc, hits_all, black-add-other, black-suc,
  other-suc, marked-le-count, marked-set, marked-replicate, total-set, sum_colors, sum_colors_mono,
  sum_colors-marked, AllBelow,
}

module _ (ts gs : List ℕ) (code_size : length ts ≡ num_pegs)
    (guess_size : length gs ≡ num_pegs) where
  -- The state of the first loop when it comes to position `i`.
  record Black (i : ℕ) (s : Pegs) : Type 0 where
    size : length s.peg_color ≡ num_pegs
    counted : s.count ≡ hits i ts gs
    every : s.count ≡ total s.peg_color
    bound : (c : ℕ) → marked c ts s.peg_color ≤ black c i ts gs
    done : (k : ℕ) → k < i → get_or ts k 0 ≡ get_or gs k 0 → get_or s.peg_color k false ≡ true
    todo : (k : ℕ) → i ≤ k → get_or s.peg_color k false ≡ false

  open_get : (k : ℕ) → get_or (replicate num_pegs false) k false ≡ false
  open_get zero = refl
  open_get (suc zero) = refl
  open_get (suc (suc zero)) = refl
  open_get (suc (suc (suc zero))) = refl
  open_get (suc (suc (suc (suc k)))) = refl

  Black-start : Black 0 (record { count = 0; peg_color = replicate num_pegs false })
  unfolding hits total marked black
  Black-start = record {
    size = refl;
    counted = refl;
    every = refl;
    bound = λ c. omega (arith, marked-replicate c num_pegs ts);
    done = λ k h e. absurd (omega arith);
    todo = λ k h. open_get k;
  }

  black_step-Black :
      (i : ℕ) (s : Pegs) → i < num_pegs → Black i s → Black (i + 1) (black_step ts gs i s)
  unfolding black_step
  black_step-Black i s h b = rw (add-one i) (record {
    size = ground (arith, length-set s.peg_color i true);
    counted = ground (arith, hits-suc i ts gs);
    every = ground (arith, total-set i s.peg_color, b.todo i);
    bound = λ c.
        ground (arith, b.bound c, black-suc c i ts gs, marked-set c i ts s.peg_color, b.todo i);
    done = λ k lt e. ground (arith, b.done k, get_or-set s.peg_color i k true false);
    todo = λ k le. ground (arith, b.todo k, get_or-set s.peg_color i k true false);
  })

  Black-end : Black num_pegs (black_loop ts gs)
  unfolding black_loop
  Black-end =
      for_range_inv Black (black_step ts gs) num_pegs black_step-Black num_pegs 0 _ refl Black-start

  -- The state of the second loop when it comes to position `i` of the guess.
  record White (i : ℕ) (s : Pegs) : Type 0 where
    size : length s.peg_color ≡ num_pegs
    every : s.count + (black_loop ts gs).count ≡ total s.peg_color
    bound : (c : ℕ) → marked c ts s.peg_color ≤ black c num_pegs ts gs + other c i ts gs
    kept :
        (k : ℕ) → k < num_pegs → get_or ts k 0 ≡ get_or gs k 0 → get_or s.peg_color k false ≡ true

  -- What `find_color` may do: nothing, or mark one open peg of the color and count it.
  record Found (color : ℕ) (s s' : Pegs) : Type 0 where
    size : length s'.peg_color ≡ length s.peg_color
    every : s'.count + total s.peg_color ≡ s.count + total s'.peg_color
    bound : (c : ℕ) → marked c ts s'.peg_color ≤ marked c ts s.peg_color + one_if (color == c)
    kept : (k : ℕ) → get_or s.peg_color k false ≡ true → get_or s'.peg_color k false ≡ true

  Found-refl : (color : ℕ) (s : Pegs) → Found color s s
  Found-refl color s = record {
    size = refl;
    every = refl;
    bound = λ c. omega arith;
    kept = λ k e. e;
  }

  Found-set :
      (color j : ℕ) (s : Pegs)
      → j < num_pegs
      → length s.peg_color ≡ num_pegs
      → get_or ts j 0 ≡ color
      → get_or s.peg_color j false ≡ false
      → Found color s (record { count = s.count + 1; peg_color = set s.peg_color j true })
  Found-set color j s h size e free = record {
    size = length-set s.peg_color j true;
    every = omega (arith, total-set j s.peg_color (omega arith) free);
    bound = λ c. ground (arith, marked-set c j ts s.peg_color (omega arith) (omega arith) free);
    kept = λ k old. ground (arith, get_or-set s.peg_color j k true false);
  }

  find_color-Found :
      (color rounds j : ℕ) (s : Pegs)
      → j + rounds ≡ num_pegs
      → length s.peg_color ≡ num_pegs
      → Found color s (find_color ts gs color rounds j s)
  unfolding find_color
  find_color-Found color zero j s e size = Found-refl color s
  find_color-Found color (suc n) j s e size = elim (Bool-cases (get_or ts j 0 == color)) [
    | inl hit ↦ elim (Bool-cases (get_or s.peg_color j false)) [
      | inl used ↦ rw (hit, used) (Found-refl color s)
      | inr free ↦ rw (hit, free) (Found-set color j s (omega arith) size (ground arith) free)
    ]
    | inr miss ↦ rw miss (find_color-Found color n (j + 1) s (omega arith) size)
  ]

  white_step-White :
      (i : ℕ) (s : Pegs) → i < num_pegs → White i s → White (i + 1) (white_step ts gs i s)
  unfolding white_step
  white_step-White i s h w = rw (add-one i) (elim (Bool-cases (get_or s.peg_color i false)) [
    | inl used ↦ rw used (record {
      size = w.size;
      every = w.every;
      bound = λ c. omega (arith, w.bound c, other-suc c i ts gs);
      kept = w.kept;
    })
    | inr free ↦ rw free (found free (find_color-Found (get_or gs i 0) num_pegs 0 s refl w.size))
  ])
    where
      found :
          get_or s.peg_color i false ≡ false
          → {s' : Pegs} → Found (get_or gs i 0) s s'
          → White (suc i) s'
      found free f = record {
        size = omega (arith, f.size, w.size);
        every = omega (arith, f.every, w.every);
        bound = λ c. ground (arith, f.bound c, w.bound c, other-suc c i ts gs, w.kept i);
        kept = λ k lt e. f.kept k (w.kept k lt e);
      }

  White-end : White num_pegs (white_loop ts gs)
  unfolding white_loop
  White-end =
      for_range_inv White (white_step ts gs) num_pegs white_step-White num_pegs 0 _ refl (record {
        size = Black-end.size;
        every = omega (arith, Black-end.every);
        bound = λ c. omega (arith, Black-end.bound c);
        kept = λ k lt e. Black-end.done k lt e;
      })

  -- `num_black` is the number of positions at which the guess has the code's color.
  pub black-score : (score ts gs).0 ≡ hits num_pegs ts gs
  unfolding score
  black-score = Black-end.counted

  -- For a code and a guess of four pegs, all four pegs are black exactly when the guess is the code.
  pub score-win : ((score ts gs).0 ≡ num_pegs) ↔ (ts ≡ gs)
  score-win = rw black-score (rw guess_size at (hits_all ts gs (code_size ∙ sym guess_size)))

  total-le : (peg : List Bool) → total peg ≤ length peg
  unfolding total
  total-le [] = omega arith
  total-le (b ∷ bs) = ground (arith, total-le bs)

  -- Black and white pegs together are at most the pegs.
  pub score-le : (score ts gs).0 + (score ts gs).1 ≤ num_pegs
  unfolding score
  score-le = omega (arith, White-end.every, White-end.size, total-le (white_loop ts gs).peg_color)

  both : (c : ℕ) → black c num_pegs ts gs + other c num_pegs ts gs ≡ count c gs
  both c = rw guess_size at (black-add-other c ts gs (code_size ∙ sym guess_size))

  -- For a code and a guess of four pegs, with the code's colors below a bound, black and white pegs
  -- together are at most what the rules of the game grant: for each color the pegs that the code and the
  -- guess both have of it.
  pub score_sound :
      (colors : ℕ)
      → AllBelow colors ts
      → (score ts gs).0 + (score ts gs).1 ≤ sum_colors colors (λ c. min (count c ts) (count c gs))
  unfolding score
  score_sound colors small = omega (
    arith,
    White-end.every,
    sum_colors-marked colors ts (white_loop ts gs).peg_color small (omega (arith, White-end.size)),
    sum_colors_mono colors (λ c. marked c ts (white_loop ts gs).peg_color)
        (λ c. min (count c ts) (count c gs)) each,
  )
    where
      each : (c : ℕ) → marked c ts (white_loop ts gs).peg_color ≤ min (count c ts) (count c gs)
      each c =
          omega
            (arith, marked-le-count c ts (white_loop ts gs).peg_color, White-end.bound c, both c)
