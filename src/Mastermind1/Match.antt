-- ===== src/Mastermind1/Match.antt =====
-- What the pegs of proj1/mastermind.c count.
use cmsc421_os.Prelude.{
  ℕ, zero, suc, ◌+◌, ◌<◌, ◌≡◌, refl, Bool, true, false, List, [], ◌∷◌, ◌==◌, ◌||◌, ◌&&◌, get_or,
  replicate, length, arith, get_or-set, get_or-replicate, length-set, ltb,
}
use cmsc421_os.Prelude.Loop.{for_range, for_range_inv}
use cmsc421_os.Mastermind2.Score.{Pegs}
use cmsc421_os.Mastermind2.Score.Marks.{one_if, total, total-set}
use cmsc421_os.Mastermind1.Score.{black_step, mark_step, white_step, black_loop, white_loop, score}

-- The colour is among the first `n` pegs of the guess.
unfoldable pub among : (color n : ℕ) → List ℕ → Bool
among color zero gs = false
among color (suc n) gs = among color n gs || get_or gs n 0 == color

among-get_or : (k n : ℕ) (gs : List ℕ) → k < n → among (get_or gs k 0) n gs ≡ true
unfolding among
among-get_or k zero gs h = absurd (omega arith)
among-get_or k (suc n) gs h = ground (arith, among-get_or k n gs)

module _ (ts gs : List ℕ) where
  -- After `i` rounds of the first loop.
  record Black (i : ℕ) (s : Pegs) : Type 0 where
    pub size : length s.peg_color ≡ 4
    pub counted : s.count ≡ total s.peg_color
    pub marks : (k : ℕ) → get_or s.peg_color k false ≡ (ltb k i && get_or ts k 0 == get_or gs k 0)

  Black-end : Black 4 (black_loop ts gs)
  unfolding black_loop black_step among total
  Black-end =
      for_range_inv Black (black_step ts gs) 4 round 4 0
        (record { count = 0; peg_color = replicate 4 false }) refl
        (record {
          size = refl;
          counted = refl;
          marks = λ k. ground (arith, get_or-replicate 4 k false);
        })
    where
      round : (i : ℕ) (s : Pegs) → i < 4 → Black i s → Black (i + 1) (black_step ts gs i s)
      round i s h b = record {
        size = ground (arith, b.size, length-set s.peg_color i true);
        counted = ground (arith, b.size, b.counted, b.marks i, total-set i s.peg_color);
        marks = λ k. ground (arith, b.size, b.marks k, get_or-set s.peg_color i k true false);
      }

  -- The inner loop before its round `j`: the pegs of the colour are marked, and counted.
  record Mark (color : ℕ) (start : Pegs) (j : ℕ) (s : Pegs) : Type 0 where
    pub size : length s.peg_color ≡ 4
    pub counted : s.count + total start.peg_color ≡ start.count + total s.peg_color
    pub marks :
        (k : ℕ)
        → get_or s.peg_color k false
          ≡ (get_or start.peg_color k false || (ltb k j && get_or ts k 0 == color))

  Mark-end :
      (color : ℕ) (start : Pegs)
      → length start.peg_color ≡ 4
      → Mark color start 4 (for_range 4 0 (mark_step ts gs color) start)
  unfolding mark_step
  Mark-end color start size =
      for_range_inv (Mark color start) (mark_step ts gs color) 4 round 4 0 start refl
        (record { size = size; counted = refl; marks = λ k. ground arith })
    where
      round :
          (j : ℕ) (s : Pegs)
          → j < 4
          → Mark color start j s
          → Mark color start (j + 1) (mark_step ts gs color j s)
      round j s h m = record {
        size = ground (arith, m.size, length-set s.peg_color j true);
        counted = ground (arith, m.size, m.counted, total-set j s.peg_color);
        marks = λ k.
            ground (arith, m.size, m.marks k, m.marks j, get_or-set s.peg_color j k true false);
      }

  record White (i : ℕ) (s : Pegs) : Type 0 where
    pub size : length s.peg_color ≡ 4
    pub counted : s.count + (black_loop ts gs).count ≡ total s.peg_color
    pub marks :
        (k : ℕ)
        → get_or s.peg_color k false
          ≡ (ltb k 4 && (get_or ts k 0 == get_or gs k 0 || among (get_or ts k 0) i gs))

  White-end : White 4 (white_loop ts gs)
  unfolding white_loop white_step among
  White-end =
      for_range_inv White (white_step ts gs) 4 round 4 0
        (record { count = 0; peg_color = (black_loop ts gs).peg_color }) refl
        (record {
          size = Black-end.size;
          counted = omega (arith, Black-end.counted);
          marks = λ k. ground (arith, Black-end.marks k);
        })
    where
      round : (i : ℕ) (s : Pegs) → i < 4 → White i s → White (i + 1) (white_step ts gs i s)
      round i s h w =
          let m = Mark-end (get_or gs i 0) s w.size in
          record {
            size = m.size;
            counted = omega (arith, m.counted, w.counted);
            marks = λ k. ground (arith, m.marks k, w.marks k);
          }

  -- How many pegs of the code have a colour that the guess has.
  abbrev pub present : ℕ
  present =
      one_if (among (get_or ts 0 0) 4 gs)
      + one_if (among (get_or ts 1 0) 4 gs)
      + one_if (among (get_or ts 2 0) 4 gs)
      + one_if (among (get_or ts 3 0) 4 gs)

  total-present :
      (peg : List Bool)
      → length peg ≡ 4
      → ((k : ℕ) → k < 4 → get_or peg k false ≡ among (get_or ts k 0) 4 gs)
      → total peg ≡ present
  unfolding total
  total-present (a ∷ b ∷ c ∷ d ∷ []) e h = ground (arith, h 0, h 1, h 2, h 3)
  total-present [] e h = absurd (omega (arith, e))
  total-present (a ∷ []) e h = absurd (omega (arith, e))
  total-present (a ∷ b ∷ []) e h = absurd (omega (arith, e))
  total-present (a ∷ b ∷ c ∷ []) e h = absurd (omega (arith, e))
  total-present (a ∷ b ∷ c ∷ d ∷ f ∷ rest) e h = absurd (omega (arith, e))

  -- Black and white pegs together are the pegs of the code whose colour is somewhere in the guess,
  -- however often it is there.
  pub score-present : (score ts gs).0 + (score ts gs).1 ≡ present
  unfolding score
  score-present =
      let marks : (k : ℕ)
          → k < 4
          → get_or (white_loop ts gs).peg_color k false ≡ among (get_or ts k 0) 4 gs =
        λ k less. ground (arith, White-end.marks k, among-get_or k 4 gs less) in
      omega
        (arith, White-end.counted, total-present (white_loop ts gs).peg_color White-end.size marks)
