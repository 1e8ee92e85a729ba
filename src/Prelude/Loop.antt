-- ===== src/Prelude/Loop.antt =====
-- The counted loop `for (k = i; k < i + rounds; k++) s = turn(k, s)` and its invariant rule.
use cmsc421_os.Prelude.{ℕ, zero, suc, ◌+◌, ◌<◌, ◌≡◌, arith}

unfoldable pub for_range {ℓ} : {S : Type ℓ} → (rounds i : ℕ) → (ℕ → S → S) → S → S
for_range zero i turn s = s
for_range (suc left) i turn s = for_range left (i + 1) turn (turn i s)

-- What holds of the start and is kept by each round below `stop` holds when the loop has ended.
pub for_range_inv {ℓ κ} :
    {S : Type ℓ} (P : ℕ → S → Type κ) (turn : ℕ → S → S) (stop : ℕ)
    → ((i : ℕ) (s : S) → i < stop → P i s → P (i + 1) (turn i s))
    → (rounds i : ℕ) (s : S) → i + rounds ≡ stop
    → P i s
    → P stop (for_range rounds i turn s)
unfolding for_range
for_range_inv P turn stop keep zero i s e h = let same : i ≡ stop = omega arith in rw (← same) h
for_range_inv P turn stop keep (suc left) i s e h =
    for_range_inv P turn stop keep left (i + 1) (turn i s) (omega arith) (keep i s (omega arith) h)
