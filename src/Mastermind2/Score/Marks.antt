-- ===== src/Mastermind2/Score/Marks.antt =====
-- Counting pegs by color: in a list, among the marked pegs of the code, and among the pegs of a guess
-- that are not black.
use cmsc421_os.Prelude.{
  ℕ, zero, suc, ◌+◌, ◌≤◌, ◌<◌, ◌≡◌, refl, ◌↔◌, Bool, true, false, not, ◌&&◌, List, [], ◌∷◌, arith,
  ◌==◌, length, get_or, set, replicate,
}

-- 1 for true
abbrev pub one_if : Bool → ℕ
one_if true = 1
one_if false = 0

unfoldable pub count : ℕ → List ℕ → ℕ
count c [] = 0
count c (x ∷ xs) = one_if (x == c) + count c xs

-- The marked pegs of color `c`.
unfoldable pub marked : ℕ → List ℕ → List Bool → ℕ
marked c [] peg = 0
marked c (t ∷ ts) [] = 0
marked c (t ∷ ts) (b ∷ bs) = one_if (b && t == c) + marked c ts bs

-- All marked pegs.
unfoldable pub total : List Bool → ℕ
total [] = 0
total (b ∷ bs) = one_if b + total bs

-- The black pegs of color `c` among the first `n`.
unfoldable pub black : ℕ → ℕ → List ℕ → List ℕ → ℕ
black c zero ts gs = 0
black c (suc n) (t ∷ ts) (g ∷ gs) = one_if (t == g && g == c) + black c n ts gs
black c (suc n) _ _ = 0

-- The positions below `n` at which code and guess agree.
unfoldable pub hits : ℕ → List ℕ → List ℕ → ℕ
hits zero ts gs = 0
hits (suc n) (t ∷ ts) (g ∷ gs) = one_if (t == g) + hits n ts gs
hits (suc n) _ _ = 0

pub hits-suc :
    (i : ℕ) (ts gs : List ℕ)
    → i < length ts
    → i < length gs
    → hits (suc i) ts gs ≡ hits i ts gs + one_if (get_or ts i 0 == get_or gs i 0)
unfolding hits
hits-suc i [] gs h k = absurd (omega arith)
hits-suc i (t ∷ ts) [] h k = absurd (omega arith)
hits-suc zero (t ∷ ts) (g ∷ gs) h k = omega arith
hits-suc (suc i) (t ∷ ts) (g ∷ gs) h k = omega (arith, hits-suc i ts gs)

hits-le : (ts gs : List ℕ) → hits (length gs) ts gs ≤ length gs
unfolding hits
hits-le [] [] = omega arith
hits-le [] (g ∷ gs) = omega arith
hits-le (t ∷ ts) [] = omega arith
hits-le (t ∷ ts) (g ∷ gs) = ground (arith, hits-le ts gs)

-- All positions agree exactly when the guess is the code.
pub hits_all :
    (ts gs : List ℕ) → length ts ≡ length gs → (hits (length gs) ts gs ≡ length gs) ↔ (ts ≡ gs)
unfolding hits
hits_all [] [] h = (λ _. refl, λ _. refl)
hits_all [] (g ∷ gs) h = absurd (omega arith)
hits_all (t ∷ ts) [] h = absurd (omega arith)
hits_all (t ∷ ts) (g ∷ gs) h =
    let (there, back) = hits_all ts gs (omega arith) in
    (λ e. ground (arith, hits-le ts gs, there), λ e. ground (arith, back))

-- The pegs of color `c` among the first `n` of the guess that are not black.
unfoldable pub other : ℕ → ℕ → List ℕ → List ℕ → ℕ
other c zero ts gs = 0
other c (suc n) (t ∷ ts) (g ∷ gs) = one_if (not (t == g) && g == c) + other c n ts gs
other c (suc n) _ _ = 0

pub black-add-other :
    (c : ℕ) (ts gs : List ℕ)
    → length ts ≡ length gs
    → black c (length gs) ts gs + other c (length gs) ts gs ≡ count c gs
unfolding black other count
black-add-other c [] [] h = refl
black-add-other c [] (g ∷ gs) h = absurd (omega arith)
black-add-other c (t ∷ ts) [] h = absurd (omega arith)
black-add-other c (t ∷ ts) (g ∷ gs) h = ground (arith, black-add-other c ts gs (omega arith))

pub black-suc :
    (c i : ℕ) (ts gs : List ℕ)
    → i < length ts
    → i < length gs
    → black c (suc i) ts gs
      ≡ black c i ts gs + one_if (get_or ts i 0 == get_or gs i 0 && get_or gs i 0 == c)
unfolding black
black-suc c i [] gs h k = absurd (omega arith)
black-suc c i (t ∷ ts) [] h k = absurd (omega arith)
black-suc c zero (t ∷ ts) (g ∷ gs) h k = omega arith
black-suc c (suc i) (t ∷ ts) (g ∷ gs) h k = omega (arith, black-suc c i ts gs)

pub other-suc :
    (c i : ℕ) (ts gs : List ℕ)
    → i < length ts
    → i < length gs
    → other c (suc i) ts gs
      ≡ other c i ts gs + one_if (not (get_or ts i 0 == get_or gs i 0) && get_or gs i 0 == c)
unfolding other
other-suc c i [] gs h k = absurd (omega arith)
other-suc c i (t ∷ ts) [] h k = absurd (omega arith)
other-suc c zero (t ∷ ts) (g ∷ gs) h k = omega arith
other-suc c (suc i) (t ∷ ts) (g ∷ gs) h k = omega (arith, other-suc c i ts gs)

pub marked-le-count : (c : ℕ) (ts : List ℕ) (peg : List Bool) → marked c ts peg ≤ count c ts
unfolding marked count
marked-le-count c [] peg = omega arith
marked-le-count c (t ∷ ts) [] = omega arith
marked-le-count c (t ∷ ts) (b ∷ bs) = ground (arith, marked-le-count c ts bs)

pub marked-replicate : (c n : ℕ) (ts : List ℕ) → marked c ts (replicate n false) ≡ 0
unfolding marked
marked-replicate c n [] = refl
marked-replicate c zero (t ∷ ts) = refl
marked-replicate c (suc n) (t ∷ ts) = omega (arith, marked-replicate c n ts)

-- Marking a peg that was not marked.
pub marked-set :
    (c j : ℕ) (ts : List ℕ) (peg : List Bool)
    → j < length ts
    → j < length peg
    → get_or peg j false ≡ false
    → marked c ts (set peg j true) ≡ marked c ts peg + one_if (get_or ts j 0 == c)
unfolding marked
marked-set c j [] peg h k e = absurd (omega arith)
marked-set c j (t ∷ ts) [] h k e = absurd (omega arith)
marked-set c zero (t ∷ ts) (b ∷ bs) h k e = ground arith
marked-set c (suc j) (t ∷ ts) (b ∷ bs) h k e = omega (arith, marked-set c j ts bs)

pub total-set :
    (j : ℕ) (peg : List Bool)
    → j < length peg
    → get_or peg j false ≡ false
    → total (set peg j true) ≡ total peg + 1
unfolding total
total-set j [] h e = absurd (omega arith)
total-set zero (b ∷ bs) h e = ground arith
total-set (suc j) (b ∷ bs) h e = omega (arith, total-set j bs)

-- Sums over the colors below a bound.
unfoldable pub sum_colors : ℕ → (ℕ → ℕ) → ℕ
sum_colors zero f = 0
sum_colors (suc k) f = f k + sum_colors k f

pub sum_colors_mono :
    (k : ℕ) (f g : ℕ → ℕ) → ((c : ℕ) → f c ≤ g c) → sum_colors k f ≤ sum_colors k g
unfolding sum_colors
sum_colors_mono zero f g h = omega arith
sum_colors_mono (suc k) f g h = omega (arith, h k, sum_colors_mono k f g h)

sum_colors-add :
    (k : ℕ) (f g : ℕ → ℕ) → sum_colors k (λ c. f c + g c) ≡ sum_colors k f + sum_colors k g
unfolding sum_colors
sum_colors-add zero f g = refl
sum_colors-add (suc k) f g = omega (arith, sum_colors-add k f g)

sum_colors-zero : (k : ℕ) → sum_colors k (λ c. 0) ≡ 0
unfolding sum_colors
sum_colors-zero zero = refl
sum_colors-zero (suc k) = omega (arith, sum_colors-zero k)

sum_colors-above : (k t : ℕ) (b : Bool) → k ≤ t → sum_colors k (λ c. one_if (b && t == c)) ≡ 0
unfolding sum_colors
sum_colors-above zero t b h = refl
sum_colors-above (suc k) t b h = ground (arith, sum_colors-above k t b)

sum_colors-one : (k t : ℕ) (b : Bool) → t < k → sum_colors k (λ c. one_if (b && t == c)) ≡ one_if b
unfolding sum_colors
sum_colors-one zero t b h = absurd (omega arith)
sum_colors-one (suc k) t b h = ground (arith, sum_colors-one k t b, sum_colors-above k t b)

-- Every element is below the bound.
abbrev pub AllBelow : ℕ → List ℕ → Type 0
AllBelow k [] = Unit
AllBelow k (x ∷ xs) = (x < k) × AllBelow k xs

-- Each marked peg has one color.
pub sum_colors-marked :
    (k : ℕ) (ts : List ℕ) (peg : List Bool)
    → AllBelow k ts
    → length peg ≡ length ts
    → sum_colors k (λ c. marked c ts peg) ≡ total peg
unfolding marked total
sum_colors-marked k [] [] h e = sum_colors-zero k
sum_colors-marked k [] (b ∷ bs) h e = absurd (omega arith)
sum_colors-marked k (t ∷ ts) [] h e = absurd (omega arith)
sum_colors-marked k (t ∷ ts) (b ∷ bs) h e = omega (
  arith,
  sum_colors-add k (λ c. one_if (b && t == c)) (λ c. marked c ts bs),
  sum_colors-one k t b h.0,
  sum_colors-marked k ts bs h.1 (omega arith),
)
