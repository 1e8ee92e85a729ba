-- ===== src/TrickOrTreat/Closest.antt =====
-- Which house `findClosestHouse` of hw3/hw3.c chooses.
use cmsc421_os.Prelude.{
  ℕ, zero, suc, ◌+◌, ◌^◌, ◌≤◌, ◌<◌, ◌≡◌, ◌⊎◌, inl, inr, refl, arith, Bool, true, false, not, ◌&&◌,
  List, [], ◌∷◌, ◌==◌, if◌then◌else◌, Bool-cases, All, ℕ_discrete, ◌∙◌, ap,
}
use cmsc421_os.Prelude.Int.{ℤ, pos, negsuc, pos_part, neg_part, ltb_ℤ, ◌≤ℤ◌}
use cmsc421_os.Prelude.Loop.{for_range}
use cmsc421_os.TrickOrTreat.Distance.{taxicab, manhattan_distance-taxicab}
use cmsc421_os.TrickOrTreat.{
  num_of_houses, House, Group, house, manhattan_distance, is_enough, closest_step,
  find_closest_house,
}

-- The first of the nearest among a house and a list of houses, by their distances.
unfoldable pub nearest : (distance : ℕ → ℤ) (best : ℕ) → List ℕ → ℕ
nearest distance best [] = best
nearest distance best (i ∷ is) =
    nearest distance (if ltb_ℤ (distance i) (distance best) then i else best) is

-- No house before the last is nearer than the chosen one.
pub nearest_least :
    (distance : ℕ → ℤ) (best : ℕ) (is : List ℕ)
    → (distance (nearest distance best is) ≤ℤ distance best)
      × All (λ i. distance (nearest distance best is) ≤ℤ distance i) is
unfolding nearest
nearest_least distance best [] = (omega arith, tt)
nearest_least distance best (i ∷ is) =
    let (below, all) =
      nearest_least distance (if ltb_ℤ (distance i) (distance best) then i else best) is in
    (ground arith, (ground arith, all))

pub nearest-All :
    (P : ℕ → Type 0) (distance : ℕ → ℤ) (best : ℕ) (is : List ℕ)
    → P best
    → All P is
    → P (nearest distance best is)
unfolding nearest
nearest-All P distance best [] p all = p
nearest-All P distance best (i ∷ is) p (q, all) =
    elim (Bool-cases (ltb_ℤ (distance i) (distance best))) [
      | inl nearer ↦ rw (nearer) (nearest-All P distance i is q all)
      | inr farther ↦ rw (farther) (nearest-All P distance best is p all)
    ]

nearest-same :
    (d e : ℕ → ℤ) (best : ℕ) (is : List ℕ)
    → d best ≡ e best
    → All (λ i. d i ≡ e i) is
    → nearest d best is ≡ nearest e best is
unfolding nearest
nearest-same d e best [] p all = refl
nearest-same d e best (i ∷ is) p (q, all) = elim (Bool-cases (ltb_ℤ (e i) (e best))) [
  | inl nearer ↦ rw (p, q, nearer) (nearest-same d e i is q all)
  | inr farther ↦ rw (p, q, farther) (nearest-same d e best is p all)
]

module _ (hs : List House) (g : Group) where
  -- The distance that the program computes from where the group is.
  abbrev measured : ℕ → ℤ
  measured i = manhattan_distance (house hs g.curr_house) (house hs i)

  -- The distance itself.
  abbrev pub distance : ℕ → ℕ
  distance i = taxicab (house hs g.curr_house) (house hs i)

  -- No distance to one of the ten houses is beyond an `int`.
  abbrev pub InReach : Type 0
  InReach = (i : ℕ) → i < num_of_houses → distance i < 2 ^ 31

  -- Neither the house where the group began nor the one where it is.
  abbrev pub is_other : ℕ → Bool
  is_other i = not (i == g.starting_house) && not (i == g.curr_house)

  -- The other houses from `i` on, and those of them with enough candy.
  unfoldable pub others : (n i : ℕ) → List ℕ
  others zero i = []
  others (suc n) i = if is_other i then i ∷ others n (i + 1) else others n (i + 1)

  unfoldable pub enough : List ℕ → List ℕ
  enough [] = []
  enough (i ∷ is) = if is_enough (house hs i) g then i ∷ enough is else enough is

  -- A reference: the nearest of the first other house, whatever it has, and the further ones with
  -- enough candy.
  unfoldable pub choice : (by : ℕ → ℤ) → List ℕ → ℤ
  choice by [] = negsuc 0
  choice by (i ∷ is) = pos (nearest by i (enough is))

  rest_lem :
      (n i best : ℕ)
      → (for_range n i
          (closest_step hs g)
          (record { first = false; closest = pos best; closest_distance = measured best })).closest
        ≡ pos (nearest measured best (enough (others n i)))
  unfolding for_range closest_step others enough nearest
  rest_lem zero i best = refl
  rest_lem (suc n) i best = ground (arith, rest_lem n (i + 1) best, rest_lem n (i + 1) i)

  search_lem :
      (n i : ℕ)
      → (for_range n i
          (closest_step hs g)
          (record { first = true; closest = negsuc 0; closest_distance = negsuc 0 })).closest
        ≡ choice measured (others n i)
  unfolding for_range closest_step others choice
  search_lem zero i = refl
  search_lem (suc n) i = ground (arith, rest_lem n (i + 1) i, search_lem n (i + 1))

  enough-keeps : (Q : ℕ → Type 0) (is : List ℕ) → All Q is → All Q (enough is)
  unfolding enough
  enough-keeps Q [] all = tt
  enough-keeps Q (i ∷ is) (q, all) = elim (Bool-cases (is_enough (house hs i) g)) [
    | inl rich ↦ rw (rich) (q, enough-keeps Q is all)
    | inr poor ↦ rw (poor) (enough-keeps Q is all)
  ]

  choice-same : (d e : ℕ → ℤ) (is : List ℕ) → All (λ i. d i ≡ e i) is → choice d is ≡ choice e is
  unfolding choice
  choice-same d e [] all = refl
  choice-same d e (i ∷ is) (q, all) =
      ap pos (nearest-same d e i (enough is) q (enough-keeps (λ i. d i ≡ e i) is all))

  others-All :
      (Q : ℕ → Type 0) (n i : ℕ)
      → i + n ≤ num_of_houses
      → ((j : ℕ) → j < num_of_houses → Q j)
      → All Q (others n i)
  unfolding others
  others-All Q zero i le q = tt
  others-All Q (suc n) i le q = elim (Bool-cases (is_other i)) [
    | inl other ↦ rw (other) (q i (omega arith), others-All Q n (i + 1) (omega arith) q)
    | inr own ↦ rw (own) (others-All Q n (i + 1) (omega arith) q)
  ]

  exact : InReach → (i : ℕ) → i < num_of_houses → measured i ≡ pos (distance i)
  exact near i lt = manhattan_distance-taxicab (house hs g.curr_house) (house hs i) (near i lt)

  -- If no distance to one of the ten houses is beyond an `int`, the loop of `findClosestHouse`, with its flag
  -- and its running minimum, computes the reference: the nearest among the first of the other houses,
  -- whatever it has, and those of the further other houses with enough candy, the earlier one of two that
  -- are as near; -1 if there is no other house.
  pub find_closest_house_lem :
      InReach → find_closest_house hs g ≡ choice (λ i. pos (distance i)) (others 10 0)
  unfolding find_closest_house
  find_closest_house_lem near =
      search_lem 10 0
      ∙ choice-same measured (λ i. pos (distance i)) (others 10 0)
          (others-All (λ i. measured i ≡ pos (distance i)) 10 0 (omega arith) (exact near))

  -- What holds of every other house, or only of those with enough candy.
  Other : (Q : ℕ → Type 0) (n i : ℕ) → Type 0
  Other Q n i = (j : ℕ) → i ≤ j → j < i + n → is_other j ≡ true → Q j

  All-enough :
      (Q : ℕ → Type 0) (n i : ℕ)
      → Other (λ j. is_enough (house hs j) g ≡ true → Q j) n i
      → All Q (enough (others n i))
  unfolding Other enough others
  All-enough Q zero i h = tt
  All-enough Q (suc n) i h =
      let rest = All-enough Q n (i + 1) (λ j le lt. h j (omega arith) (omega arith)) in
      elim (Bool-cases (is_other i)) [
        | inr own ↦ rw (own, others) rest
        | inl other ↦ elim (Bool-cases (is_enough (house hs i) g)) [
          | inl rich ↦
              rw (other, others)
                (rw (rich, enough) (h i (omega arith) (omega arith) other rich, rest))
          | inr poor ↦ rw (other, others) (rw (poor, enough) rest)
        ]
      ]

  enough-All-tail :
      (Q : ℕ → Type 0) (i : ℕ) (is : List ℕ) → All Q (enough (i ∷ is)) → All Q (enough is)
  unfolding enough
  enough-All-tail Q i is h = elim (Bool-cases (is_enough (house hs i) g)) [
    | inl rich ↦ (rw (rich, enough) at h).1
    | inr poor ↦ rw (poor, enough) at h
  ]

  enough-All :
      (Q : ℕ → Type 0) (n i : ℕ)
      → All Q (enough (others n i))
      → Other (λ j. is_enough (house hs j) g ≡ true → Q j) n i
  unfolding Other enough others
  enough-All Q zero i h j le lt other rich = absurd (omega arith)
  enough-All Q (suc n) i h j le lt other rich = elim (Bool-cases (is_other i)) [
    | inr own ↦
        let later : suc i ≤ j = ground (arith, own, other) in
        enough-All Q n (i + 1) (rw (own, others) at h) j (omega arith) (omega arith) other rich
    | inl here ↦ elim (ℕ_discrete j i) [
      | yes same ↦
          let rich' = rw same at rich in rw same ((rw (rich', enough) at rw (here, others) at h).0)
      | no differs ↦
          enough-All Q n (i + 1) (enough-All-tail Q i (others n (i + 1)) (rw (here, others) at h)) j
            (omega arith) (omega arith) other rich
    ]
  ]

  enough-All-cons :
      (Q : ℕ → Type 0) (i : ℕ) (is : List ℕ) → Q i → All Q (enough is) → All Q (enough (i ∷ is))
  unfolding enough
  enough-All-cons Q i is q h = elim (Bool-cases (is_enough (house hs i) g)) [
    | inl rich ↦ rw (rich) (q, h)
    | inr poor ↦ rw (poor) h
  ]

  -- The least other house of a range that has one.
  IsFirst : ℕ → Type 0
  IsFirst f = (f < num_of_houses) × (is_other f ≡ true) × ((j : ℕ) → j < f → is_other j ≡ false)

  others_first :
      (n i k : ℕ)
      → i ≤ k
      → k < i + n
      → is_other k ≡ true
      → (f : ℕ) × (is : List ℕ) × (others n i ≡ f ∷ is)
        × (i ≤ f)
        × (f < i + n)
        × (is_other f ≡ true)
        × ((j : ℕ) → i ≤ j → j < f → is_other j ≡ false)
  unfolding others
  others_first zero i k le lt other = absurd (omega arith)
  others_first (suc n) i k le lt other = elim (Bool-cases (is_other i)) [
    | inl here ↦ (
      i,
      others n (i + 1),
      rw (here) refl,
      omega arith,
      omega arith,
      here,
      λ j le' lt'. absurd (omega arith),
    )
    | inr own ↦
        let (f, is, e, le', lt', found, none_before) =
          others_first n (i + 1) k (ground (arith, own, other)) (omega arith) other in
        (
          f,
          is,
          rw (own) e,
          omega arith,
          omega arith,
          found,
          λ j le'' lt''. elim (ℕ_discrete j i) [
            | yes same ↦ rw same own
            | no differs ↦ none_before j (omega arith) lt''
          ],
        )
  ]

  -- One of three houses is neither of two.
  another_house : (k : ℕ) × (k < 3) × (is_other k ≡ true)
  another_house = elim (Bool-cases (is_other 0)) [
    | inl other ↦ (0, omega arith, other)
    | inr own ↦ elim (Bool-cases (is_other 1)) [
      | inl other ↦ (1, omega arith, other)
      | inr own' ↦ (2, omega arith, ground (arith, own, own'))
    ]
  ]

  IsChoice : ℕ → Type 0
  IsChoice r =
      (r < num_of_houses)
      × (is_other r ≡ true)
      × ((is_enough (house hs r) g ≡ true) ⊎ ((j : ℕ) → j < r → is_other j ≡ false))

  All-IsChoice : (n i : ℕ) → i + n ≤ num_of_houses → All IsChoice (enough (others n i))
  unfolding IsChoice Other
  All-IsChoice n i le =
      All-enough IsChoice n i (λ j le' lt other rich. (omega arith, other, inl rich))

  -- What is chosen by the distances that the program computes.
  IsNearest : ℕ → Type 0
  IsNearest r =
      (j : ℕ)
      → j < num_of_houses
      → is_other j ≡ true
      → is_enough (house hs j) g ≡ true
      → measured r ≤ℤ measured j

  chosen_house : (r : ℕ) × (find_closest_house hs g ≡ pos r) × IsChoice r × IsNearest r
  unfolding IsChoice IsNearest Other choice find_closest_house
  chosen_house =
      let (k, lt, other) = another_house in
      let (f, is, e, _, below, found, none_before) =
        others_first 10 0 k (omega arith) (omega arith) other in
      let r : ℕ = nearest measured f (enough is) in
      let within = enough-All-tail IsChoice f is (rw e at (All-IsChoice 10 0 (omega arith))) in
      let choice_r =
        nearest-All IsChoice measured f (enough is)
          (omega arith, found, inr (λ j lt'. none_before j (omega arith) lt')) within in
      let (least, leasts) = nearest_least measured f (enough is) in
      let all = enough-All-cons (λ i. measured r ≤ℤ measured i) f is least leasts in
      (
        r,
        search_lem 10 0 ∙ rw (e) refl,
        choice_r,
        λ j lt' other' rich.
            enough-All (λ i. measured r ≤ℤ measured i) 10 0 (rw e all) j (omega arith) (omega arith)
              other' rich,
      )

  closer :
      InReach
      → (r j : ℕ) → r < num_of_houses
      → j < num_of_houses
      → measured r ≤ℤ measured j
      → distance r ≤ distance j
  closer near r j lt lt' le =
      let here = exact near r lt in
      let there = exact near j lt' in
      omega (arith, le, ap pos_part here, ap neg_part here, ap pos_part there, ap neg_part there)

  -- There is always a house to go to, one of the ten. It is neither the house where the group began nor
  -- the one where it is; it has enough candy for the group, or it is the first of such houses. If no distance
  -- to one of the ten houses is beyond an `int`, no such house with enough candy is nearer.
  pub closest_house :
      (r : ℕ) × (find_closest_house hs g ≡ pos r)
      × (r < num_of_houses)
      × (is_other r ≡ true)
      × ((is_enough (house hs r) g ≡ true) ⊎ ((j : ℕ) → j < r → is_other j ≡ false))
      × (InReach
          → (j : ℕ) → j < num_of_houses
          → is_other j ≡ true
          → is_enough (house hs j) g ≡ true
          → distance r ≤ distance j)
  unfolding IsChoice IsNearest
  closest_house =
      let (r, e, (small, own, which), least) = chosen_house in
      (
        r,
        e,
        small,
        own,
        which,
        λ near j lt other rich. omega (arith, closer near r j small lt (least j lt other rich)),
      )
