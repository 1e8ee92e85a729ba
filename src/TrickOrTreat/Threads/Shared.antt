-- ===== src/TrickOrTreat/Threads/Shared.antt =====
-- The invariant of the threads of hw3/hw3.c and of the houses that they share.
use mathlib.Core.Option.{some-injective}
use cmsc421_os.Prelude.{
  ℕ, zero, suc, ◌≡◌, ◌≢◌, ◌≤◌, ◌<◌, ◌⊎◌, inl, inr, refl, sym, ap, ◌∙◌, arith, true, some, List, [],
  ◌∷◌, length, get_elem?, set, get_elem?-set_self, get_elem?-set_ne, lt_of_get_elem?, length-set,
  ℕ_discrete, Bool-cases,
}
use cmsc421_os.Prelude.Count.{count_if_two}
use cmsc421_os.Prelude.Int.{ℤ, pos, ◌+ℤ◌, ◌≤ℤ◌, int_laws}
use cmsc421_os.Prelude.Sum.{sum_by, sum_by-set}
use cmsc421_os.TrickOrTreat.{House}
use cmsc421_os.TrickOrTreat.Threads.{
  Thread, World, Step, turn, time_over, Steps, finished, more, with_candy,
}
use cmsc421_os.TrickOrTreat.Threads.Keys.{holds, OneEach, step-OneEach}
use cmsc421_os.TrickOrTreat.Threads.Candy.{
  Firm, turn-Firm, turn_elsewhere-Firm, turn_owner, outside-Firm, turn_nonneg, purse, turn_purse,
}

abbrev pub candy_of : House → ℤ
candy_of h = h.num_of_candy

abbrev pub NoDebt : World → Type 0
NoDebt w = (k : ℕ) (h : House) → get_elem? w.houses k ≡ some h → pos 0 ≤ℤ h.num_of_candy

abbrev pub AllFirm : World → Type 0
AllFirm w =
    (j k : ℕ) (t : Thread) (h : House)
    → get_elem? w.threads j ≡ some t
    → get_elem? w.houses k ≡ some h
    → Firm k h.num_of_candy t

pub record Sound (w : World) : Type 0 where
  pub enough_locks : length w.houses ≤ length w.locks
  pub one_each : OneEach w
  pub firm : AllFirm w
  pub no_debt : NoDebt w

pub get_elem?_below {ℓ} :
    {A : Type ℓ} (xs : List A) (i : ℕ) → i < length xs → (x : A) × (get_elem? xs i ≡ some x)
get_elem?_below [] i h = absurd (omega arith)
get_elem?_below (x ∷ xs) zero h = (x, refl)
get_elem?_below (x ∷ xs) (suc i) h = get_elem?_below xs i (omega arith)

-- Reading a list after a write, at the place of the write and elsewhere.
pub set-cases {ℓ} :
    {A : Type ℓ} (xs : List A) (i : ℕ) (v : A) (j : ℕ) {x y : A}
    → get_elem? xs i ≡ some x
    → get_elem? (set xs i v) j ≡ some y
    → ((j ≡ i) × (v ≡ y)) ⊎ ((i ≢ j) × (get_elem? xs j ≡ some y))
set-cases xs i v j {y} old e = elim (ℕ_discrete i j) [
  | yes same ↦
      let e' : get_elem? (set xs i v) i ≡ some y = rw (← same) at e in
      inl (
        sym same,
        some-injective v y (sym (get_elem?-set_self xs i v (lt_of_get_elem? xs i old)) ∙ e'),
      )
  | no differs ↦ inr (differs, sym (get_elem?-set_ne xs v differs) ∙ e)
]

-- Two threads are not in one house.
pub alone :
    (w : World) {v : ℕ} {t s : Thread} (r i j : ℕ)
    → OneEach w
    → get_elem? w.locks r ≡ some v
    → get_elem? w.threads i ≡ some t
    → get_elem? w.threads j ≡ some s
    → holds r t ≡ true
    → holds r s ≡ true
    → i ≡ j
alone w {v} r i j one at_r at_i at_j a b = elim (ℕ_discrete i j) [
  | yes same ↦ same
  | no differs ↦
      absurd
        (omega (arith, one r v at_r, count_if_two (holds r) w.threads i j at_i at_j a b differs))
]

step-AllFirm : {w w' : World} → Step w w' → Sound w → AllFirm w'
step-AllFirm time_over s j k u hk at_j at_k = s.firm j k u hk at_j at_k
step-AllFirm (turn {w} {t} {t'} {h = hr} {e'} {c'} {v} {v'} i r at_i at_house at_lock m) s j k u hk
      at_j at_k =
    elim (set-cases w.houses r (with_candy hr c') k at_house at_k) [
      | inl (here, same) ↦
          let candy : c' ≡ hk.num_of_candy = ap candy_of same in
          rw here (
            rw (← candy) (elim (set-cases w.threads i t' j at_i at_j) [
              | inl (own, it) ↦ rw (← it) (turn-Firm m (s.firm i r t hr at_i at_house))
              | inr (other, was) ↦
                  let firm = s.firm j r u hr was at_house in
                  elim (turn_owner m) [
                    | inl unchanged ↦ rw unchanged firm
                    | inr inside ↦ elim (Bool-cases (holds r u)) [
                      | inl both ↦
                          absurd (other (alone w r i j s.one_each at_lock at_i was inside both))
                      | inr out ↦ outside-Firm r hr.num_of_candy c' u out firm
                    ]
                  ]
            ]))
      | inr (apart, still) ↦ elim (set-cases w.threads i t' j at_i at_j) [
        | inl (own, it) ↦
            rw (← it) (turn_elsewhere-Firm k hk.num_of_candy apart m (s.firm i k t hk at_i still))
        | inr (other, was) ↦ s.firm j k u hk was still
      ]
    ]

step-NoDebt : {w w' : World} → Step w w' → Sound w → NoDebt w'
step-NoDebt time_over s k hk at_k = s.no_debt k hk at_k
step-NoDebt (turn {w} {t} {t'} {h = hr} {e'} {c'} {v} {v'} i r at_i at_house at_lock m) s k hk
      at_k =
    elim (set-cases w.houses r (with_candy hr c') k at_house at_k) [
      | inl (here, same) ↦
          let candy : c' ≡ hk.num_of_candy = ap candy_of same in
          rw (← candy) (turn_nonneg m (s.firm i r t hr at_i at_house) (s.no_debt r hr at_house))
      | inr (apart, still) ↦ s.no_debt k hk still
    ]

pub step_lengths :
    {w w' : World}
    → Step w w'
    → (length w'.houses ≡ length w.houses) × (length w'.locks ≡ length w.locks)
step_lengths time_over = (refl, refl)
step_lengths (turn {w} {h} {c'} {v'} i r at_i at_house at_lock m) =
    (length-set w.houses r (with_candy h c'), length-set w.locks r v')

pub step-Sound : {w w' : World} → Step w w' → Sound w → Sound w'
step-Sound m s = record {
  enough_locks = omega (arith, step_lengths m, s.enough_locks);
  one_each = step-OneEach m s.one_each;
  firm = step-AllFirm m s;
  no_debt = step-NoDebt m s;
}

-- All the candy there is or will be: in the houses, with the groups, in the lines still to be read.
unfoldable pub total : World → ℤ
total w = sum_by candy_of w.houses +ℤ sum_by purse w.threads

step_total : {w w' : World} → Step w w' → Sound w → total w' ≡ total w
unfolding total
step_total time_over s = refl
step_total (turn {w} {t} {t'} {h} {c'} i r at_i at_house at_lock m) s =
    let moved = turn_purse m (s.firm i r t h at_i at_house) in
    let houses : sum_by candy_of (set w.houses r (with_candy h c')) +ℤ h.num_of_candy
        ≡ sum_by candy_of w.houses +ℤ c' =
      sum_by-set candy_of w.houses r (with_candy h c') at_house in
    let purses = sum_by-set purse w.threads i t' at_i in grind int_laws

pub steps-Sound : {w w' : World} → Steps w w' → Sound w → Sound w'
steps-Sound finished s = s
steps-Sound (more m ms) s = steps-Sound ms (step-Sound m s)

pub steps_total : {w w' : World} → Steps w w' → Sound w → total w' ≡ total w
steps_total finished s = refl
steps_total (more m ms) s = steps_total ms (step-Sound m s) ∙ step_total m s
