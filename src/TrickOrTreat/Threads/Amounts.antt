-- ===== src/TrickOrTreat/Threads/Amounts.antt =====
-- The amounts of candy in hw3/hw3.c are integers in this model. When they fit an `int`, so that the turns of
-- the model are those of the program.
use cmsc421_os.Prelude.{
  ℕ, ◌+◌, ◌-◌, ◌^◌, ◌≡◌, Bool, ◌<◌, inl, inr, refl, arith, some, List, [], ◌∷◌, All, All-get_elem?,
  length, get_elem?, lt_of_get_elem?, length-set,
}
use cmsc421_os.Prelude.Int.{ℤ, pos, ◌+ℤ◌, ◌≤ℤ◌, int_laws}
use cmsc421_os.Prelude.Sum.{sum_by, NoneNegative, sum_by-nonneg, sum_by-member}
use cmsc421_os.TrickOrTreat.{House, Group}
use cmsc421_os.TrickOrTreat.Threads.{
  Phase, deciding, home, walking, at_door, inside, plenty, short, paid, leaving, credited, resting,
  Thread, kids, street, Turn, choose, go_home, arrive, enter, find_plenty, find_short, pay, receive,
  credit, empty, leave, read_line, read_end, give_up, lock, add, unlock, World, Step, turn,
  time_over, Steps, finished, more, with_candy,
}
use cmsc421_os.TrickOrTreat.Threads.Candy.{IsRefill, Firm, amount, purse}
use cmsc421_os.TrickOrTreat.Threads.Shared.{
  candy_of, get_elem?_below, Sound, set-cases, step-Sound, total,
}
use cmsc421_os.TrickOrTreat.Threads.Load.{
  read_houses, read_groups, begin, IsFile, begin-Sound, reached-Sound, total_kept,
}

abbrev pub int_max : ℕ
int_max = 2 ^ 31 - 1

refills-nonneg : (l : List (ℕ × ℤ)) → All IsRefill l → pos 0 ≤ℤ sum_by amount l
unfolding sum_by
refills-nonneg [] all = omega arith
refills-nonneg (x ∷ l) (p, all) =
    let rest = refills-nonneg l all in let here = p.1 in omega int_laws

-- What a group shows that is still in its house.
abbrev held : Phase → ℤ
held deciding = pos 0
held home = pos 0
held (walking k) = pos 0
held (at_door k) = pos 0
held (inside k) = pos 0
held (plenty k) = pos 0
held (short k) = pos 0
held (paid k) = pos 0
held (leaving k) = pos 0
held (credited k a) = a

-- The house whose candy a group shows is one of `n` houses.
abbrev InTown : ℕ → Phase → Type 0
InTown n deciding = Unit
InTown n home = Unit
InTown n (walking k) = Unit
InTown n (at_door k) = Unit
InTown n (inside k) = Unit
InTown n (plenty k) = Unit
InTown n (short k) = Unit
InTown n (paid k) = Unit
InTown n (leaving k) = Unit
InTown n (credited k a) = k < n

-- No thread owes candy.
abbrev Rich : ℕ → Thread → Type 0
Rich n (kids g p) =
    (pos 0 ≤ℤ purse (kids g p)) × (pos 0 ≤ℤ g.num_of_candy) × (pos 0 ≤ℤ g.num_of_kids) × InTown n p
Rich n (street l p) = (pos 0 ≤ℤ purse (street l p)) × All IsRefill l

turn-Rich :
    {hs : List House} {r n : ℕ} {e e' : Bool} {c c' : ℤ} {v v' : ℕ} {t t' : Thread}
    → Turn hs r e c v t e' c' v' t'
    → Firm r c t
    → pos 0 ≤ℤ c
    → r < n
    → Rich n t
    → Rich n t'
unfolding Firm purse sum_by
turn-Rich (choose seen same e) f p lt h = h
turn-Rich go_home f p lt h = h
turn-Rich arrive f p lt h = h
turn-Rich (enter one) f p lt h = h
turn-Rich (find_plenty much) f p lt h = h
turn-Rich (find_short little) f p lt h = h
turn-Rich pay f p lt (rich, shows, some_kids, tt) = (omega int_laws, shows, some_kids, tt)
turn-Rich receive f p lt (rich, shows, some_kids, tt) = (rich, rich, some_kids, tt)
turn-Rich credit f p lt (rich, shows, some_kids, tt) =
    (omega int_laws, omega int_laws, some_kids, lt)
turn-Rich empty f p lt (rich, shows, some_kids, in_town) = (shows, shows, some_kids, tt)
turn-Rich leave f p lt h = h
turn-Rich read_line f p lt (rich, all) = (rich, all.1)
turn-Rich read_end f p lt h = h
turn-Rich give_up f p lt h = h
turn-Rich (lock one) f p lt h = h
turn-Rich (add {l}) f p lt (rich, all) = (refills-nonneg l all, all)
turn-Rich unlock f p lt h = h

InOrder : World → Type 0
InOrder w = (i : ℕ) (t : Thread) → get_elem? w.threads i ≡ some t → Rich (length w.houses) t

step-InOrder : {w w' : World} → Step w w' → Sound w → InOrder w → InOrder w'
unfolding InOrder
step-InOrder time_over s rich j u at_j = rich j u at_j
step-InOrder (turn {w} {t} {t'} {h} {c'} i r at_i at_house at_lock m) s rich j u at_j =
    rw (length-set w.houses r (with_candy h c')) (elim (set-cases w.threads i t' j at_i at_j) [
      | inl (own, it) ↦ rw (← it) (
          turn-Rich m (s.firm i r t h at_i at_house) (s.no_debt r h at_house)
            (lt_of_get_elem? w.houses r at_house) (rich i t at_i))
      | inr (other, was) ↦ rich j u was
    ])

steps-InOrder : {w w' : World} → Steps w w' → Sound w → InOrder w → InOrder w'
steps-InOrder finished s rich = rich
steps-InOrder (more m ms) s rich = steps-InOrder ms (step-Sound m s) (step-InOrder m s rich)

read_groups-Rich :
    (n i : ℕ) (groups : List (ℕ × ℤ))
    → All (λ group. pos 0 ≤ℤ group.1) groups
    → All (Rich n) (read_groups i groups)
unfolding read_groups purse
read_groups-Rich n i [] p = tt
read_groups-Rich n i (g ∷ groups) (p, ps) =
    ((omega arith, omega arith, p, tt), read_groups-Rich n (i + 1) groups ps)

held-small :
    (w : World) (i : ℕ) (g : Group) (p : Phase)
    → get_elem? w.threads i ≡ some (kids g p)
    → Sound w
    → InTown (length w.houses) p
    → (pos 0 ≤ℤ held p) × (held p ≤ℤ sum_by candy_of w.houses)
unfolding Firm
held-small w i g deciding at s in_town = (omega arith, sum_by-nonneg candy_of w.houses s.no_debt)
held-small w i g home at s in_town = (omega arith, sum_by-nonneg candy_of w.houses s.no_debt)
held-small w i g (walking k) at s in_town = (omega arith, sum_by-nonneg candy_of w.houses s.no_debt)
held-small w i g (at_door k) at s in_town = (omega arith, sum_by-nonneg candy_of w.houses s.no_debt)
held-small w i g (inside k) at s in_town = (omega arith, sum_by-nonneg candy_of w.houses s.no_debt)
held-small w i g (plenty k) at s in_town = (omega arith, sum_by-nonneg candy_of w.houses s.no_debt)
held-small w i g (short k) at s in_town = (omega arith, sum_by-nonneg candy_of w.houses s.no_debt)
held-small w i g (paid k) at s in_town = (omega arith, sum_by-nonneg candy_of w.houses s.no_debt)
held-small w i g (leaving k) at s in_town = (omega arith, sum_by-nonneg candy_of w.houses s.no_debt)
held-small w i g (credited k a) at s in_town =
    let (h, there) = get_elem?_below w.houses k in_town in
    let same = s.firm i k (kids g (credited k a)) h at there refl in
    rw (← same) (s.no_debt k h there, sum_by-member candy_of w.houses k s.no_debt there)

shown :
    (g : Group) (p : Phase) → pos 0 ≤ℤ g.num_of_kids → g.num_of_candy ≤ℤ purse (kids g p) +ℤ held p
unfolding purse
shown g deciding some_kids = omega int_laws
shown g home some_kids = omega int_laws
shown g (walking k) some_kids = omega int_laws
shown g (at_door k) some_kids = omega int_laws
shown g (inside k) some_kids = omega int_laws
shown g (plenty k) some_kids = omega int_laws
shown g (short k) some_kids = omega int_laws
shown g (paid k) some_kids = omega int_laws
shown g (leaving k) some_kids = omega int_laws
shown g (credited k a) some_kids = omega int_laws

purse-Rich : (n : ℕ) (t : Thread) → Rich n t → pos 0 ≤ℤ purse t
purse-Rich n (kids g p) rich = rich.0
purse-Rich n (street l p) rich = rich.0

-- An amount that is an `int`, and not a debt.
abbrev pub IsAmount : ℤ → Type 0
IsAmount c = (pos 0 ≤ℤ c) × (c ≤ℤ pos int_max)

-- What the houses have and what the groups show.
abbrev pub AllAmounts : World → Type 0
AllAmounts w =
    ((k : ℕ) (h : House) → get_elem? w.houses k ≡ some h → IsAmount h.num_of_candy)
    × ((i : ℕ) (g : Group) (p : Phase)
        → get_elem? w.threads i ≡ some (kids g p)
        → IsAmount g.num_of_candy)

fits-AllAmounts : (w : World) → Sound w → InOrder w → total w ≤ℤ pos int_max → AllAmounts w
unfolding total InOrder
fits-AllAmounts w s rich fits =
    let purses : NoneNegative purse w.threads =
      λ i t at. purse-Rich (length w.houses) t (rich i t at) in
    let all_houses = sum_by-nonneg candy_of w.houses s.no_debt in
    let all_purses = sum_by-nonneg purse w.threads purses in
    (
      λ k h at.
          let member = sum_by-member candy_of w.houses k s.no_debt at in
          (s.no_debt k h at, omega int_laws),
      λ i g p at.
          let (_, shows, some_kids, in_town) = rich i (kids g p) at in
          let (_, small) = held-small w i g p at s in_town in
          let member = sum_by-member purse w.threads i purses at in
          let most = shown g p some_kids in (shows, omega int_laws),
    )

-- All the candy of the file together is an `int`, and no group has a negative number of kids.
pub record FitsInt (rows : List (ℤ × ℤ × ℤ)) (groups refills : List (ℕ × ℤ)) : Type 0 where
  pub kids : All (λ group. pos 0 ≤ℤ group.1) groups
  pub sum : sum_by candy_of (read_houses 0 rows) +ℤ sum_by amount refills ≤ℤ pos int_max

module _ (rows : List (ℤ × ℤ × ℤ)) (groups refills : List (ℕ × ℤ))
    (file : IsFile rows groups refills) (fits : FitsInt rows groups refills) where
  begin-InOrder : InOrder (begin rows groups refills)
  unfolding InOrder begin purse
  begin-InOrder i t at =
      All-get_elem? (Rich (length (read_houses 0 rows)))
        (street refills resting ∷ read_groups 0 groups) i
        (
          (refills-nonneg refills file.lines, file.lines),
          read_groups-Rich (length (read_houses 0 rows)) 0 groups fits.kids,
        )
        at

  -- Begun with a file of ten houses with some candy, groups of no negative number of kids that start at one
  -- of them and lines that add candy to one of them, with at most INT_MAX candy in the whole file, in every
  -- order of the turns of the threads the candy of each house and of each group is from 0 to INT_MAX, so that
  -- no sum overflows, and what the houses have, what the groups have and what the unread lines will add is
  -- together what the file gave.
  pub candy_is_kept :
      {w : World}
      → Steps (begin rows groups refills) w
      → AllAmounts w × (total w ≡ sum_by candy_of (read_houses 0 rows) +ℤ sum_by amount refills)
  candy_is_kept {w} run =
      let s = reached-Sound rows groups refills file run in
      let kept = total_kept rows groups refills file run in
      let all : total w ≤ℤ pos int_max = rw kept fits.sum in
      (
        fits-AllAmounts w s (steps-InOrder run (begin-Sound rows groups refills file) begin-InOrder)
            all,
        kept,
      )
