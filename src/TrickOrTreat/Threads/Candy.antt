-- ===== src/TrickOrTreat/Threads/Candy.antt =====
-- Where the candy of hw3/hw3.c is, turn by turn.
use cmsc421_os.Prelude.{ℕ, ◌≡◌, ◌≢◌, ◌<◌, ◌⊎◌, inl, inr, refl, arith, Bool, true, false, List, All}
use cmsc421_os.Prelude.Int.{ℤ, pos, ◌+ℤ◌, ◌-ℤ◌, ◌≤ℤ◌, int_laws}
use cmsc421_os.Prelude.Sum.{sum_by}
use cmsc421_os.TrickOrTreat.{num_of_houses, House}
use cmsc421_os.TrickOrTreat.Threads.{
  deciding, home, walking, at_door, inside, plenty, short, paid, leaving, credited, resting,
  returned, carrying, filling, closing, Thread, kids, street, Turn, choose, go_home, arrive, enter,
  find_plenty, find_short, pay, receive, credit, empty, leave, read_line, read_end, give_up, lock,
  add, unlock,
}
use cmsc421_os.TrickOrTreat.Threads.Keys.{holds}

-- A line that adds candy to one of the houses.
abbrev pub IsRefill : ℕ × ℤ → Type 0
IsRefill (r, a) = (r < num_of_houses) × (pos 0 ≤ℤ a)

-- What a thread may rely on, where house `r` has candy `c`.
unfoldable pub Firm : ℕ → ℤ → Thread → Type 0
Firm r c (kids g (plenty k)) = k ≡ r → g.num_of_kids ≤ℤ c
Firm r c (kids g (credited k a)) = k ≡ r → c ≡ a
Firm r c (kids g deciding) = Unit
Firm r c (kids g home) = Unit
Firm r c (kids g (walking k)) = Unit
Firm r c (kids g (at_door k)) = Unit
Firm r c (kids g (inside k)) = Unit
Firm r c (kids g (short k)) = Unit
Firm r c (kids g (paid k)) = Unit
Firm r c (kids g (leaving k)) = Unit
Firm r c (street l (carrying k a)) = All IsRefill l × IsRefill (k, a)
Firm r c (street l (filling k a)) = All IsRefill l × IsRefill (k, a)
Firm r c (street l (closing k)) = All IsRefill l
Firm r c (street l resting) = All IsRefill l
Firm r c (street l returned) = All IsRefill l

pub turn-Firm :
    {hs : List House} {r : ℕ} {e e' : Bool} {c c' : ℤ} {v v' : ℕ} {t t' : Thread}
    → Turn hs r e c v t e' c' v' t'
    → Firm r c t
    → Firm r c' t'
unfolding Firm
turn-Firm (choose seen same e) f = f
turn-Firm go_home f = f
turn-Firm arrive f = f
turn-Firm (enter h) f = f
turn-Firm (find_plenty h) f = λ _. ground arith
turn-Firm (find_short h) f = f
turn-Firm pay f = tt
turn-Firm receive f = f
turn-Firm credit f = λ _. refl
turn-Firm empty f = tt
turn-Firm leave f = f
turn-Firm read_line f = (f.1, f.0)
turn-Firm read_end f = f
turn-Firm give_up f = f
turn-Firm (lock h) f = f
turn-Firm add f = f.0
turn-Firm unlock f = f

pub turn_elsewhere-Firm :
    {hs : List House} {r : ℕ} {e e' : Bool} {c c' : ℤ} {v v' : ℕ} {t t' : Thread} (k : ℕ) (d : ℤ)
    → r ≢ k
    → Turn hs r e c v t e' c' v' t'
    → Firm k d t
    → Firm k d t'
unfolding Firm
turn_elsewhere-Firm k d ne (choose seen same e) f = f
turn_elsewhere-Firm k d ne go_home f = f
turn_elsewhere-Firm k d ne arrive f = f
turn_elsewhere-Firm k d ne (enter h) f = f
turn_elsewhere-Firm k d ne (find_plenty h) f = λ e. absurd (ne e)
turn_elsewhere-Firm k d ne (find_short h) f = f
turn_elsewhere-Firm k d ne pay f = tt
turn_elsewhere-Firm k d ne receive f = f
turn_elsewhere-Firm k d ne credit f = λ e. absurd (ne e)
turn_elsewhere-Firm k d ne empty f = tt
turn_elsewhere-Firm k d ne leave f = f
turn_elsewhere-Firm k d ne read_line f = (f.1, f.0)
turn_elsewhere-Firm k d ne read_end f = f
turn_elsewhere-Firm k d ne give_up f = f
turn_elsewhere-Firm k d ne (lock h) f = f
turn_elsewhere-Firm k d ne add f = f.0
turn_elsewhere-Firm k d ne unlock f = f

-- Only a thread in the house writes its candy.
pub turn_owner :
    {hs : List House} {r : ℕ} {e e' : Bool} {c c' : ℤ} {v v' : ℕ} {t t' : Thread}
    → Turn hs r e c v t e' c' v' t'
    → (c' ≡ c) ⊎ (holds r t ≡ true)
unfolding holds
turn_owner (choose seen same e) = inl refl
turn_owner go_home = inl refl
turn_owner arrive = inl refl
turn_owner (enter h) = inl refl
turn_owner (find_plenty h) = inl refl
turn_owner (find_short h) = inl refl
turn_owner pay = inr (ground arith)
turn_owner receive = inl refl
turn_owner credit = inl refl
turn_owner empty = inr (ground arith)
turn_owner leave = inl refl
turn_owner read_line = inl refl
turn_owner read_end = inl refl
turn_owner give_up = inl refl
turn_owner (lock h) = inl refl
turn_owner add = inr (ground arith)
turn_owner unlock = inl refl

-- Who is not in the house relies on nothing there.
pub outside-Firm : (r : ℕ) (c d : ℤ) (t : Thread) → holds r t ≡ false → Firm r c t → Firm r d t
unfolding Firm holds
outside-Firm r c d (kids g (plenty k)) out f = λ e. ground arith
outside-Firm r c d (kids g (credited k a)) out f = λ e. ground arith
outside-Firm r c d (kids g deciding) out f = f
outside-Firm r c d (kids g home) out f = f
outside-Firm r c d (kids g (walking k)) out f = f
outside-Firm r c d (kids g (at_door k)) out f = f
outside-Firm r c d (kids g (inside k)) out f = f
outside-Firm r c d (kids g (short k)) out f = f
outside-Firm r c d (kids g (paid k)) out f = f
outside-Firm r c d (kids g (leaving k)) out f = f
outside-Firm r c d (street l (carrying k a)) out f = f
outside-Firm r c d (street l (filling k a)) out f = f
outside-Firm r c d (street l (closing k)) out f = f
outside-Firm r c d (street l resting) out f = f
outside-Firm r c d (street l returned) out f = f

pub turn_nonneg :
    {hs : List House} {r : ℕ} {e e' : Bool} {c c' : ℤ} {v v' : ℕ} {t t' : Thread}
    → Turn hs r e c v t e' c' v' t'
    → Firm r c t
    → pos 0 ≤ℤ c
    → pos 0 ≤ℤ c'
unfolding Firm
turn_nonneg (choose seen same e) f p = p
turn_nonneg go_home f p = p
turn_nonneg arrive f p = p
turn_nonneg (enter h) f p = p
turn_nonneg (find_plenty h) f p = p
turn_nonneg (find_short h) f p = p
turn_nonneg pay f p = let le = f refl in omega int_laws
turn_nonneg receive f p = p
turn_nonneg credit f p = p
turn_nonneg empty f p = omega arith
turn_nonneg leave f p = p
turn_nonneg read_line f p = p
turn_nonneg read_end f p = p
turn_nonneg give_up f p = p
turn_nonneg (lock h) f p = p
turn_nonneg add f p = let le = f.1.1 in omega int_laws
turn_nonneg unlock f p = p

abbrev pub amount : ℕ × ℤ → ℤ
amount (r, a) = a

-- The candy that a thread has, that of the lines it has not read included. Between its two writes a
-- group has candy that its count does not show, or shows candy that is still in the house.
unfoldable pub purse : Thread → ℤ
purse (kids g (paid k)) = g.num_of_candy +ℤ g.num_of_kids
purse (kids g (credited k a)) = g.num_of_candy -ℤ a
purse (kids g deciding) = g.num_of_candy
purse (kids g home) = g.num_of_candy
purse (kids g (walking k)) = g.num_of_candy
purse (kids g (at_door k)) = g.num_of_candy
purse (kids g (inside k)) = g.num_of_candy
purse (kids g (plenty k)) = g.num_of_candy
purse (kids g (short k)) = g.num_of_candy
purse (kids g (leaving k)) = g.num_of_candy
purse (street l (carrying k a)) = a +ℤ sum_by amount l
purse (street l (filling k a)) = a +ℤ sum_by amount l
purse (street l (closing k)) = sum_by amount l
purse (street l resting) = sum_by amount l
purse (street l returned) = sum_by amount l

-- What leaves the house comes to the thread.
pub turn_purse :
    {hs : List House} {r : ℕ} {e e' : Bool} {c c' : ℤ} {v v' : ℕ} {t t' : Thread}
    → Turn hs r e c v t e' c' v' t'
    → Firm r c t
    → c' +ℤ purse t' ≡ c +ℤ purse t
unfolding Firm purse sum_by
turn_purse (choose seen same e) f = refl
turn_purse go_home f = refl
turn_purse arrive f = refl
turn_purse (enter h) f = refl
turn_purse (find_plenty h) f = refl
turn_purse (find_short h) f = refl
turn_purse pay f = omega int_laws
turn_purse receive f = refl
turn_purse credit f = omega int_laws
turn_purse empty f = let same = f refl in grind int_laws
turn_purse leave f = refl
turn_purse read_line f = refl
turn_purse read_end f = refl
turn_purse give_up f = refl
turn_purse (lock h) f = refl
turn_purse add f = omega int_laws
turn_purse unlock f = refl
