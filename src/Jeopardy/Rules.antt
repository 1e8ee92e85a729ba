-- ===== src/Jeopardy/Rules.antt =====
-- Where a contestant of midterm/midterm.c can be, and with which score.
use cmsc421_os.Prelude.{
  ℕ, zero, suc, ◌+◌, ◌*◌, ◌≤◌, ◌<◌, ◌≡◌, refl, arith, Bool, true, false, List, [], ◌∷◌, map, All,
}
use cmsc421_os.Prelude.Int.{ℤ, pos_part, neg_part, ◌+ℤ◌, ◌-ℤ◌, int_laws}
use cmsc421_os.Jeopardy.{
  num_questions, Phase, starting, waiting, woken, returned, Contestant, Alex, gathering, listening,
  called, done, set_buzzer, wake, wake_one, signal, money,
}

-- The most that the questions below `n` are worth together.
unfoldable pub bound : ℕ → ℕ
bound zero = 0
bound (suc n) = bound n + 200 * (n + 1)

-- The score is at most `b` away from 0.
abbrev pub Within : ℕ → ℤ → Type 0
Within b x = (pos_part x ≤ b + neg_part x) × (neg_part x ≤ b + pos_part x)

abbrev pub is_starting : Phase → Bool
is_starting starting = true
is_starting waiting = false
is_starting woken = false
is_starting returned = false

abbrev pub is_woken : Phase → Bool
is_woken starting = false
is_woken waiting = false
is_woken woken = true
is_woken returned = false

abbrev pub is_returned : Phase → Bool
is_returned starting = false
is_returned waiting = false
is_returned woken = false
is_returned returned = true

-- Who can still buzz in has not had the money of this question.
abbrev pub Paid : ℕ → Contestant → Type 0
Paid n c = (c.can_buzz_in ≡ true → Within (bound n) c.score) × Within (bound (suc n)) c.score

abbrev pub InRound : Phase → Type 0
InRound p = (is_starting p ≡ false) × (is_returned p ≡ false)

-- Where a contestant can be, by what Alex does and the number of the question.
abbrev pub Fits : Alex → ℕ → Contestant → Type 0
Fits gathering n c =
    (is_returned c.phase ≡ false) × (c.can_buzz_in ≡ false) × Within (bound n) c.score
Fits listening n c = InRound c.phase × (c.can_buzz_in ≡ true → is_woken c.phase ≡ true) × Paid n c
Fits called n c = InRound c.phase × Paid n c
Fits done n c =
    (is_starting c.phase ≡ false)
    × (is_woken c.phase ≡ false → is_returned c.phase ≡ true)
    × Within (bound n) c.score

abbrev pub InGame : Alex → ℕ → Type 0
InGame gathering n = n ≡ 0
InGame listening n = n < num_questions
InGame called n = n < num_questions
InGame done n = n ≡ num_questions

pub All-map {ℓ κ η ν} :
    {A : Type ℓ} {B : Type κ} (P : A → Type η) (Q : B → Type ν) (f : A → B)
    → ((x : A) → P x → Q (f x))
    → (xs : List A) → All P xs
    → All Q (map f xs)
All-map P Q f h [] p = tt
All-map P Q f h (x ∷ xs) (p, ps) = (h x p, All-map P Q f h xs ps)

pub signal-Fits : (a : Alex) (n : ℕ) (c : Contestant) → Fits a n c → Fits (signal a) n c
signal-Fits gathering n c f = f
signal-Fits listening n c f = (f.0, f.2)
signal-Fits called n c f = f
signal-Fits done n c f = f

pub silent-Fits : (a : Alex) (n : ℕ) (c : Contestant) → Fits a n c → Fits a n (set_buzzer false c)
silent-Fits gathering n c f = (f.0, refl, f.2)
silent-Fits listening n c f = (f.0, λ e. cc, (λ e. cc, f.2.1))
silent-Fits called n c f = (f.0, (λ e. cc, f.1.1))
silent-Fits done n c f = f

-- A contestant who has answered, with some score in reach.
pub answered-Fits :
    (a : Alex) (n : ℕ) (c : Contestant) (x : ℤ)
    → InGame a n
    → n < num_questions
    → c.can_buzz_in ≡ true
    → Fits a n c
    → (Within (bound n) c.score → Within (bound (suc n)) x)
    → Fits a n (record { score = x; can_buzz_in = false; phase = waiting })
answered-Fits gathering n c x g lt can f w = absurd (cc)
answered-Fits listening n c x g lt can f w = ((refl, refl), (λ e. cc), ((λ e. cc), w (f.2.0 can)))
answered-Fits called n c x g lt can f w = ((refl, refl), ((λ e. cc), w (f.1.0 can)))
answered-Fits done n c x g lt can f w = absurd (omega arith)

pub right-Within : (n : ℕ) (x : ℤ) → Within (bound n) x → Within (bound (suc n)) (x +ℤ money n)
unfolding bound
right-Within n x w = (omega int_laws, omega int_laws)

pub wrong-Within : (n : ℕ) (x : ℤ) → Within (bound n) x → Within (bound (suc n)) (x -ℤ money n)
unfolding bound
wrong-Within n x w = (omega int_laws, omega int_laws)

wake-InRound : (p : Phase) → InRound p → InRound (wake p) × (is_woken (wake p) ≡ true)
wake-InRound starting r = cc
wake-InRound waiting r = ((refl, refl), refl)
wake-InRound woken r = ((refl, refl), refl)
wake-InRound returned r = cc

pub asked-Fits :
    (n : ℕ) (c : Contestant)
    → InRound c.phase
    → Within (bound n) c.score
    → Fits listening n (wake_one (set_buzzer true c))
unfolding bound
asked-Fits n c r w =
    let (round, up) = wake-InRound c.phase r in
    (round, (λ e. up), ((λ e. w), (omega arith, omega arith)))

pub dismissed-Fits :
    (n : ℕ) (c : Contestant) → InRound c.phase → Within (bound n) c.score → Fits done n (wake_one c)
dismissed-Fits n c r w =
    let (round, up) = wake-InRound c.phase r in (round.0, (λ e. absurd (cc)), w)
