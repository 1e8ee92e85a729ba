-- ===== src/Mastermind2/Valid/Network.antt =====
-- `cs421net_bottom` of proj2/mastermind2.c keeps the state in order.
use cmsc421_os.Prelude.{ℕ, zero, suc, ◌≤◌, ◌<◌, ◌≡◌, true, List, [], ◌∷◌, arith, length, get_or}
use cmsc421_os.Prelude.Int.{ℤ, pos, ◌≤ℤ◌, int_laws}
use cmsc421_os.Mastermind2.State.{Driver, highest_digit}
use cmsc421_os.Mastermind2.Network.{valid_code, cs421net_bottom_body}
use cmsc421_os.Mastermind2.Valid.{IsValid}

-- The bytes that pass the check are digits up to the highest one.
pub valid_code-digit :
    (highest : ℤ) (packet : List ℕ) (i : ℕ)
    → valid_code highest packet ≡ true
    → i < length packet
    → (48 ≤ get_or packet i 0) × (pos (get_or packet i 0) ≤ℤ highest)
unfolding valid_code
valid_code-digit highest [] i e h = absurd (omega arith)
valid_code-digit highest (c ∷ cs) zero e h = ground arith
valid_code-digit highest (c ∷ cs) (suc i) e h = ground (arith, valid_code-digit highest cs i)

pub highest_digit-le :
    {page_size : ℕ} {d : Driver} → IsValid page_size d → highest_digit d ≤ℤ pos 126
highest_digit-le {d} v = omega (int_laws, v.many)

-- `cs421net_bottom` keeps the state in order, if the highest digit was read in such a state.
pub cs421net_bottom_body-IsValid :
    {page_size : ℕ} (highest : ℤ) (packet : List ℕ) {d : Driver}
    → highest ≤ℤ pos 126
    → IsValid page_size d
    → IsValid page_size (cs421net_bottom_body highest packet d)
unfolding cs421net_bottom_body
cs421net_bottom_body-IsValid highest packet {d} low v = ground (
  arith,
  v,
  valid_code-digit highest packet 0,
  valid_code-digit highest packet 1,
  valid_code-digit highest packet 2,
  valid_code-digit highest packet 3,
)
