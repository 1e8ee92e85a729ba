-- ===== src/Sender.antt =====
-- proj2/cs421net.c: the sender of the test program, on the sockets of the system. What the system answers
-- is a parameter: the addresses of `getaddrinfo`, the results of `socket` and `connect`, and those of
-- `write`, attempt by attempt.
pub mod Connecting
pub mod Writing
mod Tests
use cmsc421_os.Prelude.{
  ℕ, zero, suc, ◌+◌, ◌-◌, Bool, true, false, Option, none, some, List, [], ◌∷◌, ◌++◌, ◌==◌,
  if◌then◌else◌, length, take,
}

-- The process: `cs421net_socket`, where -1 is `none`; the sockets that are open; the lists of addresses
-- that are allocated; the bytes that were sent.
pub record Process : Type 0 where
  pub cs421net_socket : Option ℕ
  pub open_sockets : List ℕ
  pub lists : ℕ
  pub wire : List ℕ

abbrev pub initial : Process
initial = record { cs421net_socket = none; open_sockets = []; lists = 0; wire = [] }

-- The end of `cs421net_init`: a return, or `exit(EXIT_FAILURE)`.
pub data End : Type 0 where
  returns exits : Process → End

unfoldable pub close : ℕ → List ℕ → List ℕ
close fd [] = []
close fd (other ∷ fds) =
    let rest : List ℕ = close fd fds in if other == fd then rest else other ∷ rest

abbrev pub finish : Process → End
finish p = elim p.cs421net_socket [ none ↦ exits p | some fd ↦ returns p ]

-- The results of `socket`, with the sockets open then, and of `connect`; a negative one is `none` or
-- `false`.
module _ {Address : Type 0} (socket : Address → List ℕ → Option ℕ)
    (connect : ℕ → Address → Bool) where
  -- The loop over the addresses.
  unfoldable pub try_all : List Address → Process → Process
  try_all [] p = p
  try_all (a ∷ rest) p = elim (socket a p.open_sockets) [
    | none ↦ try_all rest (record p { cs421net_socket = none })
    | some fd ↦
        let failed : Process =
          try_all rest
            (record p { cs421net_socket = none; open_sockets = close fd (fd ∷ p.open_sockets) }) in
        if connect fd a
        then record p { cs421net_socket = some fd; open_sockets = fd ∷ p.open_sockets }
        else failed
  ]

  -- The result of `getaddrinfo` is `none` where it fails.
  unfoldable pub cs421net_init : Option (List Address) → Process → End
  cs421net_init none p = exits p
  cs421net_init (some addresses) p =
      let p' : Process = try_all addresses (record p { lists = p.lists + 1 }) in
      finish (record p' { lists = p'.lists - 1 })

-- A result of `write`: so many bytes, or -1 with EINTR or another error.
pub data Written : Type 0 where
  wrote : ℕ → Written
  interrupted : Written
  failed : Written

abbrev pub is_interrupted : Written → Bool
is_interrupted (wrote n) = false
is_interrupted interrupted = true
is_interrupted failed = false

abbrev pub sent : List ℕ → Written → Process → Bool × Process
sent buffer (wrote n) p = (n == length buffer, record p { wire = p.wire ++ take n buffer })
sent buffer interrupted p = (false, p)
sent buffer failed p = (false, p)

-- The results of the attempts to come, `write i` that of the one numbered `i`.
module _ (write : ℕ → Written) where
  -- The loop; `none` is one more attempt than the rounds.
  unfoldable pub write_loop : (rounds i : ℕ) → Option Written
  write_loop zero i = none
  write_loop (suc n) i =
      let later : Option Written = write_loop n (i + 1) in
      if is_interrupted (write i) then later else some (write i)

  unfoldable pub cs421net_send : (rounds : ℕ) → List ℕ → Process → Option (Bool × Process)
  cs421net_send rounds buffer p = elim p.cs421net_socket [
    | none ↦ some (false, p)
    | some fd ↦ elim (write_loop rounds 0) [ none ↦ none | some r ↦ some (sent buffer r p) ]
  ]
