-- ===== src/Sender/Connecting.antt =====
-- How `cs421net_init` of proj2/cs421net.c chooses an address, and the sockets it leaves open.
use cmsc421_os.Prelude.{
  ℕ, ◌+◌, ◌-◌, ◌≡◌, ◌≢◌, refl, sym, ap, ◌⊎◌, inl, inr, Bool, true, false, Option, none, some, List,
  [], ◌∷◌, ◌++◌, arith, Bool-cases, Option-cases, All,
}
use cmsc421_os.Sender.{Process, returns, exits, close, try_all, cs421net_init}

close-other : (fd : ℕ) (fds : List ℕ) → All (λ other. other ≢ fd) fds → close fd fds ≡ fds
unfolding close
close-other fd [] h = refl
close-other fd (other ∷ fds) h = ground (arith, h.0, close-other fd fds h.1)

close-opened : (fd : ℕ) (fds : List ℕ) → All (λ other. other ≢ fd) fds → close fd (fd ∷ fds) ≡ fds
unfolding close
close-opened fd fds h = ground (arith, close-other fd fds h)

abbrev pub connection : ℕ → Process → Process
connection fd p = record p { cs421net_socket = some fd; open_sockets = fd ∷ p.open_sockets }

module _ {Address : Type 0} (socket : Address → List ℕ → Option ℕ)
    (connect : ℕ → Address → Bool) where
  -- No connection to the address, with these sockets open.
  abbrev pub Fails : List ℕ → Address → Type 0
  Fails fds a =
      (socket a fds ≡ none) ⊎ ((fd : ℕ) × (socket a fds ≡ some fd) × (connect fd a ≡ false))

  -- The socket is that of the first address with a connection.
  pub record Connected (addresses : List Address) (fds : List ℕ) (fd : ℕ) : Type 0 where
    pub before : List Address
    pub address : Address
    pub after : List Address
    pub split : addresses ≡ before ++ address ∷ after
    pub failed_before : All (Fails fds) before
    pub made : socket address fds ≡ some fd
    pub connects : connect fd address ≡ true

  abbrev pub Fresh : List ℕ → Type 0
  Fresh fds = (a : Address) (fd : ℕ) → socket a fds ≡ some fd → All (λ o. o ≢ fd) fds

  one_more :
      {addresses : List Address} {fds : List ℕ} {fd : ℕ} (a : Address)
      → Fails fds a
      → Connected addresses fds fd
      → Connected (a ∷ addresses) fds fd
  one_more a f c = record {
    before = a ∷ c.before;
    address = c.address;
    after = c.after;
    split = ap (λ more. a ∷ more) c.split;
    failed_before = (f, c.failed_before);
    made = c.made;
    connects = c.connects;
  }

  -- How the loop ends: with the first connection, or with none.
  abbrev pub Outcome : List Address → Process → Process → Type 0
  Outcome addresses p p' =
      ((fd : ℕ) × Connected addresses p.open_sockets fd × (p' ≡ connection fd p))
      ⊎ (All (Fails p.open_sockets) addresses × (p' ≡ record p { cs421net_socket = none }))

  after_failure :
      {addresses : List Address} (p : Process) {p' : Process} (a : Address)
      → Fails p.open_sockets a
      → Outcome addresses (record p { cs421net_socket = none }) p'
      → Outcome (a ∷ addresses) p p'
  after_failure p a f (inl (fd, c, e)) = inl (fd, one_more a f c, e)
  after_failure p a f (inr (fs, e)) = inr ((f, fs), e)

  -- One round of the loop.
  module _ (a : Address) (rest : List Address) (p : Process) where
    no_socket :
        socket a p.open_sockets ≡ none
        → try_all socket connect (a ∷ rest) p
          ≡ try_all socket connect rest (record p { cs421net_socket = none })
    unfolding try_all
    no_socket e = rw (try_all, e) refl

    no_connection :
        {fd : ℕ}
        → socket a p.open_sockets ≡ some fd
        → connect fd a ≡ false
        → All (λ o. o ≢ fd) p.open_sockets
        → try_all socket connect (a ∷ rest) p
          ≡ try_all socket connect rest (record p { cs421net_socket = none })
    unfolding try_all
    no_connection {fd} e bad fresh = rw (try_all, e, bad, close-opened fd p.open_sockets fresh) refl

    connected :
        {fd : ℕ}
        → socket a p.open_sockets ≡ some fd
        → connect fd a ≡ true
        → try_all socket connect (a ∷ rest) p ≡ connection fd p
    unfolding try_all
    connected {fd} e good = rw (try_all, e, good) refl

  unset_again : (p : Process) → p.cs421net_socket ≡ none → p ≡ record p { cs421net_socket = none }
  unset_again p e = cc

  try_all-Outcome :
      (addresses : List Address) (p : Process)
      → Fresh p.open_sockets
      → p.cs421net_socket ≡ none
      → Outcome addresses p (try_all socket connect addresses p)
  unfolding try_all
  try_all-Outcome [] p fresh unset = inr (tt, unset_again p unset)
  try_all-Outcome (a ∷ rest) p fresh unset =
      let later = try_all-Outcome rest (record p { cs421net_socket = none }) fresh refl in
      elim (Option-cases (socket a p.open_sockets)) [
        | inl e ↦ rw (no_socket a rest p e) (after_failure p a (inl e) later)
        | inr (fd, e) ↦ elim (Bool-cases (connect fd a)) [
          | inl good ↦
              let found : Connected (a ∷ rest) p.open_sockets fd = record {
                before = [];
                address = a;
                after = rest;
                split = refl;
                failed_before = tt;
                made = e;
                connects = good;
              } in
              inl (fd, found, connected a rest p e good)
          | inr bad ↦
              rw (no_connection a rest p e bad (fresh a fd e))
                (after_failure p a (inr (fd, e, bad)) later)
        ]
      ]

  -- Where the process has no socket yet and a new socket is none of the open ones: if `getaddrinfo`
  -- succeeds, `cs421net_init` returns with the socket of the first address that accepts a connection,
  -- having opened no other one that is still open, or, if none accepts, exits with the sockets open that
  -- were; the list of addresses is freed either way.
  pub cs421net_init_lem :
      (addresses : List Address) (p : Process)
      → Fresh p.open_sockets
      → p.cs421net_socket ≡ none
      → ((fd : ℕ) × Connected addresses p.open_sockets fd
          × (cs421net_init socket connect (some addresses) p ≡ returns (connection fd p)))
        ⊎ (All (Fails p.open_sockets) addresses
            × (cs421net_init socket connect (some addresses) p ≡ exits p))
  unfolding cs421net_init
  cs421net_init_lem addresses p fresh unset =
      let back : (p.lists + 1) - 1 ≡ p.lists = omega arith in
      elim (try_all-Outcome addresses (record p { lists = p.lists + 1 }) fresh unset) [
        | inl (fd, c, e) ↦ inl (fd, c, rw (e, back) refl)
        | inr (fs, e) ↦ inr (fs, rw (e, back) (ap exits (sym (unset_again p unset))))
      ]
