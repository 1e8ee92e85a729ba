-- ===== src/Sender/Writing.antt =====
-- What `cs421net_send` of proj2/cs421net.c reports and what was sent then.
use cmsc421_os.Prelude.{
  ℕ, zero, suc, ◌+◌, ◌<◌, ◌≡◌, ◌≢◌, refl, ap, ◌↔◌, inl, inr, Bool, true, false, none, some, List,
  [], ◌∷◌, ◌++◌, ◌==◌, arith, Option-cases, ==_iff, length, take,
}
use cmsc421_os.Sender.{
  Process, Written, wrote, interrupted, failed, is_interrupted, write_loop, sent, cs421net_send,
}

take-length : (buffer : List ℕ) → take (length buffer) buffer ≡ buffer
take-length [] = refl
take-length (c ∷ cs) = ap (λ more. c ∷ more) (take-length cs)

wrote-injective : (m n : ℕ) → wrote m ≡ wrote n → m ≡ n
wrote-injective m n e = cc

-- The report is true exactly for a whole buffer, which was sent then.
abbrev pub Reports : List ℕ → Written → Process → Bool × Process → Type 0
Reports buffer r p (ok, p') =
    ((ok ≡ true) ↔ ((p.cs421net_socket ≢ none) × (r ≡ wrote (length buffer))))
    × (ok ≡ true → p' ≡ record p { wire = p.wire ++ buffer })

module _ (write : ℕ → Written) where
  write_loop_lem :
      (rounds i k : ℕ)
      → k < rounds
      → ((j : ℕ) → j < k → is_interrupted (write (i + j)) ≡ true)
      → is_interrupted (write (i + k)) ≡ false
      → write_loop write rounds i ≡ some (write (i + k))
  unfolding write_loop
  write_loop_lem zero i k less before answered = absurd (omega (arith, less))
  write_loop_lem (suc n) i zero less before answered = ground (arith, answered)
  write_loop_lem (suc n) i (suc k) less before answered =
      let again : is_interrupted (write i) ≡ true = ground (arith, before 0) in
      let rest =
        write_loop_lem n (i + 1) k (omega (arith, less))
          (λ j lt. ground (arith, before (j + 1) (omega (arith, lt)))) (ground (arith, answered)) in
      ground (arith, again, rest)

  sent-Reports :
      (buffer : List ℕ) (r : Written) (p : Process)
      → p.cs421net_socket ≢ none
      → Reports buffer r p (sent buffer r p)
  sent-Reports buffer (wrote n) p set = (
    (
      λ e. (set, ap wrote (whole e)),
      λ h. (==_iff n (length buffer)).1 (wrote-injective n (length buffer) h.1),
    ),
    λ e. rw (whole e, take-length buffer) refl,
  )
    where
      whole : (n == length buffer) ≡ true → n ≡ length buffer
      whole e = (==_iff n (length buffer)).0 e
  sent-Reports buffer interrupted p set = ((λ e. cc, λ h. cc), λ e. cc)
  sent-Reports buffer failed p set = ((λ e. cc, λ h. cc), λ e. cc)

  -- Where the attempt numbered `k` to write is the first one that no signal interrupts, and comes within the
  -- rounds, `cs421net_send` returns: with true exactly if the process is connected and that attempt wrote
  -- the whole buffer, and then the buffer was sent.
  pub cs421net_send_lem :
      (rounds k : ℕ) (buffer : List ℕ) (p : Process)
      → k < rounds
      → ((j : ℕ) → j < k → is_interrupted (write j) ≡ true)
      → is_interrupted (write k) ≡ false
      → (result : Bool × Process) × (cs421net_send write rounds buffer p ≡ some result)
        × Reports buffer (write k) p result
  unfolding cs421net_send
  cs421net_send_lem rounds k buffer p less before answered =
      let first : write_loop write rounds 0 ≡ some (write k) = ground (
        arith,
        write_loop_lem rounds 0 k less (λ j lt. ground (arith, before j lt))
            (ground (arith, answered)),
      ) in
      elim (Option-cases p.cs421net_socket) [
        | inl e ↦ ((false, p), rw e refl, ((λ t. cc, λ h. absurd (h.0 e)), λ t. cc))
        | inr (fd, e) ↦ (
          sent buffer (write k) p,
          simp (cs421net_send, e, first),
          sent-Reports buffer (write k) p (λ unset. cc),
        )
      ]
