-- ===== src/Sender/Tests.antt =====
-- Runs of the model of proj2/cs421net.c, and the theorems at concrete inputs.
use cmsc421_os.Prelude.{
  ℕ, zero, suc, ◌<◌, ◌≡◌, ◌≢◌, refl, ◌⊎◌, Bool, true, false, Option, some, List, [], ◌∷◌, arith,
  ◌==◌, All,
}
use cmsc421_os.Sender.{
  Process, initial, returns, exits, try_all, close, cs421net_init, Written, wrote, interrupted,
  is_interrupted, write_loop, cs421net_send,
}
use cmsc421_os.Sender.Connecting.{Connected, Fails, connection, cs421net_init_lem}
use cmsc421_os.Sender.Writing.{Reports, cs421net_send_lem}

-- Three files are open; the next one gets number 3.
abbrev running : Process
running = record initial { open_sockets = 0 ∷ 1 ∷ 2 ∷ [] }

abbrev socket : ℕ → List ℕ → Option ℕ
socket a fds = some 3

-- Of the addresses 6 and 4 only the second one accepts.
abbrev connect : ℕ → ℕ → Bool
connect fd a = a == 4

test_init_second :
    cs421net_init socket connect (some (6 ∷ 4 ∷ [])) running ≡ returns (connection 3 running)
unfolding cs421net_init try_all close
test_init_second = refl

test_init_none : cs421net_init socket connect (some (6 ∷ [])) running ≡ exits running
unfolding cs421net_init try_all close
test_init_none = refl

cs421net_init_lem_example :
    ((fd : ℕ) × Connected socket connect (6 ∷ 4 ∷ []) (0 ∷ 1 ∷ 2 ∷ []) fd
      × (cs421net_init socket connect (some (6 ∷ 4 ∷ [])) running
          ≡ returns (connection fd running)))
    ⊎ (All (Fails socket connect (0 ∷ 1 ∷ 2 ∷ [])) (6 ∷ 4 ∷ [])
        × (cs421net_init socket connect (some (6 ∷ 4 ∷ [])) running ≡ exits running))
cs421net_init_lem_example = cs421net_init_lem socket connect (6 ∷ 4 ∷ []) running new refl
  where
    new : (a fd : ℕ) → some 3 ≡ some fd → All (λ o. o ≢ fd) (0 ∷ 1 ∷ 2 ∷ [])
    new a fd e = (
      λ same. ground (arith, e, same),
      (λ same. ground (arith, e, same), (λ same. ground (arith, e, same), tt)),
    )

-- The first attempt is interrupted, the later ones write two bytes.
abbrev second_time : ℕ → Written
second_time zero = interrupted
second_time (suc n) = wrote 2

abbrev online : Process
online = record running { cs421net_socket = some 3 }

test_send :
    cs421net_send second_time 5 (52 ∷ 50 ∷ []) online
    ≡ some (true, record online { wire = 52 ∷ 50 ∷ [] })
unfolding cs421net_send write_loop
test_send = refl

test_send_short :
    cs421net_send second_time 5 (52 ∷ 50 ∷ 49 ∷ []) online
    ≡ some (false, record online { wire = 52 ∷ 50 ∷ [] })
unfolding cs421net_send write_loop
test_send_short = refl

cs421net_send_lem_example :
    (result : Bool × Process) × (cs421net_send second_time 5 (52 ∷ 50 ∷ []) online ≡ some result)
    × Reports (52 ∷ 50 ∷ []) (wrote 2) online result
cs421net_send_lem_example =
    cs421net_send_lem second_time 5 1 (52 ∷ 50 ∷ []) online (omega arith) first refl
  where
    first : (j : ℕ) → j < 1 → is_interrupted (second_time j) ≡ true
    first zero lt = refl
    first (suc j) lt = absurd (omega (arith, lt))
