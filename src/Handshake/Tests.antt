-- ===== src/Handshake/Tests.antt =====
-- A handshake that shares descriptors, under a schedule that keeps both processes waiting at times.
use shmipc_go.Prelude.{ℕ, ◌≡◌, refl, Bool, true, false, Option, none, List, [], ◌∷◌, arith}
use shmipc_go.Errors.{Error}
use shmipc_go.Queue.Manager.{mem_fd}
use shmipc_go.Handshake.{Fds, Offer, run}
use shmipc_go.Handshake.Ends.{start, ended}
use shmipc_go.Handshake.Agreement.{run-start-ended}

abbrev offer : Offer
offer = record {
  mem_map_type = mem_fd;
  queue_path = 47 ∷ 113 ∷ [];
  buffer_path = 47 ∷ 98 ∷ [];
  fds = record { buffer = 5; queue = 6 };
}

abbrev files_mapped : List ℕ → List ℕ → Option Error
files_mapped q b = none

abbrev fds_mapped : List ℕ → List ℕ → Fds → Option Error
fds_mapped q b fds = none

run-start-ended_example :
    (rest : List Bool) × (run rest
        (run (true ∷ false ∷ false ∷ true ∷ []) (start files_mapped fds_mapped offer))
      ≡ ended files_mapped fds_mapped 3 offer)
run-start-ended_example =
    run-start-ended files_mapped fds_mapped offer (refl, refl) (omega arith) (omega arith)
      (true ∷ false ∷ false ∷ true ∷ [])
