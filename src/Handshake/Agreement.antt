-- ===== src/Handshake/Agreement.antt =====
-- The two ends of a handshake agree.
use shmipc_go.Prelude.{ℕ, ◌^◌, ◌<◌, ◌≡◌, Bool, Option, none, List, length}
use shmipc_go.Errors.{Error}
use shmipc_go.Queue.Manager.{MapType, dev_shm_file, mem_fd}
use shmipc_go.Handshake.{Fds, Offer, run}
use shmipc_go.Handshake.Agree.{goes_on, by_schedule}
use shmipc_go.Handshake.Ends.{start, ended, ended-IsStuck, file_run}
use shmipc_go.Handshake.FdRun.{fd_run}

-- The version that a kind of memory leads to.
abbrev pub version_for : MapType → ℕ
version_for dev_shm_file = 2
version_for mem_fd = 3

-- Whether the server can map what the client offers.
abbrev pub Maps :
    (List ℕ → List ℕ → Option Error) → (List ℕ → List ℕ → Fds → Option Error) → Offer → Type 0
Maps map_files map_fds o =
    (map_files o.queue_path o.buffer_path ≡ none)
    × (map_fds o.queue_path o.buffer_path o.fds ≡ none)

-- A client that offers paths shorter than 2^16 bytes meets a server that can map them. However the turns of the
-- two are scheduled, the handshake is not stuck: from there some turns lead to the end where both are done and
-- have agreed on the version, which the kind of memory decides, on both paths and on the descriptors, with
-- nothing left under way between them.
pub run-start-ended :
    (map_files : List ℕ → List ℕ → Option Error) (map_fds : List ℕ → List ℕ → Fds → Option Error)
    (o : Offer)
    → Maps map_files map_fds o
    → length o.queue_path < 2 ^ 16
    → length o.buffer_path < 2 ^ 16
    → (schedule : List Bool)
    → (rest : List Bool) × (run rest (run schedule (start map_files map_fds o))
        ≡ ended map_files map_fds (version_for o.mem_map_type) o)
run-start-ended map_files map_fds o (files, fds) q_short b_short schedule = by_kind o.mem_map_type
  where
    offer : MapType → Offer
    offer kind = record o { mem_map_type = kind }

    by_kind :
        (kind : MapType)
        → (rest : List Bool) × (run rest (run schedule (start map_files map_fds (offer kind)))
            ≡ ended map_files map_fds (version_for kind) (offer kind))
    by_kind dev_shm_file =
        let end = ended map_files map_fds 2 (offer dev_shm_file) in
        let (k, turns) =
          goes_on schedule 3 (start map_files map_fds (offer dev_shm_file)) end
            (file_run map_files map_fds o.queue_path o.buffer_path o.fds q_short b_short files)
            (ended-IsStuck map_files map_fds 2 (offer dev_shm_file)) in
        by_schedule k (run schedule (start map_files map_fds (offer dev_shm_file))) end turns
    by_kind mem_fd =
        let end = ended map_files map_fds 3 (offer mem_fd) in
        let (k, turns) =
          goes_on schedule 13 (start map_files map_fds (offer mem_fd)) end
            (fd_run map_files map_fds o.queue_path o.buffer_path o.fds q_short b_short fds)
            (ended-IsStuck map_files map_fds 3 (offer mem_fd)) in
        by_schedule k (run schedule (start map_files map_fds (offer mem_fd))) end turns
