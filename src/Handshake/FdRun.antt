-- ===== src/Handshake/FdRun.antt =====
-- The run of a handshake that shares the memory by file descriptors.
use shmipc_go.Prelude.{
  min, ◌==◌, ℕ, ◌^◌, ◌<◌, ◌≡◌, refl, ap, true, false, if◌then◌else◌, Option, some, none, List, [],
  ◌∷◌, take, length, arith,
}
use shmipc_go.Errors.{Error, unexpected_event}
use shmipc_go.Protocol.{be_bytes, be_value, encode, magic, version, msg_type, check_event_valid}
use shmipc_go.Protocol.EventType
use shmipc_go.Metadata.{generate_shm_metadata}
use shmipc_go.Queue.Manager.{mem_fd}
use shmipc_go.Handshake.{
  Process, done, failed, write, send_fds, recv_fds, Fds, Offer, agreed_by, Pair, act, move, client,
  server, client_initializer, client_init, send_mem_fd, wait_event_header, block_read_event_header,
  handle_by_file_path, handle_by_mem_fd, server_init, fail_with, frame_header, body_length,
  acknowledge,
}
use shmipc_go.Handshake.Message.{message, body, body_counted, received, long_enough}
use shmipc_go.Handshake.Agree.{Turns, turn_then, right_moves, act-read, act-read_all}
use shmipc_go.Handshake.Ends.{start, ended, quiet}

module _ (map_files : List ℕ → List ℕ → Option Error)
    (map_fds : List ℕ → List ℕ → Fds → Option Error) where
  module _ (queue_path buffer_path : List ℕ) (fds : Fds) (q_short : length queue_path < 2 ^ 16)
      (b_short : length buffer_path < 2 ^ 16) where
    abbrev by_fd : Offer
    by_fd = record {
      mem_map_type = mem_fd;
      queue_path = queue_path;
      buffer_path = buffer_path;
      fds = fds;
    }

    abbrev fd_header : List ℕ
    fd_header = take 8 (message queue_path buffer_path 3 EventType.share_memory_by_memfd)

    -- What the processes wait for between their turns.
    abbrev ack_wait : Process
    ack_wait = wait_event_header EventType.ack_share_memory (λ _. done (agreed_by 3 by_fd))

    abbrev fd_wait : Process
    fd_wait = wait_event_header EventType.ack_ready_recv_fd (λ _. send_fds fds ack_wait)

    abbrev version_wait : Process
    version_wait =
        wait_event_header EventType.exchange_proto_version
          (λ h. client_initializer (min 3 (version h)) by_fd)

    abbrev memory_wait : Process
    memory_wait = block_read_event_header (λ h.
        if msg_type h == EventType.share_memory_by_file_path
        then handle_by_file_path map_files map_fds 3 h acknowledge
        else if msg_type h == EventType.share_memory_by_memfd
        then handle_by_mem_fd map_files map_fds 3 h acknowledge
        else failed unexpected_event)

    abbrev answer : Process
    answer = write (frame_header 3 EventType.exchange_proto_version) memory_wait

    abbrev fds_wait : Process
    fds_wait = recv_fds (λ got. fail_with (map_fds queue_path buffer_path got) (
        acknowledge (record {
          communication_version = 3;
          queue_path = queue_path;
          buffer_path = buffer_path;
          fds = some got;
        })))

    -- The pairs between the turns.
    abbrev asked : Pair
    asked = record (quiet (version_wait) (server map_files map_fds)) {
      to_right = frame_header 3 EventType.exchange_proto_version;
    }

    abbrev heard : Pair
    heard = quiet (version_wait) (answer)

    abbrev answered : Pair
    answered = record (quiet (version_wait) (memory_wait)) {
      to_left = frame_header 3 EventType.exchange_proto_version;
    }

    abbrev agreed : Pair
    agreed = quiet (client_init 3 by_fd) (memory_wait)

    abbrev offered : Pair
    offered = record (quiet (fd_wait) (memory_wait)) {
      to_right = message queue_path buffer_path 3 EventType.share_memory_by_memfd;
    }

    abbrev header_got : Pair
    header_got =
        record (quiet (fd_wait) (handle_by_mem_fd map_files map_fds 3 fd_header acknowledge)) {
          to_right = body queue_path buffer_path;
        }

    abbrev body_got : Pair
    body_got = quiet (fd_wait) (write (frame_header 3 EventType.ack_ready_recv_fd) fds_wait)

    abbrev ready : Pair
    ready = record (quiet (fd_wait) (fds_wait)) {
      to_left = frame_header 3 EventType.ack_ready_recv_fd;
    }

    abbrev sending : Pair
    sending = quiet (send_fds fds ack_wait) (fds_wait)

    abbrev sent : Pair
    sent = record (quiet (ack_wait) (fds_wait)) { fds_to_right = fds ∷ [] }

    abbrev mapped : Pair
    mapped = quiet (ack_wait) (acknowledge (agreed_by 3 by_fd))

    abbrev acknowledged : Pair
    acknowledged = record (quiet (ack_wait) (done (agreed_by 3 by_fd))) {
      to_left = frame_header 3 EventType.ack_share_memory;
    }

    turn1 : move false (start map_files map_fds by_fd) ≡ some asked
    unfolding move act client wait_event_header
    turn1 = refl

    turn2 : move true asked ≡ some heard
    unfolding move act server server_init block_read_event_header check_event_valid encode be_bytes
        magic version msg_type be_value
    turn2 = refl

    turn3 : move true heard ≡ some answered
    unfolding move act
    turn3 = refl

    turn4 : move false answered ≡ some agreed
    unfolding move act wait_event_header block_read_event_header client_initializer
        check_event_valid encode be_bytes magic version msg_type be_value
    turn4 = refl

    turn5 : move false agreed ≡ some offered
    unfolding move act client_init send_mem_fd
    turn5 = refl

    turn6 : move true offered ≡ some header_got
    unfolding block_read_event_header generate_shm_metadata check_event_valid encode be_bytes magic
        version msg_type be_value
    turn6 = right_moves offered _ (
        act-read _ 8 (message queue_path buffer_path 3 EventType.share_memory_by_memfd) []
          (long_enough queue_path buffer_path 3 EventType.share_memory_by_memfd))

    turn7 : move true header_got ≡ some body_got
    unfolding handle_by_mem_fd
    turn7 = right_moves header_got _ (
        act-read_all _ (body_length fd_header) (body queue_path buffer_path) []
          (body_counted queue_path buffer_path q_short b_short 3 EventType.share_memory_by_memfd)
          (write (frame_header 3 EventType.ack_ready_recv_fd) fds_wait)
          (ground (arith, received queue_path buffer_path q_short b_short)))

    turn8 : move true body_got ≡ some ready
    unfolding move act
    turn8 = refl

    turn9 : move false ready ≡ some sending
    unfolding move act wait_event_header block_read_event_header check_event_valid encode be_bytes
        magic version msg_type be_value
    turn9 = refl

    turn10 : move false sending ≡ some sent
    unfolding move act
    turn10 = refl

    turn11 : map_fds queue_path buffer_path fds ≡ none → move true sent ≡ some mapped
    unfolding move act
    turn11 maps =
        ap (λ e. some (record mapped { right = fail_with e (acknowledge (agreed_by 3 by_fd)) }))
          maps

    turn12 : move true mapped ≡ some acknowledged
    unfolding move act
    turn12 = refl

    turn13 : move false acknowledged ≡ some (ended map_files map_fds 3 by_fd)
    unfolding move act wait_event_header block_read_event_header check_event_valid encode be_bytes
        magic version msg_type be_value
    turn13 = refl

    pub fd_run :
        map_fds queue_path buffer_path fds ≡ none
        → Turns (start map_files map_fds by_fd) 13 (ended map_files map_fds 3 by_fd)
    unfolding Turns
    fd_run maps = turn_then false (start map_files map_fds by_fd) asked end 12 turn1 (
        turn_then true asked heard end 11 turn2 (
          turn_then true heard answered end 10 turn3 (
            turn_then false answered agreed end 9 turn4 (
              turn_then false agreed offered end 8 turn5 (
                turn_then true offered header_got end 7 turn6 (
                  turn_then true header_got body_got end 6 turn7 (
                    turn_then true body_got ready end 5 turn8 (
                      turn_then false ready sending end 4 turn9 (
                        turn_then false sending sent end 3 turn10 (
                          turn_then true sent mapped end 2 (turn11 maps) (
                            turn_then true mapped acknowledged end 1 turn12
                              (turn_then false acknowledged end end 0 turn13 refl))))))))))))
      where
        end : Pair
        end = ended map_files map_fds 3 by_fd
