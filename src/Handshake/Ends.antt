-- ===== src/Handshake/Ends.antt =====
-- The runs of a handshake of a client with a server.
use shmipc_go.Prelude.{
  ℕ, ◌^◌, ◌<◌, ◌≡◌, refl, true, false, Option, some, none, List, [], take, length, arith,
}
use shmipc_go.Errors.{Error}
use shmipc_go.Protocol.{be_bytes, be_value, encode, magic, version, msg_type, check_event_valid}
use shmipc_go.Protocol.EventType
use shmipc_go.Metadata.{generate_shm_metadata}
use shmipc_go.Queue.Manager.{dev_shm_file}
use shmipc_go.Handshake.{
  Process, done, Fds, Offer, agreed_by, Pair, act, move, client, server, client_initializer,
  send_by_file_path, block_read_event_header, handle_by_file_path, server_init_v2, body_length,
}
use shmipc_go.Handshake.Message.{message, body, body_counted, received, long_enough}
use shmipc_go.Handshake.Agree.{Turns, IsStuck, right_moves, act-read, act-read_all}

-- Nothing is under way.
abbrev pub quiet : Process → Process → Pair
quiet left right = record {
  left = left;
  right = right;
  to_left = [];
  to_right = [];
  fds_to_left = [];
  fds_to_right = [];
}

module _ (map_files : List ℕ → List ℕ → Option Error)
    (map_fds : List ℕ → List ℕ → Fds → Option Error) where
  abbrev pub start : Offer → Pair
  start o = quiet (client o) (server map_files map_fds)

  abbrev pub ended : ℕ → Offer → Pair
  ended ver o = quiet (done (agreed_by ver o)) (done (agreed_by ver o))

  pub ended-IsStuck : (ver : ℕ) (o : Offer) → IsStuck (ended ver o)
  unfolding IsStuck move act
  ended-IsStuck ver o false = refl
  ended-IsStuck ver o true = refl

  module _ (queue_path buffer_path : List ℕ) (fds : Fds) (q_short : length queue_path < 2 ^ 16)
      (b_short : length buffer_path < 2 ^ 16) where
    abbrev by_file : Offer
    by_file = record {
      mem_map_type = dev_shm_file;
      queue_path = queue_path;
      buffer_path = buffer_path;
      fds = fds;
    }

    abbrev pub file_header : List ℕ
    file_header = take 8 (message queue_path buffer_path 2 EventType.share_memory_by_file_path)

    abbrev sent_file : Pair
    sent_file = record {
      left = done (agreed_by 2 by_file);
      right = server map_files map_fds;
      to_left = [];
      to_right = message queue_path buffer_path 2 EventType.share_memory_by_file_path;
      fds_to_left = [];
      fds_to_right = [];
    }

    abbrev got_header : Pair
    got_header = record {
      left = done (agreed_by 2 by_file);
      right = handle_by_file_path map_files map_fds 2 file_header done;
      to_left = [];
      to_right = body queue_path buffer_path;
      fds_to_left = [];
      fds_to_right = [];
    }

    file_sent : move false (start by_file) ≡ some sent_file
    unfolding move act client client_initializer send_by_file_path
    file_sent = refl

    header_read : move true sent_file ≡ some got_header
    unfolding server server_init_v2 block_read_event_header check_event_valid generate_shm_metadata
        encode be_bytes magic version msg_type be_value
    header_read = right_moves sent_file _ (
        act-read _ 8 (message queue_path buffer_path 2 EventType.share_memory_by_file_path) []
          (long_enough queue_path buffer_path 2 EventType.share_memory_by_file_path))

    body_read :
        map_files queue_path buffer_path ≡ none → move true got_header ≡ some (ended 2 by_file)
    unfolding handle_by_file_path
    body_read mapped = right_moves got_header _ (
        act-read_all _ (body_length file_header) (body queue_path buffer_path) []
          (body_counted queue_path buffer_path q_short b_short 2
            EventType.share_memory_by_file_path)
          (done (agreed_by 2 by_file))
          (ground (arith, received queue_path buffer_path q_short b_short, mapped)))

    pub file_run :
        map_files queue_path buffer_path ≡ none → Turns (start by_file) 3 (ended 2 by_file)
    unfolding Turns
    file_run mapped = (
      false,
      sent_file,
      file_sent,
      (true, got_header, header_read, (true, ended 2 by_file, body_read mapped, refl)),
    )
