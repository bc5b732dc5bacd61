-- ===== src/Handshake.antt =====
-- The handshake of a session: protocol_initializer.go, and the functions of protocol_manager.go that it calls. A
-- process reads and writes the socket and ends; the run of both is over the bytes and the file
-- descriptors that are under way between them. Mapping the shared memory is an argument.
pub mod Agree
pub mod Message
pub mod Ends
pub mod FdRun
pub mod Agreement
mod Tests
use shmipc_go.Prelude.{
  ℕ, zero, suc, ◌+◌, ◌-◌, ◌%◌, ◌^◌, min, Bool, true, false, ◌==◌, ltb, leb, not, if◌then◌else◌,
  Option, some, none, List, [], ◌∷◌, ◌++◌, take, drop, replicate, length,
}
use shmipc_go.Errors.{Error, unsupported_version, unexpected_event, unknown_memory_type}
use shmipc_go.Protocol.{
  header_size, encode, event_length, version, msg_type, check_event_valid,
  max_support_proto_version, proto_version,
}
use shmipc_go.Protocol.EventType
use shmipc_go.Metadata.{generate_shm_metadata, extract_shm_metadata}
use shmipc_go.Queue.Manager.{MapType, dev_shm_file, mem_fd}

-- The descriptors of the buffers and of the queue.
pub record Fds : Type 0 where
  pub buffer : ℕ
  pub queue : ℕ

-- What the handshake sets in a session.
pub record Agreed : Type 0 where
  pub communication_version : ℕ
  pub queue_path : List ℕ
  pub buffer_path : List ℕ
  pub fds : Option Fds

-- A process on the socket.
pub data Process : Type 0 where
  done : Agreed → Process
  failed : Error → Process
  crashed : Process
  write : List ℕ → Process → Process
  read : ℕ → (List ℕ → Process) → Process
  send_fds : Fds → Process → Process
  recv_fds : (Fds → Process) → Process

abbrev pub fail_with : Option Error → Process → Process
fail_with none p = p
fail_with (some e) p = failed e

-- `blockReadEventHeader`
unfoldable pub block_read_event_header : (List ℕ → Process) → Process
block_read_event_header k = read header_size (λ h. fail_with (check_event_valid h) (k h))

-- `waitEventHeader`
unfoldable pub wait_event_header : ℕ → (List ℕ → Process) → Process
unfolding block_read_event_header
wait_event_header type k =
    block_read_event_header (λ h. if msg_type h == type then k h else failed unexpected_event)

-- A header without a body, as `encode` writes it into zeroed memory.
abbrev pub frame_header : ℕ → ℕ → List ℕ
frame_header ver type = encode (replicate header_size 0) header_size ver type

-- The configuration and the mapping of the client, from `initMemManager`.
pub record Offer : Type 0 where
  pub mem_map_type : MapType
  pub queue_path : List ℕ
  pub buffer_path : List ℕ
  pub fds : Fds

abbrev pub fds_of : Offer → Option Fds
fds_of o = elim o.mem_map_type as (λ _. Option Fds) [ dev_shm_file ↦ none | mem_fd ↦ some o.fds ]

abbrev pub agreed_by : ℕ → Offer → Agreed
agreed_by ver o = record {
  communication_version = ver;
  queue_path = o.queue_path;
  buffer_path = o.buffer_path;
  fds = fds_of o;
}

-- `sendShareMemoryByFilePath`
unfoldable pub send_by_file_path : ℕ → Offer → Process → Process
send_by_file_path ver o k =
    write (generate_shm_metadata ver EventType.share_memory_by_file_path o.queue_path o.buffer_path)
      k

-- `sendMemFdToPeer`
unfoldable pub send_mem_fd : ℕ → Offer → Process → Process
unfolding wait_event_header
send_mem_fd ver o k =
    write (generate_shm_metadata ver EventType.share_memory_by_memfd o.queue_path o.buffer_path)
      (wait_event_header EventType.ack_ready_recv_fd (λ _. send_fds o.fds k))

-- `protocolInitializerV3.clientInit`
unfoldable pub client_init : ℕ → Offer → Process
unfolding send_by_file_path send_mem_fd wait_event_header
client_init ver o =
    let rest = wait_event_header EventType.ack_share_memory (λ _. done (agreed_by ver o)) in
    elim o.mem_map_type [
      | dev_shm_file ↦ send_by_file_path ver o rest
      | mem_fd ↦ send_mem_fd ver o rest
    ]

-- `createProtoVersionInitializer` and `Init` of a client: it sets the version and starts.
unfoldable pub client_initializer : ℕ → Offer → Process
unfolding client_init send_by_file_path
client_initializer ver o =
    if ver == 2
    then send_by_file_path 2 o (done (agreed_by 2 o))
    else if ver == 3
    then client_init 3 o
    else failed unsupported_version

-- `clientGetProtocolInitializer` and `Init`.
unfoldable pub client : Offer → Process
unfolding client_initializer wait_event_header
client o = elim o.mem_map_type [
  | dev_shm_file ↦ client_initializer 2 o
  | mem_fd ↦ write (frame_header max_support_proto_version EventType.exchange_proto_version) (
      wait_event_header EventType.exchange_proto_version
        (λ h. client_initializer (min max_support_proto_version (version h)) o))
]

-- The body behind a header; a length below that of a header wraps to a read that does not end.
abbrev pub body_length : List ℕ → ℕ
body_length h = (event_length h + 2 ^ 32 - header_size) % 2 ^ 32

-- The last step of a server.
abbrev pub acknowledge : Agreed → Process
acknowledge a = write (frame_header a.communication_version EventType.ack_share_memory) (done a)

module _ (map_files : List ℕ → List ℕ → Option Error)
    (map_fds : List ℕ → List ℕ → Fds → Option Error) where
  -- `handleShareMemoryByFilePath`
  unfoldable pub handle_by_file_path : ℕ → List ℕ → (Agreed → Process) → Process
  handle_by_file_path ver h k = read (body_length h) (λ body. elim (extract_shm_metadata body) [
    | none ↦ crashed
    | some (buffer_path, queue_path) ↦ fail_with (map_files queue_path buffer_path) (
        k (record {
          communication_version = ver;
          queue_path = queue_path;
          buffer_path = buffer_path;
          fds = none;
        }))
  ])

  -- `handleShareMemoryByMemFd`
  unfoldable pub handle_by_mem_fd : ℕ → List ℕ → (Agreed → Process) → Process
  handle_by_mem_fd ver h k = read (body_length h) (λ body. elim (extract_shm_metadata body) [
    | none ↦ crashed
    | some (buffer_path, queue_path) ↦ write (frame_header ver EventType.ack_ready_recv_fd) (
        recv_fds (λ fds. fail_with (map_fds queue_path buffer_path fds) (
          k (record {
            communication_version = ver;
            queue_path = queue_path;
            buffer_path = buffer_path;
            fds = some fds;
          }))))
  ])

  -- `protocolInitializerV3.serverInit`; `handleExchangeVersion` takes the smaller version.
  unfoldable pub server_init : List ℕ → Process
  unfolding handle_by_file_path handle_by_mem_fd block_read_event_header
  server_init first =
      if msg_type first == EventType.exchange_proto_version
      then (let ver = min (version first) max_support_proto_version in
          write (frame_header max_support_proto_version EventType.exchange_proto_version) (
            block_read_event_header (λ h.
              if msg_type h == EventType.share_memory_by_file_path
              then handle_by_file_path ver h acknowledge
              else if msg_type h == EventType.share_memory_by_memfd
              then handle_by_mem_fd ver h acknowledge
              else failed unexpected_event)))
      else failed unexpected_event

  -- `protocolInitializerV2.Init` of a server.
  unfoldable pub server_init_v2 : List ℕ → Process
  unfolding handle_by_file_path
  server_init_v2 first =
      if msg_type first == EventType.share_memory_by_file_path
      then handle_by_file_path 2 first done
      else failed unexpected_event

  -- `serverGetProtocolInitializer`, `createProtoVersionInitializer` and `Init`.
  unfoldable pub server : Process
  unfolding block_read_event_header server_init server_init_v2
  server = block_read_event_header (λ h.
      if version h == 2
      then server_init_v2 h
      else if version h == 3
      then server_init h
      else failed unsupported_version)

-- Both processes, and what is under way to each.
pub record Pair : Type 0 where
  pub left : Process
  pub right : Process
  pub to_left : List ℕ
  pub to_right : List ℕ
  pub fds_to_left : List Fds
  pub fds_to_right : List Fds

abbrev pub flip : Pair → Pair
flip p = record {
  left = p.right;
  right = p.left;
  to_left = p.to_right;
  to_right = p.to_left;
  fds_to_left = p.fds_to_right;
  fds_to_right = p.fds_to_left;
}

-- What a process does in a turn: where it goes on, what is left of what was under way to it, and what it sends.
pub record Act : Type 0 where
  pub next : Process
  pub bytes : List ℕ
  pub sent : List ℕ
  pub fds : List Fds
  pub sent_fds : List Fds

-- A turn of a process, if it can go on; a read waits until all its bytes are there.
unfoldable pub act : Process → List ℕ → List Fds → Option Act
act (done a) bytes fds = none
act (failed e) bytes fds = none
act crashed bytes fds = none
act (write sent next) bytes fds =
    some (record { next = next; bytes = bytes; sent = sent; fds = fds; sent_fds = [] })
act (read n k) bytes fds =
    if ltb (length bytes) n
    then none
    else some (record {
      next = k (take n bytes);
      bytes = drop n bytes;
      sent = [];
      fds = fds;
      sent_fds = [];
    })
act (send_fds sent next) bytes fds =
    some (record { next = next; bytes = bytes; sent = []; fds = fds; sent_fds = sent ∷ [] })
act (recv_fds k) bytes [] = none
act (recv_fds k) bytes (f ∷ fds) =
    some (record { next = k f; bytes = bytes; sent = []; fds = fds; sent_fds = [] })

abbrev pub after : Pair → Act → Pair
after p a = record {
  left = a.next;
  right = p.right;
  to_left = a.bytes;
  to_right = p.to_right ++ a.sent;
  fds_to_left = a.fds;
  fds_to_right = p.fds_to_right ++ a.sent_fds;
}

-- A turn of the left process of a pair.
unfoldable pub turn : Pair → Option Pair
unfolding act
turn p = elim (act p.left p.to_left p.fds_to_left) [ none ↦ none | some a ↦ some (after p a) ]

-- A turn of either process.
unfoldable pub move : Bool → Pair → Option Pair
unfolding turn
move false p = turn p
move true p = elim (turn (flip p)) [ none ↦ none | some moved ↦ some (flip moved) ]

-- The run: a schedule says whose turn it is; a process that waits passes.
unfoldable pub run : List Bool → Pair → Pair
unfolding move
run [] p = p
run (right ∷ rest) p =
    run rest (elim (move right p) as (λ _. Pair) [ none ↦ p | some moved ↦ moved ])
