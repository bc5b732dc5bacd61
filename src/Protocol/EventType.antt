-- ===== src/Protocol/EventType.antt =====
-- `eventType` of protocol_event.go: a byte with ten named values, from 0 to 9.
use shmipc_go.Prelude.{ℕ}

abbrev pub share_memory_by_file_path : ℕ
share_memory_by_file_path = 0

abbrev pub polling : ℕ
polling = 1

abbrev pub stream_close : ℕ
stream_close = 2

abbrev pub fallback_data : ℕ
fallback_data = 3

abbrev pub exchange_proto_version : ℕ
exchange_proto_version = 4

abbrev pub share_memory_by_memfd : ℕ
share_memory_by_memfd = 5

abbrev pub ack_share_memory : ℕ
ack_share_memory = 6

abbrev pub ack_ready_recv_fd : ℕ
ack_ready_recv_fd = 7

abbrev pub hot_restart : ℕ
hot_restart = 8

abbrev pub hot_restart_ack : ℕ
hot_restart_ack = 9
