-- ===== src/Handshake/Message.antt =====
-- The message of a handshake that names the shared memory.
use shmipc_go.Prelude.{ℕ, ◌^◌, ◌≤◌, ◌<◌, ◌≡◌, some, List, ◌++◌, take, length, arith, length-append}
use shmipc_go.Protocol.{be_bytes, be_value, encode, event_length}
use shmipc_go.Metadata.{put_path, generate_shm_metadata, extract_shm_metadata}
use shmipc_go.Metadata.RoundTrip.{extract-generate}
use shmipc_go.Handshake.{body_length}

module _ (queue_path buffer_path : List ℕ) where
  abbrev pub message : ℕ → ℕ → List ℕ
  message ver type = generate_shm_metadata ver type queue_path buffer_path

  abbrev pub body : List ℕ
  body = put_path queue_path ++ put_path buffer_path

  pub long_enough : (ver type : ℕ) → 8 ≤ length (message ver type)
  unfolding generate_shm_metadata encode be_bytes
  long_enough ver type = omega arith

  module _ (q_short : length queue_path < 2 ^ 16) (b_short : length buffer_path < 2 ^ 16) where
    pub body_counted : (ver type : ℕ) → body_length (take 8 (message ver type)) ≡ length body
    unfolding generate_shm_metadata encode be_bytes event_length be_value put_path
    body_counted ver type = omega (
      arith,
      extract-generate ver type queue_path buffer_path q_short b_short,
      length-append (put_path queue_path) (put_path buffer_path),
    )

    pub received : extract_shm_metadata body ≡ some (buffer_path, queue_path)
    unfolding generate_shm_metadata encode be_bytes
    received = (extract-generate 2 0 queue_path buffer_path q_short b_short).0
