-- ===== src/Metadata/RoundTrip.antt =====
-- The paths that the client writes and the server reads (session.go).
use shmipc_go.Prelude.{
  ℕ, ◌%◌, ◌^◌, ◌<◌, ◌≡◌, ◌∙◌, some, List, [], ◌++◌, arith, drop, length, length-append,
  take-append_self, drop-append_self, append-nil,
}
use shmipc_go.Protocol.{be_bytes, be_value, header_size, encode, event_length}
use shmipc_go.Protocol.Header.{be_two, be_four}
use shmipc_go.Metadata.{put_path, generate_shm_metadata, get_path, extract_shm_metadata}

get-put_path :
    (path rest : List ℕ)
    → length path < 2 ^ 16
    → get_path (put_path path ++ rest) ≡ some (path, rest)
unfolding get_path put_path
get-put_path path rest h =
    let n : be_value 0 (be_bytes 2 (length path % 2 ^ 16)) ≡ length path =
      be_two (length path % 2 ^ 16) (omega arith) ∙ omega arith in
    ground
      (arith, n, length-append path rest, take-append_self path rest, drop-append_self path rest)

extract-put_path :
    (queue_path buffer_path : List ℕ)
    → length queue_path < 2 ^ 16
    → length buffer_path < 2 ^ 16
    → extract_shm_metadata (put_path queue_path ++ put_path buffer_path)
      ≡ some (buffer_path, queue_path)
unfolding extract_shm_metadata
extract-put_path q b hq hb =
    rw (get-put_path q (put_path b) hq, extract_shm_metadata)
      (rw (← append-nil (put_path b)) (rw (get-put_path b [] hb, extract_shm_metadata)))

-- For paths shorter than 2^16 bytes the body of the event, which is what follows the header, yields
-- both paths unchanged, and the header's length is that of the whole event.
pub extract-generate :
    (ver event_type : ℕ) (queue_path buffer_path : List ℕ)
    → length queue_path < 2 ^ 16
    → length buffer_path < 2 ^ 16
    → let message = generate_shm_metadata ver event_type queue_path buffer_path in
      (extract_shm_metadata (drop header_size message) ≡ some (buffer_path, queue_path))
      × (event_length message ≡ length message)
unfolding generate_shm_metadata encode be_bytes event_length put_path
extract-generate ver event_type q b hq hb = (
  extract-put_path q b hq hb,
  be_four _ (omega arith) ∙ omega (arith, length-append q (put_path b)),
)
