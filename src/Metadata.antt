-- ===== src/Metadata.antt =====
-- The paths of the shared memory files in the first event: `generateShmMetadata` and
-- `extractShmMetadata` of session.go. A path is the list of its bytes.
pub mod RoundTrip
mod Tests
use shmipc_go.Prelude.{
  ℕ, ◌+◌, ◌%◌, ◌^◌, Bool, true, false, Option, none, some, List, [], ◌∷◌, ◌++◌, ltb, if◌then◌else◌,
  take, drop, replicate, length,
}
use shmipc_go.Protocol.{be_bytes, be_value, header_size, encode, event_length}

-- A path behind its length, cut to 16 bits.
unfoldable pub put_path : List ℕ → List ℕ
unfolding be_bytes
put_path path = be_bytes 2 (length path % 2 ^ 16) ++ path

-- `generateShmMetadata`; `len(data)` is cut to 32 bits in the header.
unfoldable pub generate_shm_metadata : ℕ → ℕ → List ℕ → List ℕ → List ℕ
generate_shm_metadata ver event_type queue_path buffer_path =
    encode (replicate header_size 0 ++ (put_path queue_path ++ put_path buffer_path))
      ((header_size + 2 + length queue_path + 2 + length buffer_path) % 2 ^ 32) ver event_type

-- A path with its length in front, and what is behind it; `none` is a slice out of range.
unfoldable pub get_path : List ℕ → Option (List ℕ × List ℕ)
unfolding be_value
get_path body =
    let n = be_value 0 (take 2 body) in
    if ltb (length body) (2 + n) then none else some (take n (drop 2 body), drop n (drop 2 body))

-- `extractShmMetadata`: the path of the queue comes first, and the buffer's is returned first.
unfoldable pub extract_shm_metadata : List ℕ → Option (List ℕ × List ℕ)
extract_shm_metadata body = elim (get_path body) [
  | none ↦ none
  | some (queue_path, rest) ↦ elim (get_path rest) [
    | none ↦ none
    | some (buffer_path, _) ↦ some (buffer_path, queue_path)
  ]
]
