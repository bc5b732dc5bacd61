-- ===== src/Metadata/Tests.antt =====
-- The paths of session.go's first event at concrete values.
use shmipc_go.Prelude.{◌≡◌, some, [], ◌∷◌, drop, length, arith}
use shmipc_go.Protocol.{header_size, event_length}
use shmipc_go.Metadata.{generate_shm_metadata, extract_shm_metadata}
use shmipc_go.Metadata.RoundTrip.{extract-generate}

extract-generate_example :
    (extract_shm_metadata
        (drop header_size (generate_shm_metadata 2 0 (47 ∷ 113 ∷ []) (47 ∷ 98 ∷ [])))
      ≡ some (47 ∷ 98 ∷ [], 47 ∷ 113 ∷ []))
    × (event_length (generate_shm_metadata 2 0 (47 ∷ 113 ∷ []) (47 ∷ 98 ∷ []))
        ≡ length (generate_shm_metadata 2 0 (47 ∷ 113 ∷ []) (47 ∷ 98 ∷ [])))
extract-generate_example =
    extract-generate 2 0 (47 ∷ 113 ∷ []) (47 ∷ 98 ∷ []) (omega arith) (omega arith)
