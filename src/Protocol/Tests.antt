-- ===== src/Protocol/Tests.antt =====
-- Headers of protocol_event.go at concrete values.
use shmipc_go.Prelude.{◌≡◌, ◌≢◌, ◌↔◌, ◌≤◌, refl, none, some, [], ◌∷◌, replicate, arith}
use shmipc_go.Errors.{invalid_version, invalid_msg_type}
use shmipc_go.Protocol.{
  encode, event_length, magic, version, msg_type, check_event_valid, magic_number,
}
use shmipc_go.Protocol.Header.{encode-read, check_event_valid_iff}

encode-bytes : encode (replicate 8 0) 258 3 9 ≡ 0 ∷ 0 ∷ 1 ∷ 2 ∷ 0x77 ∷ 0x58 ∷ 3 ∷ 9 ∷ []
unfolding encode
encode-bytes = refl

rejects_version : check_event_valid (encode (replicate 8 0) 8 0 1) ≡ some invalid_version
unfolding check_event_valid encode
rejects_version = refl

rejects_type : check_event_valid (encode (replicate 8 0) 8 2 10) ≡ some invalid_msg_type
unfolding check_event_valid encode
rejects_type = refl

encode-read_example :
    (event_length (encode (replicate 8 0) 258 3 9) ≡ 258)
    × (magic (encode (replicate 8 0) 258 3 9) ≡ magic_number)
    × (version (encode (replicate 8 0) 258 3 9) ≡ 3)
    × (msg_type (encode (replicate 8 0) 258 3 9) ≡ 9)
encode-read_example = encode-read (replicate 8 0) 258 3 9 (omega arith)

check_event_valid_iff_example :
    (check_event_valid (0 ∷ 0 ∷ 0 ∷ 8 ∷ 0x77 ∷ 0x58 ∷ 3 ∷ 1 ∷ []) ≡ none) ↔ (
      (magic (0 ∷ 0 ∷ 0 ∷ 8 ∷ 0x77 ∷ 0x58 ∷ 3 ∷ 1 ∷ []) ≡ magic_number)
      × (version (0 ∷ 0 ∷ 0 ∷ 8 ∷ 0x77 ∷ 0x58 ∷ 3 ∷ 1 ∷ []) ≢ 0)
      × (msg_type (0 ∷ 0 ∷ 0 ∷ 8 ∷ 0x77 ∷ 0x58 ∷ 3 ∷ 1 ∷ []) ≤ 9))
check_event_valid_iff_example = check_event_valid_iff (0 ∷ 0 ∷ 0 ∷ 8 ∷ 0x77 ∷ 0x58 ∷ 3 ∷ 1 ∷ [])
