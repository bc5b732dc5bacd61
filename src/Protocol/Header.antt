-- ===== src/Protocol/Header.antt =====
-- The header of protocol_event.go, written, read and checked.
use shmipc_go.Prelude.{ℕ, ◌^◌, ◌≤◌, ◌<◌, ◌≡◌, ◌≢◌, ◌↔◌, refl, none, List, arith}
use shmipc_go.Protocol.EventType.{hot_restart_ack}
use shmipc_go.Protocol.{
  be_bytes, be_value, magic_number, event_length, magic, version, msg_type, encode,
  check_event_valid,
}

pub be_two : (v : ℕ) → v < 2 ^ 16 → be_value 0 (be_bytes 2 v) ≡ v
unfolding be_value be_bytes
be_two v h = omega arith

pub be_four : (v : ℕ) → v < 2 ^ 32 → be_value 0 (be_bytes 4 v) ≡ v
unfolding be_value be_bytes
be_four v h = omega arith

pub be_eight : (v : ℕ) → v < 2 ^ 64 → be_value 0 (be_bytes 8 v) ≡ v
unfolding be_value be_bytes
be_eight v h = omega arith

-- What `encode` writes is what the four accessors read, whatever the slice held.
pub encode-read :
    (h : List ℕ) (len ver type : ℕ)
    → len < 2 ^ 32
    → (event_length (encode h len ver type) ≡ len)
      × (magic (encode h len ver type) ≡ magic_number)
      × (version (encode h len ver type) ≡ ver)
      × (msg_type (encode h len ver type) ≡ type)
unfolding encode event_length magic version msg_type
encode-read h len ver type l = (be_four len l, refl, refl, refl)

-- `checkEventValid` accepts exactly the headers with the magic number, a version other than 0 and a
-- type of at most 9.
pub check_event_valid_iff :
    (h : List ℕ)
    → (check_event_valid h ≡ none)
      ↔ ((magic h ≡ magic_number) × (version h ≢ 0) × (msg_type h ≤ hot_restart_ack))
unfolding check_event_valid
check_event_valid_iff h = (λ e. ground arith, λ e. ground arith)
