-- ===== src/Protocol.antt =====
-- protocol_event.go and const.go: the eight-byte header of an event on the connection, its encoding
-- and its check. A byte sequence is a list of numbers below 256, and words on the wire are
-- big-endian.
pub mod EventType
pub mod Header
mod Tests
use shmipc_go.Prelude.{
  ℕ, zero, suc, ◌+◌, ◌*◌, ◌/◌, ◌%◌, ◌^◌, ◌≡◌, Bool, true, false, ◌||◌, not, Option, none, some,
  List, [], ◌∷◌, ◌++◌, ◌==◌, ltb, if◌then◌else◌, take, drop, get_or, length,
}
use shmipc_go.Errors.{Error, invalid_version, invalid_msg_type}

-- `binary.BigEndian.PutUintW` of `n` bytes.
unfoldable pub be_bytes : ℕ → ℕ → List ℕ
be_bytes zero v = []
be_bytes (suc n) v = v / 256 ^ n % 256 ∷ be_bytes n v

-- `binary.BigEndian.UintW` of all bytes of a slice, behind the bytes read so far.
unfoldable pub be_value : ℕ → List ℕ → ℕ
be_value acc [] = acc
be_value acc (b ∷ bs) = be_value (acc * 256 + b) bs

abbrev pub header_size : ℕ
header_size = 8

abbrev pub magic_number : ℕ
magic_number = 0x7758

abbrev pub proto_version : ℕ
proto_version = 2

abbrev pub max_support_proto_version : ℕ
max_support_proto_version = 3

-- `Length`, `Magic`, `Version` and `MsgType` of a header, a slice of `header_size` bytes at least.
unfoldable pub event_length : List ℕ → ℕ
unfolding be_value
event_length h = be_value 0 (take 4 h)

unfoldable pub magic : List ℕ → ℕ
unfolding be_value
magic h = be_value 0 (take 2 (drop 4 h))

unfoldable pub version : List ℕ → ℕ
version h = get_or h 6 0

unfoldable pub msg_type : List ℕ → ℕ
msg_type h = get_or h 7 0

-- `header.encode`, into a slice of which it overwrites the first eight bytes.
unfoldable pub encode : List ℕ → ℕ → ℕ → ℕ → List ℕ
unfolding be_bytes
encode h len ver type =
    be_bytes 4 len ++ (be_bytes 2 magic_number ++ (ver ∷ type ∷ drop header_size h))

-- `checkEventValid`: `none` is no error.
unfoldable pub check_event_valid : List ℕ → Option Error
unfolding magic version msg_type
check_event_valid h =
    if not (magic h == magic_number) || version h == 0
    then some invalid_version
    else if ltb (msg_type h) EventType.share_memory_by_file_path
        || ltb EventType.hot_restart_ack (msg_type h)
    then some invalid_msg_type
    else none
