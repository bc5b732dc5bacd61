-- ===== src/Events.antt =====
-- The event loop of the connection: `handleEvents` of session.go, the handlers of
-- protocol_manager.go that it calls, and the writers of the same events in stream.go, session.go and
-- protocol_event.go. What a session does with a decoded event is a parameter.
pub mod Frames
pub mod Loop
pub mod Split
pub mod Writers
mod Tests
use shmipc_go.Prelude.{
  ℕ, zero, suc, ◌+◌, ◌-◌, ◌%◌, ◌^◌, Bool, true, false, ◌||◌, Option, none, some, List, [], ◌∷◌,
  ◌++◌, ◌==◌, ltb, if◌then◌else◌, take, drop, length,
}
use shmipc_go.Errors.{Error, invalid_msg_type}
use shmipc_go.Protocol.{
  be_bytes, be_value, header_size, event_length, msg_type, encode, check_event_valid,
  max_support_proto_version,
}
use shmipc_go.Protocol.EventType

abbrev pub epoch_id_len : ℕ
epoch_id_len = 8

abbrev pub id_len : ℕ
id_len = 4

abbrev pub fallback_data_header : ℕ
fallback_data_header = 8

-- What a handler hands to the session.
pub data Event : Type 0 where
  polling : Event
  stream_close : ℕ → Event
  fallback : (seq_id status : ℕ) → List ℕ → Event
  hot_restart : ℕ → Event
  hot_restart_ack : ℕ → Event

-- What a handler makes of a header and the bytes behind it: an event and how many bytes it took with
-- its header, a stop until more bytes come, no handler, or a slice out of range.
pub data Frame : Type 0 where
  event : ℕ → Event → Frame
  stop : Frame
  unhandled : Frame
  panic : Frame

-- The decoding of the copied payload; the status is the low byte of its word.
unfoldable pub fallback_payload : ℕ → List ℕ → Event
fallback_payload payload_len buf =
    fallback (be_value 0 (take 4 buf)) (be_value 0 (take 4 (drop 4 buf)) % 2 ^ 8)
      (drop fallback_data_header (take payload_len buf))

-- `handleFallbackData`; `eventLen - headerSize` may be negative, and then `make` panics.
unfoldable pub fallback_frame : List ℕ → List ℕ → Frame
fallback_frame h buf =
    let event_len = event_length h in
    let payload_len = event_len - header_size in
    if ltb event_len header_size
    then panic
    else if ltb (length buf) payload_len
    then stop
    else if ltb payload_len fallback_data_header
    then panic
    else event event_len (fallback_payload payload_len buf)

-- `handleHotRestart`, `handleHotRestartAck` and `handleStreamClose`: a number of `n` bytes.
unfoldable pub number_frame : ℕ → (ℕ → Event) → List ℕ → Frame
number_frame n make buf =
    if ltb (length buf) n then stop else event (header_size + n) (make (be_value 0 (take n buf)))

-- `protocolHandlers`, by message type; five of its ten entries are nil.
unfoldable pub frame : List ℕ → List ℕ → Frame
frame h buf =
    if msg_type h == EventType.polling
    then event header_size polling
    else if msg_type h == EventType.stream_close
    then number_frame id_len stream_close buf
    else if msg_type h == EventType.fallback_data
    then fallback_frame h buf
    else if msg_type h == EventType.hot_restart
    then number_frame epoch_id_len hot_restart buf
    else if msg_type h == EventType.hot_restart_ack
    then number_frame epoch_id_len hot_restart_ack buf
    else unhandled

-- What `handleEvents` returns, with the session behind it.
pub data Handled (S : Type 0) : Type 0 where
  handled : S → ℕ → Option Error → Handled S
  crashed : Handled S
  out_of_fuel : Handled S

-- The check of the header and the lookup of the handler.
unfoldable pub parse : List ℕ → Frame
parse rest =
    let h = take header_size rest in
    elim (check_event_valid h) [ some _ ↦ unhandled | none ↦ frame h (drop header_size rest) ]

module _ {S : Type 0} (on : S → Event → S × Option Error) where
  -- `handleEvents` from `consumed` bytes on, of which `rest` is what is left.
  unfoldable pub handle_from : ℕ → S → List ℕ → ℕ → Handled S
  handle_from zero s rest consumed = out_of_fuel
  handle_from (suc fuel) s rest consumed =
      if ltb (length rest) header_size then handled s consumed none else elim (parse rest) [
        | unhandled ↦ handled s (consumed + header_size) (some invalid_msg_type)
        | stop ↦ handled s consumed none
        | panic ↦ crashed
        | event n e ↦
            (let (s', failure) = on s e in
              elim failure [
                | some error ↦ handled s' (consumed + n) (some error)
                | none ↦ handle_from fuel s' (drop n rest) (consumed + n)
              ])
      ]

  unfoldable pub handle_events : S → List ℕ → Handled S
  handle_events s buf = handle_from (suc (length buf)) s buf 0

-- `pollingEventWithVersion`, which the source fills for the versions 0 to 3; a session has 2 or 3.
unfoldable pub polling_event : ℕ → List ℕ
polling_event ver = encode (be_bytes 8 0) header_size ver EventType.polling

-- `Stream.close`, the event that is written when the queue is full.
unfoldable pub stream_close_event : ℕ → ℕ → List ℕ
stream_close_event ver id =
    encode (be_bytes 8 0 ++ be_bytes 4 id) (header_size + id_len) ver EventType.stream_close

-- `fallbackDataEvent.encode` and the payload that `writeFallback` appends.
unfoldable pub fallback_event : ℕ → ℕ → ℕ → List ℕ → List ℕ
fallback_event ver seq_id status payload =
    encode (be_bytes 8 0 ++ (be_bytes 4 seq_id ++ (be_bytes 4 status ++ payload)))
      ((header_size + 8 + length payload) % 2 ^ 32) ver EventType.fallback_data

-- `Session.hotRestart`, for both of its event types.
unfoldable pub hot_restart_event : ℕ → ℕ → ℕ → List ℕ
hot_restart_event ver epoch type =
    encode (be_bytes 8 0 ++ be_bytes 8 epoch) (header_size + 8) ver type
