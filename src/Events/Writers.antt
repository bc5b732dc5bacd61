-- ===== src/Events/Writers.antt =====
-- What stream.go, session.go and protocol_event.go write on the connection, event by event.
pub mod RoundTrip
use shmipc_go.Prelude.{
  ℕ, ◌+◌, ◌-◌, ◌*◌, ◌/◌, ◌%◌, ◌^◌, ◌≤◌, ◌<◌, ◌≡◌, refl, ap, sym, ◌∙◌, List, [], ◌∷◌, ◌++◌, arith,
  take, drop, length, append_assoc, take-append_self, drop-append_self, length-append,
  take-append_le, drop-append_le, ltb, none, true, false,
}
use shmipc_go.Protocol.{
  header_size, be_bytes, be_value, encode, check_event_valid, magic, version, msg_type,
  event_length,
}
use shmipc_go.Protocol.Header.{be_four, be_eight}
use shmipc_go.Protocol.EventType
use shmipc_go.Events.{
  Event, Frame, event, polling, stream_close, fallback, hot_restart, hot_restart_ack, parse, frame,
  number_frame, fallback_frame, fallback_payload, polling_event, stream_close_event, fallback_event,
  hot_restart_event,
}

-- The writer of each event, at a protocol version.
abbrev pub write : ℕ → Event → List ℕ
write ver polling = polling_event ver
write ver (stream_close id) = stream_close_event ver id
write ver (fallback seq_id status payload) = fallback_event ver seq_id status payload
write ver (hot_restart epoch) = hot_restart_event ver epoch EventType.hot_restart
write ver (hot_restart_ack epoch) = hot_restart_event ver epoch EventType.hot_restart_ack

-- The values that fit their fields.
abbrev pub IsWire : Event → Type 0
IsWire polling = Unit {0}
IsWire (stream_close id) = id < 2 ^ 32
IsWire (fallback seq_id status payload) =
    (seq_id < 2 ^ 32) × (status < 2 ^ 8) × (length payload + 16 < 2 ^ 32)
IsWire (hot_restart epoch) = epoch < 2 ^ 64
IsWire (hot_restart_ack epoch) = epoch < 2 ^ 64

fallback_frame-write :
    (h payload ys : List ℕ) (seq_id status : ℕ)
    → event_length h ≡ 16 + length payload
    → seq_id < 2 ^ 32
    → status < 2 ^ 8
    → fallback_frame h (be_bytes 4 seq_id ++ (be_bytes 4 status ++ (payload ++ ys)))
      ≡ event (16 + length payload) (fallback seq_id status payload)
unfolding fallback_frame fallback_payload be_bytes
fallback_frame-write h payload ys seq_id status e s t =
    let n : event_length h - 8 ≡ length (be_bytes 4 seq_id ++ (be_bytes 4 status ++ payload)) =
      omega (arith, e) in
    let enough : ltb (event_length h) 8 ≡ false = ground arith in
    let room : ltb (length (be_bytes 4 seq_id ++ (be_bytes 4 status ++ (payload ++ ys))))
          (event_length h - 8)
        ≡ false =
      ground (arith, length-append payload ys) in
    let header : ltb (event_length h - 8) 8 ≡ false = ground arith in
    let low : be_value 0 (be_bytes 4 status) % 2 ^ 8 ≡ status = omega (arith, be_four status) in
    rw (enough, room, header) (rw (n, take-append_self payload ys) (cc (e, be_four seq_id s, low)))

parse-fallback :
    (ver seq_id status : ℕ) (payload ys : List ℕ)
    → 0 < ver
    → IsWire (fallback seq_id status payload)
    → parse (fallback_event ver seq_id status payload ++ ys)
      ≡ event (length (fallback_event ver seq_id status payload)) (fallback seq_id status payload)
unfolding parse check_event_valid encode be_bytes frame fallback_event magic version msg_type
    event_length
parse-fallback ver seq_id status payload ys v w =
    let h : List ℕ = take 8 (fallback_event ver seq_id status payload) in
    let len : event_length h ≡ 16 + length payload =
      be_four ((16 + length payload) % 2 ^ 32) (omega arith) ∙ omega (arith, w) in
    ground (arith, fallback_frame-write h payload ys seq_id status len w.0 w.1)

pub parse-write :
    (ver : ℕ) (e : Event) (ys : List ℕ)
    → 0 < ver
    → IsWire e
    → parse (write ver e ++ ys) ≡ event (length (write ver e)) e
unfolding parse check_event_valid encode be_bytes frame number_frame polling_event
    stream_close_event hot_restart_event magic version msg_type
parse-write ver polling ys v w = ground arith
parse-write ver (stream_close id) ys v w = ground (arith, be_four id)
parse-write ver (fallback seq_id status payload) ys v w =
    parse-fallback ver seq_id status payload ys v w
parse-write ver (hot_restart epoch) ys v w = ground (arith, be_eight epoch)
parse-write ver (hot_restart_ack epoch) ys v w = ground (arith, be_eight epoch)

pub length-write : (ver : ℕ) (e : Event) → header_size ≤ length (write ver e)
unfolding encode be_bytes polling_event stream_close_event hot_restart_event fallback_event
length-write ver polling = omega arith
length-write ver (stream_close id) = omega arith
length-write ver (fallback seq_id status payload) = omega arith
length-write ver (hot_restart epoch) = omega arith
length-write ver (hot_restart_ack epoch) = omega arith
