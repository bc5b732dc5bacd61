-- ===== src/Events/Tests.antt =====
-- The event loop of session.go on concrete buffers. The session of these runs logs the events and
-- answers a polling with an error from the fifth event on.
use shmipc_go.Prelude.{
  ℕ, ◌≡◌, ◌≢◌, ◌≤◌, refl, Option, none, some, List, [], ◌∷◌, ◌++◌, take, drop, length, leb,
  if◌then◌else◌, arith,
}
use shmipc_go.Errors.{Error, broken_memory}
use shmipc_go.Protocol.{encode, check_event_valid, event_length, magic}
use shmipc_go.Events.{
  Event, polling, stream_close, fallback, hot_restart, Handled, handled, crashed, out_of_fuel,
  handle_from, handle_events, parse, frame, fallback_frame, fallback_payload, number_frame,
  polling_event, stream_close_event, fallback_event, hot_restart_event,
}
use shmipc_go.Events.Loop.{shift}
use shmipc_go.Events.Split.{handle_events-append, handle_events-ends, handle_events-short_fallback}
use shmipc_go.Events.Writers.RoundTrip.{write_all, deliver, handle_events-write_all}

abbrev log : List Event → Event → List Event × Option Error
log seen polling = (polling ∷ seen, if leb 4 (length seen) then some broken_memory else none)
log seen e = (e ∷ seen, none)

abbrev script : List Event
script = stream_close 7 ∷ fallback 5 1 (10 ∷ 20 ∷ []) ∷ hot_restart 9 ∷ polling ∷ polling ∷ []

run_log : List Event → List ℕ → Handled (List Event)
unfolding handle_events handle_from parse frame fallback_frame fallback_payload number_frame
    check_event_valid encode event_length polling_event stream_close_event fallback_event
    hot_restart_event
run_log = handle_events log

replies :
    handle_events log [] (write_all 2 script)
    ≡ handled
        (polling ∷ polling ∷ hot_restart 9 ∷ fallback 5 1 (10 ∷ 20 ∷ []) ∷ stream_close 7 ∷ [])
        62
        (some broken_memory)
unfolding run_log
replies = refl

handle_events-write_all_example :
    handle_events log [] (write_all 2 script) ≡ deliver log 2 [] script
handle_events-write_all_example =
    handle_events-write_all log 2 [] script (omega arith) (omega arith)

-- Twelve bytes of two events, and the rest in a second read.
abbrev front : List ℕ
front = take 14 (write_all 2 script)

first_read : handle_events log [] front ≡ handled (stream_close 7 ∷ []) 12 none
unfolding run_log
first_read = refl

handle_events-append_example :
    handle_events log [] (front ++ drop 14 (write_all 2 script))
    ≡ shift 12
        (handle_events log (stream_close 7 ∷ []) (drop 12 front ++ drop 14 (write_all 2 script)))
handle_events-append_example =
    handle_events-append log [] (stream_close 7 ∷ []) front (drop 14 (write_all 2 script)) 12
      first_read

handle_events-ends_example :
    (handle_events log [] front ≢ out_of_fuel)
    × ((s' : List Event) (n : ℕ) (x : Option Error)
        → handle_events log [] front ≡ handled s' n x
        → n ≤ length front)
handle_events-ends_example = handle_events-ends log [] front

abbrev short : List ℕ
short = 0 ∷ 0 ∷ 0 ∷ 8 ∷ 0x77 ∷ 0x58 ∷ 2 ∷ 3 ∷ []

handle_events-short_fallback_example : handle_events log [] short ≡ crashed
unfolding run_log magic
handle_events-short_fallback_example =
    handle_events-short_fallback log [] short (omega arith) refl refl (omega arith) (omega arith)
