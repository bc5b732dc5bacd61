-- ===== src/Session.antt =====
-- session.go and the part of stream.go that works with a session: its streams, how it opens, finds and closes
-- them, what a message from the peer does, and the end of the session. Streams are objects behind
-- pointers, since the map of the session and the users of a stream share them. Each call is one
-- step; locks and timers are left out.
pub mod Advance
pub mod Registry
pub mod Calls
pub mod Sending
pub mod Receiving
pub mod Progress
pub mod Closing
pub mod Messages
pub mod Turns
pub mod Users
pub mod Opening
pub mod Reach
mod Tests
use shmipc_go.Prelude.{
  ◌⊎◌, inl, inr, ℕ, zero, suc, ◌+◌, ◌%◌, ◌^◌, Bool, true, false, ◌&&◌, ◌||◌, ◌==◌, ltb, not,
  if◌then◌else◌, Option, some, none, List, [], ◌∷◌, ◌++◌, length, get_elem?, set, map,
}
use shmipc_go.Memory.{Mem}
use shmipc_go.Errors.{
  Error, session_shutdown, session_unhealthy, streams_exhausted, stream_closed, timeout, queue_full,
}
use shmipc_go.Command.{Command, ok, err, panic, pure, crash, ◌>>=◌, ◌>>◌}
use shmipc_go.BufferManager.{BufferManager}
use shmipc_go.LinkedBuffer.{LinkedBuffer, recycle}
use shmipc_go.Queue.{Queue, Element, put, pop, mark_working, mark_not_working}
use shmipc_go.Events.{polling_event, stream_close_event}
use shmipc_go.Stream.{
  Stream, StreamState, opened, closed, half_closed, new_stream, is_opened, is_closed, is_open,
  safe_close_notify, Wrapper, in_shm, clear_pending, state_number,
}

-- A pointer to a stream of this process.
abbrev pub Pointer : Type 0
Pointer = ℕ

-- The calls of the callbacks of the user.
pub data Call : Type 0 where
  on_new_stream on_local_close on_remote_close on_data : Pointer → Call
  on_shutdown : Error → Call

-- `accepted` is what went into `acceptCh`, `written` the frames that the connection took, and `calls` the calls of
-- callbacks; each has the last one in front. `tasks` are the goroutines that wait to run a stream's
-- callback.
pub record Session : Type 0 where
  pub next_stream_id : ℕ
  pub streams : List (ℕ × Pointer)
  pub objects : List Stream
  pub is_client : Bool
  pub has_listen_callback : Bool
  pub shutdown : Bool
  pub shutdown_err : Option Error
  pub unhealthy : Bool
  pub communication_version : ℕ
  pub accepted : List Pointer
  pub written : List (List ℕ)
  pub calls : List Call
  pub tasks : List Pointer

-- The start of `newSession`.
abbrev pub new_session : Bool → Bool → ℕ → Session
new_session is_client listening version = record {
  next_stream_id = if is_client then 1 else 2;
  streams = [];
  objects = [];
  is_client = is_client;
  has_listen_callback = listening;
  shutdown = false;
  shutdown_err = none;
  unhealthy = false;
  communication_version = version;
  accepted = [];
  written = [];
  calls = [];
  tasks = [];
}

-- The map of the session.
unfoldable pub lookup : ℕ → List (ℕ × Pointer) → Option Pointer
lookup id [] = none
lookup id ((k, p) ∷ rest) = if id == k then some p else lookup id rest

unfoldable pub delete : ℕ → List (ℕ × Pointer) → List (ℕ × Pointer)
delete id [] = []
delete id ((k, p) ∷ rest) =
    let others = delete id rest in if id == k then others else (k, p) ∷ others

-- A new object, and the map with it.
abbrev pub add_stream : ℕ → Session → Pointer × Session
add_stream id s = (
  length s.objects,
  record s {
    objects = s.objects ++ new_stream id ∷ [];
    streams = (id, length s.objects) ∷ s.streams;
  },
)

abbrev pub stream_at : Session → Pointer → Command Stream
stream_at s p = elim (get_elem? s.objects p) [ none ↦ crash | some st ↦ pure st ]

abbrev pub put_stream : Pointer → Stream → Session → Session
put_stream p st s = record s { objects = set s.objects p st }

abbrev pub call : Call → Session → Session
call c s = record s { calls = c ∷ s.calls }

-- The callback of a stream, if it has one.
abbrev pub call_if : Bool → Call → Session → Session
call_if true c s = call c s
call_if false c s = s

-- `GetActiveStreamCount`
abbrev pub get_active_stream_count : Session → ℕ
get_active_stream_count s = length s.streams

-- `OpenStream`
unfoldable pub open_stream : Session → (Option Error ⊎ Pointer) × Session
unfolding lookup
open_stream s =
    if s.shutdown
    then (inl s.shutdown_err, s)
    else if s.unhealthy
    then (inl (some session_unhealthy), s)
    else let id = (s.next_stream_id + 1) % 2 ^ 32 in
      elim (lookup id s.streams) [
        | some _ ↦ (inl (some streams_exhausted), record s { next_stream_id = id })
        | none ↦ (let (p, s') = add_stream id s in (inr p, record s' { next_stream_id = id }))
      ]

-- `getStream`; a new stream goes to the callback or, as long as the session runs, into the channel.
unfoldable pub get_stream : ℕ → StreamState → Session → Option Pointer × Session
unfolding lookup
get_stream id state s = elim (lookup id s.streams) [
  | some p ↦ (some p, s)
  | none ↦
      if not s.is_client && is_opened state
      then (let (p, s') = add_stream id s in
          if s.has_listen_callback
          then (some p, call (on_new_stream p) s')
          else (some p, record s' { accepted = p ∷ s'.accepted }))
      else (none, s)
]

-- `onStreamClose`
unfoldable pub on_stream_close : ℕ → Session → Session
unfolding delete
on_stream_close id s = record s { streams = delete id s.streams }

-- `openCircuitBreaker`, where `debugMode` is off; a timer takes it back.
abbrev pub open_circuit_breaker : Session → Session
open_circuit_breaker s = record s { unhealthy = true }

abbrev pub close_circuit_breaker : Session → Session
close_circuit_breaker s = record s { unhealthy = false }

-- `halfClose`
unfoldable pub half_close : Pointer → Session → Command Session
half_close p s = do
  st ← stream_at s p
  if is_open st
      then pure (
          call_if st.callback (on_remote_close p)
            (put_stream p (record st { state = half_closed; close_notify = true }) s))
      else pure s

-- `safeCloseNotify` of the streams in the map.
unfoldable pub notify_all : List (ℕ × Pointer) → Session → Session
notify_all [] s = s
notify_all ((id, p) ∷ rest) s = elim (get_elem? s.objects p) as (λ _. Session) [
  | none ↦ notify_all rest s
  | some st ↦ notify_all rest (put_stream p (safe_close_notify st) s)
]

-- `Close`, up to what it posts to the event loop.
unfoldable pub shut_down : Session → Session
unfolding notify_all
shut_down s =
    if s.shutdown
    then s
    else let reason : Error = elim s.shutdown_err [ none ↦ session_shutdown | some e ↦ e ] in
      let s1 =
        call_if s.has_listen_callback (on_shutdown reason)
          (record s { shutdown = true; shutdown_err = some reason }) in
      notify_all s1.streams s1

-- `exitErr`
unfoldable pub exit_err : Error → Session → Session
unfolding shut_down
exit_err e s =
    shut_down
      (record s { shutdown_err = elim s.shutdown_err [ none ↦ some e | some e' ↦ some e' ] })
