-- ===== src/Session/Tests.antt =====
-- Runs of a session of a client, with the theorems about its streams applied to them.
use shmipc_go.Prelude.{ℕ, ◌+◌, ◌≡◌, length, Bool, refl, true, false, Option, none, List, [], ◌∷◌}
use shmipc_go.Memory.{Mem, load, store}
use shmipc_go.Errors.{Error, timeout}
use shmipc_go.Command.{Command, Outcome, ok, err, panic, Bytes}
use shmipc_go.BufferManager.{BufferManager, alloc_shm_buffer, alloc_shm_buffers, recycle_buffer}
use shmipc_go.BufferSlice.{append, read_slice}
use shmipc_go.LinkedBuffer.Writing.{write_bytes}
use shmipc_go.LinkedBuffer.Reading.{read_string}
use shmipc_go.Queue.{Queue, put, mark_working}
use shmipc_go.Stream.{Stream, move_to}
use shmipc_go.Session.{Session, Pointer, on_stream_close, new_session, open_stream, lookup}
use shmipc_go.Session.Receiving.{handle_fallback, serve}
use shmipc_go.Session.Advance.{end_calls}
use shmipc_go.Session.Opening.{Opens, open_stream_lem}
use shmipc_go.Session.Users.{
  UserCall, opening, setting, closing, writing, of_bytes, reading, for_string, flushing, Script,
  finished, calls, perform, run_script,
}
use shmipc_go.Session.Reach.{on_data, Reach}

abbrev manager : BufferManager
manager = record {
  lists = [];
  mem = record { address = 1000; len = 100; cap = 100 };
  min_slice_size = 0;
  max_slice_size = 0;
}

abbrev queue_at : ℕ → Queue
queue_at a = record {
  head = a;
  tail = a + 8;
  working_flag = a + 16;
  cap = 2;
  bytes = record { address = a + 20; len = 24; cap = 24 };
}

abbrev all_sent : Session → List ℕ → Option Error
all_sent s frame = none

abbrev blocks : ℕ → Command Bytes
blocks n = ok (record { address = 5000; len = n; cap = n })

abbrev start : Session
start = new_session true false 2

abbrev blank : Mem
blank a = 0

-- The session and the memory behind a call.
abbrev session_of : Outcome Session → Session
session_of (ok s m) = s
session_of (err e m) = start
session_of panic = start

abbrev memory_of : Outcome Session → Mem
memory_of (ok s m) = m
memory_of (err e m) = blank
memory_of panic = blank

abbrev called : UserCall → Outcome Session → Outcome Session
called c o = perform 4 manager (queue_at 100) all_sent blocks c (session_of o) (memory_of o)

-- A stream with a callback, three bytes written and flushed, three bytes of the peer, which the callback reads and
-- answers, and the close by the user.
abbrev opened_one : Outcome Session
opened_one = called opening (ok start blank)

abbrev with_callback : Outcome Session
with_callback = called (setting 0) opened_one

abbrev with_bytes : Outcome Session
with_bytes = called (writing (of_bytes (1 ∷ 2 ∷ 3 ∷ [])) 0) with_callback

abbrev flushed : Outcome Session
flushed = called (flushing [] 0) with_bytes

abbrev answered : Outcome Session
answered =
    handle_fallback 4 manager (queue_at 200) blocks 2 0 (7 ∷ 8 ∷ 9 ∷ []) (session_of flushed)
      (memory_of flushed)

abbrev reply : Pointer → Session → Mem → Script
reply p s m = calls (reading (for_string 3) timeout p) (λ s1 m1.
    calls (writing (of_bytes (4 ∷ [])) p) (λ s2 m2. calls (flushing [] p) (λ s3 m3. finished)))

abbrev served : Outcome Session
served =
    serve 4 manager (queue_at 100) all_sent
      (on_data 4 manager (queue_at 100) (queue_at 200) all_sent blocks reply) 3 0
      (session_of answered) (memory_of answered)

abbrev closed_one : Outcome Session
closed_one = called (closing 0) served

-- A call that ended.
abbrev ended : Outcome Session → Bool
ended (ok s m) = true
ended (err e m) = false
ended panic = false

frames-served : length (session_of served).written ≡ 2
unfolding perform lookup open_stream write_bytes alloc_shm_buffer alloc_shm_buffers append
    recycle_buffer handle_fallback serve move_to run_script read_string read_slice
frames-served = refl

told_once : end_calls 0 (session_of closed_one).calls ≡ 1
unfolding perform lookup open_stream write_bytes alloc_shm_buffer alloc_shm_buffers append
    recycle_buffer handle_fallback serve move_to run_script read_string read_slice put mark_working
    load store end_calls on_stream_close
told_once = refl

Run : Session → Session → Type 0
Run = Reach 4 manager (queue_at 100) (queue_at 200) all_sent blocks

open_stream_example :
    Opens
      (session_of opened_one)
      ((open_stream (session_of opened_one)).0)
      ((open_stream (session_of opened_one)).1)
open_stream_example = open_stream_lem (session_of opened_one)
