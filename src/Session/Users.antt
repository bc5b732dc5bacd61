-- ===== src/Session/Users.antt =====
-- What a user of a session can do: the methods of stream.go and session.go that a user calls, and a callback as a program of
-- such calls, each of which may depend on what the calls before it led to.
use shmipc_go.Prelude.{ℕ, ◌≡◌, refl, false, Option, some, List, length, ltb, not, ◌==◌, ◌&&◌}
use shmipc_go.Memory.{Mem}
use shmipc_go.Errors.{Error}
use shmipc_go.Command.{Command, pure, ◌>>=◌, Bytes}
use shmipc_go.Command.Ensures.{Ensures, ensures-step, ensures-then, ensures-if}
use shmipc_go.BufferManager.{BufferManager}
use shmipc_go.LinkedBuffer.{LinkedBuffer, release_previous_read, release_previous_read_and_reserve}
use shmipc_go.LinkedBuffer.Reading.{read, read_byte, read_bytes, read_string, peek_bytes, discard}
use shmipc_go.LinkedBuffer.Writing.{write_byte, write_bytes, reserve}
use shmipc_go.Queue.{Queue}
use shmipc_go.Stream.{
  Stream, Wake, received, close_notified, timed_out, move_to, move_pending, on_wake, is_open,
  set_callbacks, release_read_and_reuse, reset,
}
use shmipc_go.Session.{Session, Pointer, open_stream, stream_at, put_stream, shut_down}
use shmipc_go.Session.Sending.{close, flush, Retry}
use shmipc_go.Session.Advance.{Advances, Advances-refl}
use shmipc_go.Session.Progress.{at_stream, by_if, keep, AdvancesPair, shut_down-Advances}
use shmipc_go.Session.Closing.{close-Advances, flush-Advances}
use shmipc_go.Session.Messages.{open_stream-Advances, after}

-- The methods of the reader and of the writer of a stream.
pub data Reading : Type 0 where
  for_read for_bytes for_string for_peek for_discard : ℕ → Reading
  for_byte for_release : Reading

pub data Writing : Type 0 where
  of_bytes : List ℕ → Writing
  of_byte of_reserve : ℕ → Writing

-- `waiting` is a turn of the select in `readMore`, between which others run; a read that has to wait is some turns and
-- then the read. `Write` of stream.go is `writing` and then `flushing`.
pub data UserCall : Type 0 where
  opening shutting : UserCall
  closing reusing resetting setting moving : Pointer → UserCall
  flushing : List Retry → Pointer → UserCall
  writing : Writing → Pointer → UserCall
  reading : Reading → Error → Pointer → UserCall
  waiting : ℕ → Wake → Pointer → UserCall

pub data Script : Type 0 where
  finished : Script
  calls : UserCall → (Session → Mem → Script) → Script

module _ (chain : ℕ) (b : BufferManager) (q : Queue) (answer : Session → List ℕ → Option Error)
    (make : ℕ → Command Bytes) where
  -- A read with too few bytes there fails with the error of the last turn.
  abbrev refuse : Error → ℕ → LinkedBuffer → Command (Option Error × LinkedBuffer)
  refuse e size l = pure (some e, l)

  abbrev pub do_read : Reading → Error → LinkedBuffer → Command LinkedBuffer
  do_read (for_read n) e l = do (_, _, l') ← read b (refuse e) n l; pure l'
  do_read (for_bytes n) e l = do (_, _, l') ← read_bytes b (refuse e) n l; pure l'
  do_read (for_string n) e l = do (_, _, l') ← read_string b (refuse e) n l; pure l'
  do_read (for_peek n) e l = do (_, _, l') ← peek_bytes b (refuse e) n l; pure l'
  do_read (for_discard n) e l = do (_, _, l') ← discard b (refuse e) n l; pure l'
  do_read for_byte e l = do (_, _, l') ← read_byte b (refuse e) l; pure l'
  do_read for_release e l = release_previous_read b l

  abbrev pub do_write : Writing → LinkedBuffer → Command LinkedBuffer
  do_write (of_bytes xs) l = do (_, l') ← write_bytes b make xs l; pure l'
  do_write (of_byte x) l = write_byte b make x l
  do_write (of_reserve n) l = do (_, l') ← reserve b make n l; pure l'

  -- A call that works on one stream alone.
  abbrev on_stream : (Stream → Command Stream) → Pointer → Session → Command Session
  on_stream f p s = do st ← stream_at s p; st' ← f st; pure (put_stream p st' s)

  unfoldable pub perform : UserCall → Session → Command Session
  unfolding close flush reset
  perform opening s = pure ((open_stream s).1)
  perform shutting s = pure (shut_down s)
  perform (closing p) s = do (_, t) ← close chain b q answer p s; pure t
  perform (flushing retries p) s = do (_, t) ← flush chain b q answer retries p s; pure t
  perform (reusing p) s = on_stream (λ st. release_read_and_reuse chain b st) p s
  perform (resetting p) s = on_stream (λ st. pure ((reset st).1)) p s
  perform (setting p) s = on_stream (λ st. pure ((set_callbacks st).1)) p s
  perform (moving p) s = on_stream (λ st. move_to chain b st) p s
  perform (writing w p) s =
      on_stream (λ st. do l ← do_write w st.send_buf; pure (record st { send_buf = l })) p s
  perform (reading r e p) s =
      on_stream (λ st. do l ← do_read r e st.recv_buf; pure (record st { recv_buf = l })) p s
  perform (waiting n wake p) s =
      on_stream (λ st. do (_, st') ← on_wake chain b n wake st; pure st') p s

  unfoldable pub run_script : Script → Session → Command Session
  unfolding perform
  run_script finished s = pure s
  run_script (calls c k) s = do t ← perform c s; (λ m. run_script (k t m) t m)

  -- A stream that keeps its id, its state and its notification.
  pub Kept : Stream → Stream → Type 0
  Kept st st' = (st'.id ≡ st.id) × (st'.state ≡ st.state) × (st'.close_notify ≡ st.close_notify)

  on_stream-Advances :
      (f : Stream → Command Stream) (p : Pointer) (s : Session) (m : Mem)
      → ((st : Stream) → Ensures (f st m) (Kept st))
      → Ensures (on_stream f p s m) (Advances s)
  unfolding Kept
  on_stream-Advances f p s m kept = at_stream (Advances s) s p m _ (λ st e.
      ensures-then (Advances s) (Kept st) (f st m) _ (kept st)
        (λ st' m1 (id, state, notify). keep s p st e st' id state notify))

  reused : (st : Stream) (m : Mem) → Ensures (release_read_and_reuse chain b st m) (Kept st)
  unfolding release_read_and_reuse Kept
  reused st m =
      ensures-step (Kept st) (release_previous_read_and_reserve b st.recv_buf m) _ (λ recv m1.
        ensures-if (Kept st) (recv.len == 0 && length recv.slices == 1) _ _ m1
          (λ _. (refl, refl, refl)) (λ _. (refl, refl, refl)))

  reset-Kept : (st : Stream) → Kept st ((reset st).1)
  unfolding reset Kept
  reset-Kept st =
      by_if {A = Option Error × Stream} (λ r. Kept st (r.1)) (not (is_open st)) _ _
        (λ _. (refl, refl, refl))
        (λ _.
          by_if {A = Option Error × Stream} (λ r. Kept st (r.1)) (ltb 0 st.recv_buf.len) _ _
            (λ _. (refl, refl, refl))
            (λ _.
              by_if {A = Option Error × Stream} (λ r. Kept st (r.1)) (ltb 0 (length st.pending)) _ _
                (λ _. (refl, refl, refl)) (λ _. (refl, refl, refl))))

  set_callbacks-Kept : (st : Stream) → Kept st ((set_callbacks st).1)
  unfolding Kept
  set_callbacks-Kept st =
      by_if {A = Option Error × Stream} (λ r. Kept st (r.1)) st.callback _ _
        (λ _. (refl, refl, refl)) (λ _. (refl, refl, refl))

  moved : (st : Stream) (m : Mem) → Ensures (move_to chain b st m) (Kept st)
  unfolding move_to Kept
  moved st m =
      ensures-step (Kept st) (move_pending chain b st.pending st.recv_buf st.in_fallback_state m) _
        (λ r m1. (refl, refl, refl))

  woken :
      (n : ℕ) (wake : Wake) (st : Stream) (m : Mem)
      → Ensures (on_wake chain b n wake st m) (λ r. Kept st r.1)
  unfolding on_wake Kept
  woken n received st m =
      ensures-then _ (Kept (record st { recv_notify = false }))
        (move_to chain b (record st { recv_notify = false }) m) _
        (moved (record st { recv_notify = false }) m) (λ st' m1 kept. kept)
  woken n close_notified st m =
      ensures-then _ (Kept st) (move_to chain b st m) _ (moved st m) (λ st' m1 kept. kept)
  woken n timed_out st m = (refl, refl, refl)

  pub perform-Advances :
      (c : UserCall) (s : Session) (m : Mem) → Ensures (perform c s m) (Advances s)
  unfolding perform AdvancesPair Kept
  perform-Advances opening s m = open_stream-Advances s
  perform-Advances shutting s m = shut_down-Advances s
  perform-Advances (closing p) s m =
      ensures-then (Advances s) (AdvancesPair s) (close chain b q answer p s m) _
        (close-Advances chain b q answer p s m) (λ r m1 a. a)
  perform-Advances (flushing retries p) s m =
      ensures-then (Advances s) (AdvancesPair s) (flush chain b q answer retries p s m) _
        (flush-Advances chain b q answer retries p s m) (λ r m1 a. a)
  perform-Advances (reusing p) s m = on_stream-Advances _ p s m (λ st. reused st m)
  perform-Advances (resetting p) s m =
      on_stream-Advances (λ st. pure ((reset st).1)) p s m (λ st. reset-Kept st)
  perform-Advances (setting p) s m =
      on_stream-Advances (λ st. pure ((set_callbacks st).1)) p s m (λ st. set_callbacks-Kept st)
  perform-Advances (moving p) s m = on_stream-Advances _ p s m (λ st. moved st m)
  perform-Advances (writing w p) s m =
      on_stream-Advances _ p s m
        (λ st. ensures-step (Kept st) (do_write w st.send_buf m) _ (λ l m1. (refl, refl, refl)))
  perform-Advances (reading r e p) s m =
      on_stream-Advances _ p s m
        (λ st. ensures-step (Kept st) (do_read r e st.recv_buf m) _ (λ l m1. (refl, refl, refl)))
  perform-Advances (waiting n wake p) s m = on_stream-Advances _ p s m (λ st.
      ensures-then (Kept st) (λ r. Kept st r.1) (on_wake chain b n wake st m) _ (woken n wake st m)
        (λ r m1 kept. kept))

  pub run_script-Advances :
      (script : Script) (s : Session) (m : Mem) → Ensures (run_script script s m) (Advances s)
  unfolding run_script
  run_script-Advances finished s m = Advances-refl s
  run_script-Advances (calls c k) s m =
      ensures-then (Advances s) (Advances s) (perform c s m) _ (perform-Advances c s m) (λ t m1 a.
        after chain b s t (run_script (k t m1) t m1) a (run_script-Advances (k t m1) t m1))
