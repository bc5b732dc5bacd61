-- ===== src/Session/Closing.antt =====
-- `close`, `Close`, `writeFallback` and `Flush` let the streams of a session advance.
use shmipc_go.Prelude.{
  ℕ, ◌≡◌, refl, ap, ◌∙◌, Bool, true, false, ◌==◌, not, ◌||◌, if◌then◌else◌, Option, some, none,
  List, get_elem?, arith,
}
use shmipc_go.Memory.{Mem}
use shmipc_go.Errors.{Error}
use shmipc_go.Command.{Command, Outcome, ◌>>=◌, ok, err, panic, pure}
use shmipc_go.Command.Ensures.{Ensures, ensures-step, ensures-then, ensures-if}
use shmipc_go.BufferManager.{BufferManager}
use shmipc_go.LinkedBuffer.{LinkedBuffer, recycle}
use shmipc_go.LinkedBuffer.Writing.{finish, clean, root_buf_offset, underlying_data}
use shmipc_go.Queue.{Queue, Element}
use shmipc_go.Events.{fallback_event}
use shmipc_go.Stream.{Stream, opened, closed, half_closed, is_open, is_closed, state_number}
use shmipc_go.Session.{
  Session, Pointer, put_stream, call_if, on_local_close, on_remote_close, open_circuit_breaker,
}
use shmipc_go.Session.Sending.{
  wake_up_peer, notify_peer, clean_stream, close_now, close, wait_for_send, write_fallback, flush,
  bytes_in, Retry, try_put, put_again,
}
use shmipc_go.Session.Advance.{
  put_get, Advances, Leaves, Advances-refl, Advances-trans, Leaves-trans, Advances-same,
  put_stream-Advances, put_stream-Leaves, rank,
}
use shmipc_go.Session.Calls.{call_if-on_remote_close-Advances, call_if-on_local_close-Advances}
use shmipc_go.Session.Progress.{
  at_stream, by_if, keep, notify, opened_rank, AdvancesPair, wait_for_send-Advances,
  wake_up_peer-Advances, notify_peer-Advances, clean_stream-Advances,
}

module _ (chain : ℕ) (b : BufferManager) (q : Queue)
    (answer : Session → List ℕ → Option Error) where
  -- What comes behind a part that let the streams advance.
  pub behind :
      {A : Type 0} (s t : Session) (o : Outcome (A × Session))
      → Advances s t
      → Ensures o (AdvancesPair t)
      → Ensures o (AdvancesPair s)
  unfolding AdvancesPair
  behind s t (ok (x, u) m) a h = Advances-trans s t u a h
  behind s t (err e m) a h = tt
  behind s t panic a h = tt

  closing_call :
      (p : Pointer) (s t : Session)
      → Leaves p s t
      → (c down : Bool)
      → Advances s (call_if c (if down then on_remote_close p else on_local_close p) t)
  closing_call p s t v c true = call_if-on_remote_close-Advances p s t v c
  closing_call p s t v c false = call_if-on_local_close-Advances p s t v c

  closed_now :
      (s : Session) (p : Pointer) (st : Stream)
      → get_elem? s.objects p ≡ some st
      → Advances s (put_stream p (record st { state = closed }) s)
  closed_now s p st e =
      put_stream-Advances s p st (record st { state = closed }) e
        (record { same_id = refl; forward = ground arith; notified = λ h. h })

  pub close_now-Advances :
      (p : Pointer) (s : Session) (m : Mem)
      → Ensures (close_now chain b q answer p s m) (AdvancesPair s)
  unfolding close_now AdvancesPair
  close_now-Advances p s m = at_stream (AdvancesPair s) s p m _ (λ st e.
      ensures-if (AdvancesPair s) (is_closed st.state) _ _ m (λ _. Advances-refl s)
        (λ _.
          (let s0 = put_stream p (record st { state = closed }) s in
            ensures-then (AdvancesPair s) (Advances s0) (clean_stream chain b q answer p s0 m) _
              (clean_stream-Advances chain b q answer p s0 m)
              (λ s1 m1 cleaned.
                ensures-if (AdvancesPair s) (is_open st) _ _ m1
                  (λ was_open. at_stream (AdvancesPair s) s1 p m1 _ (λ st1 e1.
                    (let s2 = put_stream p (record st1 { close_notify = true }) s1 in
                      let s3 =
                        call_if st.callback
                          (if s2.shutdown then on_remote_close p else on_local_close p) s2 in
                      let leaves =
                        Leaves-trans p s s1 s2
                          (Leaves-trans p s s0 s1
                            (put_stream-Leaves s p st (record st { state = closed }) e
                              (record { same_id = refl; forward = ground arith; notified = λ h. h })
                              (opened_rank st was_open) (omega arith))
                            cleaned)
                          (notify s1 p st1 e1) in
                      let told = closing_call p s s2 leaves st.callback s2.shutdown in
                      ensures-if (AdvancesPair s) s3.shutdown _ _ m1 (λ _. told)
                        (λ _.
                          behind s s3 (notify_peer chain b q answer st s3 m1) told
                            (notify_peer-Advances chain b q answer st s3 m1)))))
                  (λ _. Advances-trans s s0 s1 (closed_now s p st e) cleaned)))))

  pub close-Advances :
      (p : Pointer) (s : Session) (m : Mem)
      → Ensures (close chain b q answer p s m) (AdvancesPair s)
  unfolding close AdvancesPair
  close-Advances p s m = at_stream (AdvancesPair s) s p m _ (λ st e.
      (let st1 = if st.callback then record st { callback_wait_exit = true } else st in
        ensures-if (AdvancesPair s) st1.callback_in_process _ _ m
          (λ _. half_closes s p st e st.callback)
          (λ _.
            behind s (put_stream p st1 s) (close_now chain b q answer p (put_stream p st1 s) m)
              (marked s p st e st.callback) (close_now-Advances p (put_stream p st1 s) m))))
    where
      mark : Bool → Stream → Stream
      mark c st = if c then record st { callback_wait_exit = true } else st

      marked :
          (s : Session) (p : Pointer) (st : Stream)
          → get_elem? s.objects p ≡ some st
          → (c : Bool) → Advances s (put_stream p (mark c st) s)
      marked s p st e true = keep s p st e (record st { callback_wait_exit = true }) refl refl refl
      marked s p st e false = keep s p st e st refl refl refl

      half :
          (s : Session) (p : Pointer) (st st' : Stream)
          → get_elem? s.objects p ≡ some st
          → st'.id ≡ st.id
          → st'.state ≡ st.state
          → st'.close_notify ≡ st.close_notify
          → Advances s
              (put_stream p (if is_open st' then record st' { state = half_closed } else st') s)
      half s p st st' e id state notify =
          by_if (λ x. Advances s (put_stream p x s)) (is_open st')
            (record st' { state = half_closed }) st'
            (λ was_open.
              put_stream-Advances s p st (record st' { state = half_closed }) e
                (record {
                  same_id = id;
                  forward = omega (arith, opened_rank st' was_open, ap rank state);
                  notified = λ h. notify ∙ h;
                }))
            (λ _. keep s p st e st' id state notify)

      half_closes :
          (s : Session) (p : Pointer) (st : Stream)
          → get_elem? s.objects p ≡ some st
          → (c : Bool)
          → Advances s (
              put_stream p
                (if is_open (mark c st)
                  then record (mark c st) { state = half_closed }
                  else mark c st)
                s)
      half_closes s p st e true = half s p st (mark true st) e refl refl refl
      half_closes s p st e false = half s p st st e refl refl refl

  write_fallback-Advances :
      (p : Pointer) (s : Session) (m : Mem)
      → Ensures (write_fallback chain b q answer p s m) (AdvancesPair s)
  unfolding write_fallback AdvancesPair
  write_fallback-Advances p s m = at_stream (AdvancesPair s) s p m _ (λ st e.
      ensures-step (AdvancesPair s) (underlying_data st.send_buf m) _ (λ ws m1.
        (let payload = bytes_in ws m1 in
          ensures-step (AdvancesPair s) (recycle b st.send_buf m1) _ (λ send m2.
            (let s1 = put_stream p (record st { send_buf = send }) s in
              let s2 = open_circuit_breaker s1 in
              let frame =
                fallback_event s.communication_version st.id (state_number st.state) payload in
              Advances-trans s s1 ((wait_for_send chain b q answer frame s2).1)
                (keep s p st e (record st { send_buf = send }) refl refl refl)
                (Advances-trans s1 s2 ((wait_for_send chain b q answer frame s2).1)
                  (Advances-same s1 s2 refl refl refl)
                  (wait_for_send-Advances chain b q answer frame s2)))))))

  pub flush-Advances :
      (retries : List Retry) (p : Pointer) (s : Session) (m : Mem)
      → Ensures (flush chain b q answer retries p s m) (AdvancesPair s)
  unfolding flush AdvancesPair
  flush-Advances retries p s m = at_stream (AdvancesPair s) s p m _ (λ st e.
      ensures-if (AdvancesPair s) (st.send_buf.len == 0) _ _ m (λ _. Advances-refl s)
        (λ _.
          ensures-if (AdvancesPair s) (not (is_open st)) _ _ m
            (λ _.
              ensures-step (AdvancesPair s) (recycle b st.send_buf m) _
                (λ send m1. keep s p st e (record st { send_buf = send }) refl refl refl))
            (λ _. ensures-step (AdvancesPair s) (finish b st.send_buf m) _ (λ buf m1.
              (let st1 = record st {
                send_buf = buf;
                in_fallback_state = not buf.is_from_shm || st.in_fallback_state;
              } in
                let s1 = put_stream p st1 s in
                let changed = keep s p st e st1 refl refl refl in
                ensures-if (AdvancesPair s) st1.in_fallback_state _ _ m1
                  (λ _.
                    ensures-then (AdvancesPair s) (AdvancesPair s1)
                      (write_fallback chain b q answer p s1 m1) _ (write_fallback-Advances p s1 m1)
                      (λ r m2 sent. at_stream (AdvancesPair s) r.1 p m2 _ (λ st2 e2.
                        (let s3 = put_stream p (record st2 { send_buf = clean st2.send_buf }) r.1 in
                          Advances-trans s s1 s3 changed (
                            Advances-trans s1 r.1 s3 sent (
                              keep r.1 p st2 e2 (record st2 { send_buf = clean st2.send_buf }) refl
                                refl refl))))))
                  (λ _. ensures-step (AdvancesPair s) (root_buf_offset buf m1) _ (λ offset m2.
                    (let element : Element = record {
                      seq_id = st.id;
                      offset_in_shm_buf = offset;
                      status = state_number opened;
                    } in
                      ensures-step (AdvancesPair s) (try_put chain b q answer element m2) _
                        (λ first m3.
                          ensures-step (AdvancesPair s)
                            (put_again chain b q answer 10 retries element first m3) _
                            (λ last m4.
                              done s s1 p st1 buf changed (put_get s p st st1 e) last m4))))))))))
    where
      done :
          (s s1 : Session) (p : Pointer) (st1 : Stream) (buf : LinkedBuffer)
          → Advances s s1
          → get_elem? s1.objects p ≡ some st1
          → (last : Option Error) (m : Mem)
          → Ensures
              ((elim last as (λ _. Command (Option Error × Session)) [
                | some error ↦ (do
                  send ← recycle b buf
                  pure (some error, put_stream p (record st1 { send_buf = send }) s1))
                | none ↦
                    wake_up_peer chain b q answer
                      (put_stream p (record st1 { send_buf = clean buf }) s1)
              ])
                m)
              (AdvancesPair s)
      done s s1 p st1 buf changed e (some error) m =
          ensures-step (AdvancesPair s) (recycle b buf m) _ (λ send m1.
            Advances-trans s s1 (put_stream p (record st1 { send_buf = send }) s1) changed
              (keep s1 p st1 e (record st1 { send_buf = send }) refl refl refl))
      done s s1 p st1 buf changed e none m =
          let s2 = put_stream p (record st1 { send_buf = clean buf }) s1 in
          behind s s2 (wake_up_peer chain b q answer s2 m)
            (Advances-trans s s1 s2 changed
              (keep s1 p st1 e (record st1 { send_buf = clean buf }) refl refl refl))
            (wake_up_peer-Advances chain b q answer s2 m)
