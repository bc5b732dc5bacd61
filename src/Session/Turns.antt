-- ===== src/Session/Turns.antt =====
-- The handlers of events and the goroutine of a callback let the streams of a session advance, where the
-- parts that are arguments do.
use shmipc_go.Prelude.{
  ℕ, zero, suc, ◌≡◌, refl, true, false, ◌&&◌, ltb, Option, some, none, List, length,
}
use shmipc_go.Memory.{Mem}
use shmipc_go.Errors.{Error}
use shmipc_go.Command.{Command, pure, Bytes}
use shmipc_go.Command.Ensures.{Ensures, ensures-step, ensures-then, ensures-if}
use shmipc_go.BufferSlice.{BufferSlice, new_buffer_slice, store_bytes}
use shmipc_go.BufferManager.{BufferManager}
use shmipc_go.Queue.{Queue}
use shmipc_go.Events.{Event, polling, stream_close, fallback, hot_restart, hot_restart_ack}
use shmipc_go.Stream.{Stream, is_open, fallback_slice, move_to, move_pending}
use shmipc_go.Session.{Session, Pointer, put_stream, get_stream, open_circuit_breaker}
use shmipc_go.Session.Receiving.{
  state_of, handle_stream_message, handle_stream_close, handle_fallback, on_event, serve_data,
  serve, move_at,
}
use shmipc_go.Session.Sending.{close_now}
use shmipc_go.Session.Advance.{put_get, Advances, Advances-refl, Advances-trans, Advances-same}
use shmipc_go.Session.Progress.{at_stream, keep, AdvancesPair}
use shmipc_go.Session.Closing.{close_now-Advances}
use shmipc_go.Session.Messages.{
  get_stream-Advances, handle_stream_message-Advances, handle_stream_close-Advances,
  handle_polling-Advances, after,
}

module _ (chain : ℕ) (b : BufferManager) (q : Queue) where
  module _ (make : ℕ → Command Bytes) where
    pub handle_fallback-Advances :
        (id status : ℕ) (payload : List ℕ) (s : Session) (m : Mem)
        → Ensures (handle_fallback chain b q make id status payload s m) (Advances s)
    unfolding handle_fallback
    handle_fallback-Advances id status payload s m =
        ensures-step (Advances s) (make (length payload) m) _ (λ block m1.
          ensures-step (Advances s)
            (new_buffer_slice none block 0 false (store_bytes block.address payload m1)) _
            (λ slice m2.
              found (record slice { write_index = length payload }) m2
                ((get_stream id (state_of status) (open_circuit_breaker s)).0)))
      where
        s1 : Session
        s1 = (get_stream id (state_of status) (open_circuit_breaker s)).1

        got : Advances s s1
        got =
            Advances-trans s (open_circuit_breaker s) s1
              (Advances-same s (open_circuit_breaker s) refl refl refl)
              (get_stream-Advances id (state_of status) (open_circuit_breaker s))

        found :
            (slice : BufferSlice) (m2 : Mem) (o : Option Pointer)
            → Ensures
                ((elim o as (λ _. Command Session) [
                  | none ↦ pure s1
                  | some p ↦
                      handle_stream_message chain b p (fallback_slice slice) (state_of status) s1
                ])
                  m2)
                (Advances s)
        found slice m2 none = got
        found slice m2 (some p) =
            after chain b s s1
              (handle_stream_message chain b p (fallback_slice slice) (state_of status) s1 m2) got
              (handle_stream_message-Advances chain b p (fallback_slice slice) (state_of status) s1
                m2)

    module _ (restart : Event → Session → Session) (rounds : ℕ)
        (mild : (e : Event) (s : Session) → Advances s (restart e s)) where
      pub on_event-Advances :
          (e : Event) (s : Session) (m : Mem)
          → Ensures (on_event chain b q make restart rounds e s m) (AdvancesPair s)
      unfolding on_event AdvancesPair
      on_event-Advances polling s m = handle_polling-Advances chain b q rounds s m
      on_event-Advances (stream_close id) s m =
          ensures-then (AdvancesPair s) (Advances s) (handle_stream_close chain b q id s m) _
            (handle_stream_close-Advances chain b q id s m) (λ s' m' a. a)
      on_event-Advances (fallback id status payload) s m =
          ensures-then (AdvancesPair s) (Advances s)
            (handle_fallback chain b q make id status payload s m) _
            (handle_fallback-Advances id status payload s m) (λ s' m' a. a)
      on_event-Advances (hot_restart epoch) s m = mild (hot_restart epoch) s
      on_event-Advances (hot_restart_ack epoch) s m = mild (hot_restart_ack epoch) s

  module _ (answer : Session → List ℕ → Option Error)
      (on_data : Pointer → Session → Command Session)
      (mild : (p : Pointer) (s : Session) (m : Mem) → Ensures (on_data p s m) (Advances s)) where
    moved :
        (st : Stream) (m : Mem)
        → Ensures (move_to chain b st m) (λ st'.
          (st'.id ≡ st.id) × (st'.state ≡ st.state) × (st'.close_notify ≡ st.close_notify))
    unfolding move_to
    moved st m =
        ensures-step _ (move_pending chain b st.pending st.recv_buf st.in_fallback_state m) _
          (λ r m1. (refl, refl, refl))

    move_at-Advances :
        (p : Pointer) (s : Session) (m : Mem)
        → Ensures (move_at chain b q answer on_data p s m) (Advances s)
    move_at-Advances p s m = at_stream (Advances s) s p m _ (λ st e.
        ensures-then (Advances s) _ (move_to chain b st m) _ (moved st m)
          (λ st' m1 (id, state, notify). keep s p st e st' id state notify))

    serve_data-Advances :
        (rounds : ℕ) (p : Pointer) (s : Session) (m : Mem)
        → Ensures (serve_data chain b q answer on_data rounds p s m) (Advances s)
    unfolding serve_data
    serve_data-Advances zero p s m = tt
    serve_data-Advances (suc rounds) p s m = at_stream (Advances s) s p m _ (λ st e.
        ensures-if (Advances s) (is_open st && ltb 0 st.recv_buf.len) _ _ m
          (λ _. ensures-then (Advances s) (Advances s) (on_data p s m) _ (mild p s m) (λ s1 m1 a1.
            ensures-then (Advances s) (Advances s1) (move_at chain b q answer on_data p s1 m1) _
              (move_at-Advances p s1 m1)
              (λ s2 m2 a2.
                after chain b s s2 (serve_data chain b q answer on_data rounds p s2 m2)
                  (Advances-trans s s1 s2 a1 a2) (serve_data-Advances rounds p s2 m2))))
          (λ _. Advances-refl s))

    pub serve-Advances :
        (rounds : ℕ) (p : Pointer) (s : Session) (m : Mem)
        → Ensures (serve chain b q answer on_data rounds p s m) (Advances s)
    unfolding serve AdvancesPair
    serve-Advances zero p s m = tt
    serve-Advances (suc rounds) p s m =
        ensures-then (Advances s) (Advances s) (move_at chain b q answer on_data p s m) _
          (move_at-Advances p s m)
          (λ s1 m1 a1.
            ensures-then (Advances s) (Advances s1)
              (serve_data chain b q answer on_data rounds p s1 m1) _
              (serve_data-Advances rounds p s1 m1)
              (λ s2 m2 a2. at_stream (Advances s) s2 p m2 _ (λ st e.
                (let st1 = record st { callback_in_process = false } in
                  let s3 = put_stream p st1 s2 in
                  let a3 =
                    Advances-trans s s1 s3 a1
                      (Advances-trans s1 s2 s3 a2 (keep s2 p st e st1 refl refl refl)) in
                  ensures-if (Advances s) st.callback_wait_exit _ _ m2
                    (λ _.
                      ensures-then (Advances s) (AdvancesPair s3)
                        (close_now chain b q answer p s3 m2) _
                        (close_now-Advances chain b q answer p s3 m2)
                        (λ r m3 a. Advances-trans s s3 r.1 a3 a))
                    (λ _.
                      ensures-if (Advances s) (ltb 0 (length st.pending)) _ _ m2
                        (λ _.
                          (let st4 = record st1 { callback_in_process = true } in
                            let s4 = put_stream p st4 s3 in
                            after chain b s s4 (serve chain b q answer on_data rounds p s4 m2)
                              (Advances-trans s s3 s4 a3
                                (keep s3 p st1 (put_get s2 p st st1 e) st4 refl refl refl))
                              (serve-Advances rounds p s4 m2)))
                        (λ _. a3))))))
