-- ===== src/Session/Receiving.antt =====
-- What a session does with a message: `handleStreamMessage`, `fillDataToReadBuffer` of stream.go with the
-- goroutine that it starts, the handlers of protocol_manager.go, and `onEventData`. `rounds` bounds
-- the loops over the queue and over the callback, `chain` the slices of one message. A call runs
-- without a change by the peer.
use shmipc_go.Prelude.{
  ℕ, zero, suc, ◌%◌, true, false, ◌&&◌, ◌==◌, ltb, not, if◌then◌else◌, Option, some, none, List, [],
  ◌∷◌, ◌++◌, length,
}
use shmipc_go.Errors.{Error, system}
use shmipc_go.Command.{Command, Outcome, ok, err, panic, pure, crash, ◌>>=◌, ◌>>◌, Bytes}
use shmipc_go.BufferSlice.{new_buffer_slice, store_bytes}
use shmipc_go.BufferManager.{BufferManager, read_buffer_slice, recycle_buffers}
use shmipc_go.LinkedBuffer.{recycle}
use shmipc_go.Queue.{Queue, Element, pop, mark_not_working}
use shmipc_go.Events.{
  Event, polling, stream_close, fallback, hot_restart, hot_restart_ack, handled, crashed,
  out_of_fuel, handle_events,
}
use shmipc_go.Stream.{
  StreamState, opened, closed, half_closed, is_opened, is_closed, is_open, Wrapper, in_shm,
  fallback_slice, clear_pending, move_to,
}
use shmipc_go.Session.{
  Session, Pointer, stream_at, put_stream, get_stream, lookup, half_close, open_circuit_breaker,
  exit_err,
}
use shmipc_go.Session.Sending.{close_now}

-- `streamState(status & 0xff)`; a number above 2 is treated as 2 is.
abbrev pub state_of : ℕ → StreamState
state_of status =
    if status % 256 == 0 then opened else if status % 256 == 1 then closed else half_closed

module _ (chain : ℕ) (b : BufferManager) where
  -- `fillDataToReadBuffer`, up to the goroutine; the task is added if none runs.
  unfoldable pub fill_data : Pointer → Wrapper → Session → Command Session
  unfolding clear_pending recycle
  fill_data p w s = do
    st ← stream_at s p
    let st1 = record st { pending = st.pending ++ w ∷ [] }
    if is_closed st1.state
        then (do
          clear_pending chain b st1.pending
          recv ← recycle b st1.recv_buf
          pure (put_stream p (record st1 { pending = []; recv_buf = recv }) s))
        else (let st2 = record st1 { recv_notify = true } in
            if st2.callback && not st2.callback_in_process
            then pure (record (put_stream p (record st2 { callback_in_process = true }) s) {
              tasks = p ∷ s.tasks;
            })
            else pure (put_stream p st2 s))

  -- `handleStreamMessage`
  unfoldable pub handle_stream_message : Pointer → Wrapper → StreamState → Session → Command Session
  unfolding fill_data half_close
  handle_stream_message p w state s = if is_closed state then half_close p s else fill_data p w s

  module _ (q : Queue) where
    -- What the loop of `handlePolling` does with an element.
    unfoldable pub on_element : Element → Session → Command (Option Error × Session)
    unfolding handle_stream_message get_stream read_buffer_slice recycle_buffers
    on_element e s =
        let state = state_of e.status in
        let (found, s1) = get_stream e.seq_id state s in
        elim found [
          | some p ↦ (do
            s2 ← handle_stream_message p (in_shm e.offset_in_shm_buf) state s1
            pure (none, s2))
          | none ↦
              if is_opened state
              then (λ m. elim (read_buffer_slice b e.offset_in_shm_buf m) [
                | err error m' ↦ ok (some error, s1) m'
                | panic ↦ panic
                | ok slice m' ↦ (do recycle_buffers chain b slice; pure (none, s1)) m'
              ])
              else pure (none, s1)
        ]

    -- `handlePolling`: `rounds` elements and ends of the queue, and no more.
    unfoldable pub handle_polling : ℕ → Session → Command (Option Error × Session)
    unfolding on_element
    handle_polling zero s = crash
    handle_polling (suc rounds) s =
        let others = handle_polling rounds in
        (λ m. elim (pop q m) [
          | ok e m' ↦
              (do
                (error, s') ← on_element e s
                elim error [ some x ↦ pure (some x, s') | none ↦ others s' ])
                m'
          | panic ↦ panic
          | err _ m' ↦ (do idle ← mark_not_working q; if idle then pure (none, s) else others s) m'
        ])

    -- `handleStreamClose`
    unfoldable pub handle_stream_close : ℕ → Session → Command Session
    unfolding half_close
    handle_stream_close id s = elim (lookup id s.streams) [
      | none ↦ pure s
      | some p ↦ half_close p s
    ]

    -- `handleFallbackData`; `make` is the memory of the process for the payload.
    module _ (make : ℕ → Command Bytes) where
      unfoldable pub handle_fallback : ℕ → ℕ → List ℕ → Session → Command Session
      unfolding handle_stream_message get_stream new_buffer_slice store_bytes
      handle_fallback id status payload s = do
        block ← make (length payload)
        (λ m. ok tt (store_bytes block.address payload m))
        slice ← new_buffer_slice none block 0 false
        let (found, s1) = get_stream id (state_of status) (open_circuit_breaker s)
        elim found [
          | none ↦ pure s1
          | some p ↦
              handle_stream_message p
                (fallback_slice (record slice { write_index = length payload })) (state_of status)
                s1
        ]

      -- The handlers by event; what a hot restart does is an argument.
      module _ (restart : Event → Session → Session) (rounds : ℕ) where
        unfoldable pub on_event : Event → Session → Command (Option Error × Session)
        unfolding handle_polling handle_stream_close handle_fallback
        on_event polling s = handle_polling rounds s
        on_event (stream_close id) s = do s' ← handle_stream_close id s; pure (none, s')
        on_event (fallback id status payload) s = do
          s' ← handle_fallback id status payload s
          pure (none, s')
        on_event (hot_restart epoch) s = pure (none, restart (hot_restart epoch) s)
        on_event (hot_restart_ack epoch) s = pure (none, restart (hot_restart_ack epoch) s)

        -- The handlers on a session with its memory; a panic ends the loop.
        abbrev pub on_outcome : Outcome Session → Event → Outcome Session × Option Error
        on_outcome (ok s m) e = elim (on_event e s m) as (λ _. Outcome Session × Option Error) [
          | ok (error, s') m' ↦ (ok s' m', error)
          | err error m' ↦ (err error m', some error)
          | panic ↦ (panic, some system)
        ]
        on_outcome (err error m) e = (err error m, some error)
        on_outcome panic e = (panic, some system)

        -- `onEventData`: how many bytes are taken from the connection, and the session.
        unfoldable pub on_event_data : List ℕ → Session → Command (ℕ × Session)
        unfolding on_event handle_events
        on_event_data buf s m =
            if s.shutdown then ok (0, s) m else elim (handle_events on_outcome (ok s m) buf) [
              | handled r consumed error ↦ elim r [
                | ok s' m' ↦
                    ok
                      (
                        consumed,
                        elim error as (λ _. Session) [
                          | none ↦ s'
                          | some e ↦ if s'.shutdown then s' else exit_err e s'
                        ],
                      )
                      m'
                | err e m' ↦ err e m'
                | panic ↦ panic
              ]
              | crashed ↦ panic
              | out_of_fuel ↦ panic
            ]

  -- The goroutine of `fillDataToReadBuffer`: what `OnData` does is an argument.
  module _ (q : Queue) (answer : Session → List ℕ → Option Error)
      (on_data : Pointer → Session → Command Session) where
    abbrev pub move_at : Pointer → Session → Command Session
    move_at p s = do st ← stream_at s p; st' ← move_to chain b st; pure (put_stream p st' s)

    unfoldable pub serve_data : ℕ → Pointer → Session → Command Session
    serve_data zero p s = crash
    serve_data (suc rounds) p s =
        let others = serve_data rounds p in
        (do
          st ← stream_at s p
          if is_open st && ltb 0 st.recv_buf.len
              then (do s1 ← on_data p s; s2 ← move_at p s1; others s2)
              else pure s)

    unfoldable pub serve : ℕ → Pointer → Session → Command Session
    unfolding serve_data close_now
    serve zero p s = crash
    serve (suc rounds) p s =
        let others = serve rounds p in
        (do
          s1 ← move_at p s
          s2 ← serve_data rounds p s1
          st ← stream_at s2 p
          let st1 = record st { callback_in_process = false }
          let s3 = put_stream p st1 s2
          if st1.callback_wait_exit
              then (do (_, s4) ← close_now chain b q answer p s3; pure s4)
              else if ltb 0 (length st1.pending)
              then others (put_stream p (record st1 { callback_in_process = true }) s3)
              else pure s3)
