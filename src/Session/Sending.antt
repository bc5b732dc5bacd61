-- ===== src/Session/Sending.antt =====
-- What a session sends: `wakeUpPeer`, and `Flush`, `writeFallback`, `close` and `Close` of stream.go. What the
-- event connection and the wait for the sender answer is an argument, by the frame to be written.
use shmipc_go.Prelude.{
  ℕ, suc, true, ◌||◌, ◌==◌, not, if◌then◌else◌, Option, some, none, List, [], ◌∷◌, ◌++◌,
}
use shmipc_go.Memory.{Mem}
use shmipc_go.Errors.{Error, stream_closed, timeout, queue_full}
use shmipc_go.Command.{Command, ok, err, panic, pure, ◌>>=◌, ◌>>◌, Bytes}
use shmipc_go.BufferSlice.{load_bytes}
use shmipc_go.BufferManager.{BufferManager}
use shmipc_go.LinkedBuffer.{recycle}
use shmipc_go.LinkedBuffer.Writing.{write_bytes, finish, clean, root_buf_offset, underlying_data}
use shmipc_go.Queue.{Queue, Element, put, mark_working}
use shmipc_go.Events.{polling_event, stream_close_event, fallback_event}
use shmipc_go.Stream.{
  Stream, opened, closed, half_closed, is_closed, is_open, safe_close_notify, clear_pending,
  state_number,
}
use shmipc_go.Session.{
  Session, Pointer, on_local_close, on_remote_close, stream_at, put_stream, call_if,
  on_stream_close, open_circuit_breaker, exit_err,
}

-- A round of the retry of `Flush`: the timer went off and this is the memory then, the write deadline passed,
-- or the close notification came.
pub data Retry : Type 0 where
  elapsed : Mem → Retry
  deadline_passed close_notified : Retry

-- The bytes that the windows of `underlyingData` show.
unfoldable pub bytes_in : List Bytes → Mem → List ℕ
bytes_in [] m = []
bytes_in (w ∷ ws) m = load_bytes w.len w.address m ++ bytes_in ws m

module _ (chain : ℕ) (b : BufferManager) (q : Queue)
    (answer : Session → List ℕ → Option Error) where
  abbrev took : List ℕ → Session → Session
  took frame s = record s { written = frame ∷ s.written }

  -- `waitForSend`
  abbrev pub wait_for_send : List ℕ → Session → Option Error × Session
  wait_for_send frame s = elim (answer s frame) as (λ _. Option Error × Session) [
    | none ↦ (none, took frame s)
    | some e ↦ (some e, s)
  ]

  -- `writeEventData`
  abbrev write_event_data : List ℕ → Session → Session
  write_event_data frame s = elim (answer s frame) as (λ _. Session) [
    | none ↦ took frame s
    | some e ↦ exit_err e s
  ]

  -- `wakeUpPeer`, whether the frame goes out at once or through the sender.
  unfoldable pub wake_up_peer : Session → Command (Option Error × Session)
  wake_up_peer s = do
    won ← mark_working q
    if won
        then pure (none, write_event_data (polling_event s.communication_version) s)
        else pure (none, s)

  -- `put`, with its error as a value.
  abbrev pub try_put : Element → Command (Option Error)
  try_put e m = elim (put q e m) [
    | ok _ m' ↦ ok none m'
    | err error m' ↦ ok (some error) m'
    | panic ↦ panic
  ]

  -- `clean` of stream.go.
  unfoldable pub clean_stream : Pointer → Session → Command Session
  unfolding clear_pending recycle
  clean_stream p s = do
    st ← stream_at s p
    let s1 = on_stream_close st.id s
    clear_pending chain b st.pending
    recv ← recycle b st.recv_buf
    send ← recycle b st.send_buf
    pure (put_stream p (record st { pending = []; recv_buf = recv; send_buf = send }) s1)

  abbrev close_element : Stream → Element
  close_element st = record { seq_id = st.id; offset_in_shm_buf = 0; status = state_number closed }

  -- The notification of the peer in `close`.
  unfoldable pub notify_peer : Stream → Session → Command (Option Error × Session)
  unfolding wake_up_peer
  notify_peer st s = do
    error ← try_put (close_element st)
    elim error [
      | none ↦ wake_up_peer s
      | some _ ↦ pure (wait_for_send (stream_close_event s.communication_version st.id) s)
    ]

  -- `close`, behind the end of the running callback.
  unfoldable pub close_now : Pointer → Session → Command (Option Error × Session)
  unfolding clean_stream notify_peer
  close_now p s = do
    st ← stream_at s p
    if is_closed st.state then pure (none, s) else (do
      s1 ← clean_stream p (put_stream p (record st { state = closed }) s)
      if is_open st
          then (do
            st1 ← stream_at s1 p
            let s2 = put_stream p (safe_close_notify st1) s1
            let s3 =
                call_if st.callback (if s2.shutdown then on_remote_close p else on_local_close p) s2
            if s3.shutdown then pure (none, s3) else notify_peer st s3)
          else pure (none, s1))

  -- `Close`
  unfoldable pub close : Pointer → Session → Command (Option Error × Session)
  unfolding close_now
  close p s = do
    st ← stream_at s p
    let st1 = if st.callback then record st { callback_wait_exit = true } else st
    if st1.callback_in_process
        then pure
            (none, put_stream p (if is_open st1 then record st1 { state = half_closed } else st1) s)
        else close_now p (put_stream p st1 s)

  -- `writeFallback`; the status is that of the stream at the call.
  unfoldable pub write_fallback : Pointer → Session → Command (Option Error × Session)
  unfolding underlying_data recycle bytes_in
  write_fallback p s = do
    st ← stream_at s p
    ws ← underlying_data st.send_buf
    payload ← (λ m. ok (bytes_in ws m) m)
    send ← recycle b st.send_buf
    pure (
        wait_for_send (fallback_event s.communication_version st.id (state_number st.state) payload)
          (open_circuit_breaker (put_stream p (record st { send_buf = send }) s)))

  -- The loop of `Flush` while the queue is full, with at most ten rounds; what each meets is given.
  unfoldable pub put_again : ℕ → List Retry → Element → Option Error → Command (Option Error)
  put_again (suc n) (retry ∷ rest) e (some queue_full) = elim retry [
    | elapsed m ↦ (λ _. (do error ← try_put e; put_again n rest e error) m)
    | deadline_passed ↦ put_again n rest e (some timeout)
    | close_notified ↦ put_again n rest e (some stream_closed)
  ]
  put_again n retries e error = pure error

  -- `Flush`. `clean` runs at each return behind `done`.
  unfoldable pub flush : List Retry → Pointer → Session → Command (Option Error × Session)
  unfolding finish write_fallback put_again wake_up_peer recycle
  flush retries p s = do
    st ← stream_at s p
    if st.send_buf.len == 0
        then pure (none, s)
        else if not (is_open st)
        then (do
          send ← recycle b st.send_buf
          pure (some stream_closed, put_stream p (record st { send_buf = send }) s))
        else (do
          buf ← finish b st.send_buf
          let st1 = record st {
            send_buf = buf;
            in_fallback_state = not buf.is_from_shm || st.in_fallback_state;
          }
          let s1 = put_stream p st1 s
          if st1.in_fallback_state
              then (do
                (error, s2) ← write_fallback p s1
                st2 ← stream_at s2 p
                pure (error, put_stream p (record st2 { send_buf = clean st2.send_buf }) s2))
              else (do
                offset ← root_buf_offset buf
                let e : Element = record {
                  seq_id = st.id;
                  offset_in_shm_buf = offset;
                  status = state_number opened;
                }
                first ← try_put e
                last ← put_again 10 retries e first
                elim last [
                  | some error ↦ (do
                    send ← recycle b buf
                    pure (some error, put_stream p (record st1 { send_buf = send }) s1))
                  | none ↦ wake_up_peer (put_stream p (record st1 { send_buf = clean buf }) s1)
                ]))

  -- `copyWriteAndFlush` of buffer.go: `Stream.Write`.
  unfoldable pub copy_write_and_flush :
      (ℕ → Command Bytes)
      → List Retry
      → List ℕ
      → Pointer
      → Session
      → Command (ℕ × Option Error × Session)
  unfolding write_bytes flush
  copy_write_and_flush make retries [] p s = pure (0, none, s)
  copy_write_and_flush make retries (x ∷ xs) p s = do
    st ← stream_at s p
    (n, buf) ← write_bytes b make (x ∷ xs) st.send_buf
    (error, s') ← flush retries p (put_stream p (record st { send_buf = buf }) s)
    pure (n, error, s')
