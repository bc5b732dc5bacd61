-- ===== src/Stream.antt =====
-- stream.go: the state of a stream and what it does alone: `newStream`, `SetCallbacks`, the pending data with
-- its moves into the read buffer, `readMore`, `reset` and `ReleaseReadAndReuse`. What a stream does
-- with its session is in the module of the session. `chain` bounds the slices of one message.
use shmipc_go.Prelude.{
  ℕ, zero, suc, Bool, true, false, ◌&&◌, ◌==◌, ltb, leb, not, if◌then◌else◌, Option, some, none,
  List, [], ◌∷◌, ◌++◌, length,
}
use shmipc_go.Memory.{Address}
use shmipc_go.Errors.{
  Error, end_of_stream, stream_closed, timeout, stream_callback_had_existed, unread_data,
  unread_pending,
}
use shmipc_go.Command.{Command, ok, err, panic, pure, crash, ◌>>=◌, ◌>>◌}
use shmipc_go.BufferSlice.{
  BufferSlice, has_next, next_buffer_offset, link_next, clear_flag, set_in_used,
}
use shmipc_go.BufferManager.{BufferManager, read_buffer_slice, recycle_buffer, recycle_buffers}
use shmipc_go.LinkedBuffer.{
  LinkedBuffer, new_empty_linked_buffer, append_buffer_slice, release_previous_read_and_reserve,
}

pub data StreamState : Type 0 where
  opened closed half_closed : StreamState

-- `bufferSliceWrapper`
pub data Wrapper : Type 0 where
  fallback_slice : BufferSlice → Wrapper
  in_shm : ℕ → Wrapper

-- The channel `recvNotifyCh` of capacity 1 and the closing of `closeNotifyCh` are flags; deadlines and the
-- read timer are with the calls that wait. The callback is known by whether it is set.
pub record Stream : Type 0 where
  pub id : ℕ
  pub state : StreamState
  pub recv_buf : LinkedBuffer
  pub send_buf : LinkedBuffer
  pub pending : List Wrapper
  pub recv_notify : Bool
  pub close_notify : Bool
  pub in_fallback_state : Bool
  pub callback : Bool
  pub callback_in_process : Bool
  pub callback_wait_exit : Bool

-- `newStream`
abbrev pub new_stream : ℕ → Stream
new_stream id = record {
  id = id;
  state = opened;
  recv_buf = new_empty_linked_buffer;
  send_buf = new_empty_linked_buffer;
  pending = [];
  recv_notify = false;
  close_notify = false;
  in_fallback_state = false;
  callback = false;
  callback_in_process = false;
  callback_wait_exit = false;
}

abbrev pub is_opened : StreamState → Bool
is_opened opened = true
is_opened closed = false
is_opened half_closed = false

abbrev pub is_closed : StreamState → Bool
is_closed opened = false
is_closed closed = true
is_closed half_closed = false

-- The number that goes into a queue element.
abbrev pub state_number : StreamState → ℕ
state_number opened = 0
state_number closed = 1
state_number half_closed = 2

-- `IsOpen`
abbrev pub is_open : Stream → Bool
is_open s = is_opened s.state

-- `SetCallbacks`
abbrev pub set_callbacks : Stream → Option Error × Stream
set_callbacks s =
    if s.callback
    then (some stream_callback_had_existed, s)
    else (none, record s { callback = true; callback_in_process = false })

-- `safeCloseNotify`
abbrev pub safe_close_notify : Stream → Stream
safe_close_notify s = record s { close_notify = true }

abbrev pub last_slice : BufferSlice → List BufferSlice → BufferSlice
last_slice s [] = s
last_slice s (t ∷ ts) = last_slice t ts

-- The header of `sliceList.back()`; indexing the header of a slice without one panics.
abbrev pub back_header : List BufferSlice → Command Address
back_header [] = crash
back_header (s ∷ ss) = elim (last_slice s ss).header [ none ↦ crash | some h ↦ pure h ]

abbrev pub header_of : BufferSlice → Command Address
header_of s = elim s.header [ none ↦ crash | some h ↦ pure h ]

-- The select of `readMore`: what wakes it.
pub data Wake : Type 0 where
  received close_notified timed_out : Wake

module _ (chain : ℕ) (b : BufferManager) where
  -- An empty slice of a message: it is taken out of the chain and given back. The result is the offset of
  -- the next slice, if the loop goes on.
  unfoldable pub drop_empty : BufferSlice → LinkedBuffer → Command (Option ℕ)
  unfolding has_next next_buffer_offset link_next clear_flag set_in_used
  drop_empty s to = do
    h ← header_of s
    next ← next_buffer_offset h
    if length to.slices == 0 then (do recycle_buffer b s; pure (some next)) else (do
      pre ← back_header to.slices
      more ← has_next h
      if more
          then (do link_next pre next; recycle_buffer b s; pure (some next))
          else (do clear_flag pre; set_in_used pre; recycle_buffer b s; pure none))

  -- The inner loop of `moveToWithoutLock`: the slices of one message. A slice that cannot be read ends it.
  unfoldable pub move_chain : ℕ → ℕ → LinkedBuffer → Command LinkedBuffer
  unfolding drop_empty read_buffer_slice has_next next_buffer_offset
  move_chain zero offset to = crash
  move_chain (suc rounds) offset to =
      let others = move_chain rounds in
      (λ m. elim (read_buffer_slice b offset m) [
        | err e m' ↦ ok to m'
        | panic ↦ panic
        | ok s m' ↦
            (if s.write_index == s.read_index
                then (do
                  next ← drop_empty s to
                  elim next [ none ↦ pure to | some o ↦ others o to ])
                else (do
                  let to' = append_buffer_slice s to
                  h ← header_of s
                  more ← has_next h
                  next ← next_buffer_offset h
                  if more then others next to' else pure to'))
              m'
      ])

  -- `moveToWithoutLock`, with the read buffer as `toBuf` and the mark of the fallback state.
  unfoldable pub move_pending : List Wrapper → LinkedBuffer → Bool → Command (LinkedBuffer × Bool)
  unfolding move_chain
  move_pending [] to fallback = pure (to, fallback)
  move_pending (fallback_slice s ∷ rest) to fallback =
      move_pending rest (append_buffer_slice s to) true
  move_pending (in_shm offset ∷ rest) to fallback = do
    to' ← move_chain chain offset to
    move_pending rest to' fallback

  -- `pendingData.moveTo(s.recvBuf)`
  unfoldable pub move_to : Stream → Command Stream
  unfolding move_pending
  move_to s = do
    (to, fallback) ← move_pending s.pending s.recv_buf s.in_fallback_state
    pure (record s { recv_buf = to; pending = []; in_fallback_state = fallback })

  -- `pendingData.clear`: an offset that cannot be read ends the loop, and what is behind it is dropped.
  unfoldable pub clear_pending : List Wrapper → Command (Unit {0})
  unfolding read_buffer_slice recycle_buffers
  clear_pending [] = pure tt
  clear_pending (fallback_slice s ∷ rest) = clear_pending rest
  clear_pending (in_shm offset ∷ rest) =
      let others = clear_pending rest in
      (λ m. elim (read_buffer_slice b offset m) [
        | err e m' ↦ ok tt m'
        | panic ↦ panic
        | ok s m' ↦ (do recycle_buffers chain b s; others) m'
      ])

  -- The error of the case of `closeNotifyCh`.
  abbrev pub close_error : StreamState → Error
  close_error opened = stream_closed
  close_error closed = stream_closed
  close_error half_closed = end_of_stream

  -- One turn of the select: the result, or none if it waits again.
  unfoldable pub on_wake : ℕ → Wake → Stream → Command (Option (Option Error) × Stream)
  unfolding move_to
  on_wake min_size received s = do
    s' ← move_to (record s { recv_notify = false })
    pure (if leb min_size s'.recv_buf.len then some none else none, s')
  on_wake min_size close_notified s = do
    s' ← move_to s
    pure
        (if leb min_size s'.recv_buf.len then some none else some (some (close_error s'.state)), s')
  on_wake min_size timed_out s = pure (some (some timeout), s)

  -- `readMore`: the turns of its select are given with what arrives and the state before each. The result
  -- is none if they end before it returns.
  unfoldable pub wait_more :
      List (List Wrapper × StreamState × Wake)
      → ℕ
      → Stream
      → Command (Option (Option Error) × Stream)
  unfolding on_wake
  wait_more [] min_size s = pure (none, s)
  wait_more ((arrived, state, wake) ∷ turns) min_size s = do
    (result, s') ←
        on_wake min_size wake (record s { pending = s.pending ++ arrived; state = state })
    elim result [ none ↦ wait_more turns min_size s' | some r ↦ pure (some r, s') ]

  unfoldable pub read_more :
      List (List Wrapper × StreamState × Wake)
      → ℕ
      → Stream
      → Command (Option (Option Error) × Stream)
  unfolding move_to wait_more
  read_more turns min_size s = do
    s' ← move_to s
    if leb min_size s'.recv_buf.len
        then pure (some none, s')
        else if s'.recv_buf.len == 0 && not (is_open s')
        then pure (some (some end_of_stream), s')
        else wait_more turns min_size s'

  -- `ReleaseReadAndReuse`
  unfoldable pub release_read_and_reuse : Stream → Command Stream
  unfolding release_previous_read_and_reserve
  release_read_and_reuse s = do
    recv ← release_previous_read_and_reserve b s.recv_buf
    if recv.len == 0 && length recv.slices == 1
        then pure (record s { recv_buf = s.send_buf; send_buf = recv })
        else pure (record s { recv_buf = recv })

-- `reset`
unfoldable pub reset : Stream → Option Error × Stream
reset s =
    if not (is_open s)
    then (some stream_closed, s)
    else if ltb 0 s.recv_buf.len
    then (some unread_data, s)
    else if ltb 0 (length s.pending)
    then (some unread_pending, s)
    else (none, record s { in_fallback_state = false; recv_notify = false; callback = false })
