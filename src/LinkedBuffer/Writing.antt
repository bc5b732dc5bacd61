-- ===== src/LinkedBuffer/Writing.antt =====
-- The writing operations of buffer.go: `alloc`, `WriteByte`, `WriteBytes`, `Reserve`, `done`, `rootBufOffset`
-- and `underlyingData`. Memory of the process (`make([]byte, n)`) comes from an argument. A write to
-- a slice that was taken from the list is a panic here; in the source it goes to that slice, which no
-- reader sees any more.
use shmipc_go.Prelude.{
  ℕ, zero, suc, ◌+◌, ◌-◌, ◌%◌, ◌^◌, Bool, true, false, ◌==◌, ltb, if◌then◌else◌, Option, some, none,
  List, [], ◌∷◌, ◌++◌, length, get_elem?, set, drop, take, max,
}
use shmipc_go.Command.{Command, ok, err, panic, pure, crash, ◌>>=◌, ◌>>◌, Bytes, slice}
use shmipc_go.BufferSlice.{BufferSlice, append, new_buffer_slice, update_header}
use shmipc_go.BufferSlice
use shmipc_go.BufferManager.{BufferManager, alloc_shm_buffer, alloc_shm_buffers}
use shmipc_go.LinkedBuffer.{LinkedBuffer, Write, unset, at, stale, recycle_all}

abbrev pub default_single_buffer_size : ℕ
default_single_buffer_size = 4096

-- `writeSlice`, followed.
abbrev pub slice_at : Write → List BufferSlice → Command BufferSlice
slice_at unset ss = crash
slice_at (at i) ss = elim (get_elem? ss i) [ none ↦ crash | some s ↦ pure s ]
slice_at stale ss = crash

abbrev pub set_at : Write → BufferSlice → List BufferSlice → List BufferSlice
set_at unset s ss = ss
set_at (at i) s ss = set ss i s
set_at stale s ss = ss

abbrev pub write_slice : LinkedBuffer → Command BufferSlice
write_slice l = slice_at l.write l.slices

abbrev pub set_write_slice : BufferSlice → LinkedBuffer → LinkedBuffer
set_write_slice s l = record l { slices = set_at l.write s l.slices }

-- `writeSlice.next()`
abbrev pub next_of : Write → ℕ → Write
next_of unset count = unset
next_of (at i) count = if ltb (suc i) count then at (suc i) else unset
next_of stale count = unset

abbrev pub to_next : LinkedBuffer → LinkedBuffer
to_next l = record l { write = next_of l.write (length l.slices) }

abbrev is_set : Write → Bool
is_set unset = false
is_set (at i) = true
is_set stale = true

abbrev first_of : List BufferSlice → Write
first_of [] = unset
first_of (s ∷ ss) = at 0

module _ (b : BufferManager) (make : ℕ → Command Bytes) where
  -- A buffer of this process behind the others.
  abbrev pub push_local : ℕ → LinkedBuffer → Command LinkedBuffer
  push_local size l = do
    block ← make (max size default_single_buffer_size)
    s ← new_buffer_slice none block 0 false
    pure (record l { slices = l.slices ++ s ∷ []; is_from_shm = false })

  unfoldable pub alloc : ℕ → LinkedBuffer → Command LinkedBuffer
  unfolding new_buffer_slice
  alloc size l m = elim (alloc_shm_buffer b size m) [
    | ok s m' ↦ ok (record l { slices = l.slices ++ s ∷ [] }) m'
    | err e m' ↦
        (do
          (ss, remain) ← alloc_shm_buffers b size
          let l1 = record l { slices = l.slices ++ ss }
          if ltb 0 remain then push_local remain l1 else pure l1)
          m'
    | panic ↦ panic
  ]

  -- `if writeSlice == nil { alloc(size); writeSlice = front() }`
  unfoldable pub start_write : ℕ → LinkedBuffer → Command LinkedBuffer
  unfolding alloc
  start_write size l =
      if is_set l.write
      then pure l
      else (do l1 ← alloc (size % 2 ^ 32) l; pure (record l1 { write = first_of l1.slices }))

  -- `WriteByte`
  unfoldable pub write_byte : ℕ → LinkedBuffer → Command LinkedBuffer
  unfolding start_write
  write_byte x l = do
    l1 ← start_write 1 l
    s ← write_slice l1
    (n, s') ← append s (x ∷ [])
    if n == 1 then pure (record (set_write_slice s' l1) { len = l1.len + 1 }) else (do
      l2 ← alloc 1 (set_write_slice s' l1)
      let l3 = to_next l2
      t ← write_slice l3
      (_, t') ← append t (x ∷ [])
      pure (record (set_write_slice t' l3) { len = l3.len + 1 }))

  -- The loop of `WriteBytes`: a round fills one slice.
  unfoldable pub write_loop : ℕ → List ℕ → LinkedBuffer → Command LinkedBuffer
  unfolding alloc
  write_loop zero xs l = crash
  write_loop (suc rounds) xs l =
      let others = write_loop rounds in
      (do
        s ← write_slice l
        (n, s') ← append s xs
        let l1 = set_write_slice s' l
        if ltb n (length xs)
            then (do
              l2 ←
                  (if is_set (next_of l1.write (length l1.slices))
                    then pure l1
                    else alloc ((length xs - n) % 2 ^ 32) l1)
              others (drop n xs) (to_next l2))
            else pure l1)

  -- `WriteBytes`; a round fills a slice that is there or writes a byte.
  unfoldable pub write_bytes : List ℕ → LinkedBuffer → Command (ℕ × LinkedBuffer)
  unfolding start_write write_loop
  write_bytes [] l = pure (0, l)
  write_bytes (x ∷ xs) l = do
    l1 ← start_write (length (x ∷ xs)) l
    l2 ← write_loop (length l1.slices + length (x ∷ xs) + 2) (x ∷ xs) l1
    pure (length (x ∷ xs), record l2 { len = l2.len + length (x ∷ xs) })

  -- The third step of `Reserve`: a new slice.
  unfoldable pub reserve_new : ℕ → LinkedBuffer → Command (Bytes × LinkedBuffer)
  unfolding new_buffer_slice
  reserve_new size l = do
    l1 ← (λ m. elim (alloc_shm_buffer b (size % 2 ^ 32) m) [
      | ok s m' ↦ ok (record l { slices = l.slices ++ s ∷ [] }) m'
      | err e m' ↦ push_local size l m'
      | panic ↦ panic
    ])
    let l2 = record l1 { write = at (length l1.slices - 1); len = l1.len + size }
    s ← write_slice l2
    (window, s') ← BufferSlice.reserve s size
    pure (window, set_write_slice s' l2)

  -- `Reserve`
  unfoldable pub reserve : ℕ → LinkedBuffer → Command (Bytes × LinkedBuffer)
  unfolding start_write reserve_new
  reserve size l = do
    l1 ← start_write size l
    s ← write_slice l1
    (λ m. elim (BufferSlice.reserve s size m) [
      | ok (window, s') m' ↦ ok (window, record (set_write_slice s' l1) { len = l1.len + size }) m'
      | panic ↦ panic
      | err e m' ↦
          if is_set (next_of l1.write (length l1.slices))
          then (do
            t ← write_slice (to_next l1)
            (λ m2. elim (BufferSlice.reserve t size m2) [
              | ok (window, t') m3 ↦
                  ok (window, record (set_write_slice t' (to_next l1)) { len = l1.len + size }) m3
              | panic ↦ panic
              | err e' m3 ↦ reserve_new size l1 m3
            ]))
              m'
          else reserve_new size l1 m'
    ])

-- `rootBufOffset`
abbrev pub root_buf_offset : LinkedBuffer → Command ℕ
root_buf_offset l = elim l.slices [ [] ↦ crash | s ∷ rest ↦ pure s.offset_in_shm ]

-- `update` of a slice whose next one is the front of `rest`.
unfoldable pub update_before : BufferSlice → List BufferSlice → Command (Unit {0})
update_before s [] = update_header (λ _. s) (record s { next_slice = none })
update_before s (t ∷ rest) = update_header (λ _. t) (record s { next_slice = some 0 })

-- The loop of `done`, up to the write slice.
unfoldable pub update_to : ℕ → List BufferSlice → Command (Unit {0})
unfolding update_before
update_to i [] = pure tt
update_to zero (s ∷ rest) = update_before s rest
update_to (suc i) (s ∷ rest) = do update_before s rest; update_to i rest

-- `done`: what is behind the write slice is split off and given back.
unfoldable pub finish : BufferManager → LinkedBuffer → Command LinkedBuffer
unfolding update_to recycle_all
finish b l =
    if l.is_from_shm
    then (elim l.write [
      | at i ↦ (do
        update_to i l.slices
        recycle_all b (drop (suc i) l.slices)
        pure (record l { slices = take (suc i) l.slices }))
      | unset ↦ crash
      | stale ↦ crash
    ])
    else pure l

-- `underlyingData`: the windows on the unread bytes, up to the write slice.
abbrev data_of : BufferSlice → Command Bytes
data_of s = slice s.block s.read_index s.write_index

unfoldable pub windows_to : Option ℕ → List BufferSlice → Command (List Bytes)
windows_to i [] = pure []
windows_to (some zero) (s ∷ rest) = do w ← data_of s; pure (w ∷ [])
windows_to (some (suc i)) (s ∷ rest) = do
  w ← data_of s
  ws ← windows_to (some i) rest
  pure (w ∷ ws)
windows_to none (s ∷ rest) = do w ← data_of s; ws ← windows_to none rest; pure (w ∷ ws)

abbrev index_of : Write → Option ℕ
index_of unset = none
index_of (at i) = some i
index_of stale = none

unfoldable pub underlying_data : LinkedBuffer → Command (List Bytes)
unfolding windows_to
underlying_data l = windows_to (index_of l.write) l.slices

-- `clean`
abbrev pub clean : LinkedBuffer → LinkedBuffer
clean l = record l {
  slices = [];
  write = unset;
  is_from_shm = true;
  end_stream = false;
  current_pinned = false;
  len = 0;
}
