-- ===== src/LinkedBuffer/Reading.antt =====
-- The reading operations of buffer.go: `read`, `ReadByte`, `ReadBytes`, `ReadString`, `Peek` and
-- `Discard`.
use shmipc_go.Prelude.{
  ℕ, zero, suc, ◌+◌, ◌-◌, true, ◌==◌, ltb, leb, if◌then◌else◌, Option, some, none, List, [], ◌∷◌,
  ◌++◌, length,
}
use shmipc_go.Errors.{Error}
use shmipc_go.Command.{Command, ok, panic, pure, crash, ◌>>=◌, Bytes}
use shmipc_go.BufferSlice.{BufferSlice, load_bytes, read_slice, peek, skip}
use shmipc_go.BufferManager.{BufferManager}
use shmipc_go.LinkedBuffer.{LinkedBuffer, front, set_front, slice_size, read_next_slice}

abbrev pub read_bytes_of : Bytes → Command (List ℕ)
read_bytes_of w m = ok (load_bytes w.len w.address m) m

-- `r[0]`
abbrev pub first_byte : Bytes → Command ℕ
first_byte w m = elim (load_bytes w.len w.address m) [ [] ↦ panic | x ∷ _ ↦ ok x m ]

-- What a read returns: a window on the front slice, or a copy.
pub data Data : Type 0 where
  window : Bytes → Data
  copied : List ℕ → Data

module _ (b : BufferManager) where
  -- The loop of `read`: `rounds` slices and no more are there.
  unfoldable pub read_loop : ℕ → LinkedBuffer → ℕ → List ℕ → Command (List ℕ × LinkedBuffer)
  unfolding read_next_slice
  read_loop zero l size done = pure (done, l)
  read_loop (suc rounds) l size done = elim l.slices [
    | [] ↦ pure (done, l)
    | s ∷ rest ↦ if leb size (length done) then pure (done, l) else (do
      (w, error, s') ← read_slice s (size - length done)
      bytes ← read_bytes_of w
      elim error [
        | none ↦ pure (done ++ bytes, set_front s' l)
        | some _ ↦ (do
          l' ← read_next_slice b (set_front s' l)
          read_loop rounds l' size (done ++ bytes))
      ])
  ]

  -- The slow path of `ReadBytes`.
  unfoldable pub read_slow : ℕ → LinkedBuffer → ℕ → List ℕ → Command (List ℕ × LinkedBuffer)
  unfolding read_next_slice
  read_slow zero l size done = crash
  read_slow (suc rounds) l size done = if size == 0 then pure (done, l) else (do
    s ← front l
    (w, _, s') ← read_slice s size
    bytes ← read_bytes_of w
    l' ←
        (if length bytes == size then pure (set_front s' l) else read_next_slice b (set_front s' l))
    read_slow rounds l' (size - length bytes) (done ++ bytes))

  -- The slow path of `ReadString`, which skips empty slices first.
  unfoldable pub read_text : ℕ → LinkedBuffer → ℕ → List ℕ → Command (List ℕ × LinkedBuffer)
  unfolding read_next_slice
  read_text zero l size done = crash
  read_text (suc rounds) l size done = if size == 0 then pure (done, l) else (do
    s ← front l
    l1 ← (if slice_size s == 0 then read_next_slice b l else pure l)
    t ← front l1
    (w, _, t') ← read_slice t size
    bytes ← read_bytes_of w
    read_text rounds (set_front t' l1) (size - length bytes) (done ++ bytes))

  -- The loop of `Discard`; it counts what was skipped.
  unfoldable pub discard_loop : ℕ → LinkedBuffer → ℕ → ℕ → Command (ℕ × LinkedBuffer)
  unfolding read_next_slice
  discard_loop zero l size done = crash
  discard_loop (suc rounds) l size done = do
    s ← front l
    let (n, s') = skip s size
    if size - n == 0 then pure (done + n, set_front s' l) else (do
      l' ← read_next_slice b (set_front s' l)
      discard_loop rounds l' (size - n) (done + n))

  -- The loop of `Peek` over the slices behind the front one.
  unfoldable pub peek_rest : List BufferSlice → ℕ → List ℕ → Command (List ℕ)
  peek_rest [] size done = pure done
  peek_rest (s ∷ rest) size done = if size == 0 then pure done else (do
    (w, _, _) ← peek s size
    bytes ← read_bytes_of w
    peek_rest rest (size - length bytes) (done ++ bytes))

  -- The bodies of the reading operations, where enough data is there.
  unfoldable pub read_body : ℕ → LinkedBuffer → Command (List ℕ × LinkedBuffer)
  unfolding read_loop
  read_body size l = do
    (bytes, l2) ← read_loop (suc (length l.slices)) l size []
    pure (bytes, record l2 { len = l2.len - length bytes })

  unfoldable pub read_byte_body : LinkedBuffer → Command (ℕ × LinkedBuffer)
  unfolding read_next_slice
  read_byte_body l = do
    s ← front l
    (w, error, s') ← read_slice s 1
    elim error [
      | none ↦ (do byte ← first_byte w; pure (byte, record (set_front s' l) { len = l.len - 1 }))
      | some _ ↦ (do
        l2 ← read_next_slice b (set_front s' l)
        t ← front l2
        (w', _, t') ← read_slice t 1
        byte ← first_byte w'
        pure (byte, record (set_front t' l2) { len = l2.len - 1 }))
    ]

  unfoldable pub read_bytes_body : ℕ → LinkedBuffer → Command (Data × LinkedBuffer)
  unfolding read_next_slice read_slow
  read_bytes_body size l = do
    s ← front l
    l2 ← (if slice_size s == 0 then read_next_slice b l else pure l)
    t ← front l2
    if leb size (slice_size t)
        then (do
          (w, _, t') ← read_slice t size
          pure (window w, record (set_front t' l2) { current_pinned = true; len = l2.len - size }))
        else (do
          (bytes, l3) ← read_slow (suc (length l2.slices)) l2 size []
          pure (copied bytes, record l3 { len = l3.len - size }))

  unfoldable pub read_string_body : ℕ → LinkedBuffer → Command (List ℕ × LinkedBuffer)
  unfolding read_text
  read_string_body size l = do
    s ← front l
    if leb size (slice_size s)
        then (do
          (w, _, s') ← read_slice s size
          bytes ← read_bytes_of w
          pure (bytes, record (set_front s' l) { len = l.len - size }))
        else (do
          (bytes, l2) ← read_text (suc (length l.slices)) l size []
          pure (bytes, record l2 { len = l2.len - size }))

  unfoldable pub peek_body : ℕ → LinkedBuffer → Command (Data × LinkedBuffer)
  unfolding peek_rest
  peek_body size l = elim l.slices [
    | [] ↦ crash
    | s ∷ rest ↦ (do
      (w, _, _) ← peek s size
      if w.len == size then pure (window w, record l { current_pinned = true }) else (do
        bytes ← read_bytes_of w
        all ← peek_rest rest (size - length bytes) bytes
        pure (copied all, l)))
  ]

  unfoldable pub discard_body : ℕ → LinkedBuffer → Command (ℕ × LinkedBuffer)
  unfolding discard_loop
  discard_body size l = do
    (n, l2) ← discard_loop (suc (length l.slices)) l size 0
    pure (n, record l2 { len = l2.len - n })

  module _ (read_more : ℕ → LinkedBuffer → Command (Option Error × LinkedBuffer)) where
    -- `if l.len < size { if err = l.stream.readMore(size); err != nil { return ..., err } }`, then the body.
    unfoldable pub attempt :
        {A : Type 0}
        → ℕ
        → A
        → (LinkedBuffer → Command (A × LinkedBuffer))
        → LinkedBuffer
        → Command (A × Option Error × LinkedBuffer)
    attempt size nothing body l =
        let go : LinkedBuffer → Command (_ × Option Error × LinkedBuffer) =
          λ l1. (do (a, l2) ← body l1; pure (a, none, l2)) in
        if ltb l.len size
        then (do
          (error, l1) ← read_more size l
          elim error [ none ↦ go l1 | some e ↦ pure (nothing, some e, l1) ])
        else go l

    -- `read`, which copies into a slice of `size` bytes; here its bytes are returned.
    unfoldable pub read : ℕ → LinkedBuffer → Command (List ℕ × Option Error × LinkedBuffer)
    unfolding attempt read_body
    read zero l = pure ([], none, l)
    read (suc k) l = attempt 1 [] (read_body (suc k)) l

    -- `ReadByte`
    unfoldable pub read_byte : LinkedBuffer → Command (ℕ × Option Error × LinkedBuffer)
    unfolding attempt read_byte_body
    read_byte l = attempt 1 0 read_byte_body l

    -- `ReadBytes`
    unfoldable pub read_bytes : ℕ → LinkedBuffer → Command (Data × Option Error × LinkedBuffer)
    unfolding attempt read_bytes_body
    read_bytes zero l = pure (copied [], none, l)
    read_bytes (suc k) l = attempt (suc k) (copied []) (read_bytes_body (suc k)) l

    -- `ReadString`
    unfoldable pub read_string : ℕ → LinkedBuffer → Command (List ℕ × Option Error × LinkedBuffer)
    unfolding attempt read_string_body
    read_string zero l = pure ([], none, l)
    read_string (suc k) l = attempt (suc k) [] (read_string_body (suc k)) l

    -- `Peek`
    unfoldable pub peek_bytes : ℕ → LinkedBuffer → Command (Data × Option Error × LinkedBuffer)
    unfolding attempt peek_body
    peek_bytes zero l = pure (copied [], none, l)
    peek_bytes (suc k) l = attempt (suc k) (copied []) (peek_body (suc k)) l

    -- `Discard`
    unfoldable pub discard : ℕ → LinkedBuffer → Command (ℕ × Option Error × LinkedBuffer)
    unfolding attempt discard_body
    discard size l = attempt size 0 (discard_body size) l
