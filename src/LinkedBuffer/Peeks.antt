-- ===== src/LinkedBuffer/Peeks.antt =====
-- `Peek` of buffer.go.
use native.Mathlib.Decide.{dec_le}
use shmipc_go.Prelude.{
  ℕ, zero, suc, ◌+◌, ◌-◌, ◌≤◌, ◌<◌, ◌≡◌, refl, sym, ap, ◌∙◌, List, [], ◌∷◌, ◌++◌, take, length,
  arith, Option, none, some, Bool, true, take-nil, append-nil, append_assoc, length-take,
}
use shmipc_go.Memory.{Mem}
use shmipc_go.Errors.{Error, not_enough_data}
use shmipc_go.Command.{Command, ok}
use shmipc_go.BufferSlice.{BufferSlice, peek}
use shmipc_go.BufferSlice.Fifo.{IsCursor, unread}
use shmipc_go.BufferSlice.Window.{length-load_bytes}
use shmipc_go.BufferManager.{BufferManager}
use shmipc_go.LinkedBuffer.{LinkedBuffer, slice_size}
use shmipc_go.LinkedBuffer.Reading.{Data, window, copied, attempt, peek_bytes, peek_body, peek_rest}
use shmipc_go.LinkedBuffer.Contents.{
  contents, total, AllCursors, take-contents_le, take-contents_ge, no_total,
}
use shmipc_go.LinkedBuffer.Front.{
  window_of, rest_window, read_slice-enough, read_slice-less, window_of-unread,
}
use shmipc_go.LinkedBuffer.ReadBytes.{bytes_of}

module _ (s : BufferSlice) (size : ℕ) (m : Mem) (v : IsCursor s) where
  peek-enough : size ≤ slice_size s → peek s size m ≡ ok (window_of s size, none, s) m
  unfolding peek
  peek-enough h = ground (arith, read_slice-enough s size m v h)

  peek-less : slice_size s < size → peek s size m ≡ ok (rest_window s, some not_enough_data, s) m
  unfolding peek
  peek-less h = ground (arith, read_slice-less s size m v h)

module _ (b : BufferManager) where
  -- A step of the loop that peeked `bytes`.
  module _ (s : BufferSlice) (ss : List BufferSlice) (k : ℕ) (done : List ℕ) (m : Mem)
      (v : IsCursor s) where
    enough_step :
        suc k ≤ slice_size s
        → peek_rest b (s ∷ ss) (suc k) done m
          ≡ peek_rest b ss
              (suc k - length (take (suc k) (unread s m)))
              (done ++ take (suc k) (unread s m))
              m
    unfolding peek_rest
    enough_step h = ground (arith, peek-enough s (suc k) m v h, window_of-unread s (suc k) m v h)

    less_step :
        slice_size s < suc k
        → peek_rest b (s ∷ ss) (suc k) done m
          ≡ peek_rest b ss (suc k - length (unread s m)) (done ++ unread s m) m
    unfolding peek_rest
    less_step h = ground (arith, peek-less s (suc k) m v h)

  peek_rest-run :
      (ss : List BufferSlice) (size : ℕ) (done : List ℕ) (m : Mem)
      → AllCursors ss
      → peek_rest b ss size done m ≡ ok (done ++ take size (contents ss m)) m
  unfolding peek_rest AllCursors contents
  peek_rest-run [] size done m v =
      ap (λ d. ok d m) (sym (append-nil done) ∙ ap (λ d. done ++ d) (sym (take-nil size)))
  peek_rest-run (s ∷ ss) zero done m v = ap (λ d. ok d m) (sym (append-nil done))
  peek_rest-run (s ∷ ss) (suc k) done m v = elim (dec_le (suc k) (slice_size s)) [
    | yes all ↦
        let taken = take (suc k) (unread s m) in
        let none_left : suc k - length taken ≡ 0 =
          omega (arith, length-take (suc k) (unread s m), counted) in
        enough_step s ss k done m v.0 all
        ∙ peek_rest-run ss (suc k - length taken) (done ++ taken) m v.1
        ∙ ap (λ d. ok d m)
            (ap (λ n. (done ++ taken) ++ take n (contents ss m)) none_left
              ∙ append-nil (done ++ taken)
              ∙ ap (λ d. done ++ d) (sym (take-contents_le s ss m (suc k) all)))
    | no less ↦
        let skipped : suc k - length (unread s m) ≡ suc k - slice_size s = omega (arith, counted) in
        less_step s ss k done m v.0 (omega arith)
        ∙ peek_rest-run ss (suc k - length (unread s m)) (done ++ unread s m) m v.1
        ∙ ap (λ d. ok d m)
            (append_assoc done (unread s m) (take (suc k - length (unread s m)) (contents ss m))
              ∙ ap (λ n. done ++ (unread s m ++ take n (contents ss m))) skipped
              ∙ ap (λ d. done ++ d) (sym (take-contents_ge s ss m (suc k) (omega arith))))
  ]
    where
      counted : length (unread s m) ≡ slice_size s
      counted = length-load_bytes (slice_size s) (s.block.address + s.read_index) m

  body-run :
      (ss : List BufferSlice) (l : LinkedBuffer) (k : ℕ) (m : Mem)
      → AllCursors ss
      → suc k ≤ total ss
      → (d : Data) × (pinned : Bool) × (peek_body b (suc k) (record l { slices = ss }) m
          ≡ ok (d, record l { slices = ss; current_pinned = pinned }) m)
        × (bytes_of d m ≡ take (suc k) (contents ss m))
  unfolding peek_body AllCursors
  body-run [] l k m v enough = absurd (omega (arith, no_total))
  body-run (s ∷ rest) l k m v enough = elim (dec_le (suc k) (slice_size s)) [
    | yes all ↦ (
      window (window_of s (suc k)),
      true,
      ground (arith, peek-enough s (suc k) m v.0 all),
      window_of-unread s (suc k) m v.0 all ∙ sym (take-contents_le s rest m (suc k) all),
    )
    | no less ↦
        let counted = length-load_bytes (slice_size s) (s.block.address + s.read_index) m in
        let ran = peek_rest-run rest (suc k - length (unread s m)) (unread s m) m v.1 in
        let skipped : suc k - length (unread s m) ≡ suc k - slice_size s = omega (arith, counted) in
        (
          copied (unread s m ++ take (suc k - length (unread s m)) (contents rest m)),
          l.current_pinned,
          ground (arith, peek-less s (suc k) m v.0 (omega arith), ran),
          ap (λ n. unread s m ++ take n (contents rest m)) skipped
              ∙ sym (take-contents_ge s rest m (suc k) (omega arith)),
        )
  ]

-- `Peek` of no more bytes than are there, in a buffer whose `len` is the number of its unread
-- bytes and whose slices have their cursors in order, returns the next `size` ones and takes none: of the buffer at most
-- the mark that its front slice is pinned changes, and memory is not written. It does not wait and does
-- not fail or panic.
pub peek_bytes_lem :
    (b : BufferManager) (read_more : ℕ → LinkedBuffer → Command (Option Error × LinkedBuffer))
    (size : ℕ) (l : LinkedBuffer) (m : Mem)
    → AllCursors l.slices
    → l.len ≡ total l.slices
    → size ≤ l.len
    → (d : Data) × (pinned : Bool) × (peek_bytes b read_more size l m
        ≡ ok (d, none, record l { current_pinned = pinned }) m)
      × (bytes_of d m ≡ take size (contents l.slices m))
unfolding peek_bytes attempt
peek_bytes_lem b read_more zero l m v len enough = (copied [], l.current_pinned, refl, refl)
peek_bytes_lem b read_more (suc k) l m v len enough =
    let (d, pinned, ran, taken) = body-run b l.slices l k m v (omega (arith, len)) in
    (d, pinned, ground (arith, ran), taken)
