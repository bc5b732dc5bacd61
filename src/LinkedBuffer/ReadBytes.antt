-- ===== src/LinkedBuffer/ReadBytes.antt =====
-- `ReadBytes` of buffer.go.
use native.Mathlib.Decide.{dec_le}
use shmipc_go.Prelude.{
  true, if◌then◌else◌, leb, ℕ, zero, suc, ◌+◌, ◌-◌, ◌≤◌, ◌≡◌, refl, sym, ap, ap₂, ◌∙◌, List, [],
  ◌∷◌, ◌++◌, take, drop, length, arith, Option, none,
}
use shmipc_go.Memory.{Mem}
use shmipc_go.Errors.{Error}
use shmipc_go.Command.{Command, ok, pure, ◌>>=◌}
use shmipc_go.BufferSlice.{BufferSlice, load_bytes, read_slice}
use shmipc_go.BufferSlice.Window.{no_bytes}
use shmipc_go.BufferManager.{BufferManager}
use shmipc_go.LinkedBuffer.{LinkedBuffer, slice_size, front, set_front}
use shmipc_go.LinkedBuffer.Reading.{
  Data, window, copied, attempt, read_bytes, read_bytes_body, read_slow,
}
use shmipc_go.LinkedBuffer.Contents.{
  contents, total, AllCursors, IsReadable, IsBuffer, Drained, take-contents_le, take-contents_ge,
  drop-contents_ge, total-drop,
}
use shmipc_go.LinkedBuffer.Front.{
  window_of, advance, read_slice-enough, window_of-unread, read_next_slice-run,
}
use shmipc_go.LinkedBuffer.Slow.{IsReadable-advance, contents-advance, read_slow-run}

abbrev pub bytes_of : Data → Mem → List ℕ
bytes_of (window w) m = load_bytes w.len w.address m
bytes_of (copied xs) m = xs

module _ (b : BufferManager) where
  -- From the front slice that was chosen.
  abbrev from_front : ℕ → LinkedBuffer → Command (Data × LinkedBuffer)
  from_front size l = do
    t ← front l
    if leb size (slice_size t)
        then (do
          (w, _, t') ← read_slice t size
          pure (window w, record (set_front t' l) { current_pinned = true; len = l.len - size }))
        else (do
          (bytes, l3) ← read_slow b (suc (length l.slices)) l size []
          pure (copied bytes, record l3 { len = l3.len - size }))

  Delivers :
      Command (Data × LinkedBuffer) → List BufferSlice → LinkedBuffer → ℕ → Mem → Mem → Type 0
  Delivers run ss l size m m0 =
      (d : Data) × (l' : LinkedBuffer) × (m' : Mem) × (run m ≡ ok (d, l') m')
      × (bytes_of d m' ≡ take size (contents ss m0))
      × (contents l'.slices m' ≡ drop size (contents ss m0))
      × IsBuffer b l' m'

  from_front-run :
      (ss : List BufferSlice) (l : LinkedBuffer) (k : ℕ) (m : Mem)
      → IsReadable b ss m
      → l.len ≡ total ss
      → suc k ≤ total ss
      → Delivers (from_front (suc k) (record l { slices = ss })) ss l (suc k) m m
  unfolding total Delivers AllCursors
  from_front-run [] l k m v len enough = absurd (omega arith)
  from_front-run (s ∷ rest) l k m v len enough = elim (dec_le (suc k) (slice_size s)) [
    | yes all ↦ (
      window (window_of s (suc k)),
      record l { slices = advance s (suc k) ∷ rest; current_pinned = true; len = l.len - suc k },
      m,
      ground (arith, read_slice-enough s (suc k) m v.cursors.0 all),
      window_of-unread s (suc k) m v.cursors.0 all ∙ sym (take-contents_le s rest m (suc k) all),
      contents-advance b s rest (suc k) m v all,
      record { readable = IsReadable-advance b s rest (suc k) m v all; len = omega arith },
    )
    | no less ↦
        let (l', ss', m', ran, (left, readable, same)) =
          read_slow-run b (suc (suc (length rest))) (s ∷ rest) l (suc k) [] m v enough
            (omega arith) in
        (
          copied (take (suc k) (contents (s ∷ rest) m)),
          record l' { slices = ss'; len = l'.len - suc k },
          m',
          ground (arith, ran),
          refl,
          left,
          record {
            readable = readable;
            len = omega (arith, total-drop (s ∷ rest) ss' m m' (suc k) left);
          },
        )
  ]

  body-run :
      (ss : List BufferSlice) (l : LinkedBuffer) (k : ℕ) (m : Mem)
      → IsReadable b ss m
      → l.len ≡ total ss
      → suc k ≤ total ss
      → Delivers (read_bytes_body b (suc k) (record l { slices = ss })) ss l (suc k) m m
  unfolding total Delivers read_bytes_body
  body-run [] l k m v len enough = absurd (omega arith)
  body-run (s ∷ rest) l k m v len enough = elim (dec_le 1 (slice_size s)) [
    | yes some_left ↦
        let (d, l', m', ran, taken, left, valid) = from_front-run (s ∷ rest) l k m v len enough in
        (d, l', m', ground (arith, ran), taken, left, valid)
    | no none_left ↦
        let (l1, m1, ran, same, readable, len1) = read_next_slice-run b l s rest s.read_index m v in
        let (d, l', m', ran', taken, left, valid) =
          from_front-run rest l1 k m1 readable (omega arith) (omega arith) in
        let skipped : suc k - slice_size s ≡ suc k = omega arith in
        (
          d,
          l',
          m',
          ground (arith, ran, ran'),
          taken
              ∙ ap₂ take (sym skipped) same
              ∙ ap (λ c. c ++ take (suc k - slice_size s) (contents rest m))
                  (sym (no_bytes (slice_size s) (s.block.address + s.read_index) m (omega arith)))
              ∙ sym (take-contents_ge s rest m (suc k) (omega arith)),
          left
              ∙ ap₂ drop (sym skipped) same
              ∙ sym (drop-contents_ge s rest m (suc k) (omega arith)),
          valid,
        )
  ]

-- For a buffer whose `len` is the number of its unread bytes and whose slices have their cursors in order, those in
-- shared memory on different buffers that the manager's valid lists have handed out, and the others with their data
-- outside of these lists:
-- `ReadBytes` of no more bytes than are there does not wait and does not fail or panic: the bytes that it
-- returns, a window of the front slice or a copy across slices, are the next `size` ones, and exactly
-- these are gone from the buffer, which can be read further.
pub read_bytes_lem :
    (b : BufferManager) (read_more : ℕ → LinkedBuffer → Command (Option Error × LinkedBuffer))
    (size : ℕ) (l : LinkedBuffer) (m : Mem)
    → IsBuffer b l m
    → size ≤ l.len
    → (d : Data) × (l' : LinkedBuffer) × (m' : Mem) × (read_bytes b read_more size l m
        ≡ ok (d, none, l') m')
      × (bytes_of d m' ≡ take size (contents l.slices m))
      × Drained b size l m l' m'
unfolding read_bytes attempt Delivers
read_bytes_lem b read_more zero l m v enough =
    (copied [], l, m, refl, refl, record { left = refl; valid = v })
read_bytes_lem b read_more (suc k) l m v enough =
    let (d, l', m', ran, taken, left, valid) =
      body-run b l.slices l k m v.readable v.len (omega (arith, v.len)) in
    (d, l', m', ground (arith, ran), taken, record { left = left; valid = valid })
