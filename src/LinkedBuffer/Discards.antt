-- ===== src/LinkedBuffer/Discards.antt =====
-- `Discard` of buffer.go.
use native.Mathlib.Decide.{dec_le}
use shmipc_go.Prelude.{
  ℕ, zero, suc, ◌+◌, ◌-◌, ◌≤◌, ◌<◌, ◌≡◌, refl, sym, ap, ◌∙◌, List, [], ◌∷◌, drop, length, arith,
  Option, none,
}
use shmipc_go.Memory.{Mem}
use shmipc_go.Errors.{Error}
use shmipc_go.Command.{Command, ok}
use shmipc_go.BufferSlice.{BufferSlice}
use shmipc_go.BufferManager.{BufferManager}
use shmipc_go.LinkedBuffer.{LinkedBuffer, slice_size, read_next_slice}
use shmipc_go.LinkedBuffer.Reading.{attempt, discard, discard_body, discard_loop}
use shmipc_go.LinkedBuffer.Contents.{
  contents, total, AllCursors, IsReadable, IsBuffer, Drained, drop-contents_ge, total-drop,
  total-cons, no_total,
}
use shmipc_go.LinkedBuffer.Front.{advance, exhaust, skip-enough, skip-less, read_next_slice-run}
use shmipc_go.LinkedBuffer.Slow.{Reads, IsReadable-advance, contents-advance}

module _ (b : BufferManager) where
  module _ (rounds : ℕ) (l : LinkedBuffer) (s : BufferSlice) (rest : List BufferSlice)
      (size done : ℕ) (m : Mem) (v : IsReadable b (s ∷ rest) m) where
    enough_step :
        size ≤ slice_size s
        → discard_loop b (suc rounds) (record l { slices = s ∷ rest }) size done m
          ≡ ok (done + size, record l { slices = advance s size ∷ rest }) m
    unfolding discard_loop AllCursors
    enough_step h = ground (arith, skip-enough s size m v.cursors.0 h)

    less_step :
        (l' : LinkedBuffer) (m' : Mem)
        → slice_size s < size
        → read_next_slice b (record l { slices = exhaust s ∷ rest }) m ≡ ok l' m'
        → discard_loop b (suc rounds) (record l { slices = s ∷ rest }) size done m
          ≡ discard_loop b rounds l' (size - slice_size s) (done + slice_size s) m'
    unfolding discard_loop AllCursors
    less_step l' m' h ran = ground (arith, skip-less s size m v.cursors.0 h, ran)

  discard_loop-run :
      (rounds : ℕ) (s : BufferSlice) (rest : List BufferSlice) (l : LinkedBuffer) (size done : ℕ)
      (m : Mem)
      → IsReadable b (s ∷ rest) m
      → size ≤ total (s ∷ rest)
      → length rest < rounds
      → (l' : LinkedBuffer) × (ss' : List BufferSlice) × (m' : Mem) × (discard_loop b rounds
            (record l { slices = s ∷ rest })
            size
            done
            m
          ≡ ok (done + size, record l' { slices = ss' }) m')
        × Reads b (s ∷ rest) size l m l' ss' m'
  discard_loop-run zero s rest l size done m v enough rounds_left = absurd (omega arith)
  discard_loop-run (suc rounds) s [] l size done m v enough rounds_left =
      let all : size ≤ slice_size s = omega (arith, total-cons s [], no_total) in
      (
        l,
        advance s size ∷ [],
        m,
        enough_step rounds l s [] size done m v all,
        (contents-advance b s [] size m v all, IsReadable-advance b s [] size m v all, refl),
      )
  discard_loop-run (suc rounds) s (t ∷ rest) l size done m v enough rounds_left =
      elim (dec_le size (slice_size s)) [
        | yes all ↦ (
          l,
          advance s size ∷ t ∷ rest,
          m,
          enough_step rounds l s (t ∷ rest) size done m v all,
          (
            contents-advance b s (t ∷ rest) size m v all,
            IsReadable-advance b s (t ∷ rest) size m v all,
            refl,
          ),
        )
        | no less ↦
            let (l1, m1, ran, same, readable, len) =
              read_next_slice-run b l s (t ∷ rest) s.write_index m v in
            let (l2, ss2, m2, ran', (dropped, readable', len')) =
              discard_loop-run rounds t rest l1 (size - slice_size s) (done + slice_size s) m1
                readable (omega (arith, total-cons s (t ∷ rest))) (omega arith) in
            let count : done + slice_size s + (size - slice_size s) ≡ done + size = omega arith in
            (
              l2,
              ss2,
              m2,
              less_step rounds l s (t ∷ rest) size done m v (record l1 { slices = t ∷ rest }) m1
                    (omega arith) ran
                  ∙ ran'
                  ∙ ap (λ n. ok (n, record l2 { slices = ss2 }) m2) count,
              (
                dropped
                    ∙ ap (drop (size - slice_size s)) same
                    ∙ sym (drop-contents_ge s (t ∷ rest) m size (omega arith)),
                readable',
                len' ∙ len,
              ),
            )
      ]

  body-run :
      (ss : List BufferSlice) (l : LinkedBuffer) (size : ℕ) (m : Mem)
      → IsReadable b ss m
      → 0 < length ss
      → size ≤ total ss
      → (l' : LinkedBuffer) × (ss' : List BufferSlice) × (m' : Mem) × (discard_body b size
            (record l { slices = ss })
            m
          ≡ ok (size, record l' { slices = ss'; len = l.len - size }) m')
        × (contents ss' m' ≡ drop size (contents ss m))
        × IsReadable b ss' m'
  unfolding discard_body
  body-run [] l size m v nonempty enough = absurd (omega arith)
  body-run (s ∷ rest) l size m v nonempty enough =
      let (l', ss', m', ran, (left, readable, same)) =
        discard_loop-run (suc (suc (length rest))) s rest l size 0 m v enough (omega arith) in
      (l', ss', m', ground (arith, ran, same), left, readable)

-- For a buffer whose `len` is the number of its unread bytes and whose slices have their cursors in order, those in
-- shared memory on different buffers that the manager's valid lists have handed out, and the others with their data
-- outside of these lists:
-- `Discard` of no more bytes than are there, in a buffer that has a slice, reports that it skipped `size`
-- bytes; exactly these are gone from the buffer, which can be read further. It does not wait and does not
-- fail or panic.
pub discard_lem :
    (b : BufferManager) (read_more : ℕ → LinkedBuffer → Command (Option Error × LinkedBuffer))
    (size : ℕ) (l : LinkedBuffer) (m : Mem)
    → IsBuffer b l m
    → 0 < length l.slices
    → size ≤ l.len
    → (l' : LinkedBuffer) × (m' : Mem) × (discard b read_more size l m ≡ ok (size, none, l') m')
      × Drained b size l m l' m'
unfolding discard attempt
discard_lem b read_more size l m v nonempty enough =
    let (l', ss', m', ran, left, readable) =
      body-run b l.slices l size m v.readable nonempty (omega (arith, v.len)) in
    (
      record l' { slices = ss'; len = l.len - size },
      m',
      ground (arith, ran),
      record {
        left = left;
        valid = record {
          readable = readable;
          len = omega (arith, v.len, total-drop l.slices ss' m m' size left);
        };
      },
    )
