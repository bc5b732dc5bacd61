-- ===== src/LinkedBuffer/Copies.antt =====
-- `read` of buffer.go, which fills a slice of the caller.
use native.Mathlib.Decide.{dec_le}
use shmipc_go.Prelude.{
  ℕ, zero, suc, ◌+◌, ◌-◌, ◌≤◌, ◌<◌, ◌≡◌, refl, sym, ap, ◌∙◌, List, [], ◌∷◌, ◌++◌, take, drop,
  length, arith, Option, none, append-nil, append_assoc, length-append, length-take, take-nil,
  drop-nil,
}
use shmipc_go.Memory.{Mem}
use shmipc_go.Errors.{Error}
use shmipc_go.Command.{Command, ok}
use shmipc_go.BufferSlice.{BufferSlice}
use shmipc_go.BufferSlice.Fifo.{unread}
use shmipc_go.BufferSlice.Window.{length-load_bytes}
use shmipc_go.BufferManager.{BufferManager}
use shmipc_go.LinkedBuffer.{LinkedBuffer, slice_size, read_next_slice}
use shmipc_go.LinkedBuffer.Reading.{attempt, read, read_body, read_loop}
use shmipc_go.LinkedBuffer.Contents.{
  contents, AllCursors, IsReadable, IsBuffer, Drained, take-contents_le, take-contents_ge,
  drop-contents_ge, total-drop, length-contents,
}
use shmipc_go.LinkedBuffer.Front.{
  advance, exhaust, read_slice-enough, read_slice-less, window_of-unread, read_next_slice-run,
}
use shmipc_go.LinkedBuffer.Slow.{Reads, IsReadable-advance, contents-advance}

module _ (b : BufferManager) (size : ℕ) where
  module _ (rounds : ℕ) (l : LinkedBuffer) (s : BufferSlice) (rest : List BufferSlice)
      (done : List ℕ) (m : Mem) (v : IsReadable b (s ∷ rest) m) where
    filled_step :
        size ≤ length done
        → read_loop b (suc rounds) (record l { slices = s ∷ rest }) size done m
          ≡ ok (done, record l { slices = s ∷ rest }) m
    unfolding read_loop
    filled_step h = ground arith

    module _ (k : ℕ) (want : size - length done ≡ suc k) where
      enough_step :
          suc k ≤ slice_size s
          → read_loop b (suc rounds) (record l { slices = s ∷ rest }) size done m
            ≡ ok
                (done ++ take (suc k) (unread s m), record l { slices = advance s (suc k) ∷ rest })
                m
      unfolding read_loop AllCursors
      enough_step h = ground (
        arith,
        want,
        read_slice-enough s (suc k) m v.cursors.0 h,
        window_of-unread s (suc k) m v.cursors.0 h,
      )

      less_step :
          (l' : LinkedBuffer) (m' : Mem)
          → slice_size s < suc k
          → read_next_slice b (record l { slices = exhaust s ∷ rest }) m ≡ ok l' m'
          → read_loop b (suc rounds) (record l { slices = s ∷ rest }) size done m
            ≡ read_loop b rounds l' size (done ++ unread s m) m'
      unfolding read_loop AllCursors
      less_step l' m' h ran = ground (arith, want, read_slice-less s (suc k) m v.cursors.0 h, ran)

  nothing :
      (rounds : ℕ) (l : LinkedBuffer) (done : List ℕ) (m : Mem)
      → read_loop b (suc rounds) (record l { slices = [] }) size done m
        ≡ ok (done, record l { slices = [] }) m
  unfolding read_loop
  nothing rounds l done m = refl

  read_loop-run :
      (rounds : ℕ) (ss : List BufferSlice) (l : LinkedBuffer) (done : List ℕ) (k : ℕ) (m : Mem)
      → IsReadable b ss m
      → length ss < rounds
      → size - length done ≡ k
      → (l' : LinkedBuffer) × (ss' : List BufferSlice) × (m' : Mem) × (read_loop b rounds
            (record l { slices = ss })
            size
            done
            m
          ≡ ok (done ++ take k (contents ss m), record l' { slices = ss' }) m')
        × Reads b ss k l m l' ss' m'
  unfolding contents
  read_loop-run zero ss l done k m v rounds_left want = absurd (omega arith)
  read_loop-run (suc rounds) [] l done k m v rounds_left want = (
    l,
    [],
    m,
    nothing rounds l done m
        ∙ ap (λ d. ok (d, record l { slices = [] }) m)
            (sym (append-nil done) ∙ ap (λ d. done ++ d) (sym (take-nil k))),
    (sym (drop-nil k), v, refl),
  )
  read_loop-run (suc rounds) (s ∷ rest) l done zero m v rounds_left want = (
    l,
    s ∷ rest,
    m,
    filled_step rounds l s rest done m v (omega arith)
        ∙ ap (λ d. ok (d, record l { slices = s ∷ rest }) m) (sym (append-nil done)),
    (refl, v, refl),
  )
  read_loop-run (suc rounds) (s ∷ rest) l done (suc k) m v rounds_left want =
      elim (dec_le (suc k) (slice_size s)) [
        | yes all ↦ (
          l,
          advance s (suc k) ∷ rest,
          m,
          enough_step rounds l s rest done m v k want all
              ∙ ap (λ d. ok (done ++ d, record l { slices = advance s (suc k) ∷ rest }) m)
                  (sym (take-contents_le s rest m (suc k) all)),
          (
            contents-advance b s rest (suc k) m v all,
            IsReadable-advance b s rest (suc k) m v all,
            refl,
          ),
        )
        | no less ↦
            let (l1, m1, ran, same, left, len) = read_next_slice-run b l s rest s.write_index m v in
            let counted = length-load_bytes (slice_size s) (s.block.address + s.read_index) m in
            let (l2, ss2, m2, rest_ran, (dropped, readable, len')) =
              read_loop-run rounds rest l1 (done ++ unread s m) (suc k - slice_size s) m1 left
                (omega arith) (omega (arith, counted, want, length-append done (unread s m))) in
            (
              l2,
              ss2,
              m2,
              less_step rounds l s rest done m v k want (record l1 { slices = rest }) m1
                    (omega arith) ran
                  ∙ rest_ran
                  ∙ ap (λ d. ok (d, record l2 { slices = ss2 }) m2)
                      (ap (λ c. (done ++ unread s m) ++ take (suc k - slice_size s) c) same
                        ∙ append_assoc done (unread s m)
                            (take (suc k - slice_size s) (contents rest m))
                        ∙ ap (λ d. done ++ d)
                            (sym (take-contents_ge s rest m (suc k) (omega arith)))),
              (
                dropped
                    ∙ ap (drop (suc k - slice_size s)) same
                    ∙ sym (drop-contents_ge s rest m (suc k) (omega arith)),
                readable,
                len' ∙ len,
              ),
            )
      ]

-- For a buffer whose `len` is the number of its unread bytes and whose slices have their cursors in order, those in
-- shared memory on different buffers that the manager's valid lists have handed out, and the others with their data
-- outside of these lists:
-- `read` into `size` bytes, of a buffer that is not empty, fills as many as there are data for: it returns
-- the next `size` bytes, or all if they are fewer, and exactly those are gone from the buffer, which can be
-- read further. It does not wait and does not fail or panic.
pub read_lem :
    (b : BufferManager) (read_more : ℕ → LinkedBuffer → Command (Option Error × LinkedBuffer))
    (size : ℕ) (l : LinkedBuffer) (m : Mem)
    → IsBuffer b l m
    → 0 < l.len
    → (l' : LinkedBuffer) × (m' : Mem) × (read b read_more size l m
        ≡ ok (take size (contents l.slices m), none, l') m')
      × Drained b size l m l' m'
unfolding read attempt read_body
read_lem b read_more zero l m v nonempty = (l, m, refl, record { left = refl; valid = v })
read_lem b read_more (suc k) l m v nonempty =
    let (l', ss', m', ran, (left, readable, same)) =
      read_loop-run b (suc k) (suc (length l.slices)) l.slices l [] (suc k) m v.readable
        (omega arith) (omega arith) in
    let counted = length-take (suc k) (contents l.slices m) in
    (
      record l' { slices = ss'; len = l'.len - length (take (suc k) (contents l.slices m)) },
      m',
      ground (arith, ran),
      record {
        left = left;
        valid = record {
          readable = readable;
          len = omega (
            arith,
            same,
            v.len,
            counted,
            length-contents l.slices m,
            total-drop l.slices ss' m m' (suc k) left,
          );
        };
      },
    )
