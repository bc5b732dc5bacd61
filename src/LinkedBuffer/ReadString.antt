-- ===== src/LinkedBuffer/ReadString.antt =====
-- `ReadString` of buffer.go.
use native.Mathlib.Decide.{dec_le}
use shmipc_go.Prelude.{
  ℕ, zero, suc, ◌-◌, ◌≤◌, ◌≡◌, refl, sym, ◌∙◌, List, [], ◌∷◌, take, drop, length, arith, Option,
  none,
}
use shmipc_go.Memory.{Mem}
use shmipc_go.Errors.{Error}
use shmipc_go.Command.{Command, ok}
use shmipc_go.BufferSlice.{BufferSlice}
use shmipc_go.BufferManager.{BufferManager}
use shmipc_go.LinkedBuffer.{LinkedBuffer, slice_size}
use shmipc_go.LinkedBuffer.Reading.{attempt, read_string, read_string_body}
use shmipc_go.LinkedBuffer.Contents.{
  contents, total, AllCursors, IsReadable, IsBuffer, Drained, take-contents_le, total-drop,
  no_total,
}
use shmipc_go.LinkedBuffer.Front.{advance, read_slice-enough, window_of-unread}
use shmipc_go.LinkedBuffer.Slow.{IsReadable-advance, contents-advance}
use shmipc_go.LinkedBuffer.Texts.{RunsTo, TextClaim, read_text-run}

module _ (b : BufferManager) where
  body-run :
      (ss : List BufferSlice) (l : LinkedBuffer) (k : ℕ) (m : Mem)
      → IsReadable b ss m
      → suc k ≤ total ss
      → (l' : LinkedBuffer) × (ss' : List BufferSlice) × (m' : Mem) × (read_string_body b
            (suc k)
            (record l { slices = ss })
            m
          ≡ ok (take (suc k) (contents ss m), record l' { slices = ss' }) m')
        × (contents ss' m' ≡ drop (suc k) (contents ss m))
        × IsReadable b ss' m'
        × (l'.len ≡ l.len - suc k)
  unfolding read_string_body RunsTo AllCursors TextClaim
  body-run [] l k m v enough = absurd (omega (arith, no_total))
  body-run (s ∷ rest) l k m v enough = elim (dec_le (suc k) (slice_size s)) [
    | yes all ↦
        let taken =
          window_of-unread s (suc k) m v.cursors.0 all
          ∙ sym (take-contents_le s rest m (suc k) all) in
        (
          record l { len = l.len - suc k },
          advance s (suc k) ∷ rest,
          m,
          ground (arith, read_slice-enough s (suc k) m v.cursors.0 all, taken),
          contents-advance b s rest (suc k) m v all,
          IsReadable-advance b s rest (suc k) m v all,
          refl,
        )
    | no less ↦
        let (l', ss', m', ran, (left, readable, same)) =
          read_text-run b (suc (suc (length rest))) s rest l (suc k) [] m v enough (omega arith) in
        (
          record l' { len = l'.len - suc k },
          ss',
          m',
          ground (arith, ran),
          left,
          readable,
          omega (arith, same),
        )
  ]

-- For a buffer whose `len` is the number of its unread bytes and whose slices have their cursors in order, those in
-- shared memory on different buffers that the manager's valid lists have handed out, and the others with their data
-- outside of these lists:
-- `ReadString` of no more bytes than are there returns the next `size` ones, and exactly these are gone from
-- the buffer, which can be read further; it does not wait and does not fail or panic.
pub read_string_lem :
    (b : BufferManager) (read_more : ℕ → LinkedBuffer → Command (Option Error × LinkedBuffer))
    (size : ℕ) (l : LinkedBuffer) (m : Mem)
    → IsBuffer b l m
    → size ≤ l.len
    → (l' : LinkedBuffer) × (m' : Mem) × (read_string b read_more size l m
        ≡ ok (take size (contents l.slices m), none, l') m')
      × Drained b size l m l' m'
unfolding read_string attempt
read_string_lem b read_more zero l m v enough = (l, m, refl, record { left = refl; valid = v })
read_string_lem b read_more (suc k) l m v enough =
    let (l', ss', m', ran, left, readable, len) =
      body-run b l.slices l k m v.readable (omega (arith, v.len)) in
    (
      record l' { slices = ss' },
      m',
      ground (arith, ran),
      record {
        left = left;
        valid = record {
          readable = readable;
          len = omega (arith, v.len, total-drop l.slices ss' m m' (suc k) left);
        };
      },
    )
