-- ===== src/LinkedBuffer/Contents.antt =====
-- The bytes of a linked buffer of buffer.go, the numbers of its slices, and when a linked buffer can be read.
use shmipc_go.Prelude.{
  ℕ, ◌+◌, ◌-◌, ◌≤◌, ◌≡◌, refl, sym, ap, ap₂, ◌∙◌, List, [], ◌∷◌, ◌++◌, take, drop, length, arith,
  length-append, length-drop, take-append_le, drop-append_le, take-append_ge, drop-append_ge,
}
use shmipc_go.Memory.{Mem}
use shmipc_go.BufferSlice.{BufferSlice}
use shmipc_go.BufferSlice.Fifo.{IsCursor, unread}
use shmipc_go.BufferSlice.Window.{length-load_bytes, no_bytes}
use shmipc_go.BufferManager.{BufferManager}
use shmipc_go.LinkedBuffer.Owned.{IsOwned}
use shmipc_go.LinkedBuffer.{LinkedBuffer, slice_size}

unfoldable pub contents : List BufferSlice → Mem → List ℕ
contents [] m = []
contents (s ∷ ss) m = unread s m ++ contents ss m

unfoldable pub total : List BufferSlice → ℕ
total [] = 0
total (s ∷ ss) = slice_size s + total ss

unfoldable pub AllCursors : List BufferSlice → Type 0
AllCursors [] = Unit {0}
AllCursors (s ∷ ss) = IsCursor s × AllCursors ss

pub record IsReadable (b : BufferManager) (ss : List BufferSlice) (m : Mem) : Type 0 where
  pub cursors : AllCursors ss
  pub owned : IsOwned b ss m

pub length-contents : (ss : List BufferSlice) (m : Mem) → length (contents ss m) ≡ total ss
unfolding contents total
length-contents [] m = refl
length-contents (s ∷ ss) m =
    length-append (unread s m) (contents ss m)
    ∙ ap₂ ◌+◌ (length-load_bytes (slice_size s) (s.block.address + s.read_index) m)
        (length-contents ss m)

-- What `size` bytes are of a chain, split at its front slice.
module _ (s : BufferSlice) (ss : List BufferSlice) (m : Mem) (size : ℕ) where
  count : length (unread s m) ≡ slice_size s
  count = length-load_bytes (slice_size s) (s.block.address + s.read_index) m

  pub take-contents_le :
      size ≤ slice_size s → take size (contents (s ∷ ss) m) ≡ take size (unread s m)
  unfolding contents
  take-contents_le h = take-append_le size (unread s m) (contents ss m) (omega (arith, count))

  pub drop-contents_le :
      size ≤ slice_size s
      → drop size (contents (s ∷ ss) m) ≡ drop size (unread s m) ++ contents ss m
  unfolding contents
  drop-contents_le h = drop-append_le size (unread s m) (contents ss m) (omega (arith, count))

  pub take-contents_ge :
      slice_size s ≤ size
      → take size (contents (s ∷ ss) m) ≡ unread s m ++ take (size - slice_size s) (contents ss m)
  unfolding contents
  take-contents_ge h =
      take-append_ge size (unread s m) (contents ss m) (omega (arith, count))
      ∙ ap (λ k. unread s m ++ take k (contents ss m)) {x = size - length (unread s m)}
          {y = size - slice_size s} (omega (arith, count))

  pub drop-contents_ge :
      slice_size s ≤ size
      → drop size (contents (s ∷ ss) m) ≡ drop (size - slice_size s) (contents ss m)
  unfolding contents
  drop-contents_ge h =
      drop-append_ge size (unread s m) (contents ss m) (omega (arith, count))
      ∙ ap (λ k. drop k (contents ss m)) {x = size - length (unread s m)} {y = size - slice_size s}
          (omega (arith, count))

-- A buffer that can be read: its slices, and the count of their unread bytes.
pub record IsBuffer (b : BufferManager) (l : LinkedBuffer) (m : Mem) : Type 0 where
  pub readable : IsReadable b l.slices m
  pub len : l.len ≡ total l.slices

-- `size` bytes are gone from the front of the buffer, and it can be read further.
pub record Drained (b : BufferManager) (size : ℕ) (l : LinkedBuffer) (m : Mem) (l' : LinkedBuffer)
    (m' : Mem) : Type 0 where
  pub left : contents l'.slices m' ≡ drop size (contents l.slices m)
  pub valid : IsBuffer b l' m'

-- What is left has the right count.
pub total-drop :
    (ss ss' : List BufferSlice) (m m' : Mem) (size : ℕ)
    → contents ss' m' ≡ drop size (contents ss m)
    → total ss' ≡ total ss - size
total-drop ss ss' m m' size e =
    sym (length-contents ss' m')
    ∙ ap length e
    ∙ length-drop size (contents ss m)
    ∙ ap (λ n. n - size) (length-contents ss m)

pub total-cons :
    (s : BufferSlice) (ss : List BufferSlice) → total (s ∷ ss) ≡ slice_size s + total ss
unfolding total
total-cons s ss = refl

pub contents-empty :
    (s : BufferSlice) (ss : List BufferSlice) (m : Mem)
    → slice_size s ≡ 0
    → contents (s ∷ ss) m ≡ contents ss m
unfolding contents
contents-empty s ss m empty =
    ap (λ c. c ++ contents ss m) (no_bytes (slice_size s) (s.block.address + s.read_index) m empty)

pub no_total : total [] ≡ 0
unfolding total
no_total = refl
