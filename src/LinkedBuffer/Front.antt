-- ===== src/LinkedBuffer/Front.antt =====
-- Reading at the front of a linked buffer: a slice that has enough, a slice that has less, and the step to
-- the next one.
use native.Mathlib.Decide.{dec_lt}
use shmipc_go.Prelude.{
  ℕ, ◌+◌, ◌-◌, ◌≤◌, ◌<◌, ◌≡◌, refl, sym, ◌∙◌, false, Bool-cases, inl, inr, List, [], ◌∷◌, ◌++◌,
  take, drop, none, some, arith,
}
use shmipc_go.Memory.{Mem}
use shmipc_go.Errors.{not_enough_data}
use shmipc_go.Command.{ok, Bytes}
use shmipc_go.BufferSlice.{BufferSlice, load_bytes, read_slice, skip}
use shmipc_go.BufferSlice.Fifo.{IsCursor, unread}
use shmipc_go.BufferSlice.Window.{same_bytes, no_bytes, take-load_bytes, drop-load_bytes}
use shmipc_go.BufferManager.{BufferManager}
use shmipc_go.LinkedBuffer.{LinkedBuffer, slice_size, read_next_slice, after_pop}
use shmipc_go.LinkedBuffer.Returns.{IsOwned-moved, IsOwned-behind, recycle_front}
use shmipc_go.LinkedBuffer.Contents.{contents, AllCursors, IsReadable}

-- The window of the next `size` bytes of a slice, and the slice behind them.
abbrev pub window_of : BufferSlice → ℕ → Bytes
window_of s size = record {
  address = s.block.address + s.read_index;
  len = s.read_index + size - s.read_index;
  cap = s.block.cap - s.read_index;
}

abbrev pub advance : BufferSlice → ℕ → BufferSlice
advance s size = record s { read_index = s.read_index + size }

abbrev pub exhaust : BufferSlice → BufferSlice
exhaust s = record s { read_index = s.write_index }

abbrev pub rest_window : BufferSlice → Bytes
rest_window s = record {
  address = s.block.address + s.read_index;
  len = s.write_index - s.read_index;
  cap = s.block.cap - s.read_index;
}

module _ (s : BufferSlice) (size : ℕ) (m : Mem) (v : IsCursor s) where
  module _ (enough : size ≤ slice_size s) where
    pub read_slice-enough : read_slice s size m ≡ ok (window_of s size, none, advance s size) m
    unfolding read_slice
    read_slice-enough = ground arith

    pub skip-enough : skip s size ≡ (size, advance s size)
    unfolding skip
    skip-enough = elim (dec_lt (s.read_index + size) s.write_index) [
      | yes h ↦ ground arith
      | no h ↦
          let same : s.write_index ≡ s.read_index + size = omega arith in
          let all : s.write_index - s.read_index ≡ size = omega arith in ground (arith, same, all)
    ]

    pub window_of-unread :
        load_bytes (window_of s size).len (window_of s size).address m ≡ take size (unread s m)
    window_of-unread =
        same_bytes (s.read_index + size - s.read_index) size (s.block.address + s.read_index)
          (s.block.address + s.read_index) m (omega arith) refl
        ∙ sym (take-load_bytes size (slice_size s) (s.block.address + s.read_index) m enough)

    pub advance-unread : unread (advance s size) m ≡ drop size (unread s m)
    advance-unread =
        same_bytes (s.write_index - (s.read_index + size)) (slice_size s - size)
          (s.block.address + (s.read_index + size)) (s.block.address + s.read_index + size) m
          (omega arith) (omega arith)
        ∙ sym (drop-load_bytes size (slice_size s) (s.block.address + s.read_index) m enough)

    pub advance-IsCursor : IsCursor (advance s size)
    advance-IsCursor = omega arith

  module _ (less : slice_size s < size) where
    pub read_slice-less :
        read_slice s size m ≡ ok (rest_window s, some not_enough_data, exhaust s) m
    unfolding read_slice
    read_slice-less = ground arith

    pub skip-less : skip s size ≡ (slice_size s, exhaust s)
    unfolding skip
    skip-less = ground arith

pub exhaust-unread : (s : BufferSlice) (m : Mem) → unread (exhaust s) m ≡ []
exhaust-unread s m =
    no_bytes (s.write_index - s.write_index) (s.block.address + s.write_index) m (omega arith)

-- The step to the next slice, with the cursor of the front one anywhere.
module _ (b : BufferManager) (l : LinkedBuffer) (s : BufferSlice) (rest : List BufferSlice) (r : ℕ)
    (m : Mem) (v : IsReadable b (s ∷ rest) m) where
  pub read_next_slice-run :
      (l' : LinkedBuffer) × (m' : Mem) × (read_next_slice b
          (record l { slices = record s { read_index = r } ∷ rest })
          m
        ≡ ok (record l' { slices = rest }) m')
      × (contents rest m' ≡ contents rest m)
      × IsReadable b rest m'
      × (l'.len ≡ l.len)
  unfolding read_next_slice AllCursors
  read_next_slice-run = elim (Bool-cases s.is_from_shm) [
    | inl shm ↦ elim (Bool-cases l.current_pinned) [
      | inl pinned ↦ (
        record l {
          pinned = l.pinned ++ record s { read_index = r } ∷ [];
          current_pinned = false;
          write = after_pop l.write;
        },
        m,
        ground (arith, shm, pinned),
        refl,
        record { cursors = v.cursors.1; owned = IsOwned-behind b s rest m v.owned },
        refl,
      )
      | inr not_pinned ↦
          let moved = IsOwned-moved s r b rest m v.owned in
          let (m', ran, same, left) =
            recycle_front b (record s { read_index = r }) rest m moved v.cursors.1 in
          (
            record l { current_pinned = false; write = after_pop l.write },
            m',
            ground (arith, shm, not_pinned, ran),
            same,
            record { cursors = v.cursors.1; owned = left },
            refl,
          )
    ]
    | inr local ↦ (
      record l { current_pinned = false; write = after_pop l.write },
      m,
      ground (arith, local),
      refl,
      record { cursors = v.cursors.1; owned = IsOwned-behind b s rest m v.owned },
      refl,
    )
  ]

pub exhaust-IsCursor : (s : BufferSlice) → IsCursor s → IsCursor (exhaust s)
exhaust-IsCursor s v = omega arith
