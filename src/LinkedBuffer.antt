-- ===== src/LinkedBuffer.antt =====
-- buffer.go: `linkedBuffer`, the chain of buffer slices that a stream writes to and reads from. A
-- `sliceList` of buffer_slice.go is the list of its slices in order, and `writeSlice` the place of
-- one in it. What the stream does to get more data is an argument of the reading operations.
pub mod Reading
pub mod Writing
pub mod Owned
pub mod Contents
pub mod Returns
pub mod Front
pub mod Slow
pub mod ReadBytes
pub mod Texts
pub mod ReadString
pub mod Discards
pub mod Peeks
pub mod Copies
pub mod Windows
pub mod Room
pub mod Writes
mod Tests
use shmipc_go.Prelude.{
  ℕ, zero, suc, ◌+◌, ◌-◌, Bool, true, false, ◌&&◌, not, ◌==◌, ltb, leb, if◌then◌else◌, Option, some,
  none, List, [], ◌∷◌, ◌++◌, length,
}
use shmipc_go.Memory.{Mem}
use shmipc_go.Errors.{Error}
use shmipc_go.Command.{Command, ok, err, panic, pure, throw, crash, ◌>>=◌, ◌>>◌, Bytes}
use shmipc_go.BufferSlice.{BufferSlice, load_bytes, read_slice, peek, skip, reset}
use shmipc_go.BufferManager.{BufferManager, recycle_buffer}

-- Where `writeSlice` points: nowhere, at a slice of the list, or at one that was taken from it.
pub data Write : Type 0 where
  unset : Write
  at : ℕ → Write
  stale : Write

pub record LinkedBuffer : Type 0 where
  pub slices : List BufferSlice
  pub write : Write
  pub pinned : List BufferSlice
  pub current_pinned : Bool
  pub end_stream : Bool
  pub is_from_shm : Bool
  pub len : ℕ

-- `newEmptyLinkedBuffer`
abbrev pub new_empty_linked_buffer : LinkedBuffer
new_empty_linked_buffer = record {
  slices = [];
  write = unset;
  pinned = [];
  current_pinned = false;
  end_stream = false;
  is_from_shm = true;
  len = 0;
}

abbrev pub after_pop : Write → Write
after_pop unset = unset
after_pop (at zero) = stale
after_pop (at (suc i)) = at i
after_pop stale = stale

-- `sliceList.popFront` of a list that is not empty; of an empty one it returns nil, which all callers
-- follow.
abbrev pub pop_front : LinkedBuffer → Command (BufferSlice × LinkedBuffer)
pop_front l = elim l.slices [
  | [] ↦ crash
  | s ∷ rest ↦ pure (s, record l { slices = rest; write = after_pop l.write })
]

-- `sliceList.front()`, followed.
abbrev pub front : LinkedBuffer → Command BufferSlice
front l = elim l.slices [ [] ↦ crash | s ∷ rest ↦ pure s ]

-- The front slice with its new cursor.
abbrev pub set_front : BufferSlice → LinkedBuffer → LinkedBuffer
set_front s l = elim l.slices as (λ _. LinkedBuffer) [
  | [] ↦ l
  | _ ∷ rest ↦ record l { slices = s ∷ rest }
]

-- `bufferSlice.size`
abbrev pub slice_size : BufferSlice → ℕ
slice_size s = s.write_index - s.read_index

-- `sliceList.popFront` in a loop with `recycleBuffer`.
unfoldable pub recycle_all : BufferManager → List BufferSlice → Command (Unit {0})
recycle_all b [] = pure tt
recycle_all b (s ∷ rest) = do recycle_buffer b s; recycle_all b rest

module _ (b : BufferManager) where
  -- `recycle`, with the `clean` at its end.
  unfoldable pub recycle : LinkedBuffer → Command LinkedBuffer
  unfolding recycle_all
  recycle l = do
    recycle_all b l.slices
    pure (record l {
      slices = [];
      write = unset;
      is_from_shm = true;
      end_stream = false;
      current_pinned = false;
      len = 0;
    })

  -- `readNextSlice`
  unfoldable pub read_next_slice : LinkedBuffer → Command LinkedBuffer
  read_next_slice l = do
    (s, l') ← pop_front l
    if s.is_from_shm
        then (if l'.current_pinned
            then pure (record l' { pinned = l'.pinned ++ s ∷ []; current_pinned = false })
            else (do recycle_buffer b s; pure (record l' { current_pinned = false })))
        else pure (record l' { current_pinned = false })

  -- `cleanPinnedList`
  unfoldable pub clean_pinned_list : LinkedBuffer → Command LinkedBuffer
  unfolding recycle_all
  clean_pinned_list l =
      if length l.pinned == 0
      then pure l
      else (do recycle_all b l.pinned; pure (record l { pinned = []; current_pinned = false }))

  abbrev is_front : Write → Bool
  is_front unset = false
  is_front (at zero) = true
  is_front (at (suc i)) = false
  is_front stale = false

  -- `ReleasePreviousRead`
  unfoldable pub release_previous_read : LinkedBuffer → Command LinkedBuffer
  unfolding clean_pinned_list
  release_previous_read l = do
    l1 ← clean_pinned_list l
    elim l1.slices [
      | [] ↦ pure l1
      | s ∷ rest ↦
          if slice_size s == 0 && is_front l1.write
          then (do recycle_buffer b s; pure (record l1 { slices = rest; write = unset }))
          else pure l1
    ]

  -- `releasePreviousReadAndReserve`
  unfoldable pub release_previous_read_and_reserve : LinkedBuffer → Command LinkedBuffer
  unfolding clean_pinned_list
  release_previous_read_and_reserve l = do
    l1 ← clean_pinned_list l
    if l1.len == 0 && length l1.slices == 1
        then (do
          s ← front l1
          if s.is_from_shm
              then (do s' ← reset s; pure (set_front s' l1))
              else (do (_, l2) ← pop_front l1; pure l2))
        else pure l1

-- `appendBufferSlice`
abbrev pub append_buffer_slice : BufferSlice → LinkedBuffer → LinkedBuffer
append_buffer_slice s l = record l {
  slices = l.slices ++ s ∷ [];
  is_from_shm = l.is_from_shm && s.is_from_shm;
  len = l.len + slice_size s;
  write = at (length l.slices);
}
