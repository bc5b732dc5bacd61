-- ===== src/BufferSlice.antt =====
-- buffer_slice.go: a buffer slice, its header in shared memory and its cursors. The indices are
-- natural numbers and every comparison of differences is written with sums, which is exact for the
-- Go `int`s. Sizes that callers pass are not negative.
pub mod Header
pub mod Window
pub mod Fifo
mod Tests
use Prim.Native.Nat.{bit_and, bit_or}
use shmipc_go.Prelude.{
  ℕ, zero, suc, ◌+◌, ◌-◌, ◌%◌, ◌^◌, Bool, true, false, ◌&&◌, Option, none, some, List, [], ◌∷◌,
  ◌==◌, ltb, leb, if◌then◌else◌, length, min, take,
}
use shmipc_go.Memory.{Address, Mem, load, store, update}
use shmipc_go.Errors.{Error, no_more_buffer, not_enough_data}
use shmipc_go.Command.{
  Command, ok, pure, throw, crash, ◌>>=◌, ◌>>◌, read, write, Bytes, slice, panic_if,
}

-- buffer_manager.go: the layout of a header, and the bits of its flag.
abbrev pub buffer_header_size : ℕ
buffer_header_size = 20

abbrev pub buffer_cap_offset : ℕ
buffer_cap_offset = 0

abbrev pub buffer_size_offset : ℕ
buffer_size_offset = 4

abbrev pub buffer_data_start_offset : ℕ
buffer_data_start_offset = 8

abbrev pub next_buffer_offset_at : ℕ
next_buffer_offset_at = 12

abbrev pub buffer_flag_offset : ℕ
buffer_flag_offset = 16

abbrev pub has_next_buffer_flag : ℕ
has_next_buffer_flag = 1

abbrev pub slice_in_used_flag : ℕ
slice_in_used_flag = 2

-- A pointer to a `bufferSlice` of this process.
abbrev pub Pointer : Type 0
Pointer = ℕ

pub record BufferSlice : Type 0 where
  pub header : Option Address
  pub block : Bytes
  pub cap : ℕ
  pub start : ℕ
  pub offset_in_shm : ℕ
  pub read_index : ℕ
  pub write_index : ℕ
  pub is_from_shm : Bool
  pub next_slice : Option Pointer

-- The methods of `bufferHeader`, at the address of the header.
unfoldable pub next_buffer_offset : Address → Command ℕ
next_buffer_offset h = read 4 (h + next_buffer_offset_at)

unfoldable pub has_next : Address → Command Bool
has_next h = do
  flag ← read 1 (h + buffer_flag_offset)
  pure (ltb 0 (bit_and flag has_next_buffer_flag))

unfoldable pub clear_flag : Address → Command (Unit {0})
clear_flag h = write 1 (h + buffer_flag_offset) 0

unfoldable pub set_in_used : Address → Command (Unit {0})
set_in_used h = do
  flag ← read 1 (h + buffer_flag_offset)
  write 1 (h + buffer_flag_offset) (bit_or flag slice_in_used_flag)

unfoldable pub is_in_used : Address → Command Bool
is_in_used h = do
  flag ← read 1 (h + buffer_flag_offset)
  pure (ltb 0 (bit_and flag slice_in_used_flag))

unfoldable pub link_next : Address → ℕ → Command (Unit {0})
link_next h next = do
  write 4 (h + next_buffer_offset_at) next
  flag ← read 1 (h + buffer_flag_offset)
  write 1 (h + buffer_flag_offset) (bit_or flag has_next_buffer_flag)

-- `newBufferSlice`; the pool hands out slices whose fields are zero, as `putBackBufferSlice` leaves
-- them.
unfoldable pub new_buffer_slice : Option Address → Bytes → ℕ → Bool → Command BufferSlice
new_buffer_slice (some h) block offset true = do
  cap ← read 4 (h + buffer_cap_offset)
  start ← read 4 (h + buffer_data_start_offset)
  size ← read 4 (h + buffer_size_offset)
  pure (record {
    header = some h;
    block = block;
    cap = cap;
    start = start;
    offset_in_shm = offset;
    read_index = start;
    write_index = (start + size) % 2 ^ 32;
    is_from_shm = true;
    next_slice = none;
  })
new_buffer_slice header block offset shm = pure (record {
  header = header;
  block = block;
  cap = block.cap % 2 ^ 32;
  start = 0;
  offset_in_shm = offset;
  read_index = 0;
  write_index = 0;
  is_from_shm = shm;
  next_slice = none;
})

-- `update`, which `done` calls before a slice is sent; `slices` is what the pointers stand for.
unfoldable pub update_header : (Pointer → BufferSlice) → BufferSlice → Command (Unit {0})
unfolding link_next
update_header slices s = elim s.header [
  | none ↦ pure tt
  | some h ↦ (do
    write 4 (h + buffer_size_offset) ((s.write_index + 2 ^ 64 - s.read_index) % 2 ^ 32)
    write 4 (h + buffer_data_start_offset) s.start
    elim s.next_slice [ none ↦ pure tt | some p ↦ link_next h (slices p).offset_in_shm ])
]

unfoldable pub reset_header : Option Address → Command (Unit {0})
unfolding clear_flag
reset_header none = pure tt
reset_header (some h) = do
  write 4 (h + buffer_size_offset) 0
  write 4 (h + buffer_data_start_offset) 0
  clear_flag h

unfoldable pub reset : BufferSlice → Command BufferSlice
unfolding reset_header
reset s = do
  reset_header s.header
  pure (record s { write_index = 0; read_index = 0; next_slice = none })

abbrev pub capacity : BufferSlice → ℕ
capacity s = s.cap

-- `reserve`: the window of the data that the caller may fill.
unfoldable pub reserve : BufferSlice → ℕ → Command (Bytes × BufferSlice)
reserve s size =
    if leb (s.write_index + size) s.cap
    then (do
      window ← slice s.block s.write_index (s.write_index + size)
      pure (window, record s { write_index = s.write_index + size }))
    else throw no_more_buffer

-- The bytes of a window, and `copy` into one.
unfoldable pub load_bytes : ℕ → Address → Mem → List ℕ
load_bytes zero a m = []
load_bytes (suc n) a m = load 1 m a ∷ load_bytes n (a + 1) m

unfoldable pub store_bytes : Address → List ℕ → Mem → Mem
store_bytes a [] m = m
store_bytes a (x ∷ xs) m = store_bytes (a + 1) xs (store 1 m a x)

-- `append`; `s.data[s.writeIndex:]` panics behind the length.
unfoldable pub append : BufferSlice → List ℕ → Command (ℕ × BufferSlice)
append s [] = pure (0, s)
append s (x ∷ xs) =
    if ltb s.block.len s.write_index
    then crash
    else let n = min (s.block.len - s.write_index) (length (x ∷ xs)) in
      λ m.
        ok (n, record s { write_index = s.write_index + n })
          (store_bytes (s.block.address + s.write_index) (take n (x ∷ xs)) m)

-- `read`: the window, the error if there was less than `size`, and the slice with its new cursor.
unfoldable pub read_slice : BufferSlice → ℕ → Command (Bytes × Option Error × BufferSlice)
read_slice s size =
    if ltb s.write_index (s.read_index + size)
    then (do
      window ← slice s.block s.read_index s.write_index
      pure (window, some not_enough_data, record s { read_index = s.write_index }))
    else (do
      window ← slice s.block s.read_index (s.read_index + size)
      pure (window, none, record s { read_index = s.read_index + size }))

unfoldable pub peek : BufferSlice → ℕ → Command (Bytes × Option Error × BufferSlice)
unfolding read_slice
peek s size = do
  (window, error, s') ← read_slice s size
  pure (window, error, record s' { read_index = s.read_index })

-- `skip`, on a slice whose cursors are in order.
unfoldable pub skip : BufferSlice → ℕ → ℕ × BufferSlice
skip s size =
    if ltb (s.read_index + size) s.write_index
    then (size, record s { read_index = s.read_index + size })
    else (s.write_index - s.read_index, record s { read_index = s.write_index })
