-- ===== src/BufferSlice/Fifo.antt =====
-- A buffer slice of buffer_slice.go as a queue of bytes.
use native.Mathlib.Decide.{dec_lt}
use shmipc_go.Prelude.{
  if◌then◌else◌, length-take, take_ge, drop_ge, ℕ, ◌+◌, ◌-◌, ◌≤◌, ◌≡◌, refl, sym, ap₂, ◌∙◌, Option,
  none, some, List, [], ◌∷◌, ◌++◌, take, drop, length, min, ltb, arith,
}
use shmipc_go.Memory.{Address, Mem}
use shmipc_go.Errors.{Error, not_enough_data}
use shmipc_go.Command.{ok, Bytes}
use shmipc_go.BufferSlice.{BufferSlice, load_bytes, store_bytes, append, read_slice}
use shmipc_go.BufferSlice.Window.{
  AllBytes, same_bytes, no_bytes, load_bytes-append, take-load_bytes, drop-load_bytes,
  length-load_bytes, load_bytes-store_bytes, load_bytes-store_bytes_apart, AllBytes-take,
}

-- The cursors are in order and within the data.
pub record IsCursor (s : BufferSlice) : Type 0 where
  pub ordered : s.read_index ≤ s.write_index
  pub within : s.write_index ≤ s.block.len
  pub room : s.block.len ≤ s.block.cap

abbrev pub unread : BufferSlice → Mem → List ℕ
unread s m = load_bytes (s.write_index - s.read_index) (s.block.address + s.read_index) m

-- The slice and the memory after `append`.
abbrev pub appended : BufferSlice → List ℕ → ℕ
appended s xs = min (s.block.len - s.write_index) (length xs)

abbrev pub append_slice : BufferSlice → List ℕ → BufferSlice
append_slice s xs = record s { write_index = s.write_index + appended s xs }

abbrev pub append_memory : BufferSlice → List ℕ → Mem → Mem
append_memory s xs = store_bytes (s.block.address + s.write_index) (take (appended s xs) xs)

pub append-run :
    (s : BufferSlice) (xs : List ℕ) (m : Mem)
    → IsCursor s
    → append s xs m ≡ ok (appended s xs, append_slice s xs) (append_memory s xs m)
unfolding append store_bytes
append-run s [] m v =
    let none_taken : appended s [] ≡ 0 = omega arith in
    let still : s.write_index ≡ s.write_index + 0 = omega arith in
    rw none_taken (λ i. ok (0, record s { write_index = still i }) m)
append-run s (x ∷ xs) m v = ground arith

pub length-take-appended :
    (s : BufferSlice) (xs : List ℕ) → length (take (appended s xs) xs) ≡ appended s xs
length-take-appended s xs = omega (arith, length-take (appended s xs) xs)

-- `append` adds what it takes behind the unread bytes.
pub unread-append_slice :
    (s : BufferSlice) (xs : List ℕ) (m : Mem)
    → IsCursor s
    → AllBytes xs
    → unread (append_slice s xs) (append_memory s xs m) ≡ unread s m ++ take (appended s xs) xs
unread-append_slice s xs m v w =
    same_bytes (s.write_index + appended s xs - s.read_index)
      (s.write_index - s.read_index + length ys) (s.block.address + s.read_index)
      (s.block.address + s.read_index) (append_memory s xs m)
      (omega (arith, length-take-appended s xs)) refl
    ∙ load_bytes-append (s.write_index - s.read_index) (length ys) (s.block.address + s.read_index)
        (append_memory s xs m)
    ∙ ap₂ ◌++◌
        (load_bytes-store_bytes_apart (s.write_index - s.read_index) ys at
          (s.block.address + s.read_index) m (omega arith))
        (same_bytes (length ys) (length ys)
            (s.block.address + s.read_index + (s.write_index - s.read_index)) at
            (append_memory s xs m) refl (omega arith)
          ∙ load_bytes-store_bytes ys at m (AllBytes-take (appended s xs) xs w))
  where
    ys : List ℕ
    ys = take (appended s xs) xs

    at : Address
    at = s.block.address + s.write_index

-- `append` copies as many bytes as there is room for and returns their number: exactly those, in
-- order, are added behind the unread bytes, and the cursors stay in order. It never panics.
pub append-unread :
    (s : BufferSlice) (xs : List ℕ) (m : Mem)
    → IsCursor s
    → AllBytes xs
    → (n : ℕ) × (s' : BufferSlice) × (m' : Mem) × (append s xs m ≡ ok (n, s') m')
      × (n ≡ min (s.block.len - s.write_index) (length xs))
      × (unread s' m' ≡ unread s m ++ take n xs)
      × IsCursor s'
append-unread s xs m v w = (
  appended s xs,
  append_slice s xs,
  append_memory s xs m,
  append-run s xs m v,
  refl,
  unread-append_slice s xs m v w,
  omega arith,
)

-- What `read` returns for `size` bytes, and what it leaves.
abbrev taken : BufferSlice → ℕ → ℕ
taken s size = min size (s.write_index - s.read_index)

-- `read` never panics on a slice with its cursors in order: its window holds the first `size` unread
-- bytes, or all of them if there are fewer, the others stay unread, memory is not written, and the
-- error is `ErrNotEnoughData` exactly if there were fewer.
pub read-unread :
    (s : BufferSlice) (size : ℕ) (m : Mem)
    → IsCursor s
    → (w : Bytes) × (e : Option Error) × (s' : BufferSlice) × (read_slice s size m
        ≡ ok (w, e, s') m)
      × (load_bytes w.len w.address m ≡ take size (unread s m))
      × (unread s' m ≡ drop size (unread s m))
      × (e ≡ (if ltb (length (unread s m)) size then some not_enough_data else none))
      × IsCursor s'
unfolding read_slice
read-unread s size m v = elim (dec_lt s.write_index (s.read_index + size)) [
  | yes less ↦ (
    record {
      address = s.block.address + s.read_index;
      len = s.write_index - s.read_index;
      cap = s.block.cap - s.read_index;
    },
    some not_enough_data,
    record s { read_index = s.write_index },
    ground arith,
    sym (take_ge size (unread s m) (omega (arith, count))),
    no_bytes (s.write_index - s.write_index) (s.block.address + s.write_index) m (omega arith)
        ∙ sym (drop_ge size (unread s m) (omega (arith, count))),
    ground (arith, count),
    omega arith,
  )
  | no enough ↦ (
    record {
      address = s.block.address + s.read_index;
      len = s.read_index + size - s.read_index;
      cap = s.block.cap - s.read_index;
    },
    none,
    record s { read_index = s.read_index + size },
    ground arith,
    same_bytes (s.read_index + size - s.read_index) size (s.block.address + s.read_index)
          (s.block.address + s.read_index) m (omega arith) refl
        ∙ sym (
            take-load_bytes size (s.write_index - s.read_index) (s.block.address + s.read_index) m
              (omega arith)),
    same_bytes (s.write_index - (s.read_index + size)) (s.write_index - s.read_index - size)
          (s.block.address + (s.read_index + size)) (s.block.address + s.read_index + size) m
          (omega arith) (omega arith)
        ∙ sym (
            drop-load_bytes size (s.write_index - s.read_index) (s.block.address + s.read_index) m
              (omega arith)),
    ground (arith, count),
    omega arith,
  )
]
  where
    count : length (unread s m) ≡ s.write_index - s.read_index
    count = length-load_bytes (s.write_index - s.read_index) (s.block.address + s.read_index) m
