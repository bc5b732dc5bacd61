-- ===== src/LinkedBuffer/Tests.antt =====
-- A linked buffer of two slices in shared memory and one of this process, with the theorems about the reading operations of buffer.go applied to it.
use shmipc_go.Prelude.{
  ℕ, ◌+◌, get_elem?, inr, List, ◌++◌, inl, ◌≡◌, refl, false, Bool, Option, some, none, [], ◌∷◌,
  take, arith,
}
use shmipc_go.Memory.{Mem, load, store, update}
use shmipc_go.Errors.{Error, timeout}
use shmipc_go.Command.{Command, ok, crash, Bytes}
use shmipc_go.BufferSlice.{BufferSlice, load_bytes, store_bytes}
use shmipc_go.BufferManager.{BufferManager}
use shmipc_go.BufferManager.Alloc.{Kept}
use shmipc_go.BufferManager.Held.{IsHeldBy, IsHeld, Outside}
use shmipc_go.BufferList.{BufferList}
use shmipc_go.BufferList.Free.{IsFree}
use shmipc_go.BufferList.Created.{list_on, created_memory, created-IsFree}
use shmipc_go.BufferList.Pop.{slice_of, popped_memory}
use shmipc_go.BufferList.Popped.{popped_memory-IsFree}
use shmipc_go.LinkedBuffer.Owned.{ArePlaced, IsPlaced, IsAlone}
use shmipc_go.LinkedBuffer.{LinkedBuffer, new_empty_linked_buffer, append_buffer_slice}
use shmipc_go.LinkedBuffer.Reading.{Data, read, read_bytes, read_string, peek_bytes, discard}
use shmipc_go.LinkedBuffer.Contents.{contents, total, AllCursors, IsBuffer, Drained}
use shmipc_go.LinkedBuffer.ReadBytes.{bytes_of, read_bytes_lem}
use shmipc_go.LinkedBuffer.ReadString.{read_string_lem}
use shmipc_go.LinkedBuffer.Discards.{discard_lem}
use shmipc_go.LinkedBuffer.Peeks.{peek_bytes_lem}
use shmipc_go.LinkedBuffer.Writing.{underlying_data, write_bytes}
use shmipc_go.LinkedBuffer.Windows.{bytes_in, up_to, underlying_data_lem}
use shmipc_go.LinkedBuffer.Room.{HasRoom, AllAgainst, AllApart, IsApart, Separate, room, at_slice}
use shmipc_go.LinkedBuffer.Writes.{write_bytes_lem}
use shmipc_go.LinkedBuffer.Copies.{read_lem}

-- A list of three buffers of which two are handed out, with bytes in their data.
abbrev block : Bytes
block = record { address = 1000; len = 120; cap = 120 }

abbrev list : BufferList
list = list_on 20 3 4 block 8

abbrev filled : Mem
filled =
    store_bytes 1088 (4 ∷ 5 ∷ 6 ∷ 7 ∷ [])
      (store_bytes 1064 (1 ∷ 2 ∷ 3 ∷ []) (store_bytes 200 (8 ∷ 9 ∷ []) (λ _. 0)))

abbrev created : Mem
created = created_memory 3 4 list filled

abbrev written : Mem
written = popped_memory list (popped_memory list created 0 24) 24 48

abbrev manager : BufferManager
manager = record { lists = list ∷ []; mem = block; min_slice_size = 4; max_slice_size = 4 }

abbrev two_out : Kept
two_out = record { list = list; per = 4; free = 48 ∷ []; held = 24 ∷ 0 ∷ [] }

two_out-IsFree : IsFree list 4 written (48 ∷ []) (24 ∷ 0 ∷ [])
two_out-IsFree = popped_memory-IsFree list 4 (popped_memory list created 0 24) 24 48 [] (0 ∷ []) (
    popped_memory-IsFree list 4 created 0 24 (48 ∷ []) []
      (created-IsFree 2 4 block 8 filled (omega arith) 20 (inl refl)))

abbrev shared_slice : ℕ → ℕ → BufferSlice
shared_slice x size = record (slice_of list 4 x) { write_index = size }

shared_slice-IsHeldBy :
    (x size place : ℕ)
    → get_elem? two_out.held place ≡ some x
    → IsHeldBy two_out (shared_slice x size)
shared_slice-IsHeldBy x size place there = record {
  at = x;
  place = place;
  handed_out = there;
  whole = refl;
  header = record { header_at = refl; offset_at = refl };
  payload = omega arith;
  fits = omega arith;
}

abbrev local_slice : ℕ → ℕ → BufferSlice
local_slice address size = record {
  header = none;
  block = record { address = address; len = 4; cap = 4 };
  cap = 4;
  start = 0;
  offset_in_shm = 0;
  read_index = 0;
  write_index = size;
  is_from_shm = false;
  next_slice = none;
}

-- Two slices in shared memory and one of this process.
abbrev buffer : LinkedBuffer
buffer = append_buffer_slice (local_slice 200 2) (
    append_buffer_slice (shared_slice 24 4)
      (append_buffer_slice (shared_slice 0 3) new_empty_linked_buffer))

abbrev never : ℕ → LinkedBuffer → Command (Option Error × LinkedBuffer)
never n l = ok (some timeout, l)

contents-buffer : contents buffer.slices written ≡ 1 ∷ 2 ∷ 3 ∷ 4 ∷ 5 ∷ 6 ∷ 7 ∷ 8 ∷ 9 ∷ []
unfolding contents load_bytes store_bytes load store update
contents-buffer = refl

buffer-IsBuffer : IsBuffer manager buffer written
unfolding AllCursors total ArePlaced IsPlaced IsAlone IsHeld Outside
buffer-IsBuffer = record {
  readable = record {
    cursors = (omega arith, (omega arith, (omega arith, tt)));
    owned = record {
      kept = two_out ∷ [];
      lists = refl;
      valid = (omega arith, two_out-IsFree, tt);
      placed = (
        inl (refl, inl (shared_slice-IsHeldBy 0 3 1 refl)),
        ((λ _ _ same. omega (arith, same)), ((λ _ shm. ground (arith, shm)), tt)),
        (
          inl (refl, inl (shared_slice-IsHeldBy 24 4 0 refl)),
          ((λ _ shm. ground (arith, shm)), tt),
          (inr (refl, λ a from to. (inl (omega arith), tt)), tt, tt),
        ),
      );
    };
  };
  len = refl;
}

read_bytes_example :
    (d : Data) × (l' : LinkedBuffer) × (m' : Mem) × (read_bytes manager never 8 buffer written
      ≡ ok (d, none, l') m')
    × (bytes_of d m' ≡ take 8 (contents buffer.slices written))
    × Drained manager 8 buffer written l' m'
read_bytes_example = read_bytes_lem manager never 8 buffer written buffer-IsBuffer (omega arith)

read_string_example :
    (l' : LinkedBuffer) × (m' : Mem) × (read_string manager never 8 buffer written
      ≡ ok (take 8 (contents buffer.slices written), none, l') m')
    × Drained manager 8 buffer written l' m'
read_string_example = read_string_lem manager never 8 buffer written buffer-IsBuffer (omega arith)

discard_example :
    (l' : LinkedBuffer) × (m' : Mem) × (discard manager never 8 buffer written
      ≡ ok (8, none, l') m')
    × Drained manager 8 buffer written l' m'
discard_example =
    discard_lem manager never 8 buffer written buffer-IsBuffer (omega arith) (omega arith)

peek_bytes_example :
    (d : Data) × (pinned : Bool) × (peek_bytes manager never 8 buffer written
      ≡ ok (d, none, record buffer { current_pinned = pinned }) written)
    × (bytes_of d written ≡ take 8 (contents buffer.slices written))
unfolding total
peek_bytes_example =
    peek_bytes_lem manager never 8 buffer written buffer-IsBuffer.readable.cursors refl
      (omega arith)

read_example :
    (l' : LinkedBuffer) × (m' : Mem) × (read manager never 12 buffer written
      ≡ ok (take 12 (contents buffer.slices written), none, l') m')
    × Drained manager 12 buffer written l' m'
read_example = read_lem manager never 12 buffer written buffer-IsBuffer (omega arith)

underlying_data_example :
    (ws : List Bytes) × (underlying_data buffer written ≡ ok ws written)
    × (bytes_in ws written ≡ contents (up_to buffer.write buffer.slices) written)
underlying_data_example = underlying_data_lem buffer written buffer-IsBuffer.readable.cursors

abbrev no_memory : ℕ → Command Bytes
no_memory n = crash

spare-HasRoom : HasRoom 4 (local_slice 300 4 ∷ []) (local_slice 100 3 ∷ local_slice 200 0 ∷ [])
unfolding AllCursors AllAgainst AllApart IsApart Separate room total
spare-HasRoom = record {
  before = (omega arith, tt);
  cursors = (omega arith, (omega arith, tt));
  against = ((inl (omega arith), tt), ((inl (omega arith), tt), tt));
  separate = ((inl (omega arith), tt), (tt, tt));
  empty = refl;
  enough = omega arith;
}

write_bytes_example :
    (l' : LinkedBuffer) × (m' : Mem) × (write_bytes manager no_memory
        (6 ∷ 7 ∷ 8 ∷ 9 ∷ [])
        (at_slice buffer (local_slice 300 4 ∷ local_slice 100 3 ∷ local_slice 200 0 ∷ []) 1)
        written
      ≡ ok (4, l') m')
    × (contents l'.slices m'
        ≡ contents (local_slice 300 4 ∷ local_slice 100 3 ∷ local_slice 200 0 ∷ []) written
          ++ 6 ∷ 7 ∷ 8 ∷ 9 ∷ [])
    × (l'.len ≡ buffer.len + 4)
    × AllCursors l'.slices
write_bytes_example =
    write_bytes_lem manager no_memory (local_slice 300 4 ∷ []) (local_slice 100 3)
      (local_slice 200 0 ∷ []) (6 ∷ 7 ∷ 8 ∷ 9 ∷ []) buffer written
      (omega arith, (omega arith, (omega arith, (omega arith, tt)))) spare-HasRoom
