-- ===== src/BufferSlice/Tests.antt =====
-- A slice of eight bytes, with the theorems about buffer_slice.go applied to it.
use shmipc_go.Prelude.{
  ℕ, ◌≡◌, refl, false, Option, some, none, if◌then◌else◌, ltb, [], ◌∷◌, ◌++◌, take, drop, length,
  arith,
}
use shmipc_go.Memory.{Mem, load, store}
use shmipc_go.Errors.{Error, not_enough_data}
use shmipc_go.Command.{ok, Bytes}
use shmipc_go.BufferSlice.{BufferSlice, append, read_slice, load_bytes, store_bytes}
use shmipc_go.BufferSlice.Fifo.{unread, IsCursor, append-unread, read-unread}

abbrev blank : Mem
blank a = 0

abbrev fresh : BufferSlice
fresh = record {
  header = none;
  block = record { address = 100; len = 8; cap = 8 };
  cap = 8;
  start = 0;
  offset_in_shm = 0;
  read_index = 0;
  write_index = 0;
  is_from_shm = false;
  next_slice = none;
}

-- Five bytes written of which two are read.
abbrev half : BufferSlice
half = record fresh { write_index = 5; read_index = 2 }

abbrev written : Mem
written = store_bytes 100 (1 ∷ 2 ∷ 3 ∷ 4 ∷ 5 ∷ []) blank

unread-half : unread half written ≡ 3 ∷ 4 ∷ 5 ∷ []
unfolding load_bytes store_bytes load store
unread-half = refl

append-unread_example :
    (n : ℕ) × (s' : BufferSlice) × (m' : Mem) × (append half (6 ∷ 7 ∷ 8 ∷ 9 ∷ []) written
      ≡ ok (n, s') m')
    × (n ≡ 3)
    × (unread s' m' ≡ unread half written ++ take n (6 ∷ 7 ∷ 8 ∷ 9 ∷ []))
    × IsCursor s'
append-unread_example = append-unread half (6 ∷ 7 ∷ 8 ∷ 9 ∷ []) written (omega arith) (omega arith)

read-unread_example :
    (w : Bytes) × (e : Option Error) × (s' : BufferSlice) × (read_slice half 4 written
      ≡ ok (w, e, s') written)
    × (load_bytes w.len w.address written ≡ take 4 (unread half written))
    × (unread s' written ≡ drop 4 (unread half written))
    × (e ≡ (if ltb (length (unread half written)) 4 then some not_enough_data else none))
    × IsCursor s'
read-unread_example = read-unread half 4 written (omega arith)
