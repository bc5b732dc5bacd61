-- ===== src/LinkedBuffer/Windows.antt =====
-- `underlyingData` of buffer.go.
use shmipc_go.Prelude.{
  ℕ, zero, suc, ◌+◌, ◌-◌, ◌≡◌, refl, ap, List, [], ◌∷◌, ◌++◌, take, none, some, arith,
}
use shmipc_go.Memory.{Mem}
use shmipc_go.Command.{Command, ok, Bytes}
use shmipc_go.BufferSlice.{BufferSlice, load_bytes}
use shmipc_go.BufferSlice.Fifo.{unread}
use shmipc_go.LinkedBuffer.{LinkedBuffer, Write, unset, at, stale}
use shmipc_go.LinkedBuffer.Writing.{underlying_data, windows_to}
use shmipc_go.LinkedBuffer.Contents.{contents, AllCursors}

abbrev pub bytes_in : List Bytes → Mem → List ℕ
bytes_in [] m = []
bytes_in (w ∷ ws) m = load_bytes w.len w.address m ++ bytes_in ws m

-- The slices up to the write slice; all of them when there is none in the list.
abbrev pub up_to : Write → List BufferSlice → List BufferSlice
up_to unset ss = ss
up_to (at i) ss = take (suc i) ss
up_to stale ss = ss

abbrev Shows : Command (List Bytes) → List BufferSlice → Mem → Type 0
Shows run ss m = (ws : List Bytes) × (run m ≡ ok ws m) × (bytes_in ws m ≡ contents ss m)

abbrev shown : BufferSlice → Bytes
shown s = record {
  address = s.block.address + s.read_index;
  len = s.write_index - s.read_index;
  cap = s.block.cap - s.read_index;
}

all_windows : (ss : List BufferSlice) (m : Mem) → AllCursors ss → Shows (windows_to none ss) ss m
unfolding windows_to contents AllCursors
all_windows [] m v = ([], refl, refl)
all_windows (s ∷ rest) m (c, v) =
    let (ws, ran, same) = all_windows rest m v in
    (shown s ∷ ws, ground (arith, ran, c.ordered, c.within, c.room), ap (λ r. unread s m ++ r) same)

windows-up_to :
    (i : ℕ) (ss : List BufferSlice) (m : Mem)
    → AllCursors ss
    → Shows (windows_to (some i) ss) (take (suc i) ss) m
unfolding windows_to contents AllCursors
windows-up_to i [] m v = ([], refl, refl)
windows-up_to zero (s ∷ rest) m (c, v) =
    (shown s ∷ [], ground (arith, c.ordered, c.within, c.room), refl)
windows-up_to (suc i) (s ∷ rest) m (c, v) =
    let (ws, ran, same) = windows-up_to i rest m v in
    (shown s ∷ ws, ground (arith, ran, c.ordered, c.within, c.room), ap (λ r. unread s m ++ r) same)

-- `underlyingData` of slices with their cursors in order does not fail or panic and writes nothing: the windows
-- that it returns hold, one after the other, the unread bytes of the slices up to the write slice, or of all
-- slices if there is no write slice in the list.
pub underlying_data_lem :
    (l : LinkedBuffer) (m : Mem)
    → AllCursors l.slices
    → (ws : List Bytes) × (underlying_data l m ≡ ok ws m)
      × (bytes_in ws m ≡ contents (up_to l.write l.slices) m)
unfolding underlying_data
underlying_data_lem l m v = shows l.write
  where
    shows : (w : Write) → Shows (underlying_data (record l { write = w })) (up_to w l.slices) m
    shows unset = all_windows l.slices m v
    shows (at i) = windows-up_to i l.slices m v
    shows stale = all_windows l.slices m v
