-- ===== src/LinkedBuffer/Returns.antt =====
-- The return of the front slice of a linked buffer of buffer.go to the buffer manager.
use shmipc_go.Prelude.{
  ℕ, zero, suc, ◌+◌, ◌-◌, ◌*◌, ◌%◌, ◌≤◌, ◌<◌, ◌≡◌, refl, sym, ap, ap₂, subst, ◌∙◌, inl, inr, true,
  List, [], ◌∷◌, ◌++◌, arith,
}
use shmipc_go.Memory.{Address, Mem, load}
use shmipc_go.Command.{ok}
use shmipc_go.BufferSlice.{BufferSlice, load_bytes}
use shmipc_go.BufferSlice.Fifo.{IsCursor, unread}
use shmipc_go.BufferManager.{BufferManager, recycle_buffer}
use shmipc_go.BufferManager.Alloc.{Kept}
use shmipc_go.BufferManager.Held.{IsHeld, Outside, SameData, Returned, returned}
use shmipc_go.LinkedBuffer.Owned.{IsPlaced, IsAlone, ArePlaced, IsOwned}
use shmipc_go.LinkedBuffer.Contents.{contents, AllCursors}

load_bytes-same :
    (n : ℕ) (a : Address) (m m' : Mem)
    → ((x : Address) → a ≤ x → x < a + n → m' x ≡ m x)
    → load_bytes n a m' ≡ load_bytes n a m
unfolding load_bytes load
load_bytes-same zero a m m' same = refl
load_bytes-same (suc n) a m m' same =
    ap₂ ◌∷◌ (ap (λ x. x % 256 + 256 * 0) (same a (omega arith) (omega arith)))
      (load_bytes-same n (a + 1) m m' (λ x from to. same x (omega arith) (omega arith)))

unread-same :
    (t : BufferSlice) (m m' : Mem) → IsCursor t → SameData t m m' → unread t m' ≡ unread t m
unread-same t m m' v same =
    load_bytes-same (t.write_index - t.read_index) (t.block.address + t.read_index) m m'
      (λ x from to. same x (omega arith) (omega (arith, v.within, v.ordered)))

-- What the return of `s` leaves for the slices behind it.
record Leaves (ks ks' : List Kept) (ss : List BufferSlice) (m m' : Mem) : Type 0 where
  bytes : contents ss m' ≡ contents ss m
  places : ArePlaced ks' ss

leaves :
    (ks : List Kept) (s : BufferSlice) (ss : List BufferSlice) (m : Mem)
    → s.is_from_shm ≡ true
    → (r : Returned m 0 ks s) → AllCursors ss
    → IsAlone s ss
    → ArePlaced ks ss
    → Leaves ks r.after ss m r.memory
unfolding contents AllCursors IsAlone ArePlaced IsPlaced
leaves ks s [] m shm r v alone placed = record { bytes = refl; places = tt }
leaves ks s (t ∷ ts) m shm r (c, v) (differ, alone) (place, rest, further) =
    let behind = leaves ks s ts m shm r v alone further in
    let (same, stays) : SameData t m r.memory × IsPlaced r.after t = elim place [
      | inl (t_shm, held) ↦
          let (still, same) = r.others t held (differ shm t_shm) in (same, inl (t_shm, still))
      | inr (local, out) ↦ (
        λ a from to. r.outside a (out a from to),
        inr (local, λ a from to. subst (λ ls. Outside ls a) (sym r.same_lists) (out a from to)),
      )
    ] in
    record {
      bytes = ap₂ ◌++◌ (unread-same t m r.memory c same) behind.bytes;
      places = (stays, rest, behind.places);
    }

-- Where a slice lies does not depend on its read cursor.
module _ (s : BufferSlice) (r : ℕ) where
  IsHeld-moved : (ks : List Kept) → IsHeld ks s → IsHeld ks (record s { read_index = r })
  unfolding IsHeld
  IsHeld-moved [] h = h
  IsHeld-moved (k ∷ ks) (inl h) = inl (record {
    at = h.at;
    place = h.place;
    handed_out = h.handed_out;
    whole = h.whole;
    header = record { header_at = h.header.header_at; offset_at = h.header.offset_at };
    payload = h.payload;
    fits = h.fits;
  })
  IsHeld-moved (k ∷ ks) (inr (size, h)) = inr (size, IsHeld-moved ks h)

  IsAlone-moved : (ss : List BufferSlice) → IsAlone s ss → IsAlone (record s { read_index = r }) ss
  unfolding IsAlone
  IsAlone-moved [] h = h
  IsAlone-moved (t ∷ ts) (differ, h) = (differ, IsAlone-moved ts h)

  IsPlaced-moved : (ks : List Kept) → IsPlaced ks s → IsPlaced ks (record s { read_index = r })
  unfolding IsPlaced
  IsPlaced-moved ks (inl (shm, held)) = inl (shm, IsHeld-moved ks held)
  IsPlaced-moved ks (inr (local, out)) = inr (local, out)

  pub IsOwned-moved :
      (b : BufferManager) (ss : List BufferSlice) (m : Mem)
      → IsOwned b (s ∷ ss) m
      → IsOwned b (record s { read_index = r } ∷ ss) m
  unfolding ArePlaced
  IsOwned-moved b ss m v = record {
    kept = v.kept;
    lists = v.lists;
    valid = v.valid;
    placed = (IsPlaced-moved v.kept v.placed.0, IsAlone-moved ss v.placed.1, v.placed.2);
  }

module _ (b : BufferManager) (s : BufferSlice) (ss : List BufferSlice) (m : Mem)
    (v : IsOwned b (s ∷ ss) m) where
  pub IsOwned-behind : IsOwned b ss m
  unfolding ArePlaced
  IsOwned-behind = record { kept = v.kept; lists = v.lists; valid = v.valid; placed = v.placed.2 }

  -- The front slice is given back without an error, and the unread bytes of the slices behind it stay.
  pub recycle_front :
      AllCursors ss
      → (m' : Mem) × (recycle_buffer b s m ≡ ok tt m')
        × (contents ss m' ≡ contents ss m)
        × IsOwned b ss m'
  unfolding ArePlaced IsPlaced recycle_buffer
  recycle_front cursors = elim v.placed.0 [
    | inr (local, out) ↦ (m, ground (arith, local), refl, IsOwned-behind)
    | inl (shm, held) ↦
        let back = returned v.kept m 0 s v.valid held in
        let kept = leaves v.kept s ss m shm back cursors v.placed.1 v.placed.2 in
        (
          back.memory,
          ground (arith, v.lists, shm, back.ran),
          kept.bytes,
          record {
            kept = back.after;
            lists = v.lists ∙ sym back.same_lists;
            valid = back.valid;
            placed = kept.places;
          },
        )
  ]
