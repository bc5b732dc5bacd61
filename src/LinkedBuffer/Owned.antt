-- ===== src/LinkedBuffer/Owned.antt =====
-- Whose the slices of a linked buffer of buffer.go are: each in shared memory is on a buffer of its own that the lists of the
-- buffer manager have handed out, and the data of one of this process lie outside of the lists.
use shmipc_go.Prelude.{◌+◌, ◌≤◌, ◌<◌, ◌≡◌, ◌≢◌, ◌⊎◌, true, false, List, [], ◌∷◌}
use shmipc_go.Memory.{Address, Mem}
use shmipc_go.BufferSlice.{BufferSlice}
use shmipc_go.BufferManager.{BufferManager}
use shmipc_go.BufferManager.Alloc.{Kept, AllKept, lists_of}
use shmipc_go.BufferManager.Held.{IsHeld, Outside}

unfoldable pub IsPlaced : List Kept → BufferSlice → Type 0
IsPlaced ks s =
    ((s.is_from_shm ≡ true) × IsHeld ks s)
    ⊎ ((s.is_from_shm ≡ false)
        × ((a : Address)
            → s.block.address ≤ a
            → a < s.block.address + s.block.len
            → Outside (lists_of ks) a))

-- The slice is not on the same buffer as one of these.
unfoldable pub IsAlone : BufferSlice → List BufferSlice → Type 0
IsAlone s [] = Unit {0}
IsAlone s (t ∷ ts) =
    (s.is_from_shm ≡ true → t.is_from_shm ≡ true → s.offset_in_shm ≢ t.offset_in_shm) × IsAlone s ts

unfoldable pub ArePlaced : List Kept → List BufferSlice → Type 0
ArePlaced ks [] = Unit {0}
ArePlaced ks (s ∷ ss) = IsPlaced ks s × IsAlone s ss × ArePlaced ks ss

-- The lists of the manager are valid, and the slices are on buffers that they handed out.
pub record IsOwned (b : BufferManager) (ss : List BufferSlice) (m : Mem) : Type 0 where
  pub kept : List Kept
  pub lists : b.lists ≡ lists_of kept
  pub valid : AllKept m 0 kept
  pub placed : ArePlaced kept ss
