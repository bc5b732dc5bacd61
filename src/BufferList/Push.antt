-- ===== src/BufferList/Push.antt =====
-- The writes of `push` of buffer_manager.go on a valid free list.
use Prim.Native.Nat.{bit_or}
use shmipc_go.Prelude.{ℕ, ◌+◌, ◌-◌, ◌%◌, ◌^◌, ◌≤◌, ◌≡◌, ◌∙◌, ◌⊎◌, some, none, arith}
use shmipc_go.Memory.{Address, Mem, load, store}
use shmipc_go.Memory.Laws.{load-store_apart}
use shmipc_go.Command.{ok}
use shmipc_go.BufferSlice.{BufferSlice, reset, reset_header, clear_flag, link_next}
use shmipc_go.BufferList.{BufferList, push}
use shmipc_go.BufferList.Free.{IsLayout}

-- What a holder of the buffer at `x` may have made of its slice: only where it lies is fixed.
pub record IsAt (b : BufferList) (x : ℕ) (s : BufferSlice) : Type 0 where
  pub header_at : s.header ≡ some (b.region.address + x)
  pub offset_at : s.offset_in_shm ≡ x + b.region_offset_in_shm

-- The writes of `push`, of a buffer at `x` behind the one at `old`.
abbrev pub cleared_memory : Mem → ℕ → Mem
cleared_memory m h = store 1 (store 4 (store 4 m (h + 4) 0) (h + 8) 0) (h + 16) 0

abbrev pub chained_memory : Mem → ℕ → ℕ → Mem
chained_memory m h x =
    let m1 = store 4 m (h + 12) x in store 1 m1 (h + 16) (bit_or (load 1 m1 (h + 16)) 1)

abbrev pub pushed_memory : BufferList → Mem → ℕ → ℕ → Mem
pushed_memory b m old x =
    let m1 =
      chained_memory (store 4 (cleared_memory m (b.region.address + x)) b.tail x)
        (b.region.address + old) x in
    let m2 = store 4 m1 b.size ((load 4 m1 b.size + 1) % 2 ^ 32) in
    store 4 m2 b.counter ((load 4 m2 b.counter + (2 ^ 32 - 1)) % 2 ^ 32)

abbrev pub reset_slice : BufferSlice → BufferSlice
reset_slice s = record s { write_index = 0; read_index = 0; next_slice = none }

-- A word of the control block, or anything before the region, is not touched by `reset`.
pub load-cleared :
    (k : ℕ) (m : Mem) (h a : Address)
    → (a + k ≤ h + 4) ⊎ (h + 17 ≤ a)
    → load k (cleared_memory m h) a ≡ load k m a
load-cleared k m h a apart =
    load-store_apart k 1 _ _ 0 a (omega arith)
    ∙ load-store_apart k 4 _ _ 0 a (omega arith)
    ∙ load-store_apart k 4 m _ 0 a (omega arith)

pub push-run :
    (b : BufferList) (per : ℕ) (m : Mem) (x old : ℕ) (s : BufferSlice)
    → IsLayout b per
    → IsAt b x s
    → load 4 m b.tail ≡ old
    → old + (per + 20) ≤ b.region.len
    → x + (per + 20) ≤ b.region.len
    → push b s m ≡ ok (reset_slice s) (pushed_memory b m old x)
unfolding push reset reset_header clear_flag link_next
push-run b per m x old s layout at tail inside_old inside =
    let h = b.region.address + x in
    let tail' : load 4 (cleared_memory m h) b.tail ≡ old =
      load-cleared 4 m h b.tail (omega arith) ∙ tail in
    let new : (x + b.region_offset_in_shm + 2 ^ 32 - b.region_offset_in_shm) % 2 ^ 32 ≡ x =
      omega arith in
    let e = at.header_at in let o = at.offset_at in ground (arith, tail', new, e, o)
