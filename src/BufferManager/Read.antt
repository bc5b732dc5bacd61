-- ===== src/BufferManager/Read.antt =====
-- `readBufferSlice` of buffer_manager.go: what it makes of an offset that a peer sent.
use native.Mathlib.Decide.{dec_lt}
use shmipc_go.Prelude.{
  ℕ, ◌+◌, ◌-◌, ◌%◌, ◌^◌, ◌≤◌, ◌<◌, ◌≡◌, refl, ap, ◌⊎◌, inl, inr, some, none, true, arith,
}
use shmipc_go.Memory.{Mem, load}
use shmipc_go.Memory.Laws.{load-lt}
use shmipc_go.Errors.{broken_memory}
use shmipc_go.Command.{ok, err, panic, Bytes}
use shmipc_go.BufferSlice.{BufferSlice, new_buffer_slice}
use shmipc_go.BufferManager.{BufferManager, read_buffer_slice}

-- The bytes of a slice lie within those of `mem`.
pub record IsWithin (block mem : Bytes) : Type 0 where
  pub lower : mem.address ≤ block.address
  pub upper : block.address + block.len ≤ mem.address + mem.len

-- How `readBufferSlice` ends.
abbrev pub Ends : BufferManager → ℕ → Mem → Type 0
Ends b offset m =
    let cap = load 4 m (b.mem.address + offset) in
    ((b.mem.len ≤ offset + 20) × (read_buffer_slice b offset m ≡ err broken_memory m))
    ⊎ ((offset + 20 < b.mem.len)
        × (b.mem.len < offset + 20 + cap)
        × (offset + 20 + cap < 2 ^ 32)
        × (read_buffer_slice b offset m ≡ err broken_memory m))
    ⊎ ((offset + 20 < b.mem.len)
        × (2 ^ 32 ≤ offset + 20 + cap)
        × (read_buffer_slice b offset m ≡ panic))
    ⊎ ((offset + 20 + cap ≤ b.mem.len)
        × (s : BufferSlice) × (read_buffer_slice b offset m ≡ ok s m)
        × (s.cap ≡ cap)
        × (s.block.len ≡ cap)
        × (s.offset_in_shm ≡ offset)
        × IsWithin s.block b.mem)

-- The slice of the buffer whose header lies at `offset`.
abbrev pub slice_at : BufferManager → ℕ → Mem → BufferSlice
slice_at b offset m =
    let h = b.mem.address + offset in
    record {
      header = some h;
      block = record {
        address = b.mem.address + (offset + 20);
        len = offset + 20 + load 4 m h - (offset + 20);
        cap = b.mem.cap - (offset + 20);
      };
      cap = load 4 m (h + 0);
      start = load 4 m (h + 8);
      offset_in_shm = offset;
      read_index = load 4 m (h + 8);
      write_index = (load 4 m (h + 8) + load 4 m (h + 4)) % 2 ^ 32;
      is_from_shm = true;
      next_slice = none;
    }

-- An offset that leaves no room for a header and a byte, or a capacity that ends behind the memory,
-- is an error, and else the slice lies within the memory and has the capacity of its header. But a
-- capacity so large that the end of the buffer exceeds 32 bits is no error: the end wraps, and the
-- call panics.
pub read_buffer_slice-Ends :
    (b : BufferManager) (offset : ℕ) (m : Mem)
    → b.mem.len < 2 ^ 32
    → b.mem.len ≤ b.mem.cap
    → Ends b offset m
unfolding read_buffer_slice new_buffer_slice
read_buffer_slice-Ends b offset m small within =
    let cap = load 4 m (b.mem.address + offset) in
    let bound : cap < 2 ^ 32 = load-lt 4 m (b.mem.address + offset) in
    let at_zero : load 4 m (b.mem.address + offset + 0) ≡ cap =
      ap (load 4 m) {x = b.mem.address + offset + 0} {y = b.mem.address + offset} (omega arith) in
    elim (dec_lt (offset + 20) b.mem.len) [
      | no outside ↦ inl (omega arith, ground arith)
      | yes inside ↦ elim (dec_lt (offset + 20 + cap) (2 ^ 32)) [
        | no wraps ↦ inr (inr (inl (inside, omega arith, ground arith)))
        | yes word ↦ elim (dec_lt b.mem.len (offset + 20 + cap)) [
          | yes behind ↦ inr (inl (inside, behind, word, ground arith))
          | no fits ↦ inr (
              inr (
                inr (
                  omega arith,
                  slice_at b offset m,
                  ground arith,
                  at_zero,
                  omega arith,
                  refl,
                  omega arith,
                )))
        ]
      ]
    ]
