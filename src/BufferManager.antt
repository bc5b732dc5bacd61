-- ===== src/BufferManager.antt =====
-- buffer_manager.go: the manager of the free lists of one block of shared memory. Its path, its
-- reference count and its file descriptor are left out with the mapping itself. Lengths of memory are
-- Go `int`s; offsets and sizes are words of 32 bits.
pub mod Read
pub mod Alloc
pub mod Recycle
pub mod Held
pub mod Returned
mod Tests
use shmipc_go.Prelude.{
  ℕ, zero, suc, ◌+◌, ◌-◌, ◌*◌, ◌/◌, ◌%◌, ◌^◌, Bool, true, false, ◌&&◌, ◌||◌, not, ◌==◌, ltb, leb,
  if◌then◌else◌, Option, some, none, List, [], ◌∷◌, ◌++◌, length,
}
use shmipc_go.Memory.{Address, Mem, load}
use shmipc_go.Errors.{no_more_buffer, mem_too_small, percent_sum, bad_manager, broken_memory}
use shmipc_go.Command.{
  Command, ok, err, panic, pure, throw, crash, ◌>>=◌, ◌>>◌, read, write, Bytes, slice, at, fail_if,
  panic_if,
}
use shmipc_go.BufferSlice.{
  BufferSlice, buffer_header_size, new_buffer_slice, has_next, next_buffer_offset,
}
use shmipc_go.BufferList.{
  BufferList, list_header_size, count_list_mem_size, create_free_list, mapping_free_list, pop, push,
}

abbrev pub manager_header_size : ℕ
manager_header_size = 8

abbrev pub bm_cap_offset : ℕ
bm_cap_offset = 4

pub record SizePercentPair : Type 0 where
  pub size : ℕ
  pub percent : ℕ

pub record BufferManager : Type 0 where
  pub lists : List BufferList
  pub mem : Bytes
  pub min_slice_size : ℕ
  pub max_slice_size : ℕ

-- The loop over the pairs of `createBufferManager`: the lists and the offset behind them.
unfoldable pub create_lists :
    List SizePercentPair → ℕ → ℕ → ℕ → Bytes → Command (List BufferList × ℕ)
create_lists [] region_cap sum used mem = pure ([], used)
create_lists (pair ∷ pairs) region_cap sum used mem =
    let sum' = (sum + pair.percent) % 2 ^ 32 in
    let width = (pair.size + buffer_header_size) % 2 ^ 32 in
    let buffer_num = region_cap * pair.percent % 2 ^ 64 / 100 % 2 ^ 32 / width in
    let used' = (used + count_list_mem_size buffer_num pair.size) % 2 ^ 32 in
    let others = create_lists pairs region_cap sum' used' mem in
    (do
      fail_if (ltb 100 sum') percent_sum
      panic_if (width == 0)
      list ← create_free_list buffer_num pair.size mem used
      (lists, end) ← others
      pure (list ∷ lists, end))

abbrev last_size : ℕ → List SizePercentPair → ℕ
last_size size [] = size
last_size size (pair ∷ pairs) = last_size pair.size pairs

-- `createBufferManager`; without pairs, `listSizePercent[0]` panics.
unfoldable pub create_manager : List SizePercentPair → Bytes → ℕ → Command BufferManager
unfolding create_lists
create_manager pairs mem offset = do
  fail_if (leb mem.len offset) mem_too_small
  let region_cap =
      (mem.len + 2 ^ 64 - offset - list_header_size * length pairs - manager_header_size) % 2 ^ 64
  first ← at mem offset
  write 2 first (length pairs % 2 ^ 16)
  (lists, used) ← create_lists pairs region_cap 0 ((manager_header_size + offset) % 2 ^ 32) mem
  elim pairs [
    | [] ↦ crash
    | pair ∷ rest ↦ (do
      cap ← at mem ((offset + bm_cap_offset) % 2 ^ 32)
      write 4 cap ((used + 2 ^ 32 - manager_header_size) % 2 ^ 32)
      pure (record {
        lists = lists;
        mem = mem;
        min_slice_size = pair.size;
        max_slice_size = last_size pair.size rest;
      }))
  ]

-- The loop of `mappingBufferManager`.
unfoldable pub mapping_lists : ℕ → Bytes → ℕ → ℕ → Command (List BufferList)
mapping_lists zero mem start used = pure []
mapping_lists (suc n) mem start used = do
  list ← mapping_free_list mem ((start + used) % 2 ^ 32)
  cap ← read 4 list.cap
  per ← read 4 list.cap_per_buffer
  lists ← mapping_lists n mem start ((used + count_list_mem_size cap per) % 2 ^ 32)
  pure (list ∷ lists)

abbrev last_list : BufferList → List BufferList → BufferList
last_list list [] = list
last_list list (other ∷ lists) = last_list other lists

-- `mappingBufferManager`
unfoldable pub mapping_manager : Bytes → ℕ → Command BufferManager
unfolding mapping_lists
mapping_manager mem start = do
  fail_if (leb mem.len ((start + bm_cap_offset) % 2 ^ 32) || leb mem.len start) mem_too_small
  first ← at mem start
  list_num ← read 2 first
  cap ← at mem ((start + bm_cap_offset) % 2 ^ 32)
  used ← read 4 cap
  fail_if (ltb mem.len (manager_header_size + used) || list_num == 0) bad_manager
  lists ← mapping_lists list_num mem start manager_header_size
  elim lists [
    | [] ↦ crash
    | list ∷ others ↦ (do
      min ← read 4 list.cap_per_buffer
      max ← read 4 (last_list list others).cap_per_buffer
      pure
          (record { lists = list ∷ others; mem = mem; min_slice_size = min; max_slice_size = max }))
  ]

-- The loop of `allocShmBuffer`: a list that is too small or has no buffer is passed over.
unfoldable pub alloc_from : List BufferList → ℕ → Command BufferSlice
alloc_from [] size = throw no_more_buffer
alloc_from (list ∷ lists) size =
    let others = alloc_from lists size in
    (do
      per ← read 4 list.cap_per_buffer
      if leb size per
          then (λ m. elim (pop list m) [ ok s m' ↦ ok s m' | err e m' ↦ others m' | panic ↦ panic ])
          else others)

unfoldable pub alloc_shm_buffer : BufferManager → ℕ → Command BufferSlice
unfolding alloc_from
alloc_shm_buffer b size =
    if leb size b.max_slice_size then alloc_from b.lists size else throw no_more_buffer

-- The inner loop of `allocShmBuffers` on one list: a round pops one buffer.
unfoldable pub alloc_of : ℕ → BufferList → ℕ → Command (List BufferSlice × ℕ)
alloc_of zero list remain = crash
alloc_of (suc rounds) list zero = pure ([], 0)
alloc_of (suc rounds) list (suc k) =
    let others = alloc_of rounds list in
    (λ m. elim (pop list m) [
      | ok s m' ↦ (do (ss, rest) ← others (suc k - s.cap); pure (s ∷ ss, rest)) m'
      | err e m' ↦ ok ([], suc k) m'
      | panic ↦ panic
    ])

-- Its loop over the lists, from the last one; the slices that were popped and what they lack.
unfoldable pub alloc_buffers : List BufferList → ℕ → Command (List BufferSlice × ℕ)
unfolding alloc_of
alloc_buffers [] remain = pure ([], remain)
alloc_buffers (list ∷ lists) remain = do
  (ss, rest) ← alloc_buffers lists remain
  (ss', rest') ← alloc_of (suc rest) list rest
  pure (ss ++ ss', rest')

-- `allocShmBuffers`, which returns the size of what it took; here what is missing to `size`.
unfoldable pub alloc_shm_buffers : BufferManager → ℕ → Command (List BufferSlice × ℕ)
unfolding alloc_buffers
alloc_shm_buffers b size = alloc_buffers b.lists size

-- `recycleBuffer` up to the return of the Go object to its pool: the first list of the capacity.
unfoldable pub recycle_to : List BufferList → BufferSlice → Command (Unit {0})
recycle_to [] s = pure tt
recycle_to (list ∷ lists) s =
    let others = recycle_to lists s in
    (do
      per ← read 4 list.cap_per_buffer
      if s.cap == per then (do push list s; pure tt) else others)

unfoldable pub recycle_buffer : BufferManager → BufferSlice → Command (Unit {0})
unfolding recycle_to
recycle_buffer b s = if s.is_from_shm then recycle_to b.lists s else pure tt

-- `readBufferSlice`; the end of the buffer is a word of 32 bits.
unfoldable pub read_buffer_slice : BufferManager → ℕ → Command BufferSlice
unfolding new_buffer_slice
read_buffer_slice b offset = do
  fail_if (leb b.mem.len (offset + buffer_header_size)) broken_memory
  first ← at b.mem offset
  cap ← read 4 first
  let end = (offset + buffer_header_size + cap) % 2 ^ 32
  fail_if (ltb (b.mem.len % 2 ^ 32) end) broken_memory
  header ← slice b.mem offset ((offset + buffer_header_size) % 2 ^ 32)
  block ← slice b.mem ((offset + buffer_header_size) % 2 ^ 32) end
  new_buffer_slice (some header.address) block offset true

-- `recycleBuffers`, along the chain in shared memory; `rounds` slices and no more are in it. An error is logged
-- and ends the loop.
unfoldable pub recycle_chain : ℕ → BufferManager → BufferSlice → Command (Unit {0})
unfolding read_buffer_slice has_next next_buffer_offset
recycle_chain zero b s = crash
recycle_chain (suc rounds) b s =
    let others = recycle_chain rounds b in
    elim s.header [
      | none ↦ crash
      | some h ↦ (do
        more ← has_next h
        next ← next_buffer_offset h
        recycle_buffer b s
        if more
            then (λ m. elim (read_buffer_slice b next m) [
              | ok s' m' ↦ others s' m'
              | err e m' ↦ ok tt m'
              | panic ↦ panic
            ])
            else pure tt)
    ]

unfoldable pub recycle_buffers : ℕ → BufferManager → BufferSlice → Command (Unit {0})
unfolding recycle_chain
recycle_buffers rounds b s = if s.is_from_shm then recycle_chain rounds b s else pure tt

-- `remainSize`, a sum of words of 32 bits; the two words of a list are read as numbers, not as `int32`.
unfoldable pub remain_of : List BufferList → ℕ → Command ℕ
remain_of [] result = pure result
remain_of (list ∷ lists) result = do
  size ← read 4 list.size
  per ← read 4 list.cap_per_buffer
  remain_of lists ((result + size * per) % 2 ^ 32)

abbrev pub remain_size : BufferManager → Command ℕ
remain_size b = remain_of b.lists 0

-- `sliceSize`
unfoldable pub sizes_of : List BufferList → ℕ → Command ℕ
sizes_of [] size = pure size
sizes_of (list ∷ lists) size = do n ← read 4 list.size; sizes_of lists (size + n)

abbrev pub slice_count : BufferManager → Command ℕ
slice_count b = sizes_of b.lists 0

-- `checkBufferReturned`
unfoldable pub check_lists : List BufferList → Command Bool
check_lists [] = pure true
check_lists (list ∷ lists) =
    let others = check_lists lists in
    (do
      size ← read 4 list.size
      cap ← read 4 list.cap
      counter ← read 4 list.counter
      if size == cap && counter == 0 then others else pure false)

abbrev pub check_buffer_returned : BufferManager → Command Bool
check_buffer_returned b = check_lists b.lists
