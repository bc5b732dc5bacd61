-- ===== src/BufferList.antt =====
-- buffer_manager.go: a free list of buffers in shared memory. A handle holds the addresses that the
-- Go struct holds as pointers. A call runs without another between its steps, so that its
-- compare-and-swap fails only if the word differs.
pub mod Free
pub mod Pop
pub mod Popped
pub mod Push
pub mod Chained
pub mod Pushed
pub mod Run
pub mod Create
pub mod Created
pub mod Frame
mod Tests
pub mod Apart
use Prim.Native.Nat.{bit_or}
use shmipc_go.Prelude.{
  ℕ, zero, suc, ◌+◌, ◌-◌, ◌*◌, ◌%◌, ◌^◌, Bool, true, false, ◌&&◌, ◌||◌, ◌==◌, ltb, leb,
  if◌then◌else◌, some,
}
use shmipc_go.Memory.{Address, Mem, load, store}
use shmipc_go.Errors.{no_more_buffer, zero_buffer, mem_too_small, out_of_range, bad_list}
use shmipc_go.Command.{
  Command, ok, err, pure, throw, crash, ◌>>=◌, ◌>>◌, read, write, Bytes, slice, at, add_word,
  sub_word, signed_le, fail_if,
}
use shmipc_go.BufferSlice.{
  BufferSlice, buffer_header_size, buffer_size_offset, buffer_data_start_offset,
  next_buffer_offset_at, buffer_flag_offset, has_next_buffer_flag, has_next, next_buffer_offset,
  clear_flag, set_in_used, link_next, new_buffer_slice, reset,
}

abbrev pub list_header_size : ℕ
list_header_size = 36

pub record BufferList : Type 0 where
  pub size : Address
  pub cap : Address
  pub head : Address
  pub tail : Address
  pub cap_per_buffer : Address
  pub counter : Address
  pub region : Bytes
  pub region_offset_in_shm : ℕ
  pub offset_in_shm : ℕ

-- `countBufferListMemSize`
abbrev pub count_list_mem_size : ℕ → ℕ → ℕ
count_list_mem_size buffer_num cap_per_buffer =
    (list_header_size + buffer_num * (cap_per_buffer + buffer_header_size)) % 2 ^ 32

-- `b.bufferRegion[i]` with an index of 32 bits.
abbrev at_word : Bytes → ℕ → Command Address
at_word b i = at b (i % 2 ^ 32)

-- The loop that lays out the headers, for the buffers from `current` on.
unfoldable pub init_headers : ℕ → Bytes → ℕ → ℕ → Command (Unit {0})
init_headers zero region cap_per_buffer current = pure tt
init_headers (suc rest) region cap_per_buffer current =
    let next = (current + cap_per_buffer + buffer_header_size) % 2 ^ 32 in
    let others = init_headers rest region cap_per_buffer next in
    (do
      a ← at region current
      write 4 a cap_per_buffer
      a ← at_word region (current + buffer_size_offset)
      write 4 a 0
      a ← at_word region (current + buffer_data_start_offset)
      write 4 a 0
      if ltb 0 rest
          then (do
            a ← at_word region (current + next_buffer_offset_at)
            write 4 a next
            a ← at_word region (current + buffer_flag_offset)
            flag ← read 1 a
            write 1 a (bit_or flag has_next_buffer_flag))
          else pure tt
      others)

-- `createFreeBufferList`
unfoldable pub create_free_list : ℕ → ℕ → Bytes → ℕ → Command BufferList
unfolding init_headers
create_free_list buffer_num cap_per_buffer mem offset =
    let at_least = count_list_mem_size buffer_num cap_per_buffer in
    let region_start = (offset + list_header_size) % 2 ^ 32 in
    let region_end = (offset + at_least) % 2 ^ 32 in
    (do
      fail_if (buffer_num == 0 || cap_per_buffer == 0) zero_buffer
      fail_if
          (ltb mem.len region_end
            || ltb (mem.len % 2 ^ 32) offset
            || ltb (mem.len % 2 ^ 32) at_least)
          mem_too_small
      fail_if (leb region_end region_start) out_of_range
      size ← at_word mem offset
      cap ← at_word mem (offset + 4)
      head ← at_word mem (offset + 8)
      tail ← at_word mem (offset + 12)
      per ← at_word mem (offset + 16)
      counter ← at_word mem (offset + 20)
      region ← slice mem region_start region_end
      write 4 size buffer_num
      write 4 cap buffer_num
      write 4 head 0
      write 4 tail ((buffer_num - 1) * (cap_per_buffer + buffer_header_size) % 2 ^ 32)
      write 4 per cap_per_buffer
      write 4 counter 0
      init_headers buffer_num region cap_per_buffer 0
      last ← read 4 tail
      last_buffer ← slice region last region.len
      flag ← at last_buffer buffer_flag_offset
      write 1 flag 0
      pure (record {
        size = size;
        cap = cap;
        head = head;
        tail = tail;
        cap_per_buffer = per;
        counter = counter;
        region = region;
        region_offset_in_shm = region_start;
        offset_in_shm = offset;
      }))

-- `mappingFreeBufferList`; here the counter is four bytes behind the word that creation uses.
unfoldable pub mapping_free_list : Bytes → ℕ → Command BufferList
mapping_free_list mem offset = do
  fail_if (ltb mem.len (list_header_size + offset)) bad_list
  size ← at_word mem offset
  cap ← at_word mem (offset + 4)
  head ← at_word mem (offset + 8)
  tail ← at_word mem (offset + 12)
  per ← at_word mem (offset + 16)
  counter ← at_word mem (offset + 24)
  n ← read 4 cap
  c ← read 4 per
  let start = (offset + list_header_size) % 2 ^ 32
  let end = (offset + count_list_mem_size n c) % 2 ^ 32
  fail_if (ltb (mem.len % 2 ^ 32) end || ltb end start) bad_list
  region ← slice mem start end
  pure (record {
    size = size;
    cap = cap;
    head = head;
    tail = tail;
    cap_per_buffer = per;
    counter = counter;
    region = region;
    region_offset_in_shm = start;
    offset_in_shm = offset;
  })

-- `atomic.AddInt32(p, n)`, with the negative numbers as words.
abbrev pub add_int32 : Address → ℕ → Command ℕ
add_int32 p n = do v ← read 4 p; write 4 p (add_word 32 v n); pure (add_word 32 v n)

abbrev pub minus_one : ℕ
minus_one = 2 ^ 32 - 1

-- How a round of the loop in `pop` ends.
pub data Round : Type 0 where
  popped : BufferSlice → Round
  refused retry : Round

-- A round that found `old` at the head.
unfoldable pub pop_round : BufferList → ℕ → Command Round
unfolding has_next next_buffer_offset clear_flag set_in_used new_buffer_slice
pop_round b old = do
  window ← slice b.region old ((old + buffer_header_size) % 2 ^ 32)
  linked ← has_next window.address
  if linked
      then (do
        next ← next_buffer_offset window.address
        head ← read 4 b.head
        if head == old
            then (do
              write 4 b.head next
              window ← slice b.region old ((old + buffer_header_size) % 2 ^ 32)
              clear_flag window.address
              set_in_used window.address
              add_int32 b.counter 1
              per ← read 4 b.cap_per_buffer
              block ←
                  slice b.region ((old + buffer_header_size) % 2 ^ 32)
                    ((old + buffer_header_size + per) % 2 ^ 32)
              s ←
                  new_buffer_slice (some window.address) block
                    ((old + b.region_offset_in_shm) % 2 ^ 32) true
              pure (popped s))
            else pure retry)
      else (do size ← read 4 b.size; pure (if signed_le 32 size 1 then refused else retry))

unfoldable pub pop_rounds : ℕ → BufferList → ℕ → Command BufferSlice
unfolding pop_round
pop_rounds zero b old = do add_int32 b.size 1; throw no_more_buffer
pop_rounds (suc n) b old = do
  round ← pop_round b old
  elim round [
    | popped s ↦ pure s
    | refused ↦ (do add_int32 b.size 1; throw no_more_buffer)
    | retry ↦ (do head ← read 4 b.head; pop_rounds n b head)
  ]

-- `pop`
unfoldable pub pop : BufferList → Command BufferSlice
unfolding pop_rounds
pop b = do
  old ← read 4 b.head
  remain ← add_int32 b.size minus_one
  if signed_le 32 remain 0
      then (do add_int32 b.size 1; throw no_more_buffer)
      else pop_rounds 200 b old

-- `push`; its loop ends in the first round. The slice returned is `buffer` after its `reset`.
unfoldable pub push : BufferList → BufferSlice → Command BufferSlice
unfolding reset link_next
push b buffer = do
  s ← reset buffer
  old ← read 4 b.tail
  let new = sub_word 32 s.offset_in_shm b.region_offset_in_shm
  write 4 b.tail new
  window ← slice b.region old ((old + buffer_header_size) % 2 ^ 32)
  link_next window.address new
  add_int32 b.size 1
  add_int32 b.counter minus_one
  pure s

-- `remain`, an int32.
unfoldable pub remain : BufferList → Command ℕ
remain b = do size ← read 4 b.size; pure (sub_word 32 size 1)
