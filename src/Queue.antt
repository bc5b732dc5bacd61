-- ===== src/Queue.antt =====
-- queue.go: the ring of queue elements in shared memory. A handle holds the addresses that the
-- Go struct holds as pointers, so that two processes with a handle each share one memory.
pub mod Contents
pub mod Fifo
pub mod Calls
pub mod Effects
pub mod Refine
pub mod Create
pub mod Manager
pub mod Wakeup
mod Tests
use shmipc_go.Prelude.{
  ℕ, zero, suc, ◌+◌, ◌-◌, ◌*◌, ◌%◌, ◌^◌, Bool, true, false, ◌==◌, ltb, if◌then◌else◌,
}
use shmipc_go.Memory.{Address, Mem, update}
use shmipc_go.Errors.{queue_empty, queue_full}
use shmipc_go.Command.{
  Command, ok, pure, throw, crash, ◌>>=◌, ◌>>◌, read, write, Bytes, slice, at, add_word, sub_word,
  signed_le,
}

abbrev pub header_length : ℕ
header_length = 24

abbrev pub element_len : ℕ
element_len = 12

abbrev pub queue_count : ℕ
queue_count = 2

pub record Element : Type 0 where
  pub seq_id : ℕ
  pub offset_in_shm_buf : ℕ
  pub status : ℕ

pub record Queue : Type 0 where
  pub head : Address
  pub tail : Address
  pub working_flag : Address
  pub cap : ℕ
  pub bytes : Bytes

-- `countQueueMemSize`
unfoldable pub count_mem_size : ℕ → ℕ
count_mem_size cap = header_length + element_len * cap

-- `mappingQueueFromBytes`; the end offset is computed in 32 bits.
unfoldable pub mapping_from_bytes : Bool → Bytes → Command Queue
mapping_from_bytes arm block = do
  first ← at block 0
  cap ← read 4 first
  a ← at block 4
  b ← at block (if arm then 8 else 12)
  c ← at block (if arm then 16 else 20)
  bytes ← slice block header_length ((header_length + cap * element_len) % 2 ^ 32)
  pure (
      if arm
      then record { head = b; tail = c; working_flag = a; cap = cap; bytes = bytes }
      else record { head = a; tail = b; working_flag = c; cap = cap; bytes = bytes })

-- `createQueueFromBytes`
unfoldable pub create_from_bytes : Bool → Bytes → ℕ → Command Queue
create_from_bytes arm block cap = do
  first ← at block 0
  write 4 first cap
  q ← mapping_from_bytes arm block
  write 8 q.head 0
  write 8 q.tail 0
  write 4 q.working_flag 0
  pure q

-- `for i := 0; i < len(mem); i++ { mem[i] = 0 }`, and the zeroing of `make`.
unfoldable pub clear : ℕ → Address → Mem → Mem
clear zero a m = m
clear (suc n) a m = clear n (a + 1) (update m a 0)

-- `createQueue`; `fresh` is the address that `make` returns, and `cap*queueElementLen` wraps.
unfoldable pub create : Bool → Address → ℕ → Command Queue
unfolding clear create_from_bytes
create arm fresh cap m =
    let n = header_length + cap * element_len % 2 ^ 32 in
    create_from_bytes arm (record { address = fresh; len = n; cap = n }) cap (clear n fresh m)

-- `tail - head`, an int64.
abbrev pub size : Queue → Command ℕ
size q = do tail ← read 8 q.tail; head ← read 8 q.head; pure (sub_word 64 tail head)

unfoldable pub is_full : Queue → Command Bool
is_full q = do n ← size q; pure (n == q.cap)

unfoldable pub is_empty : Queue → Command Bool
is_empty q = do n ← size q; pure (n == 0)

-- The index `i % q.cap` of an int64 `i`: a negative remainder is no index, and a zero divisor panics.
unfoldable pub index : ℕ → ℕ → Command ℕ
index i cap =
    if cap == 0
    then crash
    else if ltb i (2 ^ 63)
    then pure (i % cap)
    else if (2 ^ 64 - i) % cap == 0
    then pure 0
    else crash

unfoldable pub read_element : Queue → ℕ → Command Element
read_element q offset = do
  a ← at q.bytes offset
  seq_id ← read 4 a
  b ← at q.bytes (offset + 4)
  offset_in_shm_buf ← read 4 b
  c ← at q.bytes (offset + 8)
  status ← read 4 c
  pure (record { seq_id = seq_id; offset_in_shm_buf = offset_in_shm_buf; status = status })

unfoldable pub write_element : Queue → ℕ → Element → Command (Unit {0})
write_element q offset e = do
  a ← at q.bytes offset
  write 4 a e.seq_id
  b ← at q.bytes (offset + 4)
  write 4 b e.offset_in_shm_buf
  c ← at q.bytes (offset + 8)
  write 4 c e.status

-- `atomic.AddInt64(p, 1)`
abbrev pub increment : Address → Command (Unit {0})
increment p = do n ← read 8 p; write 8 p (add_word 64 n 1)

pub pop : Queue → Command Element
unfolding index read_element
pop q = do
  head ← read 8 q.head
  tail ← read 8 q.tail
  if signed_le 64 tail head
      then throw queue_empty
      else do i ← index head q.cap; e ← read_element q (i * element_len); increment q.head; pure e

-- The lock keeps other producers of this process out; the whole call is one step for them.
unfoldable pub put : Queue → Element → Command (Unit {0})
unfolding index write_element
put q e = do
  tail ← read 8 q.tail
  head ← read 8 q.head
  if signed_le 64 q.cap (sub_word 64 tail head)
      then throw queue_full
      else do i ← index tail q.cap; write_element q (i * element_len) e; increment q.tail

unfoldable pub consumer_is_working : Queue → Command Bool
consumer_is_working q = do flag ← read 4 q.working_flag; pure (ltb 0 flag)

-- `CompareAndSwap(flag, 0, 1)`
unfoldable pub mark_working : Queue → Command Bool
mark_working q = do
  flag ← read 4 q.working_flag
  if flag == 0 then (do write 4 q.working_flag 1; pure true) else pure false

unfoldable pub mark_not_working : Queue → Command Bool
mark_not_working q = do
  write 4 q.working_flag 0
  n ← size q
  if n == 0 then pure true else (do write 4 q.working_flag 1; pure false)
