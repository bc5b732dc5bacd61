-- ===== src/Queue/Manager.antt =====
-- The two queues of a session, from queue.go: `createQueueManager`, `createQueueManagerWithMemFd`,
-- `mappingQueueManager` and `mappingQueueManagerMemfd`. What the operating system answers is an
-- argument. The model identifies the addresses at which the two processes map one file.
pub mod Share
use Prim.Native.String.{String}
use shmipc_go.Prelude.{
  ℕ, ◌+◌, ◌-◌, ◌*◌, ◌/◌, ◌%◌, Bool, true, false, Option, none, some, ◌==◌, ◌&&◌, not, if◌then◌else◌,
}
use shmipc_go.Memory.{Address, Mem}
use shmipc_go.Errors.{
  queue_existed, queue_size_not_aligned, share_memory_had_not_left_space, system,
}
use shmipc_go.Command.{Command, ok, pure, throw, ◌>>=◌, ◌>>◌, fail_if, Bytes, slice}
use shmipc_go.Queue.{
  Queue, queue_count, count_mem_size, create_from_bytes, mapping_from_bytes, clear,
}

-- `MemMapType`
pub data MapType : Type 0 where
  dev_shm_file mem_fd : MapType

pub record Manager : Type 0 where
  pub path : String
  pub send_queue : Queue
  pub recv_queue : Queue
  pub mem : Bytes
  pub mmap_map_type : MapType
  pub mem_fd : ℕ

-- The answers of the system: whether the path exists and has room, whether a call failed, the size
-- of the file, and the address of the mapping.
pub record System : Type 0 where
  pub exists : Bool
  pub has_room : Bool
  pub open_fails : Bool
  pub truncate_fails : Bool
  pub stat_fails : Bool
  pub file_size : ℕ
  pub mapping : Option Address

abbrev pub mmap : System → ℕ → Command Bytes
mmap sys n = elim sys.mapping [
  | none ↦ throw system
  | some a ↦ pure (record { address = a; len = n; cap = n })
]

abbrev pub zeroed : Bytes → Command (Unit {0})
zeroed b m = ok tt (clear b.len b.address m)

-- The end of both `create` functions: the first half is for sending.
unfoldable pub create_halves : Bool → System → String → ℕ → MapType → ℕ → Command Manager
create_halves arm sys path queue_cap kind fd = do
  let mem_size = count_mem_size queue_cap * queue_count
  mem ← mmap sys mem_size
  zeroed mem
  first ← slice mem 0 (mem_size / 2)
  send ← create_from_bytes arm first queue_cap
  second ← slice mem (mem_size / 2) mem.len
  recv ← create_from_bytes arm second queue_cap
  pure (record {
    path = path;
    send_queue = send;
    recv_queue = recv;
    mem = mem;
    mmap_map_type = kind;
    mem_fd = fd;
  })

-- The end of both `mapping` functions: the peer's first half is for receiving.
unfoldable pub mapping_halves : Bool → System → String → MapType → ℕ → Command Manager
mapping_halves arm sys path kind fd = do
  fail_if sys.stat_fails system
  let mapping_size = sys.file_size
  fail_if (arm && not (mapping_size % 16 == 0)) queue_size_not_aligned
  mem ← mmap sys mapping_size
  second ← slice mem (mapping_size / 2) mem.len
  send ← mapping_from_bytes arm second
  first ← slice mem 0 (mapping_size / 2)
  recv ← mapping_from_bytes arm first
  pure (record {
    path = path;
    send_queue = send;
    recv_queue = recv;
    mem = mem;
    mmap_map_type = kind;
    mem_fd = fd;
  })

-- `createQueueManagerWithMemFd`; `fd` is what `MemfdCreate` returns.
unfoldable pub create_manager_with_mem_fd : Bool → System → ℕ → String → ℕ → Command Manager
unfolding create_halves
create_manager_with_mem_fd arm sys fd path queue_cap = do
  fail_if sys.open_fails system
  fail_if sys.truncate_fails system
  create_halves arm sys path queue_cap mem_fd fd

-- `createQueueManager`
unfoldable pub create_manager : Bool → System → String → ℕ → Command Manager
unfolding create_halves
create_manager arm sys path queue_cap = do
  fail_if sys.exists queue_existed
  fail_if (not sys.has_room) share_memory_had_not_left_space
  fail_if sys.open_fails system
  fail_if sys.truncate_fails system
  create_halves arm sys path queue_cap dev_shm_file 0

-- `mappingQueueManagerMemfd`
unfoldable pub mapping_manager_mem_fd : Bool → System → String → ℕ → Command Manager
unfolding mapping_halves
mapping_manager_mem_fd arm sys path fd = mapping_halves arm sys path mem_fd fd

-- `mappingQueueManager`
unfoldable pub mapping_manager : Bool → System → String → Command Manager
unfolding mapping_halves
mapping_manager arm sys path = do
  fail_if sys.open_fails system
  mapping_halves arm sys path dev_shm_file 0
