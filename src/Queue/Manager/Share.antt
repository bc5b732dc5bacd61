-- ===== src/Queue/Manager/Share.antt =====
-- One process creates a queue file of queue.go and the other maps it.
use Prim.Native.String.{String}
use shmipc_go.Prelude.{
  ℕ, ◌+◌, ◌-◌, ◌*◌, ◌/◌, ◌%◌, ◌^◌, ◌<◌, ◌≡◌, refl, Bool, true, false, some, [], arith,
}
use shmipc_go.Memory.{Address, Mem}
use shmipc_go.Command.{ok, Bytes}
use shmipc_go.Queue.{Queue, queue_count, count_mem_size, clear}
use shmipc_go.Queue.Contents.{IsValid, contents}
use shmipc_go.Queue.Create.{
  IsBlock, IsFresh, queue_on, init_memory, mapping-ok, create-ok, init_memory-IsFresh,
  IsFresh-init_memory, IsFresh-IsValid, IsFresh-contents,
}
use shmipc_go.Queue.Manager.{
  Manager, System, MapType, dev_shm_file, create_halves, mapping_halves, create_manager,
  mapping_manager,
}

-- What two ends of one file agree on: each sends on the queue that the other receives on, and
-- both queues are valid and empty.
pub record Crossed (near far : Manager) (m : Mem) : Type 0 where
  pub near_far : far.recv_queue ≡ near.send_queue
  pub far_near : far.send_queue ≡ near.recv_queue
  pub send_valid : IsValid near.send_queue m
  pub recv_valid : IsValid near.recv_queue m
  pub send_empty : contents near.send_queue m ≡ []
  pub recv_empty : contents near.recv_queue m ≡ []

module _ (arm : Bool) (sys : System) (a : Address) (cap : ℕ) where
  abbrev size : ℕ
  size = count_mem_size cap * queue_count

  abbrev first : Bytes
  first = record { address = a + 0; len = size / 2 - 0; cap = size - 0 }

  abbrev second : Bytes
  second = record { address = a + size / 2; len = size - size / 2; cap = size - size / 2 }

  abbrev handle : String → MapType → ℕ → Queue → Queue → Manager
  handle path kind fd send recv = record {
    path = path;
    send_queue = send;
    recv_queue = recv;
    mem = record { address = a; len = size; cap = size };
    mmap_map_type = kind;
    mem_fd = fd;
  }

  abbrev halves_memory : Mem → Mem
  halves_memory m = init_memory arm second cap (init_memory arm first cap (clear size a m))

  module _ (p : 0 < cap) (s : count_mem_size cap < 2 ^ 32) (e : sys.mapping ≡ some a) where
    first-IsBlock : IsBlock first cap
    unfolding count_mem_size
    first-IsBlock = omega arith

    second-IsBlock : IsBlock second cap
    unfolding count_mem_size
    second-IsBlock = omega arith

    first-IsFresh : (m : Mem) → IsFresh arm first cap (halves_memory m)
    unfolding count_mem_size
    first-IsFresh m =
        IsFresh-init_memory arm first second cap (init_memory arm first cap (clear size a m))
          (omega arith) (init_memory-IsFresh arm first cap (clear size a m) (omega arith))

    second-IsFresh : (m : Mem) → IsFresh arm second cap (halves_memory m)
    unfolding count_mem_size
    second-IsFresh m = init_memory-IsFresh arm second cap _ (omega arith)

    create_halves-ok :
        (path : String) (kind : MapType) (fd : ℕ) (m : Mem)
        → create_halves arm sys path cap kind fd m
          ≡ ok
              (handle path kind fd (queue_on arm first cap) (queue_on arm second cap))
              (halves_memory m)
    unfolding create_halves
    create_halves-ok path kind fd m = ground (
      arith,
      create-ok arm first cap (clear size a m) first-IsBlock,
      create-ok arm second cap (init_memory arm first cap (clear size a m)) second-IsBlock,
    )

    mapping_halves-ok :
        (peer : System) (path : String) (kind : MapType) (fd : ℕ) (m : Mem)
        → peer.mapping ≡ some a
        → peer.stat_fails ≡ false
        → peer.file_size ≡ size
        → (arm ≡ true → size % 16 ≡ 0)
        → mapping_halves arm peer path kind fd (halves_memory m)
          ≡ ok
              (handle path kind fd (queue_on arm second cap) (queue_on arm first cap))
              (halves_memory m)
    unfolding mapping_halves
    mapping_halves-ok peer path kind fd m ea st n al = ground (
      arith,
      mapping-ok arm first cap (halves_memory m) first-IsBlock (first-IsFresh m).cap_word,
      mapping-ok arm second cap (halves_memory m) second-IsBlock (second-IsFresh m).cap_word,
    )

    crossed :
        (path path' : String) (kind kind' : MapType) (fd fd' : ℕ) (m : Mem)
        → Crossed
            (handle path kind fd (queue_on arm first cap) (queue_on arm second cap))
            (handle path' kind' fd' (queue_on arm second cap) (queue_on arm first cap))
            (halves_memory m)
    crossed path path' kind kind' fd fd' m = record {
      near_far = refl;
      far_near = refl;
      send_valid = IsFresh-IsValid arm first cap _ first-IsBlock (first-IsFresh m);
      recv_valid = IsFresh-IsValid arm second cap _ second-IsBlock (second-IsFresh m);
      send_empty = IsFresh-contents arm first cap _ (first-IsFresh m);
      recv_empty = IsFresh-contents arm second cap _ (second-IsFresh m);
    }

-- Every answer of the system that the creating side needs.
pub record Grants (sys : System) (a : Address) : Type 0 where
  pub absent : sys.exists ≡ false
  pub room : sys.has_room ≡ true
  pub opened : sys.open_fails ≡ false
  pub truncated : sys.truncate_fails ≡ false
  pub mapped : sys.mapping ≡ some a

-- Every answer that the mapping side needs, for a file of `n` bytes at the same place.
pub record Offers (sys : System) (a : Address) (n : ℕ) : Type 0 where
  pub opened : sys.open_fails ≡ false
  pub stated : sys.stat_fails ≡ false
  pub sized : sys.file_size ≡ n
  pub mapped : sys.mapping ≡ some a

-- When the system grants all calls, `createQueueManager` and then the peer's `mappingQueueManager`
-- both succeed, for every capacity above 0 whose queue fits 32 bits (on ARM, if the size of the
-- file is a multiple of 16): each side's sending queue is the other's receiving queue, and both
-- queues are valid and empty.
pub create-mapping :
    (arm : Bool) (sys peer : System) (a : Address) (path : String) (cap : ℕ) (m : Mem)
    → Grants sys a
    → Offers peer a (count_mem_size cap * queue_count)
    → 0 < cap
    → count_mem_size cap < 2 ^ 32
    → (arm ≡ true → count_mem_size cap * queue_count % 16 ≡ 0)
    → (near far : Manager) × (m' : Mem) × (create_manager arm sys path cap m ≡ ok near m')
      × (mapping_manager arm peer path m' ≡ ok far m')
      × Crossed near far m'
unfolding create_manager mapping_manager
create-mapping arm sys peer a path cap m g o p s al = (
  _,
  _,
  _,
  rw (g.absent, g.room, g.opened, g.truncated)
      (create_halves-ok arm sys a cap p s g.mapped path dev_shm_file 0 m),
  rw (o.opened) (
      mapping_halves-ok arm sys a cap p s g.mapped peer path dev_shm_file 0 m o.mapped o.stated
        o.sized al),
  crossed arm sys a cap p s g.mapped path path dev_shm_file dev_shm_file 0 0 m,
)
