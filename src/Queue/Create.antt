-- ===== src/Queue/Create.antt =====
-- `createQueueFromBytes` and `mappingQueueFromBytes` of queue.go: where the words of a queue lie
-- in its block of memory.
use shmipc_go.Prelude.{
  ℕ, ◌+◌, ◌*◌, ◌^◌, ◌≤◌, ◌<◌, ◌≡◌, ◌∙◌, ◌⊎◌, Bool, true, false, if◌then◌else◌, [], ◌-◌, arith,
}
use shmipc_go.Memory.{Address, Mem, load, store}
use shmipc_go.Memory.Laws.{load-store_self, load-store_apart}
use shmipc_go.Command.{ok, Bytes}
use shmipc_go.Queue.{Queue, header_length, element_len, create_from_bytes, mapping_from_bytes}
use shmipc_go.Queue.Contents.{IsValid, IsLayout, contents}

-- The block of a queue of `cap` elements, large enough and within 32 bits.
pub record IsBlock (block : Bytes) (cap : ℕ) : Type 0 where
  pub positive : 0 < cap
  pub fits : header_length + cap * element_len ≤ block.len
  pub within : block.len ≤ block.cap
  pub small : header_length + cap * element_len < 2 ^ 32

-- The handle on a block.
abbrev pub queue_on : Bool → Bytes → ℕ → Queue
queue_on arm b cap =
    let bytes : Bytes = record {
      address = b.address + header_length;
      len = cap * element_len;
      cap = b.cap - header_length;
    } in
    if arm
    then record {
      head = b.address + 8;
      tail = b.address + 16;
      working_flag = b.address + 4;
      cap = cap;
      bytes = bytes;
    }
    else record {
      head = b.address + 4;
      tail = b.address + 12;
      working_flag = b.address + 20;
      cap = cap;
      bytes = bytes;
    }

pub mapping-ok :
    (arm : Bool) (block : Bytes) (cap : ℕ) (m : Mem)
    → IsBlock block cap
    → load 4 m block.address ≡ cap
    → mapping_from_bytes arm block m ≡ ok (queue_on arm block cap) m
unfolding mapping_from_bytes
mapping-ok true block cap m is e = ground arith
mapping-ok false block cap m is e = ground arith

abbrev pub init_memory : Bool → Bytes → ℕ → Mem → Mem
init_memory arm b cap m =
    let q = queue_on arm b cap in
    store 4 (store 8 (store 8 (store 4 m b.address cap) q.head 0) q.tail 0) q.working_flag 0

pub create-ok :
    (arm : Bool) (block : Bytes) (cap : ℕ) (m : Mem)
    → IsBlock block cap
    → create_from_bytes arm block cap m ≡ ok (queue_on arm block cap) (init_memory arm block cap m)
unfolding create_from_bytes
create-ok arm block cap m is = ground (
  arith,
  mapping-ok arm block cap (store 4 m block.address cap) is,
  load-store_self 4 m block.address cap,
)

pub queue_on-IsLayout :
    (arm : Bool) (block : Bytes) (cap : ℕ) → IsBlock block cap → IsLayout (queue_on arm block cap)
queue_on-IsLayout true block cap is = ground arith
queue_on-IsLayout false block cap is = ground arith

-- What a fresh block holds: its capacity and two counters at zero.
pub record IsFresh (arm : Bool) (b : Bytes) (cap : ℕ) (m : Mem) : Type 0 where
  pub cap_word : load 4 m b.address ≡ cap
  pub head_zero : load 8 m (queue_on arm b cap).head ≡ 0
  pub tail_zero : load 8 m (queue_on arm b cap).tail ≡ 0

pub init_memory-IsFresh :
    (arm : Bool) (b : Bytes) (cap : ℕ) (m : Mem)
    → cap < 2 ^ 32
    → IsFresh arm b cap (init_memory arm b cap m)
init_memory-IsFresh true b cap m h = grind (arith, load-store_self, load-store_apart)
init_memory-IsFresh false b cap m h = grind (arith, load-store_self, load-store_apart)

-- Words before a block, or behind its header, are not touched by laying it out.
pub load-init_memory :
    (k : ℕ) (arm : Bool) (b : Bytes) (cap : ℕ) (m : Mem) (a : Address)
    → (a + k ≤ b.address) ⊎ (b.address + header_length ≤ a)
    → load k (init_memory arm b cap m) a ≡ load k m a
load-init_memory k true b cap m a h =
    load-store_apart k 4 _ _ _ a (omega arith)
    ∙ load-store_apart k 8 _ _ _ a (omega arith)
    ∙ load-store_apart k 8 _ _ _ a (omega arith)
    ∙ load-store_apart k 4 _ _ _ a (omega arith)
load-init_memory k false b cap m a h =
    load-store_apart k 4 _ _ _ a (omega arith)
    ∙ load-store_apart k 8 _ _ _ a (omega arith)
    ∙ load-store_apart k 8 _ _ _ a (omega arith)
    ∙ load-store_apart k 4 _ _ _ a (omega arith)

-- A block that lies before another stays fresh while the other is laid out.
pub IsFresh-init_memory :
    (arm : Bool) (b c : Bytes) (cap : ℕ) (m : Mem)
    → b.address + header_length ≤ c.address
    → IsFresh arm b cap m
    → IsFresh arm b cap (init_memory arm c cap m)
IsFresh-init_memory true b c cap m h f = record {
  cap_word = load-init_memory 4 true c cap m b.address (omega arith) ∙ f.cap_word;
  head_zero = load-init_memory 8 true c cap m (b.address + 8) (omega arith) ∙ f.head_zero;
  tail_zero = load-init_memory 8 true c cap m (b.address + 16) (omega arith) ∙ f.tail_zero;
}
IsFresh-init_memory false b c cap m h f = record {
  cap_word = load-init_memory 4 false c cap m b.address (omega arith) ∙ f.cap_word;
  head_zero = load-init_memory 8 false c cap m (b.address + 4) (omega arith) ∙ f.head_zero;
  tail_zero = load-init_memory 8 false c cap m (b.address + 12) (omega arith) ∙ f.tail_zero;
}

pub IsFresh-IsValid :
    (arm : Bool) (b : Bytes) (cap : ℕ) (m : Mem)
    → IsBlock b cap
    → IsFresh arm b cap m
    → IsValid (queue_on arm b cap) m
IsFresh-IsValid arm b cap m is f =
    let e = f.head_zero in
    let e' = f.tail_zero in
    record {
      layout = queue_on-IsLayout arm b cap is;
      ordered = omega arith;
      bounded = omega arith;
      in_range = omega arith;
    }

pub IsFresh-contents :
    (arm : Bool) (b : Bytes) (cap : ℕ) (m : Mem)
    → IsFresh arm b cap m
    → contents (queue_on arm b cap) m ≡ []
IsFresh-contents arm b cap m f = rw (f.head_zero, f.tail_zero)
