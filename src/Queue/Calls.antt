-- ===== src/Queue/Calls.antt =====
-- Each call of queue.go on a valid queue: which branch it takes, and the memory it leaves.
use native.Mathlib.Nat.{mod-lt}
use shmipc_go.Prelude.{ℕ, ◌+◌, ◌-◌, ◌*◌, ◌%◌, ◌^◌, ◌≤◌, ◌<◌, ◌≡◌, ◌∙◌, ◌⊎◌, arith, leb}
use shmipc_go.Memory.{Address, Mem, load, store}
use shmipc_go.Memory.Laws.{load-store_apart}
use shmipc_go.Errors.{queue_full, queue_empty}
use shmipc_go.Command.{ok, err, sub_word, signed_le, at, Bytes}
use shmipc_go.Queue.{Queue, Element, element_len, put, pop, write_element, read_element, index}
use shmipc_go.Queue.Contents.{IsValid, head_of, tail_of, slot, element_at}

-- Below 2^63 the signed order and the wrapping operations are the plain ones.
signed_le-small : (a b : ℕ) → a < 2 ^ 63 → b < 2 ^ 63 → signed_le 64 a b ≡ leb a b
signed_le-small a b p q = ground arith

sub_word-small : (a b : ℕ) → b ≤ a → a < 2 ^ 63 → sub_word 64 a b ≡ a - b
sub_word-small a b p q = omega arith

index-small : (i cap : ℕ) (m : Mem) → 0 < cap → i < 2 ^ 63 → index i cap m ≡ ok (i % cap) m
unfolding index
index-small i cap m p q = ground arith

at-room : (b : Bytes) (i : ℕ) (m : Mem) → i < b.len → at b i m ≡ ok (b.address + i) m
at-room b i m h = ground arith

-- The memory after the three words of an element are written.
abbrev pub with_element : Mem → Address → Element → Mem
with_element m a e =
    store 4 (store 4 (store 4 m a e.seq_id) (a + 4) e.offset_in_shm_buf) (a + 8) e.status

write_element-ok :
    (q : Queue) (i : ℕ) (e : Element) (m : Mem)
    → i * element_len + 8 < q.bytes.len
    → write_element q (i * element_len) e m
      ≡ ok tt (with_element m (q.bytes.address + i * element_len) e)
unfolding write_element
write_element-ok q i e m h = ground arith

read_element-ok :
    (q : Queue) (i : ℕ) (m : Mem)
    → i * element_len + 8 < q.bytes.len
    → read_element q (i * element_len) m ≡ ok (element_at m (q.bytes.address + i * element_len)) m
unfolding read_element
read_element-ok q i m h = ground arith

-- Words outside the element are as before.
pub load-with_element :
    (k : ℕ) (m : Mem) (a : Address) (e : Element) (b : Address)
    → (b + k ≤ a) ⊎ (a + 12 ≤ b)
    → load k (with_element m a e) b ≡ load k m b
load-with_element k m a e b h =
    load-store_apart k 4 _ (a + 8) e.status b (omega arith)
    ∙ load-store_apart k 4 _ (a + 4) e.offset_in_shm_buf b (omega arith)
    ∙ load-store_apart k 4 _ a e.seq_id b (omega arith)

-- The memory after `put`: the element in the slot of `tail`, then the new `tail`.
abbrev pub put_memory : Queue → Element → Mem → Mem
put_memory q e m = store 8 (with_element m (slot q (tail_of q m)) e) q.tail (tail_of q m + 1)

abbrev pub pop_memory : Queue → Mem → Mem
pop_memory q m = store 8 m q.head (head_of q m + 1)

module _ (q : Queue) (m : Mem) (v : IsValid q m) where
  slot_room : (i : ℕ) → i % q.cap * element_len + 8 < q.bytes.len
  slot_room i = omega (arith, v.layout, mod-lt i {m = q.cap} v.layout.positive)

  pub put-full : (e : Element) → tail_of q m ≡ head_of q m + q.cap → put q e m ≡ err queue_full m
  unfolding put
  put-full e full =
      rw (sub_word-small (tail_of q m) (head_of q m) v.ordered v.in_range)
        (ground (arith, v.layout, signed_le-small q.cap (tail_of q m - head_of q m)))

  -- The counters do not lie in the slots.
  counter_apart :
      (a : Address) (i : ℕ) (e : Element)
      → a + 8 ≤ q.bytes.address
      → load 8 (with_element m (slot q i) e) a ≡ load 8 m a
  counter_apart a i e h = load-with_element 8 m (slot q i) e a (omega arith)

  pub put-ok :
      (e : Element) → tail_of q m < head_of q m + q.cap → put q e m ≡ ok tt (put_memory q e m)
  unfolding put
  put-ok e room = rw (sub_word-small (tail_of q m) (head_of q m) v.ordered v.in_range) (
      ground (
        arith,
        v.layout,
        signed_le-small q.cap (tail_of q m - head_of q m),
        index-small (tail_of q m) q.cap m,
        write_element-ok q (tail_of q m % q.cap) e m (slot_room (tail_of q m)),
        counter_apart q.tail (tail_of q m) e,
      ))

  pub pop-empty : tail_of q m ≡ head_of q m → pop q m ≡ err queue_empty m
  unfolding pop
  pop-empty none_left = ground (arith, v.layout, signed_le-small (tail_of q m) (head_of q m))

  pub pop-ok :
      head_of q m < tail_of q m
      → pop q m ≡ ok (element_at m (slot q (head_of q m))) (pop_memory q m)
  unfolding pop
  pop-ok some_left = ground (
    arith,
    v.layout,
    signed_le-small (tail_of q m) (head_of q m),
    index-small (head_of q m) q.cap m,
    read_element-ok q (head_of q m % q.cap) m (slot_room (head_of q m)),
  )
