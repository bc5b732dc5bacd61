-- ===== src/BufferList/Created.antt =====
-- `createFreeBufferList` and `mappingFreeBufferList` of buffer_manager.go on memory with room.
use shmipc_go.Prelude.{
  ℕ, zero, suc, ◌+◌, ◌-◌, ◌*◌, ◌^◌, ◌≤◌, ◌<◌, ◌≡◌, ◌∙◌, ap, sym, refl, subst, ◌⊎◌, inl, inr, [],
  append-nil, length, arith,
}
use shmipc_go.Memory.{Address, Mem, load, store}
use shmipc_go.Memory.Laws.{load-store_self, load-store_apart}
use shmipc_go.Command.{ok, Bytes}
use shmipc_go.BufferList.{
  BufferList, list_header_size, init_headers, create_free_list, mapping_free_list,
}
use shmipc_go.BufferList.Free.{IsFree, AllApart, AllInside, ApartFrom, last}
use shmipc_go.BufferList.Create.{
  buffers_from, headers_memory, laid_out, init_headers-run, load-headers, Links-laid_out,
}

-- `buffer_num` buffers of `per` bytes fit into the memory from `offset` on.
pub record IsRoom (n per : ℕ) (mem : Bytes) (offset : ℕ) : Type 0 where
  pub some_buffer : 0 < n
  pub some_byte : 0 < per
  pub fits : offset + (list_header_size + n * (per + 20)) ≤ mem.len
  pub within : mem.len ≤ mem.cap
  pub small : mem.len < 2 ^ 31

-- The handle on a list; the creator counts at 20, a process that maps it at 24.
abbrev pub list_on : ℕ → ℕ → ℕ → Bytes → ℕ → BufferList
list_on counter_offset n per mem offset = record {
  size = mem.address + offset;
  cap = mem.address + (offset + 4);
  head = mem.address + (offset + 8);
  tail = mem.address + (offset + 12);
  cap_per_buffer = mem.address + (offset + 16);
  counter = mem.address + (offset + counter_offset);
  region = record {
    address = mem.address + (offset + 36);
    len = offset + (36 + n * (per + 20)) - (offset + 36);
    cap = mem.cap - (offset + 36);
  };
  region_offset_in_shm = offset + 36;
  offset_in_shm = offset;
}

abbrev pub control_memory : ℕ → ℕ → BufferList → Mem → Mem
control_memory n per b m =
    store 4
      (store 4
        (store 4 (store 4 (store 4 (store 4 m b.size n) b.cap n) b.head 0) b.tail
          ((n - 1) * (per + 20)))
        b.cap_per_buffer per)
      b.counter 0

abbrev pub created_memory : ℕ → ℕ → BufferList → Mem → Mem
created_memory n per b m = laid_out n b.region.address per 0 (control_memory n per b m)

last-buffers_from : (n w current : ℕ) → last (buffers_from (suc n) w current) ≡ current + n * w
last-buffers_from zero w current = omega arith
last-buffers_from (suc n) w current =
    let more : suc n * w ≡ w + n * w = omega arith in
    omega (arith, last-buffers_from n w (current + w), more)

length-buffers_from : (n w current : ℕ) → length (buffers_from n w current) ≡ n
length-buffers_from zero w current = refl
length-buffers_from (suc n) w current = ap suc (length-buffers_from n w (current + w))

module _ (w : ℕ) where
  buffers_from-ApartFrom :
      (n x current : ℕ) → x + w ≤ current → ApartFrom w x (buffers_from n w current)
  buffers_from-ApartFrom zero x current h = tt
  buffers_from-ApartFrom (suc n) x current h =
      (inl h, buffers_from-ApartFrom n x (current + w) (omega arith))

  buffers_from-AllApart : (n current : ℕ) → AllApart w (buffers_from n w current)
  buffers_from-AllApart zero current = tt
  buffers_from-AllApart (suc n) current = (
    buffers_from-ApartFrom n current (current + w) (omega arith),
    buffers_from-AllApart n (current + w),
  )

  buffers_from-AllInside :
      (n current len : ℕ) → current + n * w ≤ len → AllInside w len (buffers_from n w current)
  buffers_from-AllInside zero current len h = tt
  buffers_from-AllInside (suc n) current len h =
      let more : suc n * w ≡ w + n * w = omega arith in
      (omega (arith, more, h), buffers_from-AllInside n (current + w) len (omega (arith, more, h)))

create-run :
    (n per : ℕ) (mem : Bytes) (offset : ℕ) (m : Mem)
    → IsRoom (suc n) per mem offset
    → let b = list_on 20 (suc n) per mem offset in
      create_free_list (suc n) per mem offset m ≡ ok b (created_memory (suc n) per b m)
unfolding create_free_list
create-run n per mem offset m room =
    let b = list_on 20 (suc n) per mem offset in
    let region = b.region in
    let m1 = control_memory (suc n) per b m in
    let m2 = headers_memory (suc n) region.address per 0 m1 in
    let total : suc n * (per + 20) ≡ per + 20 + n * (per + 20) = omega arith in
    let one_less : suc n - 1 ≡ n = omega arith in
    let tail_word : (suc n - 1) * (per + 20) ≡ n * (per + 20) = ap (λ k. k * (per + 20)) one_less in
    let ran : init_headers (suc n) region per 0 m1 ≡ ok tt m2 =
      init_headers-run (suc n) region per 0 m1 (omega (arith, room)) (omega (arith, room)) in
    let tail_at : load 4 m2 b.tail ≡ n * (per + 20) =
      load-headers 4 (suc n) region.address per 0 m1 b.tail (omega arith)
      ∙ load-store_apart 4 4 _ b.counter 0 b.tail (omega arith)
      ∙ load-store_apart 4 4 _ b.cap_per_buffer per b.tail (omega arith)
      ∙ load-store_self 4 _ b.tail _ (omega (arith, total, tail_word, room))
      ∙ tail_word in
    let last_at = last-buffers_from n (per + 20) 0 in
    ground (arith, ran, tail_at, last_at, total, tail_word)

module _ (n per : ℕ) (mem : Bytes) (offset : ℕ) (m : Mem)
    (room : IsRoom (suc n) per mem offset) where
  abbrev b : BufferList
  b = list_on 20 (suc n) per mem offset

  abbrev final : Mem
  final = created_memory (suc n) per b m

  -- The words of the control block are as they were written.
  load-created :
      (a : Address)
      → a + 4 ≤ b.region.address
      → load 4 final a ≡ load 4 (control_memory (suc n) per b m) a
  load-created a before =
      load-store_apart 4 1 _ _ 0 a (omega arith)
      ∙ load-headers 4 (suc n) b.region.address per 0 _ a (omega arith)

  total : suc n * (per + 20) ≡ per + 20 + n * (per + 20)
  total = omega arith

  last_buffer : last (buffers_from (suc n) (per + 20) 0) ≡ (suc n - 1) * (per + 20)
  last_buffer =
      let one_less : suc n - 1 ≡ n = omega arith in
      last-buffers_from n (per + 20) 0 ∙ sym (ap (λ k. 0 + k * (per + 20)) one_less) ∙ omega arith

  few : n < 2 ^ 31
  few = grind (arith, total, room)

  cap_word : load 4 final b.cap ≡ suc n
  cap_word =
      load-created b.cap (omega arith)
      ∙ load-store_apart 4 4 _ b.counter 0 b.cap (omega arith)
      ∙ load-store_apart 4 4 _ b.cap_per_buffer per b.cap (omega arith)
      ∙ load-store_apart 4 4 _ b.tail _ b.cap (omega arith)
      ∙ load-store_apart 4 4 _ b.head 0 b.cap (omega arith)
      ∙ load-store_self 4 _ b.cap (suc n) (omega (arith, few))

  per_word : load 4 final b.cap_per_buffer ≡ per
  per_word =
      load-created b.cap_per_buffer (omega arith)
      ∙ load-store_apart 4 4 _ b.counter 0 b.cap_per_buffer (omega arith)
      ∙ load-store_self 4 _ b.cap_per_buffer per (omega (arith, total, room))

  size_word : load 4 final b.size ≡ suc n
  size_word =
      load-created b.size (omega arith)
      ∙ load-store_apart 4 4 _ b.counter 0 b.size (omega arith)
      ∙ load-store_apart 4 4 _ b.cap_per_buffer per b.size (omega arith)
      ∙ load-store_apart 4 4 _ b.tail _ b.size (omega arith)
      ∙ load-store_apart 4 4 _ b.head 0 b.size (omega arith)
      ∙ load-store_apart 4 4 _ b.cap (suc n) b.size (omega arith)
      ∙ load-store_self 4 m b.size (suc n) (omega (arith, few))

  head_word : load 4 final b.head ≡ 0
  head_word =
      load-created b.head (omega arith)
      ∙ load-store_apart 4 4 _ b.counter 0 b.head (omega arith)
      ∙ load-store_apart 4 4 _ b.cap_per_buffer per b.head (omega arith)
      ∙ load-store_apart 4 4 _ b.tail _ b.head (omega arith)
      ∙ load-store_self 4 _ b.head 0 (omega arith)

  tail_word : load 4 final b.tail ≡ last (buffers_from (suc n) (per + 20) 0)
  tail_word =
      load-created b.tail (omega arith)
      ∙ load-store_apart 4 4 _ b.counter 0 b.tail (omega arith)
      ∙ load-store_apart 4 4 _ b.cap_per_buffer per b.tail (omega arith)
      ∙ load-store_self 4 _ b.tail _
          (omega (arith, total, last_buffer, last-buffers_from n (per + 20) 0, room))
      ∙ sym last_buffer

  -- The counter does not matter: the list is valid for the creator and for one that maps it.
  pub created-IsFree :
      (k : ℕ)
      → (k ≡ 20) ⊎ (k ≡ 24)
      → IsFree (list_on k (suc n) per mem offset) per final (buffers_from (suc n) (per + 20) 0) []
  created-IsFree k counter = record {
    layout = omega (arith, total, room, counter);
    per_word = per_word;
    size_word = size_word ∙ sym (length-buffers_from (suc n) (per + 20) 0);
    head_word = head_word;
    tail_word = tail_word;
    some_free = omega arith;
    few = omega (arith, few, length-buffers_from n (per + 20) (0 + (per + 20)));
    inside =
        subst (AllInside (per + 20) _) (sym (append-nil (buffers_from (suc n) (per + 20) 0)))
          (buffers_from-AllInside (per + 20) (suc n) 0 _ (omega (arith, total)));
    apart =
        subst (AllApart (per + 20)) (sym (append-nil (buffers_from (suc n) (per + 20) 0)))
          (buffers_from-AllApart (per + 20) (suc n) 0);
    links =
        Links-laid_out n b.region.address per 0 _ (omega (arith, total, room))
          (omega (arith, total, room, last-buffers_from n (per + 20) 0));
    caps = tt;
  }

  mapping-run : mapping_free_list mem offset final ≡ ok (list_on 24 (suc n) per mem offset) final
  unfolding mapping_free_list
  mapping-run = ground (arith, cap_word, per_word, total)

-- A list laid out in memory with room for its buffers is valid with every buffer free, in the order
-- of the addresses; a process that maps it where it lies finds the same list, valid too, with the
-- counter four bytes further.
pub create-mapping_list :
    (n per : ℕ) (mem : Bytes) (offset : ℕ) (m : Mem)
    → IsRoom n per mem offset
    → (m' : Mem) × (create_free_list n per mem offset m ≡ ok (list_on 20 n per mem offset) m')
      × (mapping_free_list mem offset m' ≡ ok (list_on 24 n per mem offset) m')
      × IsFree (list_on 20 n per mem offset) per m' (buffers_from n (per + 20) 0) []
      × IsFree (list_on 24 n per mem offset) per m' (buffers_from n (per + 20) 0) []
create-mapping_list zero per mem offset m room = absurd (omega arith)
create-mapping_list (suc n) per mem offset m room = (
  created_memory (suc n) per (list_on 20 (suc n) per mem offset) m,
  create-run n per mem offset m room,
  mapping-run n per mem offset m room,
  created-IsFree n per mem offset m room 20 (inl refl),
  created-IsFree n per mem offset m room 24 (inr refl),
)
