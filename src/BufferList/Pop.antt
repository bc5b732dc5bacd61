-- ===== src/BufferList/Pop.antt =====
-- `pop` of buffer_manager.go on a valid free list with a buffer to spare.
use shmipc_go.Prelude.{
  ℕ, suc, ◌+◌, ◌-◌, ◌%◌, ◌^◌, ◌≤◌, ◌≡◌, ◌∙◌, true, some, none, List, ◌∷◌, length, arith,
}
use shmipc_go.Memory.{Mem, load, store}
use shmipc_go.Memory.Laws.{load-store_self, load-store_apart}
use shmipc_go.Command.{ok}
use shmipc_go.BufferSlice.{
  BufferSlice, has_next, next_buffer_offset, clear_flag, set_in_used, new_buffer_slice,
}
use shmipc_go.BufferSlice.Header.{header_at}
use shmipc_go.BufferList.{BufferList, popped, pop, pop_round, pop_rounds}
use shmipc_go.BufferList.Free.{IsLayout, IsFree, IsLinked, Links-store, Clear-before}

-- The slice that stands for the free buffer at `x`.
abbrev pub slice_of : BufferList → ℕ → ℕ → BufferSlice
slice_of b per x = record {
  header = some (b.region.address + x);
  block = record {
    address = b.region.address + (x + 20);
    len = x + 20 + per - (x + 20);
    cap = b.region.cap - (x + 20);
  };
  cap = per;
  start = 0;
  offset_in_shm = x + b.region_offset_in_shm;
  read_index = 0;
  write_index = 0;
  is_from_shm = true;
  next_slice = none;
}

-- `size` one lower.
abbrev pub lowered : BufferList → Mem → Mem
lowered b m = store 4 m b.size ((load 4 m b.size + (2 ^ 32 - 1)) % 2 ^ 32)

-- The memory after the round that takes the buffer at `x`.
abbrev pub taken_memory : BufferList → ℕ → ℕ → Mem → Mem
taken_memory b x next m =
    let unflagged = store 1 (store 4 m b.head next) (b.region.address + x + 16) 0 in
    let flagged = store 1 unflagged (b.region.address + x + 16) 2 in
    store 4 flagged b.counter ((load 4 flagged b.counter + 1) % 2 ^ 32)

abbrev pub popped_memory : BufferList → Mem → ℕ → ℕ → Mem
popped_memory b m x y = taken_memory b x y (lowered b m)

module _ (b : BufferList) (per : ℕ) (m : Mem) (x y : ℕ) where
  pop_round-run :
      IsLayout b per
      → load 4 m b.head ≡ x
      → load 4 m b.cap_per_buffer ≡ per
      → IsLinked (header_at m (b.region.address + x)) per y
      → x + (per + 20) ≤ b.region.len
      → pop_round b x m ≡ ok (popped (slice_of b per x)) (taken_memory b x y m)
  unfolding pop_round has_next next_buffer_offset clear_flag set_in_used new_buffer_slice header_at
  pop_round-run layout head per_word linked inside =
      let h = b.region.address + x in
      let m1 = store 4 m b.head y in
      let m2 = store 1 m1 (h + 16) 0 in
      let m3 = store 1 m2 (h + 16) 2 in
      let m4 = taken_memory b x y m in
      let flag_zero : load 1 m2 (h + 16) ≡ 0 = load-store_self 1 m1 (h + 16) 0 (omega arith) in
      let per4 : load 4 m4 b.cap_per_buffer ≡ per =
        load-store_apart 4 4 m3 b.counter ((load 4 m3 b.counter + 1) % 2 ^ 32) b.cap_per_buffer
          (omega arith)
        ∙ load-store_apart 4 1 m2 (h + 16) 2 b.cap_per_buffer (omega arith)
        ∙ load-store_apart 4 1 m1 (h + 16) 0 b.cap_per_buffer (omega arith)
        ∙ load-store_apart 4 4 m b.head y b.cap_per_buffer (omega arith)
        ∙ per_word in
      let word : (k : ℕ) → k + 4 ≤ 16 → load 4 m4 (h + k) ≡ load 4 m (h + k) = λ k small.
        load-store_apart 4 4 m3 b.counter ((load 4 m3 b.counter + 1) % 2 ^ 32) (h + k) (omega arith)
        ∙ load-store_apart 4 1 m2 (h + 16) 2 (h + k) (omega arith)
        ∙ load-store_apart 4 1 m1 (h + 16) 0 (h + k) (omega arith)
        ∙ load-store_apart 4 4 m b.head y (h + k) (omega arith) in
      let at_zero : h + 0 ≡ h = omega arith in
      let cap4 : load 4 m4 (h + 0) ≡ per = word 0 (omega arith) ∙ (rw at_zero linked.cap_word) in
      let start4 : load 4 m4 (h + 8) ≡ 0 = word 8 (omega arith) ∙ linked.start_word in
      let size4 : load 4 m4 (h + 4) ≡ 0 = word 4 (omega arith) ∙ linked.size_word in
      ground (arith, flag_zero, per4, cap4, start4, size4)

pop_rounds-first :
    (n : ℕ) (b : BufferList) (x : ℕ) (m m' : Mem) (s : BufferSlice)
    → pop_round b x m ≡ ok (popped s) m'
    → pop_rounds (suc n) b x m ≡ ok s m'
unfolding pop_rounds
pop_rounds-first n b x m m' s e = rw e

module _ (b : BufferList) (per : ℕ) (m : Mem) (x y : ℕ) (ys held : List ℕ) where
  pub pop-run :
      IsFree b per m (x ∷ y ∷ ys) held → pop b m ≡ ok (slice_of b per x) (popped_memory b m x y)
  unfolding pop
  pop-run v =
      let n = length ys in
      let head : load 4 (lowered b m) b.head ≡ x =
        load-store_apart 4 4 m b.size ((load 4 m b.size + (2 ^ 32 - 1)) % 2 ^ 32) b.head
          (omega arith)
        ∙ v.head_word in
      let per_word : load 4 (lowered b m) b.cap_per_buffer ≡ per =
        load-store_apart 4 4 m b.size ((load 4 m b.size + (2 ^ 32 - 1)) % 2 ^ 32) b.cap_per_buffer
          (omega arith)
        ∙ v.per_word in
      let links =
        Links-store b.region.address per 4 m b.size ((load 4 m b.size + (2 ^ 32 - 1)) % 2 ^ 32)
          (x ∷ y ∷ ys) (Clear-before b.region.address 4 b.size (x ∷ y ∷ ys) (omega arith))
          v.links in
      let round =
        pop_round-run b per (lowered b m) x y v.layout head per_word links.0 (v.inside.0) in
      let rounds =
        pop_rounds-first 199 b x (lowered b m) (popped_memory b m x y) (slice_of b per x) round in
      ground (arith, rounds)
