-- ===== src/BufferManager/Returned.antt =====
-- `checkBufferReturned` of buffer_manager.go when one process takes a buffer and the other returns it.
use shmipc_go.Prelude.{
  ℕ, suc, ◌+◌, ◌-◌, ◌%◌, ◌^◌, ◌≡◌, refl, ◌∙◌, ap, sym, ◌⊎◌, inl, inr, false, List, [], ◌∷◌, ◌++◌,
  length, arith,
}
use shmipc_go.Memory.{Address, Mem, load}
use shmipc_go.Memory.Laws.{load-store_apart}
use shmipc_go.Command.{ok}
use shmipc_go.BufferSlice.{BufferSlice}
use shmipc_go.BufferList.{BufferList, pop, push}
use shmipc_go.BufferList.Free.{IsFree, last}
use shmipc_go.BufferList.Pop.{slice_of, lowered, popped_memory, pop-run}
use shmipc_go.BufferList.Popped.{popped_memory-IsFree, load-taken, counter-taken}
use shmipc_go.BufferList.Push.{pushed_memory, push-run, reset_slice}
use shmipc_go.BufferList.Pushed.{
  pushed_memory-IsFree, load-pushed, size-pushed, counter-pushed, inside_old, inside_x,
}
use shmipc_go.BufferManager.{BufferManager, check_buffer_returned, check_lists}

-- The list as the process that maps it sees it.
abbrev pub mapped : BufferList → BufferList
mapped b = record b { counter = b.size + 24 }

-- The creator's handle on a list with every buffer free and both counters at zero.
pub record IsUntouched (b : BufferList) (per : ℕ) (m : Mem) (free : List ℕ) : Type 0 where
  pub valid : IsFree b per m free []
  pub creator : b.counter ≡ b.size + 20
  pub whole : load 4 m b.cap ≡ length free
  pub creator_zero : load 4 m b.counter ≡ 0
  pub mapper_zero : load 4 m (b.size + 24) ≡ 0

module _ (b : BufferList) (per : ℕ) (m : Mem) (x y : ℕ) (ys : List ℕ)
    (u : IsUntouched b per m (x ∷ y ∷ ys)) where
  abbrev between : Mem
  between = popped_memory b m x y

  abbrev after : Mem
  after = pushed_memory (mapped b) between (last (y ∷ ys)) x

  mapped-IsFree : IsFree (mapped b) per between (y ∷ ys) (x ∷ [])
  mapped-IsFree =
      let v = popped_memory-IsFree b per m x y ys [] u.valid in
      record {
        layout = omega (arith, v);
        per_word = v.per_word;
        size_word = v.size_word;
        head_word = v.head_word;
        tail_word = v.tail_word;
        some_free = v.some_free;
        few = v.few;
        inside = v.inside;
        apart = v.apart;
        links = v.links;
        caps = v.caps;
      }

  -- A word of the control block that neither call writes.
  load-after :
      (a : Address) → (a ≡ b.size + 4) ⊎ (a ≡ b.size + 20) → load 4 after a ≡ load 4 between a
  load-after a h =
      let w = mapped-IsFree in
      load-pushed (mapped b) per between y ys x [] w a (omega (arith, u)) (omega (arith, u))
        (omega (arith, u)) (load-store_apart 4 4 _ b.size _ a (omega (arith, u)))

  between-cap : load 4 between b.cap ≡ suc (suc (length ys))
  between-cap =
      load-taken b per x y (lowered b m) u.valid.layout (omega (arith, u)) b.cap (omega (arith, u))
        (omega (arith, u)) (omega (arith, u))
      ∙ load-store_apart 4 4 m b.size _ b.cap (omega (arith, u))
      ∙ u.whole

  between-creator : load 4 between b.counter ≡ 1
  between-creator =
      counter-taken b per x y (lowered b m) u.valid.layout (omega (arith, u))
      ∙ ap (λ n. (n + 1) % 2 ^ 32)
          (load-store_apart 4 4 m b.size _ b.counter (omega (arith, u)) ∙ u.creator_zero)
      ∙ omega arith

  between-mapper : load 4 between (b.size + 24) ≡ 0
  between-mapper =
      load-taken b per x y (lowered b m) u.valid.layout (omega (arith, u)) (b.size + 24)
        (omega (arith, u)) (omega (arith, u)) (omega (arith, u))
      ∙ load-store_apart 4 4 m b.size _ (b.size + 24) (omega (arith, u))
      ∙ u.mapper_zero

  after-cap : load 4 after b.cap ≡ suc (suc (length ys))
  after-cap =
      ap (load 4 after) (u.valid.layout.cap_at)
      ∙ load-after (b.size + 4) (inl refl)
      ∙ sym (ap (load 4 between) u.valid.layout.cap_at)
      ∙ between-cap

  after-creator : load 4 after b.counter ≡ 1
  after-creator =
      ap (load 4 after) u.creator
      ∙ load-after (b.size + 20) (inr refl)
      ∙ sym (ap (load 4 between) u.creator)
      ∙ between-creator

  after-mapper : load 4 after (b.size + 24) ≡ 2 ^ 32 - 1
  after-mapper =
      counter-pushed (mapped b) per between y ys x [] mapped-IsFree
      ∙ ap (λ n. (n + (2 ^ 32 - 1)) % 2 ^ 32) between-mapper
      ∙ omega arith

  after-size : load 4 after b.size ≡ suc (suc (length ys))
  after-size =
      size-pushed (mapped b) per between y ys x [] mapped-IsFree
      ∙ ap (λ n. (n + 1) % 2 ^ 32) (mapped-IsFree.size_word)
      ∙ omega (arith, u)

-- On a list with every buffer free and its counters at zero, the creator takes a buffer and the
-- other process returns it. All buffers are free again, and `size` is `cap`, but each process has
-- counted in a word of its own, and `checkBufferReturned` says false for both of them.
pub check_buffer_returned-cross :
    (b : BufferList) (per : ℕ) (m : Mem) (x y : ℕ) (ys : List ℕ) (creator mapper : BufferManager)
    → IsUntouched b per m (x ∷ y ∷ ys)
    → creator.lists ≡ b ∷ []
    → mapper.lists ≡ mapped b ∷ []
    → (m1 : Mem) × (m2 : Mem) × (s : BufferSlice) × (s' : BufferSlice) × (pop b m ≡ ok s m1)
      × (push (mapped b) s m1 ≡ ok s' m2)
      × IsFree b per m2 (y ∷ ys ++ x ∷ []) []
      × (load 4 m2 b.size ≡ load 4 m2 b.cap)
      × (check_buffer_returned creator m2 ≡ ok false m2)
      × (check_buffer_returned mapper m2 ≡ ok false m2)
unfolding check_lists
check_buffer_returned-cross b per m x y ys creator mapper u own other =
    let w = mapped-IsFree b per m x y ys u in
    let v = pushed_memory-IsFree (mapped b) per (between b per m x y ys u) y ys x [] w in
    let cap_word = after-cap b per m x y ys u in
    let size_word = after-size b per m x y ys u in
    let one = after-creator b per m x y ys u in
    let minus = after-mapper b per m x y ys u in
    (
      between b per m x y ys u,
      after b per m x y ys u,
      slice_of b per x,
      reset_slice (slice_of b per x),
      pop-run b per m x y ys [] u.valid,
      push-run (mapped b) per (between b per m x y ys u) x (last (y ∷ ys)) (slice_of b per x)
          w.layout (record { header_at = refl; offset_at = refl }) w.tail_word
          (inside_old (mapped b) per _ y ys x [] w) (inside_x (mapped b) per _ y ys x [] w),
      record {
        layout = u.valid.layout;
        per_word = v.per_word;
        size_word = v.size_word;
        head_word = v.head_word;
        tail_word = v.tail_word;
        some_free = v.some_free;
        few = v.few;
        inside = v.inside;
        apart = v.apart;
        links = v.links;
        caps = v.caps;
      },
      size_word ∙ sym cap_word,
      ground (arith, own, one, size_word, cap_word),
      ground (arith, other, minus, size_word, cap_word),
    )
