-- ===== src/BufferList/Popped.antt =====
-- The free list of buffer_manager.go after a `pop`.
use mathlib.Core.List.{Permᴰ}
use mathlib.Core.List.Permᴰ
use shmipc_go.Prelude.{
  ℕ, ◌+◌, ◌-◌, ◌%◌, ◌^◌, ◌≤◌, ◌<◌, ◌≡◌, ◌∙◌, ap, ◌⊎◌, List, [], ◌∷◌, ◌++◌, arith,
}
use shmipc_go.Memory.{Address, Mem, load, store}
use shmipc_go.Memory.Laws.{load-store_self, load-store_apart}
use shmipc_go.Errors.{no_more_buffer}
use shmipc_go.Command.{err}
use shmipc_go.BufferSlice.Header.{header_at}
use shmipc_go.BufferList.{BufferList, pop}
use shmipc_go.BufferList.Free.{
  IsLayout, IsFree, Links, Caps, Links-store, Caps-store, Clear-before, Clear-ApartFrom, ApartFrom,
}
use shmipc_go.BufferList.Apart.{
  AllApart-Perm, AllInside-Perm, ApartFrom-append_left, ApartFrom-append_right,
}
use shmipc_go.BufferList.Pop.{lowered, taken_memory, popped_memory}

-- What a store of a property of memory keeps, the writes of a round keep.
module _ (b : BufferList) (per x y : ℕ) (m : Mem) (layout : IsLayout b per)
    (small : y < 2 ^ 32) where
  pub Links-taken :
      (xs : List ℕ)
      → ApartFrom (per + 20) x xs
      → Links m b.region.address per xs
      → Links (taken_memory b x y m) b.region.address per xs
  Links-taken xs apart l =
      let flag =
        Clear-ApartFrom b.region.address 1 per x (b.region.address + x + 16) xs (omega arith)
          (omega arith) apart in
      Links-store _ per 4 _ b.counter _ xs (Clear-before _ 4 b.counter xs (omega arith)) (
        Links-store _ per 1 _ _ 2 xs flag (
          Links-store _ per 1 _ _ 0 xs flag
            (Links-store _ per 4 _ b.head y xs (Clear-before _ 4 b.head xs (omega arith)) l)))

  pub Caps-taken :
      (xs : List ℕ)
      → ApartFrom (per + 20) x xs
      → Caps m b.region.address per xs
      → Caps (taken_memory b x y m) b.region.address per xs
  Caps-taken xs apart l =
      let flag =
        Clear-ApartFrom b.region.address 1 per x (b.region.address + x + 16) xs (omega arith)
          (omega arith) apart in
      Caps-store _ per 4 _ b.counter _ xs (Clear-before _ 4 b.counter xs (omega arith)) (
        Caps-store _ per 1 _ _ 2 xs flag (
          Caps-store _ per 1 _ _ 0 xs flag
            (Caps-store _ per 4 _ b.head y xs (Clear-before _ 4 b.head xs (omega arith)) l)))

  -- A word that lies apart from the head, the counter and the flag.
  pub load-taken :
      (a : Address)
      → (a + 4 ≤ b.head) ⊎ (b.head + 4 ≤ a)
      → (a + 4 ≤ b.counter) ⊎ (b.counter + 4 ≤ a)
      → (a + 4 ≤ b.region.address + x + 16) ⊎ (b.region.address + x + 17 ≤ a)
      → load 4 (taken_memory b x y m) a ≡ load 4 m a
  load-taken a h c f =
      load-store_apart 4 4 _ b.counter _ a c
      ∙ load-store_apart 4 1 _ _ 2 a (omega arith)
      ∙ load-store_apart 4 1 _ _ 0 a (omega arith)
      ∙ load-store_apart 4 4 m b.head y a h

  pub head-taken : load 4 (taken_memory b x y m) b.head ≡ y
  head-taken =
      load-store_apart 4 4 _ b.counter _ b.head (omega arith)
      ∙ load-store_apart 4 1 _ _ 2 b.head (omega arith)
      ∙ load-store_apart 4 1 _ _ 0 b.head (omega arith)
      ∙ load-store_self 4 m b.head y small

  -- The counter counts one buffer more.
  pub counter-taken : load 4 (taken_memory b x y m) b.counter ≡ (load 4 m b.counter + 1) % 2 ^ 32
  counter-taken =
      load-store_self 4 _ b.counter _ (omega arith)
      ∙ ap (λ c. (c + 1) % 2 ^ 32)
          (load-store_apart 4 1 _ _ 2 b.counter (omega arith)
            ∙ load-store_apart 4 1 _ _ 0 b.counter (omega arith)
            ∙ load-store_apart 4 4 m b.head y b.counter (omega arith))

module _ (b : BufferList) (per : ℕ) (m : Mem) (x y : ℕ) (ys held : List ℕ)
    (v : IsFree b per m (x ∷ y ∷ ys) held) where
  abbrev low : ℕ
  low = (load 4 m b.size + (2 ^ 32 - 1)) % 2 ^ 32

  order : Permᴰ ((x ∷ y ∷ ys) ++ held) ((y ∷ ys) ++ (x ∷ held))
  order = Permᴰ.symm (Permᴰ.middle x (y ∷ ys) held)

  pub popped_memory-IsFree : IsFree b per (popped_memory b m x y) (y ∷ ys) (x ∷ held)
  unfolding header_at
  popped_memory-IsFree =
      let m1 = lowered b m in
      let small : y < 2 ^ 32 = omega arith in
      let free = (ApartFrom-append_left (per + 20) x (y ∷ ys) held v.apart.0) in
      let others = (ApartFrom-append_right (per + 20) x (y ∷ ys) held v.apart.0) in
      let low_links =
        Links-store b.region.address per 4 m b.size low (x ∷ y ∷ ys)
          (Clear-before b.region.address 4 b.size (x ∷ y ∷ ys) (omega arith)) v.links in
      let low_caps =
        Caps-store b.region.address per 4 m b.size low held
          (Clear-before b.region.address 4 b.size held (omega arith)) v.caps in
      record {
        layout = v.layout;
        per_word =
            load-taken b per x y m1 v.layout small b.cap_per_buffer (omega arith) (omega arith)
              (omega arith)
            ∙ load-store_apart 4 4 m b.size low b.cap_per_buffer (omega arith)
            ∙ v.per_word;
        size_word =
            load-taken b per x y m1 v.layout small b.size (omega arith) (omega arith) (omega arith)
            ∙ load-store_self 4 m b.size low (omega arith)
            ∙ omega arith;
        head_word = head-taken b per x y m1 v.layout small;
        tail_word =
            load-taken b per x y m1 v.layout small b.tail (omega arith) (omega arith) (omega arith)
            ∙ load-store_apart 4 4 m b.size low b.tail (omega arith)
            ∙ v.tail_word;
        some_free = omega arith;
        few = omega arith;
        inside = AllInside-Perm (per + 20) b.region.len order v.inside;
        apart = AllApart-Perm (per + 20) order v.apart;
        links = Links-taken b per x y m1 v.layout small (y ∷ ys) free low_links.1;
        caps = (
          load-taken b per x y m1 v.layout small (b.region.address + x) (omega arith) (omega arith)
                (omega arith)
              ∙ low_links.0.cap_word,
          Caps-taken b per x y m1 v.layout small held others low_caps,
        );
      }

-- The last free buffer is not handed out: `size` goes down and up again.
abbrev pub refused_memory : BufferList → Mem → Mem
refused_memory b m = let m1 = lowered b m in store 4 m1 b.size ((load 4 m1 b.size + 1) % 2 ^ 32)

pub pop-refused :
    (b : BufferList) (per : ℕ) (m : Mem) (x : ℕ) (held : List ℕ)
    → IsFree b per m (x ∷ []) held
    → pop b m ≡ err no_more_buffer (refused_memory b m)
unfolding pop
pop-refused b per m x held v =
    let lower : load 4 (lowered b m) b.size ≡ 0 =
      load-store_self 4 m b.size _ (omega arith) ∙ omega arith in
    ground (arith, lower)

pub refused_memory-IsFree :
    (b : BufferList) (per : ℕ) (m : Mem) (x : ℕ) (held : List ℕ)
    → IsFree b per m (x ∷ []) held
    → IsFree b per (refused_memory b m) (x ∷ []) held
refused_memory-IsFree b per m x held v =
    let n0 = (load 4 m b.size + (2 ^ 32 - 1)) % 2 ^ 32 in
    let m1 = lowered b m in
    let n1 = (load 4 m1 b.size + 1) % 2 ^ 32 in
    let lower : load 4 m1 b.size ≡ 0 = load-store_self 4 m b.size n0 (omega arith) ∙ omega arith in
    let other : (a : Address) → b.size + 4 ≤ a → load 4 (refused_memory b m) a ≡ load 4 m a = λ a h.
      load-store_apart 4 4 m1 b.size n1 a (omega arith)
      ∙ load-store_apart 4 4 m b.size n0 a (omega arith) in
    let clear = Clear-before b.region.address 4 b.size in
    record {
      layout = v.layout;
      per_word = other b.cap_per_buffer (omega arith) ∙ v.per_word;
      size_word = load-store_self 4 m1 b.size n1 (omega arith) ∙ omega (arith, lower);
      head_word = other b.head (omega arith) ∙ v.head_word;
      tail_word = other b.tail (omega arith) ∙ v.tail_word;
      some_free = v.some_free;
      few = v.few;
      inside = v.inside;
      apart = v.apart;
      links =
          Links-store b.region.address per 4 m1 b.size n1 (x ∷ []) (clear (x ∷ []) (omega arith)) (
            Links-store b.region.address per 4 m b.size n0 (x ∷ []) (clear (x ∷ []) (omega arith))
              v.links);
      caps =
          Caps-store b.region.address per 4 m1 b.size n1 held (clear held (omega arith))
            (Caps-store b.region.address per 4 m b.size n0 held (clear held (omega arith)) v.caps);
    }
