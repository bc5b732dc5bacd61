-- ===== src/BufferList/Pushed.antt =====
-- The free list of buffer_manager.go after a `push`.
use shmipc_go.Prelude.{
  ℕ, ◌+◌, ◌-◌, ◌%◌, ◌^◌, ◌≤◌, ◌≡◌, ◌∙◌, ap, sym, subst, ◌⊎◌, List, [], ◌∷◌, ◌++◌, append_assoc,
  length-append, arith,
}
use shmipc_go.Memory.{Address, Mem, load, store}
use shmipc_go.Memory.Laws.{load-store_self, load-store_apart}
use shmipc_go.BufferSlice.Header.{header_at, header_at-apart}
use shmipc_go.BufferList.{BufferList}
use shmipc_go.BufferList.Free.{
  IsFree, IsLast, Links, Caps, Links-store, Caps-store, Clear-before, Clear-ApartFrom, AllApart,
  AllInside, ApartFrom, last,
}
use shmipc_go.BufferList.Apart.{ApartFrom-append_right}
use shmipc_go.BufferList.Push.{cleared_memory, chained_memory, pushed_memory, load-cleared}
use shmipc_go.BufferList.Chained.{
  cleared-IsLast, Links-chained, AllApart-append_left, ApartFrom-middle, AllInside-last,
  AllInside-at, last-append, ApartFrom-last_held,
}

module _ (b : BufferList) (per : ℕ) (m : Mem) (z : ℕ) (zs : List ℕ) (x : ℕ) (held : List ℕ)
    (v : IsFree b per m (z ∷ zs) (x ∷ held)) where
  abbrev base : ℕ
  base = b.region.address

  abbrev old : ℕ
  old = last (z ∷ zs)

  abbrev m1 : Mem
  m1 = cleared_memory m (base + x)

  abbrev m2 : Mem
  m2 = store 4 m1 b.tail x

  abbrev m3 : Mem
  m3 = chained_memory m2 (base + old) x

  abbrev m4 : Mem
  m4 = store 4 m3 b.size ((load 4 m3 b.size + 1) % 2 ^ 32)

  abbrev m5 : Mem
  m5 = pushed_memory b m old x

  pub inside_x : x + (per + 20) ≤ b.region.len
  inside_x = AllInside-at (per + 20) b.region.len x (z ∷ zs) held v.inside

  pub inside_old : old + (per + 20) ≤ b.region.len
  inside_old = AllInside-last (per + 20) b.region.len z zs (x ∷ held) v.inside

  others : ApartFrom (per + 20) x (z ∷ zs) × ApartFrom (per + 20) x held
  others = ApartFrom-middle (per + 20) x (z ∷ zs) held v.apart

  regroup : (z ∷ zs ++ x ∷ []) ++ held ≡ z ∷ zs ++ x ∷ held
  regroup = append_assoc (z ∷ zs) (x ∷ []) held

  apart : AllApart (per + 20) ((z ∷ zs ++ x ∷ []) ++ held)
  apart = subst (AllApart (per + 20)) (sym regroup) v.apart

  -- A word of the control block that `push` does not write.
  pub load-pushed :
      (a : Address)
      → a + 4 ≤ base
      → (a + 4 ≤ b.tail) ⊎ (b.tail + 4 ≤ a)
      → (a + 4 ≤ b.counter) ⊎ (b.counter + 4 ≤ a)
      → load 4 m4 a ≡ load 4 m3 a
      → load 4 m5 a ≡ load 4 m a
  load-pushed a before t c s =
      load-store_apart 4 4 m4 b.counter _ a c
      ∙ s
      ∙ load-store_apart 4 1 _ _ _ a (omega arith)
      ∙ load-store_apart 4 4 m2 _ x a (omega arith)
      ∙ load-store_apart 4 4 m1 b.tail x a t
      ∙ load-cleared 4 m (base + x) a (omega arith)

  pub size-pushed : load 4 m5 b.size ≡ (load 4 m b.size + 1) % 2 ^ 32
  size-pushed =
      let keep : load 4 m3 b.size ≡ load 4 m b.size =
        load-store_apart 4 1 _ _ _ b.size (omega arith)
        ∙ load-store_apart 4 4 m2 _ x b.size (omega arith)
        ∙ load-store_apart 4 4 m1 b.tail x b.size (omega arith)
        ∙ load-cleared 4 m (base + x) b.size (omega arith) in
      load-store_apart 4 4 m4 b.counter _ b.size (omega arith)
      ∙ load-store_self 4 m3 b.size _ (omega arith)
      ∙ ap (λ n. (n + 1) % 2 ^ 32) keep

  -- The counter counts one buffer less.
  pub counter-pushed : load 4 m5 b.counter ≡ (load 4 m b.counter + (2 ^ 32 - 1)) % 2 ^ 32
  counter-pushed =
      load-store_self 4 m4 b.counter _ (omega arith)
      ∙ ap (λ n. (n + (2 ^ 32 - 1)) % 2 ^ 32)
          (load-store_apart 4 4 m3 b.size _ b.counter (omega arith)
            ∙ load-store_apart 4 1 _ _ _ b.counter (omega arith)
            ∙ load-store_apart 4 4 m2 _ x b.counter (omega arith)
            ∙ load-store_apart 4 4 m1 b.tail x b.counter (omega arith)
            ∙ load-cleared 4 m (base + x) b.counter (omega arith))

  tail-pushed : load 4 m5 b.tail ≡ x
  tail-pushed =
      load-store_apart 4 4 m4 b.counter _ b.tail (omega arith)
      ∙ load-store_apart 4 4 m3 b.size _ b.tail (omega arith)
      ∙ load-store_apart 4 1 _ _ _ b.tail (omega arith)
      ∙ load-store_apart 4 4 m2 _ x b.tail (omega arith)
      ∙ load-store_self 4 m1 b.tail x (omega (arith, inside_x))

  -- The links once the two headers are written; the words of the control block lie before them.
  Links-pushed : Links m5 base per (z ∷ zs ++ x ∷ [])
  Links-pushed =
      let clear = Clear-ApartFrom base in
      let before = Clear-before base 4 in
      let cleared : Links m1 base per (z ∷ zs) =
        Links-store base per 1 _ (base + x + 16) 0 (z ∷ zs)
          (clear 1 per x (base + x + 16) (z ∷ zs) (omega arith) (omega arith) others.0)
          (Links-store base per 4 _ (base + x + 8) 0 (z ∷ zs)
            (clear 4 per x (base + x + 8) (z ∷ zs) (omega arith) (omega arith) others.0)
            (Links-store base per 4 m (base + x + 4) 0 (z ∷ zs)
              (clear 4 per x (base + x + 4) (z ∷ zs) (omega arith) (omega arith) others.0)
              v.links)) in
      let new = cleared-IsLast m (base + x) per v.caps.0 in
      let new2 : IsLast (header_at m2 (base + x)) per =
        subst (λ r. IsLast r per) (sym (header_at-apart 4 m1 b.tail x (base + x) (omega arith)))
          new in
      let chained : Links m3 base per (z ∷ zs ++ x ∷ []) =
        Links-chained m2 base per x (omega (arith, inside_x)) z zs
          (AllApart-append_left (per + 20) (z ∷ zs ++ x ∷ []) held apart) new2
          (Links-store base per 4 m1 b.tail x (z ∷ zs) (before b.tail (z ∷ zs) (omega arith))
            cleared) in
      Links-store base per 4 m4 b.counter ((load 4 m4 b.counter + (2 ^ 32 - 1)) % 2 ^ 32)
        (z ∷ zs ++ x ∷ []) (before b.counter (z ∷ zs ++ x ∷ []) (omega arith))
        (Links-store base per 4 m3 b.size ((load 4 m3 b.size + 1) % 2 ^ 32) (z ∷ zs ++ x ∷ [])
          (before b.size (z ∷ zs ++ x ∷ []) (omega arith)) chained)

  Caps-pushed : Caps m5 base per held
  Caps-pushed =
      let clear = Clear-ApartFrom base in
      let before = Clear-before base 4 in
      let past =
        ApartFrom-append_right (per + 20) old (x ∷ []) held
          (ApartFrom-last_held (per + 20) z zs (x ∷ held) v.apart) in
      Caps-store base per 4 m4 b.counter ((load 4 m4 b.counter + (2 ^ 32 - 1)) % 2 ^ 32) held
        (before b.counter held (omega arith))
        (Caps-store base per 4 m3 b.size ((load 4 m3 b.size + 1) % 2 ^ 32) held
          (before b.size held (omega arith))
          (Caps-store base per 1 _ (base + old + 16) _ held
            (clear 1 per old (base + old + 16) held (omega arith) (omega arith) past)
            (Caps-store base per 4 m2 (base + old + 12) x held
              (clear 4 per old (base + old + 12) held (omega arith) (omega arith) past)
              (Caps-store base per 4 m1 b.tail x held (before b.tail held (omega arith)) (
                Caps-store base per 1 _ (base + x + 16) 0 held
                  (clear 1 per x (base + x + 16) held (omega arith) (omega arith) others.1)
                  (Caps-store base per 4 _ (base + x + 8) 0 held
                    (clear 4 per x (base + x + 8) held (omega arith) (omega arith) others.1)
                    (Caps-store base per 4 m (base + x + 4) 0 held
                      (clear 4 per x (base + x + 4) held (omega arith) (omega arith) others.1)
                      v.caps.1)))))))

  pub pushed_memory-IsFree : IsFree b per m5 (z ∷ zs ++ x ∷ []) held
  pushed_memory-IsFree = record {
    layout = v.layout;
    per_word =
        load-pushed b.cap_per_buffer (omega arith) (omega arith) (omega arith)
          (load-store_apart 4 4 m3 b.size _ b.cap_per_buffer (omega arith))
        ∙ v.per_word;
    size_word = size-pushed ∙ omega (arith, length-append (z ∷ zs) (x ∷ []));
    head_word =
        load-pushed b.head (omega arith) (omega arith) (omega arith)
          (load-store_apart 4 4 m3 b.size _ b.head (omega arith))
        ∙ v.head_word;
    tail_word = tail-pushed ∙ sym (last-append z zs x);
    some_free = omega arith;
    few = omega (arith, length-append (z ∷ zs) (x ∷ []));
    inside = subst (AllInside (per + 20) b.region.len) (sym regroup) v.inside;
    apart = apart;
    links = Links-pushed;
    caps = Caps-pushed;
  }
