-- ===== src/BufferList/Frame.antt =====
-- Which memory a free list of buffer_manager.go depends on, and which `pop` writes: its own.
use shmipc_go.Prelude.{
  ℕ, zero, suc, ◌+◌, ◌*◌, ◌%◌, ◌≤◌, ◌<◌, ◌≡◌, ◌∙◌, ap₂, sym, refl, subst, ◌⊎◌, List, [], ◌∷◌, ◌++◌,
  arith,
}
use shmipc_go.Memory.{Address, Mem, load}
use shmipc_go.Memory.Laws.{store_apart}
use shmipc_go.BufferSlice.Header.{header_at}
use shmipc_go.BufferList.{BufferList}
use shmipc_go.BufferList.Free.{IsLayout, IsFree, IsLinked, IsLast, Links, Caps, AllInside}
use shmipc_go.BufferList.Pop.{popped_memory}
use shmipc_go.BufferList.Popped.{refused_memory}
use shmipc_go.BufferList.Push.{pushed_memory}

-- The end of a list's memory, which begins with its `size`.
abbrev pub end_of : BufferList → Address
end_of b = b.region.address + b.region.len

-- Memories that agree from `lo` to `hi`.
abbrev pub Agree : Address → Address → Mem → Mem → Type 0
Agree lo hi m m' = (a : Address) → lo ≤ a → a < hi → m' a ≡ m a

module _ (lo hi : Address) (m m' : Mem) (same : Agree lo hi m m') where
  load-Agree : (n : ℕ) (a : Address) → lo ≤ a → a + n ≤ hi → load n m' a ≡ load n m a
  unfolding load
  load-Agree zero a l h = refl
  load-Agree (suc n) a l h =
      ap₂ (λ x r. x % 256 + 256 * r) (same a l (omega arith))
        (load-Agree n (a + 1) (omega arith) (omega arith))

  header_at-Agree : (h : Address) → lo ≤ h → h + 20 ≤ hi → header_at m' h ≡ header_at m h
  unfolding header_at
  header_at-Agree h l e =
      let e0 = load-Agree 4 h (omega arith) (omega arith) in
      let e1 = load-Agree 4 (h + 4) (omega arith) (omega arith) in
      let e2 = load-Agree 4 (h + 8) (omega arith) (omega arith) in
      let e3 = load-Agree 4 (h + 12) (omega arith) (omega arith) in
      let e4 = load-Agree 1 (h + 16) (omega arith) (omega arith) in
      λ i. record { cap = e0 i; size = e1 i; start = e2 i; next = e3 i; flag = e4 i }

  Links-Agree :
      (base per len : ℕ) (xs : List ℕ)
      → lo ≤ base
      → base + len ≤ hi
      → AllInside (per + 20) len xs
      → Links m base per xs
      → Links m' base per xs
  Links-Agree base per len [] l h inside links = tt
  Links-Agree base per len (x ∷ []) l h inside links =
      subst (λ r. IsLast r per) (sym (header_at-Agree (base + x) (omega arith) (omega arith))) links
  Links-Agree base per len (x ∷ y ∷ ys) l h inside links = (
    subst (λ r. IsLinked r per y) (sym (header_at-Agree (base + x) (omega arith) (omega arith)))
        links.0,
    Links-Agree base per len (y ∷ ys) l h inside.1 links.1,
  )

  Caps-Agree :
      (base per len : ℕ) (xs : List ℕ)
      → lo ≤ base
      → base + len ≤ hi
      → AllInside (per + 20) len xs
      → Caps m base per xs
      → Caps m' base per xs
  Caps-Agree base per len [] l h inside caps = tt
  Caps-Agree base per len (x ∷ xs) l h inside caps = (
    subst (λ r. r.cap ≡ per) (sym (header_at-Agree (base + x) (omega arith) (omega arith))) caps.0,
    Caps-Agree base per len xs l h inside.1 caps.1,
  )

module _ (w len : ℕ) where
  AllInside-append_left : (xs ys : List ℕ) → AllInside w len (xs ++ ys) → AllInside w len xs
  AllInside-append_left [] ys a = tt
  AllInside-append_left (x ∷ xs) ys a = (a.0, AllInside-append_left xs ys a.1)

  AllInside-append_right : (xs ys : List ℕ) → AllInside w len (xs ++ ys) → AllInside w len ys
  AllInside-append_right [] ys a = a
  AllInside-append_right (x ∷ xs) ys a = AllInside-append_right xs ys a.1

-- A list is valid as long as its own memory is as it was.
pub IsFree-Agree :
    (b : BufferList) (per : ℕ) (m m' : Mem) (free held : List ℕ)
    → Agree b.size (end_of b) m m'
    → IsFree b per m free held
    → IsFree b per m' free held
IsFree-Agree b per m m' free held same v =
    let word = load-Agree b.size (end_of b) m m' same 4 in
    record {
      layout = v.layout;
      some_free = v.some_free;
      few = v.few;
      inside = v.inside;
      apart = v.apart;
      per_word = word b.cap_per_buffer (omega arith) (omega arith) ∙ v.per_word;
      size_word = word b.size (omega arith) (omega arith) ∙ v.size_word;
      head_word = word b.head (omega arith) (omega arith) ∙ v.head_word;
      tail_word = word b.tail (omega arith) (omega arith) ∙ v.tail_word;
      links =
          Links-Agree b.size (end_of b) m m' same b.region.address per b.region.len free
            (omega arith) (omega arith)
            (AllInside-append_left (per + 20) b.region.len free held v.inside) v.links;
      caps =
          Caps-Agree b.size (end_of b) m m' same b.region.address per b.region.len held
            (omega arith) (omega arith)
            (AllInside-append_right (per + 20) b.region.len free held v.inside) v.caps;
    }

module _ (b : BufferList) (per : ℕ) (m : Mem) (layout : IsLayout b per) (a : Address)
    (outside : (a < b.size) ⊎ (end_of b ≤ a)) where
  pub popped_memory-outside :
      (x y : ℕ) → x + (per + 20) ≤ b.region.len → popped_memory b m x y a ≡ m a
  popped_memory-outside x y inside =
      store_apart 4 _ b.counter _ a (omega arith)
      ∙ store_apart 1 _ (b.region.address + x + 16) 2 a (omega arith)
      ∙ store_apart 1 _ (b.region.address + x + 16) 0 a (omega arith)
      ∙ store_apart 4 _ b.head y a (omega arith)
      ∙ store_apart 4 m b.size _ a (omega arith)

  pub refused_memory-outside : refused_memory b m a ≡ m a
  refused_memory-outside =
      store_apart 4 _ b.size _ a (omega arith) ∙ store_apart 4 m b.size _ a (omega arith)

  pub pushed_memory-outside :
      (old x : ℕ)
      → old + (per + 20) ≤ b.region.len
      → x + (per + 20) ≤ b.region.len
      → pushed_memory b m old x a ≡ m a
  pushed_memory-outside old x inside_old inside_x =
      store_apart 4 _ b.counter _ a (omega arith)
      ∙ store_apart 4 _ b.size _ a (omega arith)
      ∙ store_apart 1 _ (b.region.address + old + 16) _ a (omega arith)
      ∙ store_apart 4 _ (b.region.address + old + 12) x a (omega arith)
      ∙ store_apart 4 _ b.tail x a (omega arith)
      ∙ store_apart 1 _ (b.region.address + x + 16) 0 a (omega arith)
      ∙ store_apart 4 _ (b.region.address + x + 8) 0 a (omega arith)
      ∙ store_apart 4 m (b.region.address + x + 4) 0 a (omega arith)
