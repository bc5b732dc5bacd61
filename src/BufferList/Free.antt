-- ===== src/BufferList/Free.antt =====
-- The free list of buffer_manager.go as a sequence of buffers: the invariant of its words.
use Prim.Native.Nat.{bit_and}
use shmipc_go.Prelude.{
  ℕ, ◌+◌, ◌^◌, ◌≤◌, ◌<◌, ◌≡◌, ◌∙◌, ap, ◌⊎◌, inr, true, List, [], ◌∷◌, ◌++◌, length, ltb, arith,
}
use shmipc_go.Memory.{Address, Mem, load, store}
use shmipc_go.BufferSlice.{buffer_header_size}
use shmipc_go.BufferSlice.Header.{Header, header_at, header_at-apart}
use shmipc_go.BufferList.{BufferList}

-- Where the words of a list of buffers of `per` bytes lie; a buffer is named by its offset in the region.
pub record IsLayout (b : BufferList) (per : ℕ) : Type 0 where
  pub cap_at : b.cap ≡ b.size + 4
  pub head_at : b.head ≡ b.size + 8
  pub tail_at : b.tail ≡ b.size + 12
  pub per_at : b.cap_per_buffer ≡ b.size + 16
  pub counter_at : (b.counter ≡ b.size + 20) ⊎ (b.counter ≡ b.size + 24)
  pub region_at : b.size + 36 ≤ b.region.address
  pub within : b.region.len ≤ b.region.cap
  pub small : b.region_offset_in_shm + b.region.len < 2 ^ 31
  pub per_small : per < 2 ^ 31

-- Buffers of `w` bytes that share no byte with the buffer at `x`.
abbrev pub ApartFrom : ℕ → ℕ → List ℕ → Type 0
ApartFrom w x [] = Unit {0}
ApartFrom w x (y ∷ ys) = ((x + w ≤ y) ⊎ (y + w ≤ x)) × ApartFrom w x ys

abbrev pub AllApart : ℕ → List ℕ → Type 0
AllApart w [] = Unit {0}
AllApart w (x ∷ xs) = ApartFrom w x xs × AllApart w xs

-- Buffers that end within `len` bytes.
abbrev pub AllInside : ℕ → ℕ → List ℕ → Type 0
AllInside w len [] = Unit {0}
AllInside w len (x ∷ xs) = (x + w ≤ len) × AllInside w len xs

abbrev pub first : List ℕ → ℕ
first [] = 0
first (x ∷ xs) = x

abbrev pub last : List ℕ → ℕ
last [] = 0
last (x ∷ []) = x
last (x ∷ y ∷ ys) = last (y ∷ ys)

-- A free buffer's header with a next one, and the last one's.
pub record IsLinked (h : Header) (per next : ℕ) : Type 0 where
  pub cap_word : h.cap ≡ per
  pub size_word : h.size ≡ 0
  pub start_word : h.start ≡ 0
  pub next_word : h.next ≡ next
  pub flag_word : ltb 0 (bit_and h.flag 1) ≡ true

pub record IsLast (h : Header) (per : ℕ) : Type 0 where
  pub cap_word : h.cap ≡ per
  pub size_word : h.size ≡ 0
  pub start_word : h.start ≡ 0
  pub flag_word : h.flag ≡ 0

abbrev pub Links : Mem → Address → ℕ → List ℕ → Type 0
Links m base per [] = Unit {0}
Links m base per (x ∷ []) = IsLast (header_at m (base + x)) per
Links m base per (x ∷ y ∷ ys) = IsLinked (header_at m (base + x)) per y × Links m base per (y ∷ ys)

-- The buffers of `free` are the free ones, in order; those of `held` are handed out. A handed-out
-- buffer keeps its capacity word.
abbrev pub Caps : Mem → Address → ℕ → List ℕ → Type 0
Caps m base per [] = Unit {0}
Caps m base per (x ∷ xs) = ((header_at m (base + x)).cap ≡ per) × Caps m base per xs

pub record IsFree (b : BufferList) (per : ℕ) (m : Mem) (free held : List ℕ) : Type 0 where
  pub layout : IsLayout b per
  pub per_word : load 4 m b.cap_per_buffer ≡ per
  pub size_word : load 4 m b.size ≡ length free
  pub head_word : load 4 m b.head ≡ first free
  pub tail_word : load 4 m b.tail ≡ last free
  pub some_free : 0 < length free
  pub few : length free + length held < 2 ^ 31
  pub inside : AllInside (per + buffer_header_size) b.region.len (free ++ held)
  pub apart : AllApart (per + buffer_header_size) (free ++ held)
  pub links : Links m b.region.address per free
  pub caps : Caps m b.region.address per held

-- `n` bytes at `a` that meet no header of these buffers.
abbrev pub Clear : Address → ℕ → Address → List ℕ → Type 0
Clear base n a [] = Unit {0}
Clear base n a (x ∷ xs) = ((base + x + 20 ≤ a) ⊎ (a + n ≤ base + x)) × Clear base n a xs

pub Clear-before : (base n : ℕ) (a : Address) (xs : List ℕ) → a + n ≤ base → Clear base n a xs
Clear-before base n a [] h = tt
Clear-before base n a (x ∷ xs) h = (inr (omega arith), Clear-before base n a xs h)

pub Clear-ApartFrom :
    (base n per x : ℕ) (a : Address) (xs : List ℕ)
    → base + x ≤ a
    → a + n ≤ base + x + (per + 20)
    → ApartFrom (per + 20) x xs
    → Clear base n a xs
Clear-ApartFrom base n per x a [] lo hi apart = tt
Clear-ApartFrom base n per x a (y ∷ ys) lo hi apart =
    (omega arith, Clear-ApartFrom base n per x a ys lo hi apart.1)

module _ (base per n : ℕ) (m : Mem) (a : Address) (v : ℕ) where
  pub Links-store :
      (xs : List ℕ) → Clear base n a xs → Links m base per xs → Links (store n m a v) base per xs
  Links-store [] c l = tt
  Links-store (x ∷ []) c l = let same = header_at-apart n m a v (base + x) c.0 in rw same l
  Links-store (x ∷ y ∷ ys) c l =
      let same = header_at-apart n m a v (base + x) c.0 in
      (rw same l.0, Links-store (y ∷ ys) c.1 l.1)

  pub Caps-store :
      (xs : List ℕ) → Clear base n a xs → Caps m base per xs → Caps (store n m a v) base per xs
  Caps-store [] c l = tt
  Caps-store (x ∷ xs) c l =
      (ap (λ h. h.cap) (header_at-apart n m a v (base + x) c.0) ∙ l.0, Caps-store xs c.1 l.1)
