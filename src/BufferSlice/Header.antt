-- ===== src/BufferSlice/Header.antt =====
-- The header words of buffer_slice.go, and how stores change them.
use Prim.Native.Nat.{bit_and, bit_or}
use shmipc_go.Prelude.{
  ℕ, zero, suc, ◌+◌, ◌^◌, ◌≤◌, ◌<◌, ◌≡◌, refl, ◌⊎◌, Bool, true, ◌&&◌, ltb, arith,
}
use shmipc_go.Memory.{Address, Mem, load, store}
use shmipc_go.Memory.Laws.{load-store_self, load-store_apart}

-- The five words of a header.
pub record Header : Type 0 where
  pub cap : ℕ
  pub size : ℕ
  pub start : ℕ
  pub next : ℕ
  pub flag : ℕ

unfoldable pub header_at : Mem → Address → Header
header_at m h = record {
  cap = load 4 m h;
  size = load 4 m (h + 4);
  start = load 4 m (h + 8);
  next = load 4 m (h + 12);
  flag = load 1 m (h + 16);
}

-- A store outside the header leaves it.
pub header_at-apart :
    (n : ℕ) (m : Mem) (a : Address) (v : ℕ) (h : Address)
    → (h + 20 ≤ a) ⊎ (a + n ≤ h)
    → header_at (store n m a v) h ≡ header_at m h
unfolding header_at
header_at-apart n m a v h apart = ground (
  arith,
  load-store_apart 4 n m a v h (omega arith),
  load-store_apart 4 n m a v (h + 4) (omega arith),
  load-store_apart 4 n m a v (h + 8) (omega arith),
  load-store_apart 4 n m a v (h + 12) (omega arith),
  load-store_apart 1 n m a v (h + 16) (omega arith),
)

module _ (m : Mem) (h : Address) (v : ℕ) where
  pub header_at-flag :
      v < 256 → header_at (store 1 m (h + 16) v) h ≡ record (header_at m h) { flag = v }
  unfolding header_at
  header_at-flag small = ground (
    arith,
    load-store_apart 4 1 m (h + 16) v h (omega arith),
    load-store_apart 4 1 m (h + 16) v (h + 4) (omega arith),
    load-store_apart 4 1 m (h + 16) v (h + 8) (omega arith),
    load-store_apart 4 1 m (h + 16) v (h + 12) (omega arith),
    load-store_self 1 m (h + 16) v small,
  )

  pub header_at-next :
      v < 2 ^ 32 → header_at (store 4 m (h + 12) v) h ≡ record (header_at m h) { next = v }
  unfolding header_at
  header_at-next small = ground (
    arith,
    load-store_apart 4 4 m (h + 12) v h (omega arith),
    load-store_apart 4 4 m (h + 12) v (h + 4) (omega arith),
    load-store_apart 4 4 m (h + 12) v (h + 8) (omega arith),
    load-store_self 4 m (h + 12) v small,
    load-store_apart 1 4 m (h + 12) v (h + 16) (omega arith),
  )

  pub header_at-size :
      v < 2 ^ 32 → header_at (store 4 m (h + 4) v) h ≡ record (header_at m h) { size = v }
  unfolding header_at
  header_at-size small = ground (
    arith,
    load-store_apart 4 4 m (h + 4) v h (omega arith),
    load-store_self 4 m (h + 4) v small,
    load-store_apart 4 4 m (h + 4) v (h + 8) (omega arith),
    load-store_apart 4 4 m (h + 4) v (h + 12) (omega arith),
    load-store_apart 1 4 m (h + 4) v (h + 16) (omega arith),
  )

  pub header_at-start :
      v < 2 ^ 32 → header_at (store 4 m (h + 8) v) h ≡ record (header_at m h) { start = v }
  unfolding header_at
  header_at-start small = ground (
    arith,
    load-store_apart 4 4 m (h + 8) v h (omega arith),
    load-store_apart 4 4 m (h + 8) v (h + 4) (omega arith),
    load-store_self 4 m (h + 8) v small,
    load-store_apart 4 4 m (h + 8) v (h + 12) (omega arith),
    load-store_apart 1 4 m (h + 8) v (h + 16) (omega arith),
  )

  pub header_at-cap : v < 2 ^ 32 → header_at (store 4 m h v) h ≡ record (header_at m h) { cap = v }
  unfolding header_at
  header_at-cap small = ground (
    arith,
    load-store_self 4 m h v small,
    load-store_apart 4 4 m h v (h + 4) (omega arith),
    load-store_apart 4 4 m h v (h + 8) (omega arith),
    load-store_apart 4 4 m h v (h + 12) (omega arith),
    load-store_apart 1 4 m h v (h + 16) (omega arith),
  )

-- `|= hasNextBufferFlag` sets the bit that `hasNext` reads and stays a byte: tried on every byte.
links : ℕ → Bool
links flag = ltb 0 (bit_and (bit_or flag 1) 1) && ltb (bit_or flag 1) 256

links_up_to : ℕ → Bool
links_up_to zero = links zero
links_up_to (suc top) = links_up_to top && links (suc top)

links_everywhere : links_up_to 255 ≡ true
unfolding links_up_to links
links_everywhere = refl

links_up_to-links : (top flag : ℕ) → flag ≤ top → links_up_to top ≡ true → links flag ≡ true
unfolding links_up_to
links_up_to-links zero zero le e = e
links_up_to-links zero (suc flag) le e = absurd (omega arith)
links_up_to-links (suc top) flag le e = ground (arith, links_up_to-links top flag)

pub linked : (f : ℕ) → f < 256 → (ltb 0 (bit_and (bit_or f 1) 1) ≡ true) × (bit_or f 1 < 256)
unfolding links
linked f byte = let e = links_up_to-links 255 f (omega arith) links_everywhere in ground arith
