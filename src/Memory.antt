-- ===== src/Memory.antt =====
-- Memory as the program sees it through `unsafe.Pointer`: bytes at addresses, with little-endian
-- words of 1, 2, 4 and 8 bytes, and Go's byte slices as windows on it.
pub mod Laws
use shmipc_go.Prelude.{
  ℕ, zero, suc, ◌+◌, ◌-◌, ◌*◌, ◌/◌, ◌%◌, ◌^◌, ◌≡◌, Bool, true, false, ◌&&◌, ◌==◌, leb, ltb,
  if◌then◌else◌,
}

abbrev pub Address : Type 0
Address = ℕ

-- A cell holds any number; a byte is read from it modulo 256.
abbrev pub Mem : Type 0
Mem = Address → ℕ

unfoldable pub update : Mem → Address → ℕ → Mem
update m a v b = if b == a then v else m b

-- The `n`-byte little-endian word at an address.
unfoldable pub load : ℕ → Mem → Address → ℕ
load zero m a = 0
load (suc n) m a = m a % 256 + 256 * load n m (a + 1)

unfoldable pub store : ℕ → Mem → Address → ℕ → Mem
unfolding update
store zero m a v = m
store (suc n) m a v = update (store n m (a + 1) (v / 256)) a (v % 256)
