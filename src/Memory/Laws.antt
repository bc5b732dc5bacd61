-- ===== src/Memory/Laws.antt =====
-- A load reads what the last store at its address wrote, and no store elsewhere disturbs it.
use native.Mathlib.Nat.{pow-suc}
use shmipc_go.Prelude.{ℕ, zero, suc, ◌+◌, ◌*◌, ◌/◌, ◌%◌, ◌^◌, ◌≤◌, ◌<◌, ◌≡◌, refl, ◌⊎◌, arith}
use shmipc_go.Memory.{Address, Mem, update, load, store}

pub load-lt : (n : ℕ) (m : Mem) (a : Address) → load n m a < 256 ^ n
unfolding load
load-lt zero m a = omega arith
load-lt (suc n) m a = rw pow-suc (omega (arith, load-lt n m (a + 1)))

-- A byte outside the words written is as before.
pub store_apart :
    (n : ℕ) (m : Mem) (a : Address) (v : ℕ) (b : Address)
    → (b < a) ⊎ (a + n ≤ b)
    → store n m a v b ≡ m b
unfolding store update
store_apart zero m a v b h = refl
store_apart (suc n) m a v b h = ground (arith, store_apart n m (a + 1) (v / 256) b)

pub load-store_apart :
    (k n : ℕ) (m : Mem) (a : Address) (v : ℕ) (b : Address)
    → (b + k ≤ a) ⊎ (a + n ≤ b)
    → load k (store n m a v) b ≡ load k m b
unfolding load
load-store_apart zero n m a v b h = refl
load-store_apart (suc k) n m a v b h =
    ground (arith, store_apart n m a v b, load-store_apart k n m a v (b + 1))

load-update_apart :
    (k : ℕ) (m : Mem) (a v : ℕ) (b : Address) → a < b → load k (update m a v) b ≡ load k m b
unfolding load update
load-update_apart zero m a v b h = refl
load-update_apart (suc k) m a v b h = ground (arith, load-update_apart k m a v (b + 1))

pub load-store_self :
    (n : ℕ) (m : Mem) (a : Address) (v : ℕ) → v < 256 ^ n → load n (store n m a v) a ≡ v
unfolding load store update
load-store_self zero m a v h = omega arith
load-store_self (suc n) m a v h =
    let small : v < 256 ^ n * 256 = (rw (pow-suc) at h) in
    let rest = load-store_self n m (a + 1) (v / 256) (omega arith) in
    let apart =
      load-update_apart n (store n m (a + 1) (v / 256)) a (v % 256) (a + 1) (omega arith) in
    ground (arith, rest, apart)
