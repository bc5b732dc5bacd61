-- ===== src/BufferSlice/Window.antt =====
-- The bytes of a window: copying into memory and reading back, for `append` and `read` of
-- buffer_slice.go.
use shmipc_go.Prelude.{
  ℕ, zero, suc, ◌+◌, ◌-◌, ◌≤◌, ◌<◌, ◌≡◌, refl, ap, ap₂, ◌∙◌, ◌⊎◌, List, [], ◌∷◌, ◌++◌, take, drop,
  length, arith,
}
use shmipc_go.Memory.{Address, Mem, load, store}
use shmipc_go.Memory.Laws.{load-store_self, load-store_apart}
use shmipc_go.BufferSlice.{load_bytes, store_bytes}

abbrev pub AllBytes : List ℕ → Type 0
AllBytes [] = Unit {0}
AllBytes (x ∷ xs) = (x < 256) × AllBytes xs

pub load-store_bytes_apart :
    (xs : List ℕ) (a b : Address) (m : Mem)
    → (b < a) ⊎ (a + length xs ≤ b)
    → load 1 (store_bytes a xs m) b ≡ load 1 m b
unfolding store_bytes
load-store_bytes_apart [] a b m h = refl
load-store_bytes_apart (x ∷ xs) a b m h =
    load-store_bytes_apart xs (a + 1) b (store 1 m a x) (omega arith)
    ∙ load-store_apart 1 1 m a x b (omega arith)

pub same_bytes :
    (n n' : ℕ) (a a' : Address) (m : Mem) → n ≡ n' → a ≡ a' → load_bytes n a m ≡ load_bytes n' a' m
same_bytes n n' a a' m p q = λ i. load_bytes (p i) (q i) m

pub no_bytes : (n : ℕ) (a : Address) (m : Mem) → n ≡ 0 → load_bytes n a m ≡ []
unfolding load_bytes
no_bytes zero a m h = refl
no_bytes (suc n) a m h = absurd (omega arith)

pub load_bytes-append :
    (n k : ℕ) (a : Address) (m : Mem)
    → load_bytes (n + k) a m ≡ load_bytes n a m ++ load_bytes k (a + n) m
unfolding load_bytes
load_bytes-append zero k a m = same_bytes (0 + k) k a (a + 0) m (omega arith) (omega arith)
load_bytes-append (suc n) k a m =
    let first : suc n + k ≡ suc (n + k) = omega arith in
    let rest : a + 1 + n ≡ a + suc n = omega arith in
    rw first (
      ap (λ r. load 1 m a ∷ r)
        (load_bytes-append n k (a + 1) m
          ∙ ap (λ j. load_bytes n (a + 1) m ++ load_bytes k j m) rest))

pub take-load_bytes :
    (k n : ℕ) (a : Address) (m : Mem) → k ≤ n → take k (load_bytes n a m) ≡ load_bytes k a m
unfolding load_bytes
take-load_bytes zero n a m h = refl
take-load_bytes (suc k) zero a m h = absurd (omega arith)
take-load_bytes (suc k) (suc n) a m h =
    ap (λ r. load 1 m a ∷ r) (take-load_bytes k n (a + 1) m (omega arith))

pub drop-load_bytes :
    (k n : ℕ) (a : Address) (m : Mem)
    → k ≤ n
    → drop k (load_bytes n a m) ≡ load_bytes (n - k) (a + k) m
unfolding load_bytes
drop-load_bytes zero n a m h = same_bytes n (n - 0) a (a + 0) m (omega arith) (omega arith)
drop-load_bytes (suc k) zero a m h = absurd (omega arith)
drop-load_bytes (suc k) (suc n) a m h =
    drop-load_bytes k n (a + 1) m (omega arith)
    ∙ same_bytes (n - k) (suc n - suc k) (a + 1 + k) (a + suc k) m (omega arith) (omega arith)

pub length-load_bytes : (n : ℕ) (a : Address) (m : Mem) → length (load_bytes n a m) ≡ n
unfolding load_bytes
length-load_bytes zero a m = refl
length-load_bytes (suc n) a m = ap suc (length-load_bytes n (a + 1) m)

pub load_bytes-store_bytes :
    (xs : List ℕ) (a : Address) (m : Mem)
    → AllBytes xs
    → load_bytes (length xs) a (store_bytes a xs m) ≡ xs
unfolding load_bytes store_bytes
load_bytes-store_bytes [] a m w = refl
load_bytes-store_bytes (x ∷ xs) a m w =
    ap₂ ◌∷◌
      (load-store_bytes_apart xs (a + 1) a (store 1 m a x) (omega arith)
        ∙ load-store_self 1 m a x (w.0))
      (load_bytes-store_bytes xs (a + 1) (store 1 m a x) w.1)

pub load_bytes-store_bytes_apart :
    (n : ℕ) (xs : List ℕ) (a b : Address) (m : Mem)
    → b + n ≤ a
    → load_bytes n b (store_bytes a xs m) ≡ load_bytes n b m
unfolding load_bytes
load_bytes-store_bytes_apart zero xs a b m h = refl
load_bytes-store_bytes_apart (suc n) xs a b m h =
    ap₂ ◌∷◌ (load-store_bytes_apart xs a b m (omega arith))
      (load_bytes-store_bytes_apart n xs a (b + 1) m (omega arith))

pub AllBytes-take : (n : ℕ) (xs : List ℕ) → AllBytes xs → AllBytes (take n xs)
AllBytes-take zero xs w = tt
AllBytes-take (suc n) [] w = tt
AllBytes-take (suc n) (x ∷ xs) w = (w.0, AllBytes-take n xs w.1)

pub load_bytes-store_bytes_behind :
    (n : ℕ) (xs : List ℕ) (a b : Address) (m : Mem)
    → a + length xs ≤ b
    → load_bytes n b (store_bytes a xs m) ≡ load_bytes n b m
unfolding load_bytes
load_bytes-store_bytes_behind zero xs a b m h = refl
load_bytes-store_bytes_behind (suc n) xs a b m h =
    ap₂ ◌∷◌ (load-store_bytes_apart xs a b m (omega arith))
      (load_bytes-store_bytes_behind n xs a (b + 1) m (omega arith))
