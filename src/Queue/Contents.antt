-- ===== src/Queue/Contents.antt =====
-- What a queue of queue.go holds: the elements between `head` and `tail`, oldest first, and the
-- conditions under which the ring of slots holds them.
use native.Mathlib.Nat.{mod-add-mod, mod-eq_of_lt, mod-eq-sub-mod, mod-lt}
use native.Mathlib.Decide.{dec_lt}
use shmipc_go.Prelude.{
  ℕ, zero, suc, ◌+◌, ◌-◌, ◌*◌, ◌%◌, ◌^◌, ◌≤◌, ◌<◌, ◌≡◌, refl, ap, ap₂, ◌∙◌, ◌≢◌, ◌⊎◌, List, [], ◌∷◌,
  ◌++◌, length, arith,
}
use shmipc_go.Memory.{Address, Mem, load}
use shmipc_go.Queue.{Queue, Element, element_len}

-- The header words and the slots are apart from one another, and the slots fill the byte slice.
pub record IsLayout (q : Queue) : Type 0 where
  pub positive : 0 < q.cap
  pub small : q.cap < 2 ^ 32
  pub room : q.bytes.len ≡ q.cap * element_len
  pub head_tail : q.head + 8 ≤ q.tail
  pub tail_bytes : q.tail + 8 ≤ q.bytes.address
  pub flag_apart : (q.working_flag + 4 ≤ q.head) ⊎ (q.tail + 8 ≤ q.working_flag)
  pub flag_bytes : q.working_flag + 4 ≤ q.bytes.address

abbrev pub head_of : Queue → Mem → ℕ
head_of q m = load 8 m q.head

abbrev pub tail_of : Queue → Mem → ℕ
tail_of q m = load 8 m q.tail

pub record IsValid (q : Queue) (m : Mem) : Type 0 where
  pub layout : IsLayout q
  pub ordered : head_of q m ≤ tail_of q m
  pub bounded : tail_of q m ≤ head_of q m + q.cap
  pub in_range : tail_of q m < 2 ^ 63

-- The slot that the counter `i` stands for.
abbrev pub slot : Queue → ℕ → Address
slot q i = q.bytes.address + i % q.cap * element_len

abbrev pub element_at : Mem → Address → Element
element_at m a = record {
  seq_id = load 4 m a;
  offset_in_shm_buf = load 4 m (a + 4);
  status = load 4 m (a + 8);
}

abbrev pub window : Queue → Mem → ℕ → ℕ → List Element
window q m h zero = []
window q m h (suc n) = element_at m (slot q h) ∷ window q m (h + 1) n

abbrev pub contents : Queue → Mem → List Element
contents q m = window q m (head_of q m) (tail_of q m - head_of q m)

pub length-window : (q : Queue) (m : Mem) (h n : ℕ) → length (window q m h n) ≡ n
length-window q m h zero = refl
length-window q m h (suc n) = ap suc (length-window q m (h + 1) n)

-- Counters less than `cap` apart stand for different slots.
pub mod-ne : (cap h k : ℕ) → 0 < k → k < cap → (h + k) % cap ≢ h % cap
mod-ne cap h k pos lt e =
    let r : h % cap < cap = mod-lt h (omega arith) in
    let sum : (h % cap + k) % cap ≡ (h + k) % cap = mod-add-mod h cap k in
    elim (dec_lt (h % cap + k) cap) [
      | yes p ↦ omega (arith, mod-eq_of_lt p)
      | no p ↦ omega (
        arith,
        mod-eq-sub-mod {n = h % cap + k} {m = cap} (omega arith),
        mod-eq_of_lt {n = h % cap + k - cap} {m = cap} (omega arith),
      )
    ]

-- Memories that agree on the slots of a window have the same window.
pub window-cong :
    (q : Queue) (m m' : Mem) (h n : ℕ)
    → ((i : ℕ) → h ≤ i → i < h + n → element_at m' (slot q i) ≡ element_at m (slot q i))
    → window q m' h n ≡ window q m h n
window-cong q m m' h zero same = refl
window-cong q m m' h (suc n) same =
    ap₂ ◌∷◌ (same h (omega arith) (omega arith))
      (window-cong q m m' (h + 1) n λ i lo hi. same i (omega arith) (omega arith))

-- The last element of a window.
pub window-snoc :
    (q : Queue) (m : Mem) (h n : ℕ)
    → window q m h (suc n) ≡ window q m h n ++ (element_at m (slot q (h + n)) ∷ [])
window-snoc q m h zero = ap (λ i. element_at m (slot q i) ∷ []) (omega arith)
window-snoc q m h (suc n) =
    ap (λ w. element_at m (slot q h) ∷ w)
      (window-snoc q m (h + 1) n
        ∙ ap (λ i. window q m (h + 1) n ++ (element_at m (slot q i) ∷ [])) (omega arith))

-- `window` matches on `suc`, the code tests counters.
pub window_of_pos :
    (q : Queue) (m : Mem) (h n : ℕ)
    → 0 < n
    → window q m h n ≡ element_at m (slot q h) ∷ window q m (h + 1) (n - 1)
window_of_pos q m h zero p = absurd (omega arith)
window_of_pos q m h (suc n) p = ap (λ k. window q m h (suc k)) (omega arith)
