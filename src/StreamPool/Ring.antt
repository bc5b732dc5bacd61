-- ===== src/StreamPool/Ring.antt =====
-- The pool of session_manager.go as a queue of at most `capacity` streams.
use native.Mathlib.Decide.{dec_lt}
use native.Mathlib.Nat.{mod-lt}
use shmipc_go.Prelude.{
  ℕ, zero, suc, ◌+◌, ◌-◌, ◌%◌, ◌^◌, ◌≤◌, ◌<◌, ◌≡◌, ◌≢◌, refl, sym, ap, ap₂, ◌∙◌, true, false, ltb,
  if◌then◌else◌, Option, some, none, List, [], ◌∷◌, ◌++◌, length, get_or, set, arith, length-set,
  subst, lt→ltb,
}
use shmipc_go.Errors.{Error, pool_full}
use shmipc_go.Queue.Contents.{mod-ne}
use shmipc_go.Session.{Pointer}
use shmipc_go.StreamPool.{StreamPool, pop, push}

unfoldable pub window : List Pointer → ℕ → ℕ → ℕ → List Pointer
window slots capacity h zero = []
window slots capacity h (suc n) = get_or slots (h % capacity) 0 ∷ window slots capacity (h + 1) n

abbrev pub contents : StreamPool → List Pointer
contents p = window p.streams p.capacity p.head (p.tail - p.head)

pub record IsPool (p : StreamPool) : Type 0 where
  pub slots : length p.streams ≡ p.capacity
  pub ordered : p.head ≤ p.tail
  pub bounded : p.tail ≤ p.head + p.capacity
  pub in_range : p.tail + 1 < 2 ^ 64

get_or-set_self : (xs : List ℕ) (i v : ℕ) → i < length xs → get_or (set xs i v) i 0 ≡ v
get_or-set_self [] i v h = absurd (omega arith)
get_or-set_self (x ∷ xs) zero v h = refl
get_or-set_self (x ∷ xs) (suc i) v h = get_or-set_self xs i v (omega arith)

get_or-set_ne : (xs : List ℕ) (i j v : ℕ) → i ≢ j → get_or (set xs i v) j 0 ≡ get_or xs j 0
get_or-set_ne [] i j v h = refl
get_or-set_ne (x ∷ xs) zero zero v h = absurd (h refl)
get_or-set_ne (x ∷ xs) zero (suc j) v h = refl
get_or-set_ne (x ∷ xs) (suc i) zero v h = refl
get_or-set_ne (x ∷ xs) (suc i) (suc j) v h = get_or-set_ne xs i j v (λ e. h (ap suc e))

-- A slot is written behind the window: the window grows by its value.
window-set :
    (slots : List ℕ) (capacity h n v : ℕ)
    → length slots ≡ capacity
    → n < capacity
    → window (set slots ((h + n) % capacity) v) capacity h (suc n)
      ≡ window slots capacity h n ++ v ∷ []
unfolding window
window-set slots capacity h zero v counted room =
    ap (λ x. x ∷ [])
      (ap (λ k. get_or (set slots (k % capacity) v) (h % capacity) 0) {x = h + 0} {y = h}
          (omega arith)
        ∙ get_or-set_self slots (h % capacity) v
            (omega (arith, mod-lt h {m = capacity} (omega arith))))
window-set slots capacity h (suc n) v counted room =
    ap₂ ◌∷◌
      (get_or-set_ne slots ((h + suc n) % capacity) (h % capacity) v
        (mod-ne capacity h (suc n) (omega arith) room))
      (ap (λ k. window (set slots (k % capacity) v) capacity (h + 1) (suc n)) {x = h + suc n}
          {y = h + 1 + n} (omega arith)
        ∙ window-set slots capacity (h + 1) n v counted (omega arith))

length-window : (slots : List ℕ) (capacity h n : ℕ) → length (window slots capacity h n) ≡ n
unfolding window
length-window slots capacity h zero = refl
length-window slots capacity h (suc n) = ap suc (length-window slots capacity (h + 1) n)

module _ (s : Pointer) (p : StreamPool) (v : IsPool p) where
  abbrev pushed : StreamPool
  pushed = record p { streams = set p.streams (p.tail % p.capacity) s; tail = p.tail + 1 }

  counted : length (contents p) ≡ p.tail - p.head
  counted = length-window p.streams p.capacity p.head (p.tail - p.head)

  push-room : p.tail - p.head < p.capacity → push s p ≡ (none, pushed)
  unfolding push
  push-room room =
      let small : (p.tail + 1) % 2 ^ 64 ≡ p.tail + 1 = omega (arith, v.in_range) in
      let few : (p.tail + 2 ^ 64 - p.head) % 2 ^ 64 ≡ p.tail - p.head =
        omega (arith, v.in_range, v.ordered) in
      ground (arith, small, few)

  push-full : p.capacity ≤ p.tail - p.head → push s p ≡ (some pool_full, p)
  unfolding push
  push-full full =
      let many : (p.tail + 2 ^ 64 - p.head) % 2 ^ 64 ≡ p.tail - p.head =
        omega (arith, v.in_range, v.ordered) in
      ground (arith, many)

  contents-pushed : p.tail - p.head < p.capacity → contents pushed ≡ contents p ++ s ∷ []
  contents-pushed room =
      ap (window pushed.streams p.capacity p.head) {x = p.tail + 1 - p.head}
        {y = suc (p.tail - p.head)} (omega (arith, v.ordered))
      ∙ ap
          (λ k. window (set p.streams (k % p.capacity) s) p.capacity p.head (suc (p.tail - p.head)))
          {x = p.tail} {y = p.head + (p.tail - p.head)} (omega (arith, v.ordered))
      ∙ window-set p.streams p.capacity p.head (p.tail - p.head) s v.slots room

  pushed-IsPool : p.tail - p.head < p.capacity → p.tail + 2 < 2 ^ 64 → IsPool pushed
  pushed-IsPool room range = record {
    slots = length-set p.streams (p.tail % p.capacity) s ∙ v.slots;
    ordered = omega (arith, v.ordered);
    bounded = omega (arith, v.ordered);
    in_range = omega arith;
  }

-- What `push` does, on the list of the streams.
abbrev pub Pushes : ℕ → Pointer → List Pointer → Option Error → List Pointer → Type 0
Pushes capacity s before error after =
    (error ≡ (if ltb (length before) capacity then none else some pool_full))
    × (after ≡ (if ltb (length before) capacity then before ++ s ∷ [] else before))

-- `push` puts a stream behind the others of the pool if they are fewer than its capacity; otherwise it reports
-- that the pool is full and leaves it. The pool stays valid, as long as its counter stays below 2^64.
pub push-contents :
    (s : Pointer) (p : StreamPool)
    → IsPool p
    → p.tail + 2 < 2 ^ 64
    → Pushes p.capacity s (contents p) ((push s p).0) (contents ((push s p).1))
      × IsPool ((push s p).1)
push-contents s p v range = elim (dec_lt (p.tail - p.head) p.capacity) [
  | yes room ↦
      let fits : ltb (length (contents p)) p.capacity ≡ true =
        lt→ltb (length (contents p)) p.capacity (omega (arith, counted s p v)) in
      subst (λ r. Pushes p.capacity s (contents p) (r.0) (contents (r.1)) × IsPool (r.1))
        (sym (push-room s p v room))
        (
          (
            ap (λ c. if c then none else some pool_full) (sym fits),
            contents-pushed s p v room
                ∙ ap (λ c. if c then contents p ++ s ∷ [] else contents p) (sym fits),
          ),
          pushed-IsPool s p v room range,
        )
  | no full ↦
      let over : ltb (length (contents p)) p.capacity ≡ false = ground (arith, counted s p v) in
      subst (λ r. Pushes p.capacity s (contents p) (r.0) (contents (r.1)) × IsPool (r.1))
        (sym (push-full s p v (omega arith)))
        (
          (
            ap (λ c. if c then none else some pool_full) (sym over),
            ap (λ c. if c then contents p ++ s ∷ [] else contents p) (sym over),
          ),
          v,
        )
]

-- What `pop` does, on the list of the streams: it takes the first.
abbrev pub Pops : List Pointer → Option Pointer → List Pointer → Type 0
Pops [] found after = (found ≡ none) × (after ≡ [])
Pops (x ∷ xs) found after = (found ≡ some x) × (after ≡ xs)

module _ (p : StreamPool) (v : IsPool p) where
  abbrev popped : StreamPool
  popped = record p { head = p.head + 1 }

  abbrev first : Pointer
  first = get_or p.streams (p.head % p.capacity) 0

  pop-some : p.head < p.tail → pop p ≡ (some first, popped)
  unfolding pop
  pop-some some_left =
      let small : (p.head + 1) % 2 ^ 64 ≡ p.head + 1 = omega (arith, v.in_range) in
      ground (arith, small)

  pop-none : p.tail ≤ p.head → pop p ≡ (none, p)
  unfolding pop
  pop-none empty = ground arith

  contents-popped : p.head < p.tail → contents p ≡ first ∷ contents popped
  unfolding window
  contents-popped some_left =
      ap (window p.streams p.capacity p.head) {x = p.tail - p.head}
        {y = suc (p.tail - (p.head + 1))} (omega arith)

  contents_empty : p.tail ≤ p.head → contents p ≡ []
  unfolding window
  contents_empty empty =
      ap (window p.streams p.capacity p.head) {x = p.tail - p.head} {y = 0} (omega arith)

-- `pop` takes the stream that has been longest in the pool, or none of an empty pool, and leaves the others in
-- order. The pool stays valid.
pub pop-contents :
    (p : StreamPool)
    → IsPool p
    → Pops (contents p) ((pop p).0) (contents ((pop p).1)) × IsPool ((pop p).1)
pop-contents p v = elim (dec_lt p.head p.tail) [
  | yes some_left ↦
      subst (λ r. Pops (contents p) (r.0) (contents (r.1)) × IsPool (r.1))
        (sym (pop-some p v some_left))
        (
          subst (λ c. Pops c (some (first p v)) (contents (popped p v)))
              (sym (contents-popped p v some_left)) (refl, refl),
          record {
            slots = v.slots;
            ordered = omega arith;
            bounded = omega (arith, v.bounded);
            in_range = v.in_range;
          },
        )
  | no empty ↦
      subst (λ r. Pops (contents p) (r.0) (contents (r.1)) × IsPool (r.1))
        (sym (pop-none p v (omega arith)))
        (subst (λ c. Pops c none c) (sym (contents_empty p v (omega arith))) (refl, refl), v)
]
