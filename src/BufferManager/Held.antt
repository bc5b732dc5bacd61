-- ===== src/BufferManager/Held.antt =====
-- The buffers that are handed out by the lists of a manager of buffer_manager.go: what the return of one changes for the
-- others.
use shmipc_go.Prelude.{
  ℕ, zero, suc, ◌+◌, ◌≤◌, ◌<◌, ◌≡◌, ◌≢◌, refl, sym, ap, subst, length, some_inj, ◌∙◌, ◌⊎◌, inl, inr,
  some, List, [], ◌∷◌, ◌++◌, get_elem?, arith,
}
use shmipc_go.Memory.{Address, Mem}
use shmipc_go.Memory.Laws.{store_apart}
use shmipc_go.Command.{ok}
use shmipc_go.BufferSlice.{BufferSlice}
use shmipc_go.BufferList.{BufferList}
use shmipc_go.BufferList.Free.{IsLayout, IsFree, ApartFrom, AllInside, last}
use shmipc_go.BufferList.Apart.{IsFree-Perm, ApartFrom-append_right}
use shmipc_go.BufferList.Chained.{ApartFrom-middle, ApartFrom-last_held}
use shmipc_go.BufferList.Push.{IsAt, pushed_memory, push-run, reset_slice}
use shmipc_go.BufferList.Pushed.{pushed_memory-IsFree, inside_old, inside_x}
use shmipc_go.BufferList.Frame.{end_of, IsFree-Agree, pushed_memory-outside}
use shmipc_go.BufferList.Run.{erase_at}
use shmipc_go.BufferList.Run.Refines.{erase_at-Perm}
use shmipc_go.BufferManager.{recycle_to}
use shmipc_go.BufferManager.Alloc.{Kept, AllKept, AllKept-Agree, lists_of, Before}
use shmipc_go.BufferManager.Recycle.{here, further}

-- The slice is on a buffer that the list has handed out, with its data behind the header.
pub record IsHeldBy (k : Kept) (s : BufferSlice) : Type 0 where
  pub at : ℕ
  pub place : ℕ
  pub handed_out : get_elem? k.held place ≡ some at
  pub whole : s.cap ≡ k.per
  pub header : IsAt k.list at s
  pub payload : s.block.address ≡ k.list.region.address + at + 20
  pub fits : s.block.len ≤ k.per

-- The first list with buffers of the size of the slice has handed out its buffer.
unfoldable pub IsHeld : List Kept → BufferSlice → Type 0
IsHeld [] s = ⊥
IsHeld (k ∷ ks) s = IsHeldBy k s ⊎ ((k.per ≢ s.cap) × IsHeld ks s)

-- An address in the memory of none of the lists.
unfoldable pub Outside : List BufferList → Address → Type 0
Outside [] a = Unit {0}
Outside (l ∷ ls) a = ((a < l.size) ⊎ (end_of l ≤ a)) × Outside ls a

-- The data of a slice are as they were.
abbrev pub SameData : BufferSlice → Mem → Mem → Type 0
SameData t m m' =
    (a : Address) → t.block.address ≤ a → a < t.block.address + t.block.len → m' a ≡ m a

ApartFrom-at :
    (w x y : ℕ) (ys : List ℕ) (i : ℕ)
    → get_elem? ys i ≡ some y
    → ApartFrom w x ys
    → (x + w ≤ y) ⊎ (y + w ≤ x)
ApartFrom-at w x y [] i e a = absurd (ground (arith, e))
ApartFrom-at w x y (z ∷ ys) zero e a = omega (arith, a.0, some_inj z y e)
ApartFrom-at w x y (z ∷ ys) (suc i) e a = ApartFrom-at w x y ys i e a.1

AllInside-get :
    (w len y : ℕ) (xs ys : List ℕ) (i : ℕ)
    → get_elem? ys i ≡ some y
    → AllInside w len (xs ++ ys)
    → y + w ≤ len
AllInside-get w len y [] [] i e a = absurd (ground (arith, e))
AllInside-get w len y [] (z ∷ ys) zero e a = omega (arith, a.0, some_inj z y e)
AllInside-get w len y [] (z ∷ ys) (suc i) e a = AllInside-get w len y [] ys i e a.1
AllInside-get w len y (x ∷ xs) ys i e a = AllInside-get w len y xs ys i e a.1

-- Another element stays when one is taken out.
get_elem?-erase_at :
    (xs : List ℕ) (i j x y : ℕ)
    → get_elem? xs i ≡ some x
    → get_elem? xs j ≡ some y
    → x ≢ y
    → (k : ℕ) × (get_elem? (erase_at xs i) k ≡ some y)
get_elem?-erase_at [] i j x y e f differ = absurd (ground (arith, e))
get_elem?-erase_at (z ∷ xs) zero zero x y e f differ = absurd (differ (some_inj x y (sym e ∙ f)))
get_elem?-erase_at (z ∷ xs) zero (suc j) x y e f differ = (j, f)
get_elem?-erase_at (z ∷ xs) (suc i) zero x y e f differ = (0, f)
get_elem?-erase_at (z ∷ xs) (suc i) (suc j) x y e f differ =
    let (k, g) = get_elem?-erase_at xs i j x y e f differ in (suc k, g)

-- The data of a buffer that is handed out lie in its list.
held-inside :
    (k : Kept) (t : BufferSlice) (m : Mem)
    → IsFree k.list k.per m k.free k.held
    → IsHeldBy k t
    → (k.list.region.address ≤ t.block.address) × (t.block.address + t.block.len ≤ end_of k.list)
held-inside k t m v h =
    let inside =
      AllInside-get (k.per + 20) k.list.region.len h.at k.free k.held h.place h.handed_out
        v.inside in
    (omega (arith, h.payload), omega (arith, h.payload, h.fits, inside))

held-behind :
    (ks : List Kept) (t : BufferSlice) (m : Mem) (lo : Address)
    → AllKept m lo ks
    → IsHeld ks t
    → lo ≤ t.block.address
unfolding IsHeld
held-behind [] t m lo v h = absurd h
held-behind (k ∷ ks) t m lo (l, v, rest) (inl h) =
    let inside = held-inside k t m v h in omega (arith, l, inside.0, v.layout.region_at)
held-behind (k ∷ ks) t m lo (l, v, rest) (inr (differs, h)) =
    omega (arith, l, held-behind ks t m (end_of k.list) rest h, v.layout.region_at)

-- A push writes its control words and the headers of two buffers.
pushed_memory-between :
    (b : BufferList) (per : ℕ) (m : Mem) (old x y a : ℕ)
    → IsLayout b per
    → (x + (per + 20) ≤ y) ⊎ (y + (per + 20) ≤ x)
    → (old + (per + 20) ≤ y) ⊎ (y + (per + 20) ≤ old)
    → b.region.address + y + 20 ≤ a
    → a < b.region.address + y + 20 + per
    → pushed_memory b m old x a ≡ m a
pushed_memory-between b per m old x y a layout apart_x apart_old from to =
    store_apart 4 _ b.counter _ a (omega arith)
    ∙ store_apart 4 _ b.size _ a (omega arith)
    ∙ store_apart 1 _ (b.region.address + old + 16) _ a (omega arith)
    ∙ store_apart 4 _ (b.region.address + old + 12) x a (omega arith)
    ∙ store_apart 4 _ b.tail x a (omega arith)
    ∙ store_apart 1 _ (b.region.address + x + 16) 0 a (omega arith)
    ∙ store_apart 4 _ (b.region.address + x + 8) 0 a (omega arith)
    ∙ store_apart 4 m (b.region.address + x + 4) 0 a (omega arith)

-- What the return of `s` to these lists does: the lists stay valid, what is outside of them and the data of every other
-- buffer that is handed out stay, and these buffers stay handed out.
pub record Returned (m : Mem) (lo : Address) (ks : List Kept) (s : BufferSlice) : Type 0 where
  pub after : List Kept
  pub memory : Mem
  pub ran : recycle_to (lists_of ks) s m ≡ ok tt memory
  pub same_lists : lists_of after ≡ lists_of ks
  pub valid : AllKept memory lo after
  pub outside : (a : Address) → Outside (lists_of ks) a → memory a ≡ m a
  pub before : Before lo m memory
  pub others :
      (t : BufferSlice)
      → IsHeld ks t
      → s.offset_in_shm ≢ t.offset_in_shm
      → IsHeld after t × SameData t m memory

module _ (k : Kept) (ks : List Kept) (m : Mem) (lo : Address) (s : BufferSlice)
    (l : lo ≤ k.list.size) (rest : AllKept m (end_of k.list) ks) (h : IsHeldBy k s) where
  abbrev left : List ℕ
  left = erase_at k.held h.place

  module _ (z : ℕ) (zs : List ℕ) (v : IsFree k.list k.per m (z ∷ zs) (h.at ∷ left)) where
    abbrev pushed : Mem
    pushed = pushed_memory k.list m (last (z ∷ zs)) h.at

    abbrev k' : Kept
    k' = record k { free = z ∷ zs ++ h.at ∷ []; held = left }

    beyond : (a : Address) → (a < k.list.size) ⊎ (end_of k.list ≤ a) → pushed a ≡ m a
    beyond a o =
        pushed_memory-outside k.list k.per m v.layout a o (last (z ∷ zs)) h.at
          (inside_old k.list k.per m z zs h.at left v) (inside_x k.list k.per m z zs h.at left v)

    -- Another buffer of the same list.
    beside :
        (t : BufferSlice)
        → IsHeldBy k t
        → s.offset_in_shm ≢ t.offset_in_shm
        → IsHeldBy k' t × SameData t m pushed
    beside t g differ =
        let differs : h.at ≢ g.at = λ e. differ (
          h.header.offset_at
          ∙ ap (λ x. x + k.list.region_offset_in_shm) e
          ∙ sym g.header.offset_at) in
        let (i, there) =
          get_elem?-erase_at k.held h.place g.place h.at g.at h.handed_out g.handed_out differs in
        let w = k.per + 20 in
        let past =
          ApartFrom-append_right w (last (z ∷ zs)) (h.at ∷ []) left
            (ApartFrom-last_held w z zs (h.at ∷ left) v.apart) in
        let from_x =
          ApartFrom-at w h.at g.at left i there (ApartFrom-middle w h.at (z ∷ zs) left v.apart).1 in
        let from_old = ApartFrom-at w (last (z ∷ zs)) g.at left i there past in
        (
          record {
            at = g.at;
            place = i;
            handed_out = there;
            whole = g.whole;
            header = g.header;
            payload = g.payload;
            fits = g.fits;
          },
          λ a from to.
              pushed_memory-between k.list k.per m (last (z ∷ zs)) h.at g.at a v.layout from_x
                from_old (omega (arith, g.payload)) (omega (arith, g.payload, g.fits)),
        )

    -- A buffer of one of the lists behind.
    behind : (t : BufferSlice) → IsHeld ks t → SameData t m pushed
    behind t g a from to = beyond a (inr (omega (arith, held-behind ks t m (end_of k.list) rest g)))

    returned_here : Returned m lo (k ∷ ks) s
    unfolding IsHeld Outside
    returned_here = record {
      after = k' ∷ ks;
      memory = pushed;
      ran = here k.per h.at s h.whole k.list (lists_of ks) m pushed (reset_slice s) v.per_word (
          push-run k.list k.per m h.at (last (z ∷ zs)) s v.layout h.header v.tail_word
            (inside_old k.list k.per m z zs h.at left v)
            (inside_x k.list k.per m z zs h.at left v));
      same_lists = refl;
      valid = (
        l,
        pushed_memory-IsFree k.list k.per m z zs h.at left v,
        AllKept-Agree m pushed (end_of k.list) ks (λ a o. beyond a (inr o)) rest,
      );
      outside = λ a o. beyond a o.0;
      before = λ a o. beyond a (inl (omega arith));
      others = λ t g differ. elim g [
        | inl g' ↦ (let (stays, same) = beside t g' differ in (inl stays, same))
        | inr (size, g') ↦ (inr (size, g'), behind t g')
      ];
    }

  returned_first :
      (free : List ℕ)
      → k.free ≡ free
      → IsFree k.list k.per m k.free k.held
      → Returned m lo (k ∷ ks) s
  returned_first [] e v = absurd (omega (arith, v.some_free, ap length e))
  returned_first (z ∷ zs) e v = returned_here z zs (
      IsFree-Perm k.list k.per m (z ∷ zs) (erase_at-Perm k.held h.place h.at h.handed_out)
        (subst (λ f. IsFree k.list k.per m f k.held) e v))

pub returned :
    (ks : List Kept) (m : Mem) (lo : Address) (s : BufferSlice)
    → AllKept m lo ks
    → IsHeld ks s
    → Returned m lo ks s
unfolding IsHeld Outside
returned [] m lo s v h = absurd h
returned (k ∷ ks) m lo s (l, v, rest) (inl h) = returned_first k ks m lo s l rest h k.free refl v
returned (k ∷ ks) m lo s (l, v, rest) (inr (differs, h)) =
    let r = returned ks m (end_of k.list) s rest h in
    record {
      after = k ∷ r.after;
      memory = r.memory;
      ran = further s.cap 0 s refl k.list (lists_of ks) m k.per v.per_word differs ∙ r.ran;
      same_lists = ap (λ ls. k.list ∷ ls) r.same_lists;
      valid = (
        l,
        IsFree-Agree k.list k.per m r.memory k.free k.held (λ a _ o. r.before a o) v,
        r.valid,
      );
      outside = λ a o. r.outside a o.1;
      before = λ a o. r.before a (omega (arith, l, v.layout.region_at));
      others = λ t g differ. elim g [
        | inl g' ↦ (inl g', λ a from to. r.before a (omega (arith, (held-inside k t m v g').1)))
        | inr (size, g') ↦ (let (stays, same) = r.others t g' differ in (inr (size, stays), same))
      ];
    }
