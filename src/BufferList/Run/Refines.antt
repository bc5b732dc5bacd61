-- ===== src/BufferList/Run/Refines.antt =====
-- The free list of buffer_manager.go in use, step by step beside a queue of free buffers.
use native.Mathlib.Decide.{dec_lt}
use mathlib.Core.Option.{some-injective}
use mathlib.Core.List.{Permᴰ}
use mathlib.Core.List.Permᴰ
use shmipc_go.Prelude.{
  ℕ, zero, suc, ◌+◌, ◌≤◌, ◌<◌, ◌≡◌, ◌∙◌, ap, sym, refl, subst, Option, some, none, List, [], ◌∷◌,
  ◌++◌, map, append_assoc, get_elem?, ltb, if◌then◌else◌, arith,
}
use shmipc_go.Memory.{Address, Mem, load, store}
use shmipc_go.Memory.Laws.{load-store_apart}
use shmipc_go.BufferSlice.{BufferSlice}
use shmipc_go.BufferList.{BufferList}
use shmipc_go.BufferList.Free.{IsFree, Links-store, Caps-store, Clear-ApartFrom, last}
use shmipc_go.BufferList.Apart.{IsFree-Perm}
use shmipc_go.BufferList.Pop.{slice_of, popped_memory, pop-run}
use shmipc_go.BufferList.Popped.{
  popped_memory-IsFree, pop-refused, refused_memory, refused_memory-IsFree,
}
use shmipc_go.BufferList.Push.{pushed_memory, push-run}
use shmipc_go.BufferList.Pushed.{pushed_memory-IsFree, inside_old, inside_x}
use shmipc_go.BufferList.Chained.{ApartFrom-middle}
use shmipc_go.BufferList.Run.{
  Op, pops, pushes, fills, Answer, returned, filled, missing, erase_at, step, run, promised,
  promised_run,
}

pub erase_at-Perm : (xs : List ℕ) (i x : ℕ) → get_elem? xs i ≡ some x → Permᴰ xs (x ∷ erase_at xs i)
erase_at-Perm [] i x e = cc
erase_at-Perm (y ∷ xs) zero x e = Permᴰ.cons (some-injective y x e) (Permᴰ.refl xs)
erase_at-Perm (y ∷ xs) (suc i) x e =
    Permᴰ.trans (Permᴰ.cons refl (erase_at-Perm xs i x e)) (Permᴰ.swap refl refl)

module _ {A B : Type 0} (f : A → B) where
  get_elem?-map-some :
      (xs : List A) (i : ℕ) (x : A) → get_elem? xs i ≡ some x → get_elem? (map f xs) i ≡ some (f x)
  get_elem?-map-some [] i x e = cc
  get_elem?-map-some (y ∷ xs) zero x e = ap (λ y. some (f y)) (some-injective y x e)
  get_elem?-map-some (y ∷ xs) (suc i) x e = get_elem?-map-some xs i x e

  get_elem?-map-none : (xs : List A) (i : ℕ) → get_elem? xs i ≡ none → get_elem? (map f xs) i ≡ none
  get_elem?-map-none [] i e = refl
  get_elem?-map-none (y ∷ xs) zero e = cc
  get_elem?-map-none (y ∷ xs) (suc i) e = get_elem?-map-none xs i e

  erase_at-map : (xs : List A) (i : ℕ) → erase_at (map f xs) i ≡ map f (erase_at xs i)
  erase_at-map [] i = refl
  erase_at-map (y ∷ xs) zero = refl
  erase_at-map (y ∷ xs) (suc i) = ap (λ r. f y ∷ r) (erase_at-map xs i)

module _ (b : BufferList) (per : ℕ) where
  -- A step of the code with the answer and the buffers of `t`.
  Agrees : Op → Mem → List ℕ → Answer × List ℕ × List ℕ → Type 0
  Agrees op m held t =
      (m' : Mem) × (step b m (map (slice_of b per) held) op
        ≡ some (t.0, m', map (slice_of b per) t.2))
      × IsFree b per m' t.1 t.2

  pop-Agrees :
      (m : Mem) (free held : List ℕ)
      → IsFree b per m free held
      → Agrees pops m held (promised per b.region_offset_in_shm free held pops)
  unfolding Agrees step
  pop-Agrees m [] held v = absurd (omega arith)
  pop-Agrees m (x ∷ []) held v = (
    refused_memory b m,
    rw (pop-refused b per m x held v, step) refl,
    refused_memory-IsFree b per m x held v,
  )
  pop-Agrees m (x ∷ y ∷ ys) held v = (
    popped_memory b m x y,
    rw (pop-run b per m x y ys held v, step) refl,
    popped_memory-IsFree b per m x y ys held v,
  )

  push-Agrees :
      (m : Mem) (z : ℕ) (zs held : List ℕ) (i : ℕ) (o : Option ℕ)
      → get_elem? held i ≡ o
      → IsFree b per m (z ∷ zs) held
      → Agrees (pushes i) m held (elim o [
        | none ↦ (missing, z ∷ zs, held)
        | some x ↦ (returned, z ∷ zs ++ x ∷ [], erase_at held i)
      ])
  unfolding Agrees step
  push-Agrees m z zs held i none e v =
      (m, rw (get_elem?-map-none (slice_of b per) held i e, step) refl, v)
  push-Agrees m z zs held i (some x) e v =
      let e' = get_elem?-map-some (slice_of b per) held i x e in
      let w = IsFree-Perm b per m (z ∷ zs) (erase_at-Perm held i x e) v in
      let ran =
        push-run b per m x (last (z ∷ zs)) (slice_of b per x) v.layout
          (record { header_at = refl; offset_at = refl }) v.tail_word
          (inside_old b per m z zs x (erase_at held i) w)
          (inside_x b per m z zs x (erase_at held i) w) in
      (
        pushed_memory b m (last (z ∷ zs)) x,
        rw (e', ran, erase_at-map (slice_of b per) held i, step) refl,
        pushed_memory-IsFree b per m z zs x (erase_at held i) w,
      )

  -- A write into the data of a buffer that is held leaves the list.
  fill-IsFree :
      (m : Mem) (free held : List ℕ) (x j v : ℕ)
      → j < per
      → IsFree b per m free (x ∷ held)
      → IsFree b per (store 1 m (b.region.address + (x + 20) + j) v) free (x ∷ held)
  fill-IsFree m free held x j v small w =
      let a = b.region.address + (x + 20) + j in
      let others = ApartFrom-middle (per + 20) x free held w.apart in
      let clear = Clear-ApartFrom b.region.address 1 per x a in
      let before : (k : Address)
          → k + 4 ≤ b.region.address
          → load 4 (store 1 m a v) k ≡ load 4 m k =
        λ k h. load-store_apart 4 1 m a v k (omega arith) in
      record {
        layout = w.layout;
        some_free = w.some_free;
        few = w.few;
        inside = w.inside;
        apart = w.apart;
        per_word = before b.cap_per_buffer (omega arith) ∙ w.per_word;
        size_word = before b.size (omega arith) ∙ w.size_word;
        head_word = before b.head (omega arith) ∙ w.head_word;
        tail_word = before b.tail (omega arith) ∙ w.tail_word;
        links =
            Links-store b.region.address per 1 m a v free
              (clear free (omega arith) (omega arith) others.0) w.links;
        caps =
            Caps-store b.region.address per 1 m a v (x ∷ held)
              (omega arith, clear held (omega arith) (omega arith) others.1) w.caps;
      }

  fill-Agrees :
      (m : Mem) (free held : List ℕ) (i j v : ℕ) (o : Option ℕ)
      → get_elem? held i ≡ o
      → IsFree b per m free held
      → Agrees (fills i j v) m held (elim o [
        | none ↦ (missing, free, held)
        | some x ↦ (if ltb j per then filled else missing, free, held)
      ])
  unfolding Agrees step
  fill-Agrees m free held i j v none e w =
      (m, rw (get_elem?-map-none (slice_of b per) held i e, step) refl, w)
  fill-Agrees m free held i j v (some x) e w =
      let e' = get_elem?-map-some (slice_of b per) held i x e in
      let front = erase_at-Perm held i x e in
      let w' = IsFree-Perm b per m free front w in
      elim (dec_lt j per) [
        | yes lt ↦ (
          store 1 m (b.region.address + (x + 20) + j) v,
          ground (arith, e'),
          IsFree-Perm b per _ free (Permᴰ.symm front)
              (fill-IsFree m free (erase_at held i) x j v lt w'),
        )
        | no ge ↦ (m, ground (arith, e'), w)
      ]

  step-Agrees :
      (m : Mem) (free held : List ℕ) (op : Op)
      → IsFree b per m free held
      → Agrees op m held (promised per b.region_offset_in_shm free held op)
  step-Agrees m free held pops v = pop-Agrees m free held v
  step-Agrees m [] held (pushes i) v = absurd (omega arith)
  step-Agrees m (z ∷ zs) held (pushes i) v = push-Agrees m z zs held i (get_elem? held i) refl v
  step-Agrees m [] held (fills i j n) v = absurd (omega arith)
  step-Agrees m (z ∷ zs) held (fills i j n) v =
      fill-Agrees m (z ∷ zs) held i j n (get_elem? held i) refl v

-- A step neither loses nor doubles a buffer.
returned-Perm :
    (free held : List ℕ) (i : ℕ) (o : Option ℕ)
    → get_elem? held i ≡ o
    → let t : Answer × List ℕ × List ℕ = elim o [
      | none ↦ (missing, free, held)
      | some x ↦ (returned, free ++ x ∷ [], erase_at held i)
    ] in
      Permᴰ (free ++ held) (t.1 ++ t.2)
returned-Perm free held i none e = Permᴰ.refl (free ++ held)
returned-Perm free held i (some x) e =
    subst (Permᴰ (free ++ held)) (sym (append_assoc free (x ∷ []) (erase_at held i)))
      (Permᴰ.append_left free (erase_at-Perm held i x e))

filled-Perm :
    (per j : ℕ) (free held : List ℕ) (o : Option ℕ)
    → let t : Answer × List ℕ × List ℕ = elim o [
      | none ↦ (missing, free, held)
      | some x ↦ (if ltb j per then filled else missing, free, held)
    ] in
      Permᴰ (free ++ held) (t.1 ++ t.2)
filled-Perm per j free held none = Permᴰ.refl (free ++ held)
filled-Perm per j free held (some x) = Permᴰ.refl (free ++ held)

promised-Perm :
    (per offset : ℕ) (free held : List ℕ) (op : Op)
    → let t = promised per offset free held op in Permᴰ (free ++ held) (t.1 ++ t.2)
promised-Perm per offset [] held pops = Permᴰ.refl held
promised-Perm per offset (x ∷ []) held pops = Permᴰ.refl (x ∷ held)
promised-Perm per offset (x ∷ y ∷ free) held pops = Permᴰ.symm (Permᴰ.middle x (y ∷ free) held)
promised-Perm per offset [] held (pushes i) = returned-Perm [] held i (get_elem? held i) refl
promised-Perm per offset (z ∷ free) held (pushes i) =
    returned-Perm (z ∷ free) held i (get_elem? held i) refl
promised-Perm per offset [] held (fills i j v) = filled-Perm per j [] held (get_elem? held i)
promised-Perm per offset (z ∷ free) held (fills i j v) =
    filled-Perm per j (z ∷ free) held (get_elem? held i)

run-cons :
    (b : BufferList) (m : Mem) (held : List BufferSlice) (op : Op) (ops : List Op) {a : Answer}
    {m1 m2 : Mem} {held1 held2 : List BufferSlice} {answers : List Answer}
    → step b m held op ≡ some (a, m1, held1)
    → run b m1 held1 ops ≡ some (answers, m2, held2)
    → run b m held (op ∷ ops) ≡ some (a ∷ answers, m2, held2)
unfolding run
run-cons b m held op ops e e' = rw (e, run) (rw (e') refl)

-- A process that takes buffers of a valid free list, writes into the data of those it holds, and
-- returns them in any order never makes the code panic, and gets the answers of a queue of free
-- buffers of which the last is never handed out. In the end the list is valid for the buffers that
-- the queue has, and together with those that are held they are those of the beginning: none is
-- lost or handed out twice.
pub run-promised_run :
    (b : BufferList) (per : ℕ) (m : Mem) (free held : List ℕ) (ops : List Op)
    → IsFree b per m free held
    → let t = promised_run per b.region_offset_in_shm free held ops in
      (m' : Mem) × (run b m (map (slice_of b per) held) ops
        ≡ some (t.0, m', map (slice_of b per) t.2))
      × IsFree b per m' t.1 t.2
      × Permᴰ (free ++ held) (t.1 ++ t.2)
unfolding run Agrees
run-promised_run b per m free held [] v = (m, refl, v, Permᴰ.refl (free ++ held))
run-promised_run b per m free held (op ∷ ops) v =
    let t = promised per b.region_offset_in_shm free held op in
    let (m1, stepped, v1) = step-Agrees b per m free held op v in
    let (m2, ran, v2, perm) = run-promised_run b per m1 t.1 t.2 ops v1 in
    (
      m2,
      run-cons b m (map (slice_of b per) held) op ops stepped ran,
      v2,
      Permᴰ.trans (promised-Perm per b.region_offset_in_shm free held op) perm,
    )
