-- ===== src/BufferManager/Alloc.antt =====
-- `allocShmBuffer` of buffer_manager.go over the lists of a manager.
use native.Mathlib.Decide.{dec_lt}
use shmipc_go.Prelude.{
  ℕ, ◌≤◌, ◌<◌, ◌≡◌, ◌∙◌, ap, sym, subst, refl, ◌⊎◌, inl, inr, Option, some, none, List, [], ◌∷◌,
  map, leb, if◌then◌else◌, arith,
}
use shmipc_go.Memory.{Address, Mem, load}
use shmipc_go.Errors.{no_more_buffer}
use shmipc_go.Command.{ok, err}
use shmipc_go.BufferSlice.{BufferSlice}
use shmipc_go.BufferList.{BufferList, pop}
use shmipc_go.BufferList.Free.{IsFree}
use shmipc_go.BufferList.Pop.{slice_of, popped_memory, pop-run}
use shmipc_go.BufferList.Popped.{
  popped_memory-IsFree, pop-refused, refused_memory, refused_memory-IsFree,
}
use shmipc_go.BufferList.Frame.{end_of, IsFree-Agree, popped_memory-outside, refused_memory-outside}
use shmipc_go.BufferManager.{BufferManager, alloc_from, alloc_shm_buffer}

-- A list with what is known of it: the size of its buffers, and which are free and handed out.
pub record Kept : Type 0 where
  pub list : BufferList
  pub per : ℕ
  pub free : List ℕ
  pub held : List ℕ

-- The lists lie behind `lo`, one behind the other, and each is valid.
abbrev pub AllKept : Mem → Address → List Kept → Type 0
AllKept m lo [] = Unit {0}
AllKept m lo (k ∷ ks) =
    (lo ≤ k.list.size) × IsFree k.list k.per m k.free k.held × AllKept m (end_of k.list) ks

-- Which list gives a buffer: its slice, and the lists afterwards.
abbrev pub choose_in : Kept → ℕ → List ℕ → Option (BufferSlice × Kept)
choose_in k size [] = none
choose_in k size (x ∷ []) = none
choose_in k size (x ∷ y ∷ ys) =
    if leb size k.per
    then some (slice_of k.list k.per x, record k { free = y ∷ ys; held = x ∷ k.held })
    else none

-- The choice of one list, or else that of the lists behind it.
abbrev or_behind :
    Kept
    → List Kept
    → Option (BufferSlice × Kept)
    → Option (BufferSlice × List Kept)
    → Option (BufferSlice × List Kept)
or_behind k ks (some (s, k')) others = some (s, k' ∷ ks)
or_behind k ks none (some (s, ks')) = some (s, k ∷ ks')
or_behind k ks none none = none

abbrev pub choose : List Kept → ℕ → Option (BufferSlice × List Kept)
choose [] size = none
choose (k ∷ ks) size = or_behind k ks (choose_in k size k.free) (choose ks size)

abbrev pub lists_of : List Kept → List BufferList
lists_of ks = map (λ k. k.list) ks

-- Memory before `lo` is not written.
abbrev pub Before : Address → Mem → Mem → Type 0
Before lo m m' = (a : Address) → a < lo → m' a ≡ m a

-- What an allocation from these lists does.
abbrev Allocates : Mem → Address → List Kept → ℕ → Option (BufferSlice × List Kept) → Type 0
Allocates m lo ks size (some (s, ks')) =
    (m' : Mem) × (alloc_from (lists_of ks) size m ≡ ok s m') × AllKept m' lo ks' × Before lo m m'
Allocates m lo ks size none =
    (m' : Mem) × (alloc_from (lists_of ks) size m ≡ err no_more_buffer m')
    × AllKept m' lo ks
    × Before lo m m'

pub AllKept-Agree :
    (m m' : Mem) (lo : Address) (ks : List Kept)
    → ((a : Address) → lo ≤ a → m' a ≡ m a)
    → AllKept m lo ks
    → AllKept m' lo ks
AllKept-Agree m m' lo [] same a = tt
AllKept-Agree m m' lo (k ∷ ks) same (l, v, rest) = (
  l,
  IsFree-Agree k.list k.per m m' k.free k.held (λ a h _. same a (omega arith)) v,
  AllKept-Agree m m' (end_of k.list) ks (λ a h. same a (omega (arith, v.layout))) rest,
)

too_small : (k : Kept) (size : ℕ) → k.per < size → (free : List ℕ) → choose_in k size free ≡ none
too_small k size small [] = refl
too_small k size small (x ∷ []) = refl
too_small k size small (x ∷ y ∷ ys) = ground arith

module _ (k : Kept) (ks : List Kept) (size : ℕ) (m : Mem) (lo : Address) where
  -- A list that is passed over, and what the lists behind it do.
  pass :
      (m1 : Mem) (r : Option (BufferSlice × List Kept))
      → lo ≤ k.list.size
      → IsFree k.list k.per m1 k.free k.held
      → Before lo m m1
      → alloc_from (lists_of (k ∷ ks)) size m ≡ alloc_from (lists_of ks) size m1
      → Allocates m1 (end_of k.list) ks size r
      → Allocates m lo (k ∷ ks) size (or_behind k ks none r)
  pass m1 (some (s, ks')) l v before skip (m', e, kept, before') = (
    m',
    skip ∙ e,
    (l, IsFree-Agree k.list k.per m1 m' k.free k.held (λ a _ h. before' a h) v, kept),
    λ a h. before' a (omega (arith, v.layout)) ∙ before a h,
  )
  pass m1 none l v before skip (m', e, kept, before') = (
    m',
    skip ∙ e,
    (l, IsFree-Agree k.list k.per m1 m' k.free k.held (λ a _ h. before' a h) v, kept),
    λ a h. before' a (omega (arith, v.layout)) ∙ before a h,
  )

  gives :
      size ≤ k.per
      → (x y : ℕ) (ys : List ℕ)
      → choose_in k size (x ∷ y ∷ ys)
        ≡ some (slice_of k.list k.per x, record k { free = y ∷ ys; held = x ∷ k.held })
  gives large x y ys = ground arith

  skip_small :
      k.per < size
      → load 4 m k.list.cap_per_buffer ≡ k.per
      → alloc_from (lists_of (k ∷ ks)) size m ≡ alloc_from (lists_of ks) size m
  unfolding alloc_from
  skip_small small word = ground arith

  skip_refused :
      (m1 : Mem)
      → size ≤ k.per
      → load 4 m k.list.cap_per_buffer ≡ k.per
      → pop k.list m ≡ err no_more_buffer m1
      → alloc_from (lists_of (k ∷ ks)) size m ≡ alloc_from (lists_of ks) size m1
  unfolding alloc_from
  skip_refused m1 large word refusal = ground arith

  take_popped :
      (m1 : Mem) (s : BufferSlice)
      → size ≤ k.per
      → load 4 m k.list.cap_per_buffer ≡ k.per
      → pop k.list m ≡ ok s m1
      → alloc_from (lists_of (k ∷ ks)) size m ≡ ok s m1
  unfolding alloc_from
  take_popped m1 s large word success = ground arith

  head-Allocates :
      (free : List ℕ) (r : Option (BufferSlice × List Kept))
      → k.free ≡ free
      → AllKept m lo (k ∷ ks)
      → ((m1 : Mem) → AllKept m1 (end_of k.list) ks → Allocates m1 (end_of k.list) ks size r)
      → Allocates m lo (k ∷ ks) size (or_behind k ks (choose_in k size free) r)
  head-Allocates free r e (l, v, rest) others = elim (dec_lt k.per size) [
    | yes small ↦
        subst (λ o. Allocates m lo (k ∷ ks) size (or_behind k ks o r))
          (sym (too_small k size small free))
          (pass m r l v (λ a h. refl) (skip_small small v.per_word) (others m rest))
    | no large ↦ large_enough free e (omega arith) (subst (λ f. IsFree k.list k.per m f k.held) e v)
  ]
    where
      large_enough :
          (free : List ℕ)
          → k.free ≡ free
          → size ≤ k.per
          → IsFree k.list k.per m free k.held
          → Allocates m lo (k ∷ ks) size (or_behind k ks (choose_in k size free) r)
      large_enough [] e large w = absurd (omega arith)
      large_enough (x ∷ []) e large w =
          let m1 = refused_memory k.list m in
          pass m1 r l
            (subst (λ f. IsFree k.list k.per m1 f k.held) (sym e)
              (refused_memory-IsFree k.list k.per m x k.held w))
            (λ a h. refused_memory-outside k.list k.per m w.layout a (inl (omega arith)))
            (skip_refused m1 large w.per_word (pop-refused k.list k.per m x k.held w))
            (others m1 (
              AllKept-Agree m m1 (end_of k.list) ks
                (λ a h. refused_memory-outside k.list k.per m w.layout a (inr h)) rest))
      large_enough (x ∷ y ∷ ys) e large w =
          let m1 = popped_memory k.list m x y in
          let outside = λ (a : Address) (h : (a < k.list.size) ⊎ (end_of k.list ≤ a)).
            popped_memory-outside k.list k.per m w.layout a h x y w.inside.0 in
          subst (λ o. Allocates m lo (k ∷ ks) size (or_behind k ks o r)) (sym (gives large x y ys))
            (
              m1,
              take_popped m1 (slice_of k.list k.per x) large w.per_word
                  (pop-run k.list k.per m x y ys k.held w),
              (
                l,
                popped_memory-IsFree k.list k.per m x y ys k.held w,
                AllKept-Agree m m1 (end_of k.list) ks (λ a h. outside a (inr h)) rest,
              ),
              λ a h. outside a (inl (omega arith)),
            )

alloc_from-Allocates :
    (m : Mem) (lo : Address) (ks : List Kept) (size : ℕ)
    → AllKept m lo ks
    → Allocates m lo ks size (choose ks size)
unfolding alloc_from
alloc_from-Allocates m lo [] size a = (m, refl, tt, λ a h. refl)
alloc_from-Allocates m lo (k ∷ ks) size a =
    head-Allocates k ks size m lo k.free (choose ks size) refl a
      (λ m1 kept. alloc_from-Allocates m1 (end_of k.list) ks size kept)

abbrev pub AllAtMost : ℕ → List Kept → Type 0
AllAtMost most [] = Unit {0}
AllAtMost most (k ∷ ks) = (k.per ≤ most) × AllAtMost most ks

choose-none :
    (most size : ℕ) (ks : List Kept) → most < size → AllAtMost most ks → choose ks size ≡ none
choose-none most size [] h a = refl
choose-none most size (k ∷ ks) h a =
    let first = too_small k size (omega arith) k.free in
    let rest = choose-none most size ks h a.1 in
    ap (λ o. or_behind k ks o (choose ks size)) first ∙ ap (or_behind k ks none) rest

-- What `allocShmBuffer` returns, and that the lists are valid as they are afterwards.
abbrev pub Returns : BufferManager → Mem → List Kept → ℕ → Option (BufferSlice × List Kept) → Type 0
Returns b m ks size (some (s, ks')) =
    (m' : Mem) × (alloc_shm_buffer b size m ≡ ok s m') × AllKept m' 0 ks'
Returns b m ks size none =
    (m' : Mem) × (alloc_shm_buffer b size m ≡ err no_more_buffer m') × AllKept m' 0 ks

allocate :
    (b : BufferManager) (m : Mem) (ks : List Kept) (size : ℕ) (r : Option (BufferSlice × List Kept))
    → b.lists ≡ lists_of ks
    → size ≤ b.max_slice_size
    → Allocates m 0 ks size r
    → Returns b m ks size r
unfolding alloc_shm_buffer
allocate b m ks size none e h (m', ran, kept, before) = (m', ground (arith, e, ran), kept)
allocate b m ks size (some (s, ks')) e h (m', ran, kept, before) =
    (m', ground (arith, e, ran), kept)

refuse :
    (b : BufferManager) (size : ℕ) (m : Mem)
    → b.max_slice_size < size
    → alloc_shm_buffer b size m ≡ err no_more_buffer m
unfolding alloc_shm_buffer
refuse b size m h = ground arith

-- On a manager whose lists lie one behind the other, each valid, with no buffer larger than
-- `maxSliceSize`: `allocShmBuffer` gives the first buffer of the first list whose buffers are large
-- enough and of which two or more are free, and is an error if there is no such list. All lists
-- stay valid, and only that buffer changes from free to handed out.
pub alloc_shm_buffer-choose :
    (b : BufferManager) (m : Mem) (ks : List Kept) (size : ℕ)
    → b.lists ≡ lists_of ks
    → AllKept m 0 ks
    → AllAtMost b.max_slice_size ks
    → Returns b m ks size (choose ks size)
alloc_shm_buffer-choose b m ks size e kept most = elim (dec_lt b.max_slice_size size) [
  | yes above ↦
      subst (Returns b m ks size) (sym (choose-none b.max_slice_size size ks above most))
        (m, refuse b size m above, kept)
  | no within ↦
      allocate b m ks size (choose ks size) e (omega arith) (alloc_from-Allocates m 0 ks size kept)
]
