-- ===== src/BufferManager/Recycle.antt =====
-- `recycleBuffer` of buffer_manager.go over the lists of a manager.
use shmipc_go.Prelude.{ℕ, ◌≤◌, ◌<◌, ◌≡◌, ◌≢◌, ◌∙◌, ◌⊎◌, inl, inr, true, List, [], ◌∷◌, ◌++◌, arith}
use shmipc_go.Memory.{Address, Mem, load}
use shmipc_go.Command.{ok}
use shmipc_go.BufferSlice.{BufferSlice}
use shmipc_go.BufferList.{BufferList, push}
use shmipc_go.BufferList.Free.{last}
use shmipc_go.BufferList.Push.{IsAt, pushed_memory, push-run, reset_slice}
use shmipc_go.BufferList.Pushed.{pushed_memory-IsFree, inside_old, inside_x}
use shmipc_go.BufferList.Frame.{end_of, IsFree-Agree, pushed_memory-outside}
use shmipc_go.BufferManager.{BufferManager, recycle_to, recycle_buffer}
use shmipc_go.BufferManager.Alloc.{Kept, AllKept, AllKept-Agree, lists_of, Before}

-- No list before has buffers of this size.
abbrev pub NoneOf : ℕ → List Kept → Type 0
NoneOf per [] = Unit {0}
NoneOf per (k ∷ ks) = (k.per ≢ per) × NoneOf per ks

module _ (per : ℕ) (x : ℕ) (s : BufferSlice) (cap : s.cap ≡ per) where
  pub here :
      (list : BufferList) (lists : List BufferList) (m m1 : Mem) (s' : BufferSlice)
      → load 4 m list.cap_per_buffer ≡ per
      → push list s m ≡ ok s' m1
      → recycle_to (list ∷ lists) s m ≡ ok tt m1
  unfolding recycle_to
  here list lists m m1 s' word pushed = ground arith

  pub further :
      (list : BufferList) (lists : List BufferList) (m : Mem) (other : ℕ)
      → load 4 m list.cap_per_buffer ≡ other
      → other ≢ per
      → recycle_to (list ∷ lists) s m ≡ recycle_to lists s m
  unfolding recycle_to
  further list lists m other word differs = ground arith

  module _ (list : BufferList) (z : ℕ) (zs held : List ℕ) (at : IsAt list x s) where
    abbrev before_push : Kept
    before_push = record { list = list; per = per; free = z ∷ zs; held = x ∷ held }

    abbrev after_push : Kept
    after_push = record { list = list; per = per; free = z ∷ zs ++ x ∷ []; held = held }

    recycle_to-AllKept :
        (before after : List Kept) (m : Mem) (lo : Address)
        → NoneOf per before
        → AllKept m lo (before ++ before_push ∷ after)
        → (m' : Mem) × (recycle_to (lists_of (before ++ before_push ∷ after)) s m ≡ ok tt m')
          × AllKept m' lo (before ++ after_push ∷ after)
          × Before lo m m'
    recycle_to-AllKept [] after m lo differs (l, v, rest) =
        let old = inside_old list per m z zs x held v in
        let new = inside_x list per m z zs x held v in
        let m1 = pushed_memory list m (last (z ∷ zs)) x in
        let outside = λ (a : Address) (h : (a < list.size) ⊎ (end_of list ≤ a)).
          pushed_memory-outside list per m v.layout a h (last (z ∷ zs)) x old new in
        (
          m1,
          here list (lists_of after) m m1 (reset_slice s) v.per_word
              (push-run list per m x (last (z ∷ zs)) s v.layout at v.tail_word old new),
          (
            l,
            pushed_memory-IsFree list per m z zs x held v,
            AllKept-Agree m m1 (end_of list) after (λ a h. outside a (inr h)) rest,
          ),
          λ a h. outside a (inl (omega arith)),
        )
    recycle_to-AllKept (k ∷ before) after m lo differs (l, v, rest) =
        let (m1, ran, kept, same) =
          recycle_to-AllKept before after m (end_of k.list) differs.1 rest in
        (
          m1,
          further k.list (lists_of (before ++ before_push ∷ after)) m k.per v.per_word differs.0
              ∙ ran,
          (l, IsFree-Agree k.list k.per m m1 k.free k.held (λ a _ h. same a h) v, kept),
          λ a h. same a (omega (arith, v.layout)),
        )

-- The buffer at `x` is handed out by the list between `before` and `after`, which is the first with
-- buffers of its size. `recycleBuffer` of a slice on that buffer, whatever its cursors, makes it
-- the last free one of this list; every list is valid afterwards, and the others are as they were.
pub recycle_buffer-AllKept :
    (b : BufferManager) (m : Mem) (before after : List Kept) (list : BufferList) (per z x : ℕ)
    (zs held : List ℕ) (s : BufferSlice)
    → b.lists
      ≡ lists_of
          (before ++ record { list = list; per = per; free = z ∷ zs; held = x ∷ held } ∷ after)
    → AllKept m 0
        (before ++ record { list = list; per = per; free = z ∷ zs; held = x ∷ held } ∷ after)
    → NoneOf per before
    → IsAt list x s
    → s.cap ≡ per
    → s.is_from_shm ≡ true
    → (m' : Mem) × (recycle_buffer b s m ≡ ok tt m')
      × AllKept m' 0 (
          before ++ record { list = list; per = per; free = z ∷ zs ++ x ∷ []; held = held } ∷ after)
unfolding recycle_buffer
recycle_buffer-AllKept b m before after list per z x zs held s lists kept differs at cap shm =
    let (m', ran, kept', same) =
      recycle_to-AllKept per x s cap list z zs held at before after m 0 differs kept in
    (m', ground (arith, lists, shm, ran), kept')
