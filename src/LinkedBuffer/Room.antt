-- ===== src/LinkedBuffer/Room.antt =====
-- The room for writing in the slices of a linked buffer of buffer.go, and what a write to one slice does to the
-- bytes of all.
use shmipc_go.Prelude.{
  ℕ, zero, suc, ◌+◌, ◌-◌, ◌≤◌, ◌≡◌, refl, sym, ap, ap₂, ◌∙◌, append_assoc, List, [], ◌∷◌, ◌++◌,
  take, drop, length, arith, ◌⊎◌, inl, inr, get_elem?, set, some,
}
use shmipc_go.Memory.{Mem}
use shmipc_go.BufferSlice.{BufferSlice}
use shmipc_go.BufferSlice.Fifo.{
  IsCursor, unread, appended, append_slice, append_memory, length-take-appended,
}
use shmipc_go.BufferSlice.Window.{
  AllBytes, load_bytes-store_bytes_apart, load_bytes-store_bytes_behind,
}
use shmipc_go.LinkedBuffer.{LinkedBuffer, at}
use shmipc_go.LinkedBuffer.Contents.{contents, total, length-contents, AllCursors}

-- The data of two slices do not overlap.
unfoldable pub IsApart : BufferSlice → BufferSlice → Type 0
IsApart s t =
    (s.block.address + s.block.len ≤ t.block.address)
    ⊎ (t.block.address + t.block.len ≤ s.block.address)

unfoldable pub AllApart : BufferSlice → List BufferSlice → Type 0
AllApart s [] = Unit {0}
AllApart s (t ∷ ts) = IsApart s t × AllApart s ts

unfoldable pub Separate : List BufferSlice → Type 0
Separate [] = Unit {0}
Separate (s ∷ ss) = AllApart s ss × Separate ss

-- The bytes that the slices still have place for.
unfoldable pub room : List BufferSlice → ℕ
room [] = 0
room (s ∷ ss) = (s.block.len - s.write_index) + room ss

pub contents-append :
    (ss ts : List BufferSlice) (m : Mem) → contents (ss ++ ts) m ≡ contents ss m ++ contents ts m
unfolding contents
contents-append [] ts m = refl
contents-append (s ∷ ss) ts m =
    ap (λ c. unread s m ++ c) (contents-append ss ts m)
    ∙ sym (append_assoc (unread s m) (contents ss m) (contents ts m))

pub AllCursors-append :
    (ss ts : List BufferSlice) → AllCursors ss → AllCursors ts → AllCursors (ss ++ ts)
unfolding AllCursors
AllCursors-append [] ts v w = w
AllCursors-append (s ∷ ss) ts (c, v) w = (c, AllCursors-append ss ts v w)

pub AllApart-append :
    (s : BufferSlice) (ts : List BufferSlice) (u : BufferSlice)
    → AllApart s ts
    → IsApart s u
    → AllApart s (ts ++ u ∷ [])
unfolding AllApart
AllApart-append s [] u a b = (b, tt)
AllApart-append s (t ∷ ts) u (a, v) b = (a, AllApart-append s ts u v b)

-- A write behind the unread bytes of `s` changes nothing in the slices apart from it.
pub unread_kept :
    (s t : BufferSlice) (xs : List ℕ) (m : Mem)
    → IsCursor s
    → IsCursor t
    → IsApart s t
    → unread t (append_memory s xs m) ≡ unread t m
unfolding IsApart
unread_kept s t xs m v w (inl before) =
    load_bytes-store_bytes_behind (t.write_index - t.read_index) (take (appended s xs) xs)
      (s.block.address + s.write_index) (t.block.address + t.read_index) m
      (omega (arith, v.within, w.ordered, length-take-appended s xs))
unread_kept s t xs m v w (inr after) =
    load_bytes-store_bytes_apart (t.write_index - t.read_index) (take (appended s xs) xs)
      (s.block.address + s.write_index) (t.block.address + t.read_index) m
      (omega (arith, v.within, w.within, w.ordered))

pub contents_kept :
    (s : BufferSlice) (ts : List BufferSlice) (xs : List ℕ) (m : Mem)
    → IsCursor s
    → AllCursors ts
    → AllApart s ts
    → contents ts (append_memory s xs m) ≡ contents ts m
unfolding contents AllCursors AllApart
contents_kept s [] xs m v w a = refl
contents_kept s (t ∷ ts) xs m v (c, w) (a, b) =
    ap₂ ◌++◌ (unread_kept s t xs m v c a) (contents_kept s ts xs m v w b)

-- Every slice of `ts` is apart from every one of `ss`.
unfoldable pub AllAgainst : List BufferSlice → List BufferSlice → Type 0
AllAgainst ss [] = Unit {0}
AllAgainst ss (t ∷ ts) = AllApart t ss × AllAgainst ss ts

pub IsApart-swap : (s t : BufferSlice) → IsApart s t → IsApart t s
unfolding IsApart
IsApart-swap s t (inl h) = inr h
IsApart-swap s t (inr h) = inl h

-- A slice that was written to counts to the slices before.
pub against_more :
    (ss ts : List BufferSlice) (s : BufferSlice) (xs : List ℕ)
    → AllAgainst ss ts
    → AllApart s ts
    → AllAgainst (ss ++ append_slice s xs ∷ []) ts
unfolding AllAgainst AllApart IsApart
against_more ss [] s xs a b = tt
against_more ss (t ∷ ts) s xs (a, v) (b, w) =
    (AllApart-append t ss (append_slice s xs) a (IsApart-swap s t b), against_more ss ts s xs v w)

pub empty_list : (xs : List ℕ) → length xs ≡ 0 → xs ≡ []
empty_list [] h = refl
empty_list (x ∷ xs) h = absurd (omega (arith, h))

pub no_contents : (ss : List BufferSlice) (m : Mem) → total ss ≡ 0 → contents ss m ≡ []
no_contents ss m h = empty_list (contents ss m) (length-contents ss m ∙ h)

pub append_slice-IsCursor :
    (s : BufferSlice) (xs : List ℕ) → IsCursor s → IsCursor (append_slice s xs)
append_slice-IsCursor s xs v = omega (arith, v.ordered, v.within, v.room)

-- The slices `rest` from the write slice on have room for `size` bytes, those behind the write slice are empty,
-- and their data overlaps with no other slice.
pub record HasRoom (size : ℕ) (pre rest : List BufferSlice) : Type 0 where
  pub before : AllCursors pre
  pub cursors : AllCursors rest
  pub against : AllAgainst pre rest
  pub separate : Separate rest
  pub empty : total (drop 1 rest) ≡ 0
  pub enough : size ≤ room rest

pub AllBytes-drop : (n : ℕ) (xs : List ℕ) → AllBytes xs → AllBytes (drop n xs)
AllBytes-drop zero xs w = w
AllBytes-drop (suc n) [] w = tt
AllBytes-drop (suc n) (x ∷ xs) w = AllBytes-drop n xs w.1

module _ {A : Type 0} (s s' : A) (post : List A) where
  pub get_elem?_middle : (pre : List A) → get_elem? (pre ++ s ∷ post) (length pre) ≡ some s
  get_elem?_middle [] = refl
  get_elem?_middle (t ∷ pre) = get_elem?_middle pre

  pub set_middle : (pre : List A) → set (pre ++ s ∷ post) (length pre) s' ≡ pre ++ s' ∷ post
  set_middle [] = refl
  set_middle (t ∷ pre) = ap (λ r. t ∷ r) (set_middle pre)

abbrev pub at_slice : LinkedBuffer → List BufferSlice → ℕ → LinkedBuffer
at_slice l ss i = record l { slices = ss; write = at i }
