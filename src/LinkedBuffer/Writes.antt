-- ===== src/LinkedBuffer/Writes.antt =====
-- `WriteBytes` of buffer.go, while the slices have room.
use native.Mathlib.Decide.{dec_le}
use shmipc_go.Prelude.{
  ℕ, zero, suc, ◌+◌, ◌≤◌, ◌≡◌, refl, sym, ap, ap₂, ◌∙◌, append-nil, append_assoc, List, [], ◌∷◌,
  ◌++◌, take, drop, length, arith, length-append, length-drop, take-append-drop, take_ge,
}
use shmipc_go.Memory.{Mem}
use shmipc_go.Command.{Command, ok, Bytes}
use shmipc_go.BufferSlice.{BufferSlice}
use shmipc_go.BufferSlice.Fifo.{
  IsCursor, unread, append-run, appended, append_slice, append_memory, unread-append_slice,
}
use shmipc_go.BufferSlice.Window.{AllBytes}
use shmipc_go.BufferManager.{BufferManager}
use shmipc_go.LinkedBuffer.{LinkedBuffer}
use shmipc_go.LinkedBuffer.Writing.{write_bytes, write_loop, start_write}
use shmipc_go.LinkedBuffer.Contents.{contents, total, AllCursors}
use shmipc_go.LinkedBuffer.Room.{
  Separate, room, contents-append, AllCursors-append, contents_kept, AllAgainst, against_more,
  no_contents, append_slice-IsCursor, HasRoom, AllBytes-drop, get_elem?_middle, set_middle,
  at_slice,
}

module _ (b : BufferManager) (make : ℕ → Command Bytes) where
  last_round :
      (rounds : ℕ) (pre : List BufferSlice) (s : BufferSlice) (post : List BufferSlice)
      (xs : List ℕ) (l : LinkedBuffer) (m : Mem)
      → IsCursor s
      → s.write_index + length xs ≤ s.block.len
      → write_loop b make (suc rounds) xs (at_slice l (pre ++ s ∷ post) (length pre)) m
        ≡ ok (at_slice l (pre ++ append_slice s xs ∷ post) (length pre)) (append_memory s xs m)
  unfolding write_loop
  last_round rounds pre s post xs l m v fits =
      let all : appended s xs ≡ length xs = omega arith in
      ground (
        arith,
        append-run s xs m v,
        get_elem?_middle s s post pre,
        set_middle s (append_slice s xs) post pre,
        all,
      )

  more_rounds :
      (rounds : ℕ) (pre : List BufferSlice) (s t : BufferSlice) (post : List BufferSlice)
      (xs : List ℕ) (l : LinkedBuffer) (m : Mem)
      → IsCursor s
      → suc s.block.len ≤ s.write_index + length xs
      → write_loop b make (suc rounds) xs (at_slice l (pre ++ s ∷ t ∷ post) (length pre)) m
        ≡ write_loop b make rounds
            (drop (appended s xs) xs)
            (at_slice l (pre ++ append_slice s xs ∷ t ∷ post) (suc (length pre)))
            (append_memory s xs m)
  unfolding write_loop
  more_rounds rounds pre s t post xs l m v more = ground (
    arith,
    append-run s xs m v,
    get_elem?_middle s s (t ∷ post) pre,
    set_middle s (append_slice s xs) (t ∷ post) pre,
    length-append pre (append_slice s xs ∷ t ∷ post),
    v.within,
  )

  unfoldable Written :
      Command LinkedBuffer → List BufferSlice → LinkedBuffer → List ℕ → Mem → Type 0
  Written run ss l xs m =
      (l' : LinkedBuffer) × (m' : Mem) × (run m ≡ ok l' m')
      × (contents l'.slices m' ≡ contents ss m ++ xs)
      × AllCursors l'.slices
      × (l'.len ≡ l.len)

  -- What `append` to the write slice does to the bytes of the buffer.
  contents-appended :
      (pre : List BufferSlice) (s : BufferSlice) (post : List BufferSlice) (xs : List ℕ) (m : Mem)
      → AllBytes xs
      → HasRoom (length xs) pre (s ∷ post)
      → contents (pre ++ append_slice s xs ∷ post) (append_memory s xs m)
        ≡ contents (pre ++ s ∷ post) m ++ take (appended s xs) xs
  unfolding AllCursors AllAgainst contents
  contents-appended pre s post xs m w h =
      let ys = take (appended s xs) xs in
      contents-append pre (append_slice s xs ∷ post) (append_memory s xs m)
      ∙ ap₂ ◌++◌ (contents_kept s pre xs m h.cursors.0 h.before h.against.0) (
          ap₂ ◌++◌ (unread-append_slice s xs m h.cursors.0 w)
            (no_contents post (append_memory s xs m) h.empty)
          ∙ append-nil (unread s m ++ ys))
      ∙ sym (append_assoc (contents pre m) (unread s m) ys)
      ∙ ap (λ c. c ++ ys)
          (ap (λ c. contents pre m ++ c)
              (sym
                (ap (λ e. unread s m ++ e) (no_contents post m h.empty) ∙ append-nil (unread s m)))
            ∙ sym (contents-append pre (s ∷ post) m))

  unfoldable Run :
      ℕ → List BufferSlice → BufferSlice → List BufferSlice → List ℕ → LinkedBuffer → Mem → Type 0
  Run rounds pre s post xs l m =
      Written (write_loop b make rounds xs (at_slice l (pre ++ s ∷ post) (length pre)))
        (pre ++ s ∷ post) l xs m

  -- The write slice takes everything.
  all_taken :
      (rounds : ℕ) (pre : List BufferSlice) (s : BufferSlice) (post : List BufferSlice)
      (xs : List ℕ) (l : LinkedBuffer) (m : Mem)
      → AllBytes xs
      → HasRoom (length xs) pre (s ∷ post)
      → s.write_index + length xs ≤ s.block.len
      → Run (suc rounds) pre s post xs l m
  unfolding Run Written AllCursors
  all_taken rounds pre s post xs l m w h fits = (
    at_slice l (pre ++ append_slice s xs ∷ post) (length pre),
    append_memory s xs m,
    last_round rounds pre s post xs l m h.cursors.0 fits,
    contents-appended pre s post xs m w h
        ∙ ap (λ t. contents (pre ++ s ∷ post) m ++ t) (take_ge (appended s xs) xs (omega arith)),
    AllCursors-append pre (append_slice s xs ∷ post) h.before
        (append_slice-IsCursor s xs h.cursors.0, h.cursors.1),
    refl,
  )

  -- What is left has room behind the write slice.
  room_behind :
      (pre : List BufferSlice) (s t : BufferSlice) (post : List BufferSlice) (xs : List ℕ)
      → HasRoom (length xs) pre (s ∷ t ∷ post)
      → suc s.block.len ≤ s.write_index + length xs
      → HasRoom (length (drop (appended s xs) xs)) (pre ++ append_slice s xs ∷ []) (t ∷ post)
  unfolding AllCursors AllAgainst Separate room total
  room_behind pre s t post xs h more = record {
    before =
        AllCursors-append pre (append_slice s xs ∷ []) h.before
          (append_slice-IsCursor s xs h.cursors.0, tt);
    cursors = h.cursors.1;
    against = against_more pre (t ∷ post) s xs h.against.1 h.separate.0;
    separate = h.separate.1;
    empty = omega (arith, h.empty);
    enough = omega (arith, h.enough, length-drop (appended s xs) xs);
  }

  write_loop-run :
      (rounds : ℕ) (pre : List BufferSlice) (s : BufferSlice) (post : List BufferSlice)
      (xs : List ℕ) (l : LinkedBuffer) (m : Mem)
      → AllBytes xs
      → HasRoom (length xs) pre (s ∷ post)
      → suc (length post) ≤ rounds
      → Run rounds pre s post xs l m
  unfolding Run Written room AllCursors
  write_loop-run zero pre s post xs l m w h r = absurd (omega arith)
  write_loop-run (suc rounds) pre s [] xs l m w h r =
      all_taken rounds pre s [] xs l m w h (omega (arith, h.enough, h.cursors.0.within))
  write_loop-run (suc rounds) pre s (t ∷ post) xs l m w h r =
      elim (dec_le (s.write_index + length xs) s.block.len) [
        | yes fits ↦ all_taken rounds pre s (t ∷ post) xs l m w h fits
        | no over ↦
            let n = appended s xs in
            let more : suc s.block.len ≤ s.write_index + length xs = omega (arith, over) in
            let pre' = pre ++ append_slice s xs ∷ [] in
            let regroup = append_assoc pre (append_slice s xs ∷ []) (t ∷ post) in
            let one : suc (length pre) ≡ length pre' =
              omega (arith, length-append pre (append_slice s xs ∷ [])) in
            let (l', m', ran, same, ordered, len) =
              write_loop-run rounds pre' t post (drop n xs) l (append_memory s xs m)
                (AllBytes-drop n xs w) (room_behind pre s t post xs h more) (omega arith) in
            (
              l',
              m',
              more_rounds rounds pre s t post xs l m h.cursors.0 more
                  ∙ ap₂
                      (λ ss i.
                        write_loop b make rounds (drop n xs) (at_slice l ss i)
                          (append_memory s xs m))
                      (sym regroup) one
                  ∙ ran,
              same
                  ∙ ap (λ ss. contents ss (append_memory s xs m) ++ drop n xs) regroup
                  ∙ ap (λ c. c ++ drop n xs) (contents-appended pre s (t ∷ post) xs m w h)
                  ∙ append_assoc (contents (pre ++ s ∷ t ∷ post) m) (take n xs) (drop n xs)
                  ∙ ap (λ c. contents (pre ++ s ∷ t ∷ post) m ++ c) (take-append-drop n xs),
              ordered,
              len,
            )
      ]

-- `WriteBytes` to a buffer whose slices from the write slice on have room for all bytes, with nothing unread
-- behind the write slice and with no two slices that overlap, takes all of them and allocates nothing: the
-- unread bytes of the buffer are those from before and then the new ones, the count `len` grows by their number,
-- and the cursors of all slices stay in order. It does not fail or panic.
pub write_bytes_lem :
    (b : BufferManager) (make : ℕ → Command Bytes) (pre : List BufferSlice) (s : BufferSlice)
    (post : List BufferSlice) (xs : List ℕ) (l : LinkedBuffer) (m : Mem)
    → AllBytes xs
    → HasRoom (length xs) pre (s ∷ post)
    → (l' : LinkedBuffer) × (m' : Mem) × (write_bytes b make xs
          (at_slice l (pre ++ s ∷ post) (length pre))
          m
        ≡ ok (length xs, l') m')
      × (contents l'.slices m' ≡ contents (pre ++ s ∷ post) m ++ xs)
      × (l'.len ≡ l.len + length xs)
      × AllCursors l'.slices
unfolding write_bytes start_write Run Written
write_bytes_lem b make pre s post [] l m w h = (
  at_slice l (pre ++ s ∷ post) (length pre),
  m,
  refl,
  sym (append-nil (contents (pre ++ s ∷ post) m)),
  omega arith,
  AllCursors-append pre (s ∷ post) h.before h.cursors,
)
write_bytes_lem b make pre s post (x ∷ xs) l m w h =
    let (l', m', ran, same, ordered, len) =
      write_loop-run b make (length (pre ++ s ∷ post) + length (x ∷ xs) + 2) pre s post (x ∷ xs) l m
        w h (omega (arith, length-append pre (s ∷ post))) in
    (
      record l' { len = l'.len + length (x ∷ xs) },
      m',
      ground (arith, ran),
      same,
      omega (arith, len),
      ordered,
    )
