-- ===== src/LinkedBuffer/Slow.antt =====
-- The loop of `ReadBytes` of buffer.go over several slices.
use native.Mathlib.Decide.{dec_le}
use shmipc_go.Prelude.{
  ℕ, zero, suc, ◌+◌, ◌-◌, ◌≤◌, ◌<◌, ◌≡◌, refl, sym, ap, ap₂, ◌∙◌, List, [], ◌∷◌, ◌++◌, take, drop,
  length, arith, append-nil, append_assoc, length-take,
}
use shmipc_go.Memory.{Mem}
use shmipc_go.Command.{ok}
use shmipc_go.BufferSlice.{BufferSlice}
use shmipc_go.BufferSlice.Fifo.{unread}
use shmipc_go.BufferSlice.Window.{length-load_bytes}
use shmipc_go.BufferManager.{BufferManager}
use shmipc_go.LinkedBuffer.{LinkedBuffer, slice_size, read_next_slice}
use shmipc_go.LinkedBuffer.Reading.{read_slow}
use shmipc_go.LinkedBuffer.Returns.{IsOwned-moved}
use shmipc_go.LinkedBuffer.Contents.{
  contents, total, AllCursors, IsReadable, take-contents_le, drop-contents_le, take-contents_ge,
  drop-contents_ge,
}
use shmipc_go.LinkedBuffer.Front.{
  advance, exhaust, read_slice-enough, read_slice-less, window_of-unread, advance-unread,
  advance-IsCursor, read_next_slice-run,
}

module _ (b : BufferManager) where
  none_left :
      (rounds : ℕ) (l : LinkedBuffer) (size : ℕ) (done : List ℕ) (m : Mem)
      → 0 < rounds
      → size ≡ 0
      → read_slow b rounds l size done m ≡ ok (done, l) m
  unfolding read_slow
  none_left zero l size done m h e = absurd (omega arith)
  none_left (suc rounds) l zero done m h e = refl
  none_left (suc rounds) l (suc k) done m h e = absurd (omega arith)

  module _ (rounds : ℕ) (l : LinkedBuffer) (s : BufferSlice) (rest : List BufferSlice) (k : ℕ)
      (done : List ℕ) (m : Mem) (v : IsReadable b (s ∷ rest) m) where
    enough_step :
        suc k ≤ slice_size s
        → read_slow b (suc rounds) (record l { slices = s ∷ rest }) (suc k) done m
          ≡ read_slow b rounds
              (record l { slices = advance s (suc k) ∷ rest })
              (suc k - length (take (suc k) (unread s m)))
              (done ++ take (suc k) (unread s m))
              m
    unfolding read_slow AllCursors
    enough_step h = ground (
      arith,
      read_slice-enough s (suc k) m v.cursors.0 h,
      window_of-unread s (suc k) m v.cursors.0 h,
      length-load_bytes (s.read_index + suc k - s.read_index) (s.block.address + s.read_index) m,
    )

    less_step :
        (l' : LinkedBuffer) (m' : Mem)
        → slice_size s < suc k
        → read_next_slice b (record l { slices = exhaust s ∷ rest }) m ≡ ok l' m'
        → read_slow b (suc rounds) (record l { slices = s ∷ rest }) (suc k) done m
          ≡ read_slow b rounds l' (suc k - length (unread s m)) (done ++ unread s m) m'
    unfolding read_slow AllCursors
    less_step l' m' h ran = ground (
      arith,
      read_slice-less s (suc k) m v.cursors.0 h,
      length-load_bytes (slice_size s) (s.block.address + s.read_index) m,
      ran,
    )

  -- What a reading loop has done: it returned the next `size` bytes behind `done`, and left the others.
  abbrev pub Reads :
      List BufferSlice → ℕ → LinkedBuffer → Mem → LinkedBuffer → List BufferSlice → Mem → Type 0
  Reads ss size l m l' ss' m' =
      (contents ss' m' ≡ drop size (contents ss m)) × IsReadable b ss' m' × (l'.len ≡ l.len)

  module _ (s : BufferSlice) (rest : List BufferSlice) (size : ℕ) (m : Mem)
      (v : IsReadable b (s ∷ rest) m) where
    pub IsReadable-advance : size ≤ slice_size s → IsReadable b (advance s size ∷ rest) m
    unfolding AllCursors
    IsReadable-advance h = record {
      cursors = (advance-IsCursor s size m v.cursors.0 h, v.cursors.1);
      owned = IsOwned-moved s (s.read_index + size) b rest m v.owned;
    }

    pub contents-advance :
        size ≤ slice_size s → contents (advance s size ∷ rest) m ≡ drop size (contents (s ∷ rest) m)
    unfolding contents AllCursors
    contents-advance h =
        ap (λ c. c ++ contents rest m) (advance-unread s size m v.cursors.0 h)
        ∙ sym (drop-contents_le s rest m size h)

  pub read_slow-run :
      (rounds : ℕ) (ss : List BufferSlice) (l : LinkedBuffer) (size : ℕ) (done : List ℕ) (m : Mem)
      → IsReadable b ss m
      → size ≤ total ss
      → length ss < rounds
      → (l' : LinkedBuffer) × (ss' : List BufferSlice) × (m' : Mem) × (read_slow b rounds
            (record l { slices = ss })
            size
            done
            m
          ≡ ok (done ++ take size (contents ss m), record l' { slices = ss' }) m')
        × Reads ss size l m l' ss' m'
  unfolding total
  read_slow-run zero ss l size done m v enough rounds_left = absurd (omega arith)
  read_slow-run (suc rounds) ss l zero done m v enough rounds_left = (
    l,
    ss,
    m,
    none_left (suc rounds) (record l { slices = ss }) 0 done m (omega arith) refl
        ∙ ap (λ d. ok (d, record l { slices = ss }) m) (sym (append-nil done)),
    (refl, v, refl),
  )
  read_slow-run (suc rounds) [] l (suc k) done m v enough rounds_left = absurd (omega arith)
  read_slow-run (suc rounds) (s ∷ rest) l (suc k) done m v enough rounds_left =
      elim (dec_le (suc k) (slice_size s)) [
        | yes all ↦ (
          l,
          advance s (suc k) ∷ rest,
          m,
          enough_step rounds l s rest k done m v all
              ∙ none_left rounds (record l { slices = advance s (suc k) ∷ rest })
                  (suc k - length (take (suc k) (unread s m))) (done ++ take (suc k) (unread s m)) m
                  (omega arith)
                  (omega (
                    arith,
                    length-take (suc k) (unread s m),
                    length-load_bytes (slice_size s) (s.block.address + s.read_index) m,
                  ))
              ∙ ap (λ d. ok (done ++ d, record l { slices = advance s (suc k) ∷ rest }) m)
                  (sym (take-contents_le s rest m (suc k) all)),
          (
            contents-advance s rest (suc k) m v all,
            IsReadable-advance s rest (suc k) m v all,
            refl,
          ),
        )
        | no less ↦
            let (l1, m1, ran, same, left, len) = read_next_slice-run b l s rest s.write_index m v in
            let counted = length-load_bytes (slice_size s) (s.block.address + s.read_index) m in
            let (l2, ss2, m2, rest_ran, (dropped, readable, len')) =
              read_slow-run rounds rest l1 (suc k - length (unread s m)) (done ++ unread s m) m1
                left (omega (arith, counted)) (omega arith) in
            let skipped : suc k - length (unread s m) ≡ suc k - slice_size s =
              omega (arith, counted) in
            (
              l2,
              ss2,
              m2,
              less_step rounds l s rest k done m v (record l1 { slices = rest }) m1 (omega arith)
                    ran
                  ∙ rest_ran
                  ∙ ap (λ d. ok (d, record l2 { slices = ss2 }) m2)
                      (ap (λ c. (done ++ unread s m) ++ take (suc k - length (unread s m)) c) same
                        ∙ append_assoc done (unread s m)
                            (take (suc k - length (unread s m)) (contents rest m))
                        ∙ ap (λ n. done ++ (unread s m ++ take n (contents rest m))) skipped
                        ∙ ap (λ d. done ++ d)
                            (sym (take-contents_ge s rest m (suc k) (omega arith)))),
              (
                dropped
                    ∙ ap₂ drop skipped same
                    ∙ sym (drop-contents_ge s rest m (suc k) (omega arith)),
                readable,
                len' ∙ len,
              ),
            )
      ]
