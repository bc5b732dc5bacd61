-- ===== src/LinkedBuffer/Texts.antt =====
-- The loop of `ReadString` in buffer.go, which passes over empty slices.
use native.Mathlib.Decide.{dec_le}
use shmipc_go.Prelude.{
  ℕ, zero, suc, ◌+◌, ◌-◌, ◌≤◌, ◌<◌, ◌≡◌, min, refl, sym, ap, ap₂, ◌∙◌, List, [], ◌∷◌, ◌++◌, take,
  drop, length, arith, append-nil, append_assoc, length-take,
}
use shmipc_go.Memory.{Mem}
use shmipc_go.Command.{Command, ok, ◌>>=◌}
use shmipc_go.BufferSlice.{BufferSlice, read_slice}
use shmipc_go.BufferSlice.Fifo.{unread}
use shmipc_go.BufferSlice.Window.{length-load_bytes}
use shmipc_go.BufferManager.{BufferManager}
use shmipc_go.LinkedBuffer.{LinkedBuffer, slice_size, front, set_front, read_next_slice}
use shmipc_go.LinkedBuffer.Reading.{read_text, read_bytes_of}
use shmipc_go.LinkedBuffer.Returns.{IsOwned-moved}
use shmipc_go.LinkedBuffer.Contents.{
  contents, total, AllCursors, IsReadable, take-contents_le, take-contents_ge, drop-contents_ge,
  total-cons, no_total, contents-empty,
}
use shmipc_go.LinkedBuffer.Front.{
  advance, exhaust, read_slice-enough, read_slice-less, window_of-unread, exhaust-unread,
  exhaust-IsCursor, read_next_slice-run,
}
use shmipc_go.LinkedBuffer.Slow.{Reads, IsReadable-advance, contents-advance}

module _ (b : BufferManager) where
  pub none_left :
      (rounds : ℕ) (l : LinkedBuffer) (size : ℕ) (done : List ℕ) (m : Mem)
      → 0 < rounds
      → size ≡ 0
      → read_text b rounds l size done m ≡ ok (done, l) m
  unfolding read_text
  none_left zero l size done m h e = absurd (omega arith)
  none_left (suc rounds) l zero done m h e = refl
  none_left (suc rounds) l (suc k) done m h e = absurd (omega arith)

  pub TextRun : ℕ → List BufferSlice → LinkedBuffer → ℕ → List ℕ → Mem → Type 0
  TextRun rounds ss l size done m =
      (l' : LinkedBuffer) × (ss' : List BufferSlice) × (m' : Mem) × (read_text b rounds
          (record l { slices = ss }) size done m
        ≡ ok (done ++ take size (contents ss m), record l' { slices = ss' }) m')
      × Reads b ss size l m l' ss' m'

  -- A round of the loop behind its skip of an empty slice.
  abbrev text_round : ℕ → LinkedBuffer → ℕ → List ℕ → Command (List ℕ × LinkedBuffer)
  text_round rounds l size done = do
    t ← front l
    (w, _, t') ← read_slice t size
    bytes ← read_bytes_of w
    read_text b rounds (set_front t' l) (size - length bytes) (done ++ bytes)

  module _ (rounds : ℕ) (l : LinkedBuffer) (s : BufferSlice) (rest : List BufferSlice) (k : ℕ)
      (done : List ℕ) (m : Mem) where
    no_skip :
        0 < slice_size s
        → read_text b (suc rounds) (record l { slices = s ∷ rest }) (suc k) done m
          ≡ text_round rounds (record l { slices = s ∷ rest }) (suc k) done m
    unfolding read_text
    no_skip h = ground arith

    skip_empty :
        (l' : LinkedBuffer) (m' : Mem)
        → slice_size s ≡ 0
        → read_next_slice b (record l { slices = s ∷ rest }) m ≡ ok l' m'
        → read_text b (suc rounds) (record l { slices = s ∷ rest }) (suc k) done m
          ≡ text_round rounds l' (suc k) done m'
    unfolding read_text
    skip_empty l' m' h ran = ground (arith, ran)

    module _ (v : IsReadable b (s ∷ rest) m) where
      enough_round :
          suc k ≤ slice_size s
          → text_round rounds (record l { slices = s ∷ rest }) (suc k) done m
            ≡ read_text b rounds
                (record l { slices = advance s (suc k) ∷ rest })
                (suc k - length (take (suc k) (unread s m)))
                (done ++ take (suc k) (unread s m))
                m
      unfolding AllCursors
      enough_round h = ground (
        arith,
        read_slice-enough s (suc k) m v.cursors.0 h,
        window_of-unread s (suc k) m v.cursors.0 h,
      )

      less_round :
          slice_size s < suc k
          → text_round rounds (record l { slices = s ∷ rest }) (suc k) done m
            ≡ read_text b rounds
                (record l { slices = exhaust s ∷ rest })
                (suc k - length (unread s m))
                (done ++ unread s m)
                m
      unfolding AllCursors
      less_round h = ground (arith, read_slice-less s (suc k) m v.cursors.0 h)

      IsReadable-exhaust : IsReadable b (exhaust s ∷ rest) m
      unfolding AllCursors
      IsReadable-exhaust = record {
        cursors = (exhaust-IsCursor s v.cursors.0, v.cursors.1);
        owned = IsOwned-moved s s.write_index b rest m v.owned;
      }

    contents-exhaust : contents (exhaust s ∷ rest) m ≡ contents rest m
    unfolding contents
    contents-exhaust = ap (λ c. c ++ contents rest m) (exhaust-unread s m)

    total-exhaust : total (exhaust s ∷ rest) ≡ total rest
    unfolding total
    total-exhaust = omega arith

  unfoldable pub RunsTo :
      Command (List ℕ × LinkedBuffer)
      → List BufferSlice
      → LinkedBuffer
      → ℕ
      → List ℕ
      → Mem
      → Mem
      → Type 0
  RunsTo run ss l size done m m0 =
      (l' : LinkedBuffer) × (ss' : List BufferSlice) × (m' : Mem) × (run m
        ≡ ok (done ++ take size (contents ss m0), record l' { slices = ss' }) m')
      × Reads b ss size l m0 l' ss' m'

  -- `rounds` is enough if the loop has one for each slice and, where the front has bytes, one more.
  unfoldable pub TextClaim : ℕ → Type 0
  TextClaim rounds =
      (s : BufferSlice) (rest : List BufferSlice) (l : LinkedBuffer) (size : ℕ) (done : List ℕ)
      (m : Mem)
      → IsReadable b (s ∷ rest) m
      → size ≤ total (s ∷ rest)
      → length rest + min 1 (slice_size s) < rounds
      → RunsTo (read_text b rounds (record l { slices = s ∷ rest }) size done) (s ∷ rest) l size
          done m m

  text_round-run :
      (rounds : ℕ)
      → TextClaim rounds
      → (s : BufferSlice) (rest : List BufferSlice) (l : LinkedBuffer) (k : ℕ) (done : List ℕ)
        (m : Mem)
      → IsReadable b (s ∷ rest) m
      → suc k ≤ total (s ∷ rest)
      → length rest < rounds
      → RunsTo
          (text_round rounds (record l { slices = s ∷ rest }) (suc k) done)
          (s ∷ rest)
          l
          (suc k)
          done
          m
          m
  unfolding RunsTo TextClaim
  text_round-run rounds again s rest l k done m v enough rounds_left =
      elim (dec_le (suc k) (slice_size s)) [
        | yes all ↦ (
          l,
          advance s (suc k) ∷ rest,
          m,
          enough_round rounds l s rest k done m v all
              ∙ none_left rounds (record l { slices = advance s (suc k) ∷ rest })
                  (suc k - length (take (suc k) (unread s m))) (done ++ take (suc k) (unread s m)) m
                  (omega arith) (omega (arith, length-take (suc k) (unread s m), counted))
              ∙ ap (λ d. ok (done ++ d, record l { slices = advance s (suc k) ∷ rest }) m)
                  (sym (take-contents_le s rest m (suc k) all)),
          (
            contents-advance b s rest (suc k) m v all,
            IsReadable-advance b s rest (suc k) m v all,
            refl,
          ),
        )
        | no less ↦
            let (l2, ss2, m2, ran, (dropped, readable, same)) =
              again (exhaust s) rest l (suc k - length (unread s m)) (done ++ unread s m) m
                (IsReadable-exhaust rounds l s rest k done m v)
                (omega (arith, total-exhaust rounds l s rest k done m, total-cons s rest, counted))
                (omega arith) in
            (
              l2,
              ss2,
              m2,
              less_round rounds l s rest k done m v (omega arith)
                  ∙ ran
                  ∙ ap (λ d. ok (d, record l2 { slices = ss2 }) m2)
                      (ap (λ c. (done ++ unread s m) ++ take (suc k - length (unread s m)) c)
                          (contents-exhaust rounds l s rest k done m)
                        ∙ append_assoc done (unread s m)
                            (take (suc k - length (unread s m)) (contents rest m))
                        ∙ ap (λ n. done ++ (unread s m ++ take n (contents rest m))) skipped
                        ∙ ap (λ d. done ++ d)
                            (sym (take-contents_ge s rest m (suc k) (omega arith)))),
              (
                dropped
                    ∙ ap₂ drop skipped (contents-exhaust rounds l s rest k done m)
                    ∙ sym (drop-contents_ge s rest m (suc k) (omega arith)),
                readable,
                same,
              ),
            )
      ]
    where
      counted : length (unread s m) ≡ slice_size s
      counted = length-load_bytes (slice_size s) (s.block.address + s.read_index) m

      skipped : suc k - length (unread s m) ≡ suc k - slice_size s
      skipped = omega (arith, counted)

  behind_empty :
      (rounds : ℕ)
      → TextClaim rounds
      → (s : BufferSlice) (rest : List BufferSlice) (l : LinkedBuffer) (k : ℕ) (done : List ℕ)
        (m : Mem)
      → IsReadable b (s ∷ rest) m
      → suc k ≤ total (s ∷ rest)
      → length rest < suc rounds
      → slice_size s ≡ 0
      → RunsTo
          (read_text b (suc rounds) (record l { slices = s ∷ rest }) (suc k) done)
          (s ∷ rest)
          l
          (suc k)
          done
          m
          m
  unfolding RunsTo
  behind_empty rounds again s [] l k done m v enough rounds_left empty =
      absurd (omega (arith, total-cons s [], no_total))
  behind_empty rounds again s (t ∷ rest) l k done m v enough rounds_left empty =
      let (l1, m1, ran, same, readable, len) =
        read_next_slice-run b l s (t ∷ rest) s.read_index m v in
      let (l2, ss2, m2, ran', (dropped, readable', len')) =
        text_round-run rounds again t rest l1 k done m1 readable
          (omega (arith, total-cons s (t ∷ rest))) (omega arith) in
      (
        l2,
        ss2,
        m2,
        skip_empty rounds l s (t ∷ rest) k done m (record l1 { slices = t ∷ rest }) m1 empty ran
            ∙ ran'
            ∙ ap (λ c. ok (done ++ take (suc k) c, record l2 { slices = ss2 }) m2)
                (same ∙ sym (contents-empty s (t ∷ rest) m empty)),
        (
          dropped ∙ ap (drop (suc k)) (same ∙ sym (contents-empty s (t ∷ rest) m empty)),
          readable',
          len' ∙ len,
        ),
      )

  pub read_text-run : (rounds : ℕ) → TextClaim rounds
  unfolding RunsTo TextClaim
  read_text-run zero s rest l size done m v enough rounds_left = absurd (omega arith)
  read_text-run (suc rounds) s rest l zero done m v enough rounds_left = (
    l,
    s ∷ rest,
    m,
    none_left (suc rounds) (record l { slices = s ∷ rest }) 0 done m (omega arith) refl
        ∙ ap (λ d. ok (d, record l { slices = s ∷ rest }) m) (sym (append-nil done)),
    (refl, v, refl),
  )
  read_text-run (suc rounds) s rest l (suc k) done m v enough rounds_left =
      elim (dec_le 1 (slice_size s)) [
        | yes some_left ↦
            let (l', ss', m', ran, reads) =
              text_round-run rounds (read_text-run rounds) s rest l k done m v enough
                (omega arith) in
            (l', ss', m', no_skip rounds l s rest k done m some_left ∙ ran, reads)
        | no empty ↦
            behind_empty rounds (read_text-run rounds) s rest l k done m v enough (omega arith)
              (omega arith)
      ]
