-- ===== src/BlockIo/Transfers.antt =====
-- How the loops of block_io.go move the bytes of a buffer.
use shmipc_go.Prelude.{
  ℕ, zero, suc, ◌+◌, ◌-◌, ◌≤◌, ◌<◌, ◌≡◌, ap, sym, ◌∙◌, min, List, [], ◌∷◌, ◌++◌, append_assoc,
  append-nil, take, take-nil, drop, length, length-drop, length-append, take-append-drop, drop-drop,
  take-append_self, drop-append_self, arith,
}
use shmipc_go.BlockIo.{
  Answer, moves, fails, Transfer, complete, read_from, block_read_full, write_from,
  block_write_full,
}

-- Every call moves a byte or more.
abbrev pub AllMove : List Answer → Type 0
AllMove [] = Unit {0}
AllMove (moves n ∷ answers) = (0 < n) × AllMove answers
AllMove (fails ∷ answers) = (1 ≤ 0) × AllMove answers

take-add : (m n : ℕ) (xs : List ℕ) → take m xs ++ take n (drop m xs) ≡ take (m + n) xs
take-add zero n xs = ap (λ k. take k xs) {x = n} {y = 0 + n} (omega arith)
take-add (suc m) n [] = take-nil n ∙ sym (take-nil (suc m + n))
take-add (suc m) n (x ∷ xs) =
    ap (λ r. x ∷ r) (take-add m n xs)
    ∙ ap (λ k. take k (x ∷ xs)) {x = suc (m + n)} {y = suc m + n} (omega arith)

read_from-complete :
    (answers : List Answer) (stream done : List ℕ) (missing : ℕ)
    → AllMove answers
    → missing ≤ length answers
    → missing ≤ length stream
    → read_from answers stream done missing
      ≡ complete (done ++ take missing stream, drop missing stream)
unfolding read_from
read_from-complete answers stream done zero a enough sent =
    ap (λ d. complete (d, stream)) (sym (append-nil done))
read_from-complete [] stream done (suc missing) a enough sent = absurd (omega arith)
read_from-complete (fails ∷ answers) stream done (suc missing) a enough sent = absurd (omega arith)
read_from-complete (moves most ∷ answers) stream done (suc missing) a enough sent =
    let n = min most (min (suc missing) (length stream)) in
    let ih =
      read_from-complete answers (drop n stream) (done ++ take n stream) (suc missing - n) a.1
        (omega arith) (omega (arith, length-drop n stream)) in
    let whole : n + (suc missing - n) ≡ suc missing = omega arith in
    let got =
      append_assoc done (take n stream) (take (suc missing - n) (drop n stream))
      ∙ ap (λ r. done ++ r) (take-add n (suc missing - n) stream ∙ ap (λ k. take k stream) whole) in
    let left = drop-drop (suc missing - n) n stream ∙ ap (λ k. drop k stream) whole in
    ground (arith, ih, got, left)

write_from-complete :
    (answers : List Answer) (sent payload : List ℕ)
    → AllMove answers
    → length payload ≤ length answers
    → write_from answers sent payload ≡ complete (sent ++ payload)
unfolding write_from
write_from-complete answers sent [] a enough = ap complete (sym (append-nil sent))
write_from-complete [] sent (x ∷ xs) a enough = absurd (omega arith)
write_from-complete (fails ∷ answers) sent (x ∷ xs) a enough = absurd (omega arith)
write_from-complete (moves most ∷ answers) sent (x ∷ xs) a enough =
    let n = min most (length (x ∷ xs)) in
    write_from-complete answers (sent ++ take n (x ∷ xs)) (drop n (x ∷ xs)) a.1
      (omega (arith, length-drop n (x ∷ xs)))
    ∙ ap complete (
        append_assoc sent (take n (x ∷ xs)) (drop n (x ∷ xs))
        ∙ ap (λ r. sent ++ r) (take-append-drop n (x ∷ xs)))

-- What one end writes with `blockWriteFull`, the other end reads with `blockReadFull`, however the
-- system splits the transfers, if each call moves a byte or more and there are as many answers as
-- bytes; both loops end, and what is sent later stays in the stream.
pub block_read_full-block_write_full :
    (payload later : List ℕ) (writes reads : List Answer)
    → AllMove writes
    → AllMove reads
    → length payload ≤ length writes
    → length payload ≤ length reads
    → (block_write_full writes payload ≡ complete payload)
      × (block_read_full reads (payload ++ later) (length payload) ≡ complete (payload, later))
block_read_full-block_write_full payload later writes reads w r enough enough' = (
  write_from-complete writes [] payload w enough,
  read_from-complete reads (payload ++ later) [] (length payload) r enough'
        (omega (arith, length-append payload later))
      ∙ ap {B = Transfer (List ℕ × List ℕ)} complete
          (λ i. (take-append_self payload later i, drop-append_self payload later i)),
)
