-- ===== src/Events/Split.antt =====
-- `handleEvents` of session.go on bytes that arrive in several reads.
use shmipc_go.Prelude.{
  ℕ, suc, ◌+◌, ◌≤◌, ◌<◌, ◌≡◌, ◌≢◌, refl, sym, ◌∙◌, Option, none, List, [], ◌++◌, arith, take, drop,
  length, length-append, length-drop, drop-append_le, drop-drop,
}
use shmipc_go.Errors.{Error}
use shmipc_go.Protocol.{header_size, check_event_valid, msg_type, event_length}
use shmipc_go.Protocol.EventType.{fallback_data}
use shmipc_go.Events.{
  Event, event, panic, parse, frame, fallback_frame, Handled, handled, crashed, out_of_fuel,
  handle_events,
}
use shmipc_go.Events.Frames.{parse-Settled}
use shmipc_go.Events.Loop.{
  shift, shift_zero, shift-shift, Run, short, rejects, stops, panics, fails, goes, Run-sound,
  Run-total,
}

shift-eq-handled :
    {S : Type 0} (k : ℕ) (r : Handled S) {s : S} {n : ℕ} {x : Option Error}
    → handled s n x ≡ shift k r
    → (n' : ℕ) × (r ≡ handled s n' x) × (n ≡ k + n')
shift-eq-handled k (handled s' n' x') e = (n', cc, cc)
shift-eq-handled k crashed e = cc
shift-eq-handled k out_of_fuel e = cc

parse-short_fallback :
    (buf : List ℕ)
    → header_size ≤ length buf
    → check_event_valid (take header_size buf) ≡ none
    → msg_type (take header_size buf) ≡ fallback_data
    → event_length (take header_size buf) < 16
    → event_length (take header_size buf) ≤ length buf
    → parse buf ≡ panic
unfolding parse frame fallback_frame
parse-short_fallback buf h valid type short_length there = ground (arith, length-drop 8 buf)

shift-ne : {S : Type 0} (k : ℕ) (r : Handled S) → r ≢ out_of_fuel → shift k r ≢ out_of_fuel
shift-ne k (handled s' n' x') ne e = cc
shift-ne k crashed ne e = cc
shift-ne k out_of_fuel ne e = ne refl

module _ {S : Type 0} (on : S → Event → S × Option Error) where
  Run-append :
      {s s' : S} {xs : List ℕ} {n : ℕ} {r0 r : Handled S} (ys : List ℕ)
      → Run on s xs r0
      → r0 ≡ handled s' n none
      → Run on s' (drop n xs ++ ys) r
      → Run on s (xs ++ ys) (shift n r)
  Run-append {s} {s'} {xs} {n} {r} ys (short h eq) e again =
      let n0 : n ≡ 0 = cc in let same : s' ≡ s = cc in rw (n0, shift_zero) (rw (n0, same) at again)
  Run-append {s} {s'} {xs} {n} {r} ys (stops h p eq) e again =
      let n0 : n ≡ 0 = cc in let same : s' ≡ s = cc in rw (n0, shift_zero) (rw (n0, same) at again)
  Run-append ys (rejects h p eq) e again = cc
  Run-append ys (panics h p eq) e again = cc
  Run-append ys (fails k ev x h p q eq) e again = cc
  Run-append {s} {s'} {xs} {n} {r} ys (goes {r'} k ev h p q run eq) e again =
      let (n', er, en) = shift-eq-handled k r' (sym e ∙ eq) in
      let settled = parse-Settled ys xs h in
      let taken = settled.taken k ev p in
      let cut : drop k (xs ++ ys) ≡ drop k xs ++ ys = drop-append_le k xs ys (omega arith) in
      let same : parse (xs ++ ys) ≡ event k ev = settled.same (cc) ∙ p in
      let again' : Run on s' (drop n' (drop k xs) ++ ys) r = rw (drop-drop n' k xs, ← en) again in
      goes {r' = shift n' r} k ev (omega (arith, length-append xs ys)) same q
        (rw cut (Run-append ys run er again')) (rw en (sym (shift-shift k n' r)))

  -- A run ends well before the end of its bytes, and never lacks fuel.
  Run-bounds :
      {s s' : S} {xs : List ℕ} {n : ℕ} {r : Handled S} {x : Option Error}
      → Run on s xs r
      → r ≡ handled s' n x
      → n ≤ length xs
  Run-bounds {n} (short h eq) e = let n0 : n ≡ 0 = cc in omega arith
  Run-bounds {n} (stops h p eq) e = let n0 : n ≡ 0 = cc in omega arith
  Run-bounds {n} (rejects h p eq) e = let n0 : n ≡ 8 = cc in omega arith
  Run-bounds (panics h p eq) e = cc
  Run-bounds {xs} {n} (fails k ev x h p q eq) e =
      let nk : n ≡ k = cc in omega (arith, (parse-Settled [] xs h).taken k ev p)
  Run-bounds {xs} (goes {r'} k ev h p q run eq) e =
      let (n', er, en) = shift-eq-handled k r' (sym e ∙ eq) in
      omega (arith, Run-bounds run er, (parse-Settled [] xs h).taken k ev p, length-drop k xs)

  Run-ends : {s : S} {xs : List ℕ} {r : Handled S} → Run on s xs r → r ≢ out_of_fuel
  Run-ends (short h eq) e = cc
  Run-ends (stops h p eq) e = cc
  Run-ends (rejects h p eq) e = cc
  Run-ends (panics h p eq) e = cc
  Run-ends (fails k ev x h p q eq) e = cc
  Run-ends (goes {r'} k ev h p q run eq) e = shift-ne k r' (Run-ends run) (sym eq ∙ e)

  -- What `handleEvents` computes is a run.
  handle_events-Run : (s : S) (buf : List ℕ) → Run on s buf (handle_events on s buf)
  unfolding handle_events
  handle_events-Run s buf =
      let (r, run) = Run-total on (suc (length buf)) s buf (omega arith) in
      rw (Run-sound on (suc (length buf)) 0 run (omega arith), shift_zero) run

  pub Run-handle_events :
      {s : S} {buf : List ℕ} {r : Handled S} → Run on s buf r → handle_events on s buf ≡ r
  unfolding handle_events
  Run-handle_events {buf} {r} run =
      Run-sound on (suc (length buf)) 0 run (omega arith) ∙ shift_zero r

  -- If a first read ends without an error and leaves `drop n xs` for the next, then the next read,
  -- of those bytes and of more, ends as one read of all the bytes does, less the `n` bytes.
  pub handle_events-append :
      (s s' : S) (xs ys : List ℕ) (n : ℕ)
      → handle_events on s xs ≡ handled s' n none
      → handle_events on s (xs ++ ys) ≡ shift n (handle_events on s' (drop n xs ++ ys))
  handle_events-append s s' xs ys n e =
      Run-handle_events
        (Run-append ys (handle_events-Run s xs) e (handle_events-Run s' (drop n xs ++ ys)))

  -- The loop ends on every buffer, and what it says it consumed is within the buffer.
  pub handle_events-ends :
      (s : S) (buf : List ℕ)
      → (handle_events on s buf ≢ out_of_fuel)
        × ((s' : S) (n : ℕ) (x : Option Error)
            → handle_events on s buf ≡ handled s' n x
            → n ≤ length buf)
  handle_events-ends s buf =
      (Run-ends (handle_events-Run s buf), λ s' n x e. Run-bounds (handle_events-Run s buf) e)

  -- A fallback event whose header announces fewer than 16 bytes, the length of its own fixed part,
  -- makes `handleEvents` panic as soon as the announced bytes are there.
  pub handle_events-short_fallback :
      (s : S) (buf : List ℕ)
      → header_size ≤ length buf
      → check_event_valid (take header_size buf) ≡ none
      → msg_type (take header_size buf) ≡ fallback_data
      → event_length (take header_size buf) < 16
      → event_length (take header_size buf) ≤ length buf
      → handle_events on s buf ≡ crashed
  handle_events-short_fallback s buf h valid type short_length there =
      Run-handle_events (panics h (parse-short_fallback buf h valid type short_length there) refl)
