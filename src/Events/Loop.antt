-- ===== src/Events/Loop.antt =====
-- Runs of the loop in `handleEvents` of session.go.
use native.Mathlib.Decide.{dec_lt}
use shmipc_go.Prelude.{
  ℕ, zero, suc, ◌+◌, ◌≤◌, ◌<◌, ◌≡◌, refl, ap, sym, ◌∙◌, Option, none, some, List, [], arith, drop,
  length, length-drop, lt→ltb, Option-cases, ◌⊎◌, inl, inr,
}
use shmipc_go.Errors.{Error, invalid_msg_type}
use shmipc_go.Protocol.{header_size}
use shmipc_go.Events.{
  Event, Frame, event, stop, unhandled, panic, parse, Handled, handled, crashed, out_of_fuel,
  handle_from,
}
use shmipc_go.Events.Frames.{parse-Settled}

-- `k` more bytes were consumed before.
abbrev pub shift : {S : Type 0} → ℕ → Handled S → Handled S
shift k (handled s n e) = handled s (k + n) e
shift k crashed = crashed
shift k out_of_fuel = out_of_fuel

pub shift_zero : {S : Type 0} (r : Handled S) → shift 0 r ≡ r
shift_zero (handled s n e) = ap (λ k. handled s k e) {x = 0 + n} {y = n} (omega arith)
shift_zero crashed = refl
shift_zero out_of_fuel = refl

pub shift-shift : {S : Type 0} (a b : ℕ) (r : Handled S) → shift a (shift b r) ≡ shift (a + b) r
shift-shift a b (handled s n e) =
    ap (λ k. handled s k e) {x = a + (b + n)} {y = a + b + n} (omega arith)
shift-shift a b crashed = refl
shift-shift a b out_of_fuel = refl

module _ {S : Type 0} (on : S → Event → S × Option Error) where
  handle_from-short :
      (f : ℕ) (s : S) (rest : List ℕ) (c : ℕ)
      → length rest < header_size
      → handle_from on (suc f) s rest c ≡ handled s c none
  unfolding handle_from
  handle_from-short f s rest c h = rw (lt→ltb (length rest) header_size h)

  -- What a frame does when there is a header.
  handle_from-unhandled :
      (f : ℕ) (s : S) (rest : List ℕ) (c : ℕ)
      → header_size ≤ length rest
      → parse rest ≡ unhandled
      → handle_from on (suc f) s rest c ≡ handled s (c + header_size) (some invalid_msg_type)
  unfolding handle_from
  handle_from-unhandled f s rest c h e = ground arith

  handle_from-stop :
      (f : ℕ) (s : S) (rest : List ℕ) (c : ℕ)
      → header_size ≤ length rest
      → parse rest ≡ stop
      → handle_from on (suc f) s rest c ≡ handled s c none
  unfolding handle_from
  handle_from-stop f s rest c h e = ground arith

  handle_from-panic :
      (f : ℕ) (s : S) (rest : List ℕ) (c : ℕ)
      → header_size ≤ length rest
      → parse rest ≡ panic
      → handle_from on (suc f) s rest c ≡ crashed
  unfolding handle_from
  handle_from-panic f s rest c h e = ground arith

  handle_from-error :
      (f : ℕ) (s : S) (rest : List ℕ) (c n : ℕ) (e : Event) (x : Error)
      → header_size ≤ length rest
      → parse rest ≡ event n e
      → (on s e).1 ≡ some x
      → handle_from on (suc f) s rest c ≡ handled (on s e).0 (c + n) (some x)
  unfolding handle_from
  handle_from-error f s rest c n e x h p q = ground arith

  handle_from-event :
      (f : ℕ) (s : S) (rest : List ℕ) (c n : ℕ) (e : Event)
      → header_size ≤ length rest
      → parse rest ≡ event n e
      → (on s e).1 ≡ none
      → handle_from on (suc f) s rest c ≡ handle_from on f (on s e).0 (drop n rest) (c + n)
  unfolding handle_from
  handle_from-event f s rest c n e h p q = ground arith

  -- The rounds of the loop as a relation, with the bytes counted from its start.
  pub data Run : S → List ℕ → Handled S → Type 0 where
    short :
        {s : S} {rest : List ℕ} {r : Handled S}
        → length rest < header_size
        → r ≡ handled s 0 none
        → Run s rest r
    rejects :
        {s : S} {rest : List ℕ} {r : Handled S}
        → header_size ≤ length rest
        → parse rest ≡ unhandled
        → r ≡ handled s header_size (some invalid_msg_type)
        → Run s rest r
    stops :
        {s : S} {rest : List ℕ} {r : Handled S}
        → header_size ≤ length rest
        → parse rest ≡ stop
        → r ≡ handled s 0 none
        → Run s rest r
    panics :
        {s : S} {rest : List ℕ} {r : Handled S}
        → header_size ≤ length rest
        → parse rest ≡ panic
        → r ≡ crashed
        → Run s rest r
    fails :
        {s : S} {rest : List ℕ} {r : Handled S} (n : ℕ) (e : Event) (x : Error)
        → header_size ≤ length rest
        → parse rest ≡ event n e
        → (on s e).1 ≡ some x
        → r ≡ handled (on s e).0 n (some x)
        → Run s rest r
    goes :
        {s : S} {rest : List ℕ} {r r' : Handled S} (n : ℕ) (e : Event)
        → header_size ≤ length rest
        → parse rest ≡ event n e
        → (on s e).1 ≡ none
        → Run (on s e).0 (drop n rest) r'
        → r ≡ shift n r'
        → Run s rest r

  -- The loop computes what the relation says, for any fuel above the number of bytes.
  pub Run-sound :
      (f : ℕ) {s : S} {rest : List ℕ} {r : Handled S} (c : ℕ)
      → Run s rest r
      → length rest < f
      → handle_from on f s rest c ≡ shift c r
  Run-sound zero c run lt = absurd (omega arith)
  Run-sound (suc f) {s} {rest} c (short h eq) lt =
      rw (eq, handle_from-short f s rest c h)
        (ap (λ k. handled s k none) {x = c} {y = c + 0} (omega arith))
  Run-sound (suc f) {s} {rest} c (rejects h p eq) lt = rw (eq, handle_from-unhandled f s rest c h p)
  Run-sound (suc f) {s} {rest} c (stops h p eq) lt =
      rw (eq, handle_from-stop f s rest c h p)
        (ap (λ k. handled s k none) {x = c} {y = c + 0} (omega arith))
  Run-sound (suc f) {s} {rest} c (panics h p eq) lt = rw (eq, handle_from-panic f s rest c h p)
  Run-sound (suc f) {s} {rest} c (fails n e x h p q eq) lt =
      rw (eq, handle_from-error f s rest c n e x h p q)
  Run-sound (suc f) {s} {rest} c (goes {r'} n e h p q run eq) lt =
      rw (eq, handle_from-event f s rest c n e h p q)
        (Run-sound f (c + n) run
            (omega (arith, length-drop n rest, (parse-Settled [] rest h).taken n e p))
          ∙ sym (shift-shift c n r'))

  Option-result : (s : S) (e : Event) → ((on s e).1 ≡ none) ⊎ ((x : Error) × ((on s e).1 ≡ some x))
  Option-result s e = Option-cases (on s e).1

  Frame-cases :
      (fr : Frame)
      → (fr ≡ unhandled) ⊎ (fr ≡ stop) ⊎ (fr ≡ panic) ⊎ ((n : ℕ) × (e : Event) × (fr ≡ event n e))
  Frame-cases unhandled = inl refl
  Frame-cases stop = inr (inl refl)
  Frame-cases panic = inr (inr (inl refl))
  Frame-cases (event n e) = inr (inr (inr (n, e, refl)))

  -- Every run of the loop ends.
  pub Run-total : (f : ℕ) (s : S) (rest : List ℕ) → length rest < f → (r : Handled S) × Run s rest r
  Run-total zero s rest lt = absurd (omega arith)
  Run-total (suc f) s rest lt = elim (dec_lt (length rest) header_size) [
    | yes h ↦ (_, short h refl)
    | no h ↦ elim (Frame-cases (parse rest)) [
      | inl p ↦ (_, rejects (omega arith) p refl)
      | inr (inl p) ↦ (_, stops (omega arith) p refl)
      | inr (inr (inl p)) ↦ (_, panics (omega arith) p refl)
      | inr (inr (inr (n, e, p))) ↦ elim (Option-result s e) [
        | inr (x, q) ↦ (_, fails n e x (omega arith) p q refl)
        | inl q ↦
            let (r, run) = Run-total f (on s e).0 (drop n rest) (
              omega
                (arith, length-drop n rest, (parse-Settled [] rest (omega arith)).taken n e p)) in
            (_, goes n e (omega arith) p q run refl)
      ]
    ]
  ]
