-- ===== src/Events/Writers/RoundTrip.antt =====
-- Events written to the connection and read by the handlers of protocol_manager.go.
use shmipc_go.Prelude.{
  ℕ, ◌≤◌, ◌<◌, ◌≡◌, refl, inl, inr, Option, none, some, Option-cases, List, [], ◌∷◌, ◌++◌, arith,
  length, length-append, drop-append_self,
}
use shmipc_go.Errors.{Error}
use shmipc_go.Protocol.{header_size}
use shmipc_go.Events.{Event, Handled, handled, handle_events}
use shmipc_go.Events.Loop.{shift, Run, short, fails, goes}
use shmipc_go.Events.Split.{Run-handle_events}
use shmipc_go.Events.Writers.{write, IsWire, parse-write, length-write}

abbrev pub write_all : ℕ → List Event → List ℕ
write_all ver [] = []
write_all ver (e ∷ es) = write ver e ++ write_all ver es

abbrev pub AllWire : List Event → Type 0
AllWire [] = Unit {0}
AllWire (e ∷ es) = IsWire e × AllWire es

module _ {S : Type 0} (on : S → Event → S × Option Error) where
  -- The session takes the events in order, up to the first that it answers with an error.
  abbrev pub deliver : ℕ → S → List Event → Handled S
  deliver ver s [] = handled s 0 none
  deliver ver s (e ∷ es) = elim (on s e).1 [
    | some x ↦ handled (on s e).0 (length (write ver e)) (some x)
    | none ↦ shift (length (write ver e)) (deliver ver (on s e).0 es)
  ]

  deliver-Run :
      (ver : ℕ) (s : S) (es : List Event)
      → 0 < ver
      → AllWire es
      → Run on s (write_all ver es) (deliver ver s es)
  deliver-Run ver s [] v w = short (omega arith) refl
  deliver-Run ver s (e ∷ es) v w =
      let long : header_size ≤ length (write ver e ++ write_all ver es) =
        omega (arith, length-write ver e, length-append (write ver e) (write_all ver es)) in
      let parsed = parse-write ver e (write_all ver es) v w.0 in
      elim (Option-cases (on s e).1) [
        | inr (x, q) ↦ fails (length (write ver e)) e x long parsed q (rw (q, deliver))
        | inl q ↦
            goes {r' = deliver ver (on s e).0 es} (length (write ver e)) e long parsed q
              (rw (drop-append_self (write ver e) (write_all ver es))
                (deliver-Run ver (on s e).0 es v w.1))
              (rw (q, deliver))
      ]

  -- Events that fit their fields, written one behind the other at any version but 0, are taken by
  -- `handleEvents` one by one and unchanged, each with exactly its bytes, until the session answers
  -- one with an error.
  pub handle_events-write_all :
      (ver : ℕ) (s : S) (es : List Event)
      → 0 < ver
      → AllWire es
      → handle_events on s (write_all ver es) ≡ deliver ver s es
  handle_events-write_all ver s es v w = Run-handle_events on (deliver-Run ver s es v w)
