-- ===== src/Session/Progress.antt =====
-- Every operation of a session lets its streams advance.
use shmipc_go.Prelude.{
  ℕ, ◌≡◌, refl, ap, ◌∙◌, Bool, true, false, if◌then◌else◌, Option, some, none, List, [], ◌∷◌,
  get_elem?, arith,
}
use shmipc_go.Memory.{Mem}
use shmipc_go.Errors.{Error, session_shutdown}
use shmipc_go.Command.{Command, panic, and_then, pure}
use shmipc_go.Command.Ensures.{Ensures, ensures-step, ensures-if}
use shmipc_go.BufferManager.{BufferManager}
use shmipc_go.LinkedBuffer.{recycle}
use shmipc_go.Queue.{Queue, mark_working}
use shmipc_go.Events.{polling_event, stream_close_event}
use shmipc_go.Stream.{Stream, half_closed, is_open, clear_pending}
use shmipc_go.Session.{
  Session, Pointer, on_shutdown, on_stream_close, stream_at, put_stream, call_if, half_close,
  notify_all, shut_down, exit_err,
}
use shmipc_go.Session.Sending.{wake_up_peer, notify_peer, clean_stream, wait_for_send}
use shmipc_go.Session.Advance.{
  Advances, Advances-refl, Advances-trans, Advances-same, put_stream-Advances, put_stream-Leaves,
  rank,
}
use shmipc_go.Session.Registry.{on_stream_close-Advances}
use shmipc_go.Session.Calls.{call_if-on_remote_close-Advances, call-Advances}

-- A step that looks at a stream.
pub at_stream :
    {B : Type 0} (Q : B → Type 0) (s : Session) (p : Pointer) (m : Mem) (k : Stream → Command B)
    → ((st : Stream) → get_elem? s.objects p ≡ some st → Ensures (k st m) Q)
    → Ensures (and_then (stream_at s p m) k) Q
at_stream Q s p m k h = go (get_elem? s.objects p) refl
  where
    go :
        (o : Option Stream)
        → get_elem? s.objects p ≡ o
        → Ensures
            (and_then
              ((elim o as (λ _. Command Stream) [ none ↦ (λ _. panic) | some st ↦ pure st ]) m)
              k)
            Q
    go none e = tt
    go (some st) e = h st e

pub opened_rank : (st : Stream) → is_open st ≡ true → rank st.state ≡ 0
opened_rank st e = ground (arith, e)

pub half_close-Advances :
    (p : Pointer) (s : Session) (m : Mem) → Ensures (half_close p s m) (Advances s)
unfolding half_close
half_close-Advances p s m = at_stream (Advances s) s p m _ (λ st e.
    ensures-if (Advances s) (is_open st) _ _ m
      (λ was_open.
        call_if-on_remote_close-Advances p s
          (put_stream p (record st { state = half_closed; close_notify = true }) s)
          (put_stream-Leaves s p st (record st { state = half_closed; close_notify = true }) e
            (record {
              same_id = refl;
              forward = omega (arith, opened_rank st was_open);
              notified = λ _. refl;
            })
            (opened_rank st was_open) (omega arith))
          st.callback)
      (λ _. Advances-refl s))

-- What holds of both outcomes of a test, or of an option.
pub by_if :
    {A : Type 0} (P : A → Type 0) (c : Bool) (x y : A)
    → (c ≡ true → P x)
    → (c ≡ false → P y)
    → P (if c then x else y)
by_if P true x y h h' = h refl
by_if P false x y h h' = h' refl

pub by_option :
    {A B : Type 0} (P : B → Type 0) (o : Option A) (x : B) (f : A → B)
    → (o ≡ none → P x)
    → ((a : A) → o ≡ some a → P (f a))
    → P (elim o as (λ _. B) [ none ↦ x | some a ↦ f a ])
by_option P none x f h h' = h refl
by_option P (some a) x f h h' = h' a refl

module _ (s : Session) (p : Pointer) (st : Stream) (e : get_elem? s.objects p ≡ some st) where
  -- The same state and id, and no close notification lost.
  pub keep :
      (st' : Stream)
      → st'.id ≡ st.id
      → st'.state ≡ st.state
      → st'.close_notify ≡ st.close_notify
      → Advances s (put_stream p st' s)
  keep st' id state notify =
      put_stream-Advances s p st st' e (record {
        same_id = id;
        forward = omega (arith, ap rank state);
        notified = λ h. notify ∙ h;
      })

  pub notify : Advances s (put_stream p (record st { close_notify = true }) s)
  notify =
      put_stream-Advances s p st (record st { close_notify = true }) e
        (record { same_id = refl; forward = omega arith; notified = λ _. refl })

notify_all-Advances :
    (entries : List (ℕ × Pointer)) (s : Session) → Advances s (notify_all entries s)
unfolding notify_all
notify_all-Advances [] s = Advances-refl s
notify_all-Advances ((id, p) ∷ rest) s =
    by_option (Advances s) (get_elem? s.objects p) (notify_all rest s)
      (λ st. notify_all rest (put_stream p (record st { close_notify = true }) s))
      (λ _. notify_all-Advances rest s)
      (λ st e.
        (let s1 = put_stream p (record st { close_notify = true }) s in
          Advances-trans s s1 (notify_all rest s1) (notify s p st e) (notify_all-Advances rest s1)))

-- The end of a session.
pub shut_down-Advances : (s : Session) → Advances s (shut_down s)
unfolding shut_down
shut_down-Advances s =
    by_if (Advances s) s.shutdown s _ (λ _. Advances-refl s)
      (λ _.
        (let reason = elim s.shutdown_err as (λ _. Error) [
          | none ↦ session_shutdown
          | some e ↦ e
        ] in
          let s0 = record s { shutdown = true; shutdown_err = some reason } in
          let s1 = call_if s.has_listen_callback (on_shutdown reason) s0 in
          Advances-trans s s0 (notify_all s1.streams s1) (Advances-same s s0 refl refl refl) (
            Advances-trans s0 s1 (notify_all s1.streams s1) (told reason s0 s.has_listen_callback)
              (notify_all-Advances s1.streams s1))))
  where
    told : (reason : Error) (t : Session) (c : Bool) → Advances t (call_if c (on_shutdown reason) t)
    told reason t true = call-Advances t (on_shutdown reason) (λ _. refl)
    told reason t false = Advances-refl t

pub exit_err-Advances : (e : Error) (s : Session) → Advances s (exit_err e s)
unfolding exit_err
exit_err-Advances e s =
    let s1 = record s {
      shutdown_err = elim s.shutdown_err as (λ _. Option Error) [
        | none ↦ some e
        | some e' ↦ some e'
      ];
    } in
    Advances-trans s s1 (shut_down s1) (Advances-same s s1 refl refl refl) (shut_down-Advances s1)

-- The session behind a result.
unfoldable pub AdvancesPair : {A : Type 0} → Session → A × Session → Type 0
AdvancesPair s r = Advances s r.1

module _ (chain : ℕ) (b : BufferManager) (q : Queue)
    (answer : Session → List ℕ → Option Error) where
  pub wait_for_send-Advances :
      (frame : List ℕ) (s : Session) → AdvancesPair s (wait_for_send chain b q answer frame s)
  unfolding AdvancesPair
  wait_for_send-Advances frame s =
      by_option {B = Option Error × Session} (λ r. Advances s r.1) (answer s frame)
        (none, record s { written = frame ∷ s.written }) (λ e. (some e, s))
        (λ _. Advances-same s (record s { written = frame ∷ s.written }) refl refl refl)
        (λ _ _. Advances-refl s)

  pub wake_up_peer-Advances :
      (s : Session) (m : Mem) → Ensures (wake_up_peer chain b q answer s m) (AdvancesPair s)
  unfolding wake_up_peer AdvancesPair
  wake_up_peer-Advances s m =
      ensures-step (λ r. Advances s r.1) (mark_working q m) _
        (λ won m1.
          ensures-if (λ r. Advances s r.1) won _ _ m1
            (λ _.
              by_option (Advances s) (answer s (polling_event s.communication_version))
                (record s { written = polling_event s.communication_version ∷ s.written })
                (λ e. exit_err e s)
                (λ _.
                  Advances-same s
                    (record s { written = polling_event s.communication_version ∷ s.written }) refl
                    refl refl)
                (λ e _. exit_err-Advances e s))
            (λ _. Advances-refl s))

  pub notify_peer-Advances :
      (st : Stream) (s : Session) (m : Mem)
      → Ensures (notify_peer chain b q answer st s m) (AdvancesPair s)
  unfolding notify_peer AdvancesPair
  notify_peer-Advances st s m = ensures-step (λ r. Advances s r.1) _ _ (λ error m1. told error m1)
    where
      told :
          (error : Option Error) (m1 : Mem)
          → Ensures
              ((elim error as (λ _. Command (Option Error × Session)) [
                | none ↦ wake_up_peer chain b q answer s
                | some _ ↦ pure (
                    wait_for_send chain b q answer
                      (stream_close_event s.communication_version st.id)
                      s)
              ])
                m1)
              (λ r. Advances s r.1)
      told none m1 = wake_up_peer-Advances s m1
      told (some e) m1 = wait_for_send-Advances (stream_close_event s.communication_version st.id) s

  pub clean_stream-Advances :
      (p : Pointer) (s : Session) (m : Mem)
      → Ensures (clean_stream chain b q answer p s m) (Advances s)
  unfolding clean_stream on_stream_close
  clean_stream-Advances p s m = at_stream (Advances s) s p m _ (λ st e.
      ensures-step (Advances s) (clear_pending chain b st.pending m) _ (λ _ m1.
        ensures-step (Advances s) (recycle b st.recv_buf m1) _ (λ recv m2.
          ensures-step (Advances s) (recycle b st.send_buf m2) _ (λ send m3.
            (let s1 = on_stream_close st.id s in
              let st' = record st { pending = []; recv_buf = recv; send_buf = send } in
              Advances-trans s s1 (put_stream p st' s1) (on_stream_close-Advances st.id s)
                (keep s1 p st e st' refl refl refl))))))
