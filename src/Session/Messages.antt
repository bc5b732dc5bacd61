-- ===== src/Session/Messages.antt =====
-- What comes from the peer and from the user's callback lets the streams of a session advance.
use shmipc_go.Prelude.{
  ℕ, zero, suc, ◌+◌, ◌%◌, ◌^◌, refl, true, not, ◌&&◌, if◌then◌else◌, Option, some, none, [], ◌∷◌,
  ◌++◌, length, ◌⊎◌, inl, inr,
}
use shmipc_go.Memory.{Mem}
use shmipc_go.Errors.{Error, streams_exhausted}
use shmipc_go.Command.{Command, Outcome, ok, err, panic, pure, ◌>>=◌, ◌>>◌}
use shmipc_go.Command.Ensures.{Ensures, ensures-step, ensures-then, ensures-if}
use shmipc_go.BufferSlice.{BufferSlice}
use shmipc_go.BufferManager.{BufferManager, read_buffer_slice, recycle_buffers}
use shmipc_go.LinkedBuffer.{recycle}
use shmipc_go.Queue.{Queue, Element, pop, mark_not_working}
use shmipc_go.Stream.{StreamState, is_opened, is_closed, Wrapper, in_shm, clear_pending}
use shmipc_go.Session.{
  Session, Pointer, add_stream, put_stream, open_stream, get_stream, lookup, half_close, call,
  on_new_stream,
}
use shmipc_go.Session.Receiving.{
  state_of, fill_data, handle_stream_message, on_element, handle_polling, handle_stream_close,
}
use shmipc_go.Session.Advance.{Advances, Advances-refl, Advances-trans, Advances-same}
use shmipc_go.Session.Registry.{add_stream-Advances}
use shmipc_go.Session.Calls.{call-Advances}
use shmipc_go.Session.Progress.{at_stream, by_if, keep, half_close-Advances, AdvancesPair}
use shmipc_go.Session.Closing.{behind}

pub open_stream-Advances : (s : Session) → Advances s ((open_stream s).1)
unfolding open_stream AdvancesPair
open_stream-Advances s =
    by_if (AdvancesPair s) s.shutdown _ _ (λ _. Advances-refl s)
      (λ _.
        by_if (AdvancesPair s) s.unhealthy _ _ (λ _. Advances-refl s)
          (λ _. (let id = (s.next_stream_id + 1) % 2 ^ 32 in go id (lookup id s.streams))))
  where
    go :
        (id : ℕ) (o : Option Pointer)
        → AdvancesPair s (elim o as (λ _. (Option Error ⊎ Pointer) × Session) [
          | some _ ↦ (inl (some streams_exhausted), record s { next_stream_id = id })
          | none ↦ (let (p, s') = add_stream id s in (inr p, record s' { next_stream_id = id }))
        ])
    go id (some p) = Advances-same s (record s { next_stream_id = id }) refl refl refl
    go id none =
        let s' = (add_stream id s).1 in
        Advances-trans s s' (record s' { next_stream_id = id }) (add_stream-Advances id s)
          (Advances-same s' (record s' { next_stream_id = id }) refl refl refl)

pub get_stream-Advances :
    (id : ℕ) (state : StreamState) (s : Session) → Advances s ((get_stream id state s).1)
unfolding get_stream AdvancesPair
get_stream-Advances id state s = go (lookup id s.streams)
  where
    added : Session
    added = (add_stream id s).1

    go :
        (o : Option Pointer)
        → AdvancesPair s (elim o as (λ _. Option Pointer × Session) [
          | some p ↦ (some p, s)
          | none ↦
              if not s.is_client && is_opened state
              then (let (p, s') = add_stream id s in
                  if s.has_listen_callback
                  then (some p, call (on_new_stream p) s')
                  else (some p, record s' { accepted = p ∷ s'.accepted }))
              else (none, s)
        ])
    go (some p) = Advances-refl s
    go none =
        by_if (AdvancesPair s) (not s.is_client && is_opened state) _ _
          (λ _.
            by_if (AdvancesPair s) s.has_listen_callback _ _
              (λ _.
                Advances-trans s added (call (on_new_stream (length s.objects)) added)
                  (add_stream-Advances id s)
                  (call-Advances added (on_new_stream (length s.objects)) (λ _. refl)))
              (λ _.
                Advances-trans s added (record added { accepted = length s.objects ∷ s.accepted })
                  (add_stream-Advances id s)
                  (Advances-same added (record added { accepted = length s.objects ∷ s.accepted })
                    refl refl refl)))
          (λ _. Advances-refl s)

module _ (chain : ℕ) (b : BufferManager) where
  pub fill_data-Advances :
      (p : Pointer) (w : Wrapper) (s : Session) (m : Mem)
      → Ensures (fill_data chain b p w s m) (Advances s)
  unfolding fill_data
  fill_data-Advances p w s m = at_stream (Advances s) s p m _ (λ st e.
      ensures-if (Advances s) (is_closed st.state) _ _ m
        (λ _. ensures-step (Advances s) (clear_pending chain b (st.pending ++ w ∷ []) m) _ (λ _ m1.
          ensures-step (Advances s) (recycle b st.recv_buf m1) _ (λ recv m2.
            keep s p st e (record st { pending = []; recv_buf = recv }) refl refl refl)))
        (λ _.
          (let st2 = record st { pending = st.pending ++ w ∷ []; recv_notify = true } in
            ensures-if (Advances s) (st.callback && not st.callback_in_process) _ _ m
              (λ _.
                (let st3 = record st2 { callback_in_process = true } in
                  let s3 = put_stream p st3 s in
                  Advances-trans s s3 (record s3 { tasks = p ∷ s.tasks })
                    (keep s p st e st3 refl refl refl)
                    (Advances-same s3 (record s3 { tasks = p ∷ s.tasks }) refl refl refl)))
              (λ _. keep s p st e st2 refl refl refl))))

  pub handle_stream_message-Advances :
      (p : Pointer) (w : Wrapper) (state : StreamState) (s : Session) (m : Mem)
      → Ensures (handle_stream_message chain b p w state s m) (Advances s)
  unfolding handle_stream_message
  handle_stream_message-Advances p w state s m =
      ensures-if (Advances s) (is_closed state) _ _ m (λ _. half_close-Advances p s m)
        (λ _. fill_data-Advances p w s m)

  pub after :
      (s t : Session) (o : Outcome Session)
      → Advances s t
      → Ensures o (Advances t)
      → Ensures o (Advances s)
  after s t (ok u m) a h = Advances-trans s t u a h
  after s t (err e m) a h = tt
  after s t panic a h = tt

  pub handle_stream_close-Advances :
      (q : Queue) (id : ℕ) (s : Session) (m : Mem)
      → Ensures (handle_stream_close chain b q id s m) (Advances s)
  unfolding handle_stream_close
  handle_stream_close-Advances q id s m = go (lookup id s.streams)
    where
      go :
          (o : Option Pointer)
          → Ensures
              ((elim o as (λ _. Command Session) [ none ↦ pure s | some p ↦ half_close p s ]) m)
              (Advances s)
      go none = Advances-refl s
      go (some p) = half_close-Advances p s m

  module _ (q : Queue) where
    pub on_element-Advances :
        (e : Element) (s : Session) (m : Mem)
        → Ensures (on_element chain b q e s m) (AdvancesPair s)
    unfolding on_element AdvancesPair
    on_element-Advances e s m = found ((get_stream e.seq_id (state_of e.status) s).0)
      where
        s1 : Session
        s1 = (get_stream e.seq_id (state_of e.status) s).1

        got : Advances s s1
        got = get_stream-Advances e.seq_id (state_of e.status) s

        unread : Command (Option Error × Session)
        unread m = elim (read_buffer_slice b e.offset_in_shm_buf m) [
          | err error m' ↦ ok (some error, s1) m'
          | panic ↦ panic
          | ok slice m' ↦ (do recycle_buffers chain b slice; pure (none, s1)) m'
        ]

        returned :
            (o : Outcome BufferSlice)
            → Ensures
                ((elim o as (λ _. Outcome (Option Error × Session)) [
                  | err error m' ↦ ok (some error, s1) m'
                  | panic ↦ panic
                  | ok slice m' ↦ (do recycle_buffers chain b slice; pure (none, s1)) m'
                ]))
                (AdvancesPair s)
        returned (err error m') = got
        returned panic = tt
        returned (ok slice m') =
            ensures-step (AdvancesPair s) (recycle_buffers chain b slice m') _ (λ _ m2. got)

        found :
            (o : Option Pointer)
            → Ensures
                ((elim o as (λ _. Command (Option Error × Session)) [
                  | some p ↦ (do
                    s2 ←
                        handle_stream_message chain b p
                          (in_shm e.offset_in_shm_buf)
                          (state_of e.status)
                          s1
                    pure (none, s2))
                  | none ↦ if is_opened (state_of e.status) then unread else pure (none, s1)
                ])
                  m)
                (AdvancesPair s)
        found (some p) =
            ensures-then (AdvancesPair s) (Advances s1)
              (handle_stream_message chain b p (in_shm e.offset_in_shm_buf) (state_of e.status) s1
                m)
              _
              (handle_stream_message-Advances p (in_shm e.offset_in_shm_buf) (state_of e.status) s1
                m)
              (λ s2 m2 a. Advances-trans s s1 s2 got a)
        found none =
            ensures-if (AdvancesPair s) (is_opened (state_of e.status)) _ _ m
              (λ _. returned (read_buffer_slice b e.offset_in_shm_buf m)) (λ _. got)

    pub handle_polling-Advances :
        (rounds : ℕ) (s : Session) (m : Mem)
        → Ensures (handle_polling chain b q rounds s m) (AdvancesPair s)
    unfolding handle_polling AdvancesPair
    handle_polling-Advances zero s m = tt
    handle_polling-Advances (suc rounds) s m = popped (pop q m) (handle_polling-Advances rounds)
      where
        others : Session → Command (Option Error × Session)
        others = handle_polling chain b q rounds

        popped :
            (o : Outcome Element)
            → ((t : Session) (m' : Mem) → Ensures (others t m') (AdvancesPair t))
            → Ensures
                ((elim o as (λ _. Outcome (Option Error × Session)) [
                  | ok e m' ↦
                      (do
                        (error, s') ← on_element chain b q e s
                        elim error [ some x ↦ pure (some x, s') | none ↦ others s' ])
                        m'
                  | panic ↦ panic
                  | err _ m' ↦
                      (do idle ← mark_not_working q; if idle then pure (none, s) else others s) m'
                ]))
                (AdvancesPair s)
        popped (ok e m') again =
            ensures-then (AdvancesPair s) (AdvancesPair s) (on_element chain b q e s m') _
              (on_element-Advances e s m') (λ r m2 a. go r.0 r.1 m2 a)
          where
            go :
                (error : Option Error) (t : Session) (m2 : Mem)
                → Advances s t
                → Ensures
                    ((elim error as (λ _. Command (Option Error × Session)) [
                      | some x ↦ pure (some x, t)
                      | none ↦ others t
                    ])
                      m2)
                    (AdvancesPair s)
            go (some x) t m2 a = a
            go none t m2 a = behind chain b q (λ _ _. none) s t (others t m2) a (again t m2)
        popped panic again = tt
        popped (err e m') again =
            ensures-step (AdvancesPair s) (mark_not_working q m') _ (λ idle m2.
              ensures-if (AdvancesPair s) idle _ _ m2 (λ _. Advances-refl s) (λ _. again s m2))
