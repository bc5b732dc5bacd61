-- ===== src/StreamPool.antt =====
-- The pool of idle streams of session_manager.go: `streamPool`, a ring of pointers with its counters, `getOrOpenStream`
-- and `putOrCloseStream`. All streams of the pool are of its one session.
pub mod Ring
mod Tests
use shmipc_go.Prelude.{
  ℕ, zero, suc, ◌+◌, ◌%◌, ◌^◌, Bool, true, false, ◌&&◌, not, ltb, if◌then◌else◌, ◌⊎◌, inl, inr,
  Option, some, none, List, [], ◌∷◌, length, get_or, set, replicate,
}
use shmipc_go.Errors.{Error, session_unhealthy, pool_full}
use shmipc_go.Command.{Command, ok, pure, crash, ◌>>=◌, sub_word}
use shmipc_go.BufferManager.{BufferManager}
use shmipc_go.Queue.{Queue}
use shmipc_go.Stream.{Stream, is_open, reset, release_read_and_reuse}
use shmipc_go.Session.{Session, Pointer, stream_at, put_stream, open_stream}
use shmipc_go.Session.Sending.{close}

pub record StreamPool : Type 0 where
  pub streams : List Pointer
  pub head : ℕ
  pub tail : ℕ
  pub capacity : ℕ

-- `newStreamPool`; the slots hold nil, and are not read before they are written.
abbrev pub new_stream_pool : ℕ → StreamPool
new_stream_pool capacity = record {
  streams = replicate capacity 0;
  head = 0;
  tail = 0;
  capacity = capacity;
}

-- `pop`
unfoldable pub pop : StreamPool → Option Pointer × StreamPool
pop p =
    if ltb p.head p.tail
    then (
      some (get_or p.streams (p.head % p.capacity) 0),
      record p { head = (p.head + 1) % 2 ^ 64 },
    )
    else (none, p)

-- `push`
unfoldable pub push : Pointer → StreamPool → Option Error × StreamPool
push s p =
    if ltb (sub_word 64 p.tail p.head) p.capacity
    then (
      none,
      record p { streams = set p.streams (p.tail % p.capacity) s; tail = (p.tail + 1) % 2 ^ 64 },
    )
    else (some pool_full, p)

-- The loop of `getOrOpenStream`: streams that are not open any more are dropped.
unfoldable pub pop_open : ℕ → StreamPool → Session → Command (Option Pointer × StreamPool)
unfolding pop
pop_open zero p s = crash
pop_open (suc rounds) p s =
    let others = pop_open rounds in
    let (found, p') = pop p in
    elim found [
      | none ↦ pure (none, p')
      | some x ↦ (do
        st ← stream_at s x
        if not s.shutdown && is_open st then pure (some x, p') else others p' s)
    ]

-- `getOrOpenStream`; the loop has a round for each stream in the pool and one more.
unfoldable pub get_or_open_stream :
    StreamPool → Session → Command ((Option Error ⊎ Pointer) × StreamPool × Session)
unfolding pop_open open_stream
get_or_open_stream p s = if s.unhealthy then pure (inl (some session_unhealthy), p, s) else (do
  (found, p') ← pop_open (suc (sub_word 64 p.tail p.head)) p s
  elim found [
    | some x ↦ pure (inr x, p', s)
    | none ↦ (let (result, s') = open_stream s in pure (result, p', s'))
  ])

module _ (chain : ℕ) (b : BufferManager) (q : Queue)
    (answer : Session → List ℕ → Option Error) where
  abbrev close_in : Pointer → StreamPool → Session → Command (StreamPool × Session)
  close_in x p s = do (_, s') ← close chain b q answer x s; pure (p, s')

  -- `putOrCloseStream`
  unfoldable pub put_or_close_stream :
      Pointer → StreamPool → Session → Command (StreamPool × Session)
  unfolding push close reset release_read_and_reuse
  put_or_close_stream x p s = do
    st ← stream_at s x
    if st.in_fallback_state
        then close_in x p s
        else (let (error, st1) = reset st in
            elim error [
              | some e ↦ close_in x p s
              | none ↦ (do
                st2 ← release_read_and_reuse chain b st1
                let s2 = put_stream x st2 s
                let (full, p') = push x p
                elim full [ none ↦ pure (p', s2) | some e ↦ close_in x p s2 ])
            ])
