-- ===== src/Session/Reach.antt =====
-- The runs of a session: any sequence of the calls of the user, the messages of the peer, the goroutines of the
-- callbacks and the timer of the circuit breaker. A callback runs to its end without another step between. The two queues, the buffer manager and the answers of
-- the connection are fixed; the memory is any at each step, as the peer writes to it.
use shmipc_go.Prelude.{ℕ, ◌≡◌, Option, List}
use shmipc_go.Memory.{Mem}
use shmipc_go.Errors.{Error}
use shmipc_go.Command.{Command, ok, Bytes}
use shmipc_go.BufferManager.{BufferManager}
use shmipc_go.Queue.{Queue}
use shmipc_go.Stream.{Stream}
use shmipc_go.Session.{Session, Pointer, exit_err, close_circuit_breaker}
use shmipc_go.Session.Receiving.{handle_polling, handle_stream_close, handle_fallback, serve}
use shmipc_go.Session.Users.{UserCall, Script, perform, run_script}

module _ (chain : ℕ) (b : BufferManager) (send recv : Queue)
    (answer : Session → List ℕ → Option Error) (make : ℕ → Command Bytes) where
  abbrev pub on_data : (Pointer → Session → Mem → Script) → Pointer → Session → Command Session
  on_data script p s m = run_script chain b send answer make (script p s m) s m

  pub data Step (s : Session) : Session → Type 0 where
    using :
        (c : UserCall) (t : Session) (m m' : Mem)
        → perform chain b send answer make c s m ≡ ok t m'
        → Step s t
    polling :
        (rounds : ℕ) (e : Option Error) (t : Session) (m m' : Mem)
        → handle_polling chain b recv rounds s m ≡ ok (e, t) m'
        → Step s t
    peer_close :
        (id : ℕ) (t : Session) (m m' : Mem)
        → handle_stream_close chain b recv id s m ≡ ok t m'
        → Step s t
    fallback :
        (id status : ℕ) (payload : List ℕ) (t : Session) (m m' : Mem)
        → handle_fallback chain b recv make id status payload s m ≡ ok t m'
        → Step s t
    -- `OnData` of the callback of the user is a program of calls, which may depend on the stream and the state.
    serving :
        (script : Pointer → Session → Mem → Script) (rounds : ℕ) (p : Pointer) (t : Session)
        (m m' : Mem)
        → serve chain b send answer (on_data script) rounds p s m ≡ ok t m'
        → Step s t
    failing : (e : Error) → Step s (exit_err e s)
    healing : Step s (close_circuit_breaker s)

  pub data Reach (s : Session) : Session → Type 0 where
    here : Reach s s
    next : {t u : Session} → Reach s t → Step t u → Reach s u
