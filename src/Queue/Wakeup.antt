-- ===== src/Queue/Wakeup.antt =====
-- How a producer wakes the consumer: `wakeUpPeer` of session.go, the loop of `handlePolling` of
-- protocol_manager.go and `markNotWorking` of queue.go, as interleavings of their atomic accesses.
pub mod Safety
use shmipc_go.Prelude.{ℕ, suc, ◌+◌, ◌-◌, ◌^◌, ◌<◌, ◌≡◌, Bool, true, false, if◌then◌else◌}
use shmipc_go.Memory.{Mem, store}
use shmipc_go.Errors.{queue_empty}
use shmipc_go.Command.{ok, err}
use shmipc_go.Queue.{Queue, Element, put, pop, size, mark_working}
use shmipc_go.Queue.Contents.{tail_of}

-- Where the consumer stands: out of `handlePolling`, popping, behind the pop that found nothing,
-- behind the store of 0 in `markNotWorking`, behind its check that found elements, and out of
-- `handlePolling` by the return with an error, from which the session ends.
pub data Consumer : Type 0 where
  idle draining drained checking resuming failed : Consumer

-- `waiting` producers have put an element and not yet called `markWorking`; `sending` ones have won
-- it and not yet written the polling event; `events` are written and not yet handled, and `unsent` ones
-- could not be written, which `wakeUpPeer` does not look at.
pub record State : Type 0 where
  pub mem : Mem
  pub waiting : ℕ
  pub sending : ℕ
  pub events : ℕ
  pub unsent : ℕ
  pub consumer : Consumer

module _ (q : Queue) where
  pub data Step (s : State) : State → Type 0 where
    enqueue :
        (e : Element) (m : Mem)
        → tail_of q s.mem + 1 < 2 ^ 63
        → put q e s.mem ≡ ok tt m
        → Step s (record s { mem = m; waiting = s.waiting + 1 })
    mark :
        (won : Bool) (m : Mem)
        → 0 < s.waiting
        → mark_working q s.mem ≡ ok won m
        → Step s (record s {
          mem = m;
          waiting = s.waiting - 1;
          sending = if won then s.sending + 1 else s.sending;
        })
    send : 0 < s.sending → Step s (record s { sending = s.sending - 1; events = s.events + 1 })
    send_failed :
        0 < s.sending → Step s (record s { sending = s.sending - 1; unsent = s.unsent + 1 })
    wake :
        0 < s.events
        → s.consumer ≡ idle
        → Step s (record s { events = s.events - 1; consumer = draining })
    take :
        (e : Element) (m : Mem)
        → s.consumer ≡ draining
        → pop q s.mem ≡ ok e m
        → Step s (record s { mem = m })
    -- An element whose buffer cannot be read: `readBufferSlice` fails, and `handlePolling` returns.
    fail :
        (e : Element) (m : Mem)
        → s.consumer ≡ draining
        → pop q s.mem ≡ ok e m
        → Step s (record s { mem = m; consumer = failed })
    drain :
        (m : Mem)
        → s.consumer ≡ draining
        → pop q s.mem ≡ err queue_empty m
        → Step s (record s { mem = m; consumer = drained })
    clear :
        s.consumer ≡ drained
        → Step s (record s { mem = store 4 s.mem q.working_flag 0; consumer = checking })
    rest : s.consumer ≡ checking → size q s.mem ≡ ok 0 s.mem → Step s (record s { consumer = idle })
    resume :
        (n : ℕ)
        → s.consumer ≡ checking
        → size q s.mem ≡ ok (suc n) s.mem
        → Step s (record s { consumer = resuming })
    mark_again :
        s.consumer ≡ resuming
        → Step s (record s { mem = store 4 s.mem q.working_flag 1; consumer = draining })

  pub data Reach (s : State) : State → Type 0 where
    here : Reach s s
    next : {t u : State} → Reach s t → Step t u → Reach s u
