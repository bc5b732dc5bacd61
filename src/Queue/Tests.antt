-- ===== src/Queue/Tests.antt =====
-- Runs of the queues of queue.go, and the theorems about them at concrete queues.
use shmipc_go.Prelude.{ℕ, ◌*◌, ◌≡◌, refl, true, false, some, List, [], ◌∷◌, arith}
use shmipc_go.Memory.{Mem, load, store}
use shmipc_go.Command.{Bytes, ok}
use shmipc_go.Queue.{Queue, Element, put, pop, mark_working, count_mem_size}
use shmipc_go.Queue.Contents.{IsValid, contents}
use shmipc_go.Queue.Fifo
use shmipc_go.Queue.Fifo.{Op, puts, pops, done, got, full, empty}
use shmipc_go.Queue.Create.{queue_on, init_memory, init_memory-IsFresh, IsFresh-IsValid}
use shmipc_go.Queue.Calls.{put_memory, pop_memory, put-ok}
use shmipc_go.Queue.Wakeup.{
  Consumer, idle, State, Reach, enqueue, mark, send, wake, take, drain, clear, rest, here, next,
}
use shmipc_go.Queue.Wakeup.Safety.{IsStart, no_lost_wakeup}
use shmipc_go.Queue.Refine.{step, run, run_refines}
use shmipc_go.Queue.Manager.{Manager, System, create_manager, mapping_manager}
use shmipc_go.Queue.Manager.Share.{Crossed, create-mapping}

abbrev blank : Mem
blank a = 0

abbrev block : Bytes
block = record { address = 1000; len = 48; cap = 48 }

abbrev two : Queue
two = queue_on false block 2

abbrev start : Mem
start = init_memory false block 2 blank

abbrev element : ℕ → Element
element n = record { seq_id = n; offset_in_shm_buf = 4096 * n; status = 1 }

abbrev script : List Op
script =
    puts (element 1)
    ∷ puts (element 2)
    ∷ puts (element 3)
    ∷ pops
    ∷ puts (element 3)
    ∷ pops
    ∷ pops
    ∷ pops
    ∷ []

start-IsValid : IsValid two start
start-IsValid =
    IsFresh-IsValid false block 2 start (omega arith)
      (init_memory-IsFresh false block 2 blank (omega arith))

run-script :
    run two start script
    ≡ some (
        done
        ∷ done
        ∷ full
        ∷ got (element 1)
        ∷ done
        ∷ got (element 2)
        ∷ got (element 3)
        ∷ empty
        ∷ [])
unfolding run step put pop load store
run-script = refl

run_refines_example : run two start script ≡ some (Fifo.run 2 [] script)
unfolding load store
run_refines_example = run_refines script two start start-IsValid (omega arith) (omega arith)

abbrev system : System
system = record {
  exists = false;
  has_room = true;
  open_fails = false;
  truncate_fails = false;
  stat_fails = false;
  file_size = 96;
  mapping = some 1000;
}

create-mapping_example :
    (near far : Manager) × (m' : Mem) × (create_manager true system "q" 2 blank ≡ ok near m')
    × (mapping_manager true system "q" m' ≡ ok far m')
    × Crossed near far m'
unfolding count_mem_size
create-mapping_example =
    create-mapping true system system 1000 "q" 2 blank
      (record { absent = refl; room = refl; opened = refl; truncated = refl; mapped = refl })
      (record { opened = refl; stated = refl; sized = refl; mapped = refl }) (omega arith)
      (omega arith) (λ _. refl)

-- A producer puts an element, wins the flag and sends the event; the consumer takes the element,
-- finds the queue empty and goes to rest.
abbrev state : Mem → ℕ → ℕ → ℕ → Consumer → State
state m w se ev c = record {
  mem = m;
  waiting = w;
  sending = se;
  events = ev;
  unsent = 0;
  consumer = c;
}

abbrev put_one : Mem
put_one = put_memory two (element 1) start

abbrev flagged : Mem
flagged = store 4 put_one two.working_flag 1

abbrev taken : Mem
taken = pop_memory two flagged

abbrev at_rest : State
at_rest = state (store 4 taken two.working_flag 0) 0 0 0 idle

put-two : put two (element 1) start ≡ ok tt put_one
unfolding put load store
put-two = put-ok two start start-IsValid (element 1) (omega arith)

whole_round : Reach two (state start 0 0 0 idle) at_rest
unfolding put pop load store mark_working
whole_round =
    next
      (next
        (next
          (next
            (next
              (next
                (next (next here (enqueue (element 1) put_one (omega arith) put-two))
                  (mark true flagged (omega arith) refl))
                (send (omega arith)))
              (wake (omega arith) refl))
            (take (element 1) taken refl refl))
          (drain taken refl refl))
        (clear refl))
      (rest refl refl)

start-IsStart : IsStart two (state start 0 0 0 idle)
unfolding load store
start-IsStart = record { valid = start-IsValid; empty = refl; clear_flag = refl }

no_lost_wakeup_example : contents two at_rest.mem ≡ []
no_lost_wakeup_example =
    no_lost_wakeup two (state start 0 0 0 idle) at_rest start-IsStart whole_round refl refl refl
      refl refl
