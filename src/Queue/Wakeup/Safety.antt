-- ===== src/Queue/Wakeup/Safety.antt =====
-- The invariant of the wake-up protocol of session.go and protocol_manager.go.
use native.Mathlib.Decide.{dec_lt}
use shmipc_go.Prelude.{
  ℕ, ◌+◌, ◌-◌, ◌^◌, ◌≤◌, ◌<◌, ◌≡◌, refl, ◌∙◌, ap, Bool, true, false, if◌then◌else◌, [], arith, inl,
}
use shmipc_go.Memory.{Mem, load, store}
use shmipc_go.Memory.Laws.{load-store_self, load-store_apart}
use shmipc_go.Errors.{queue_empty}
use shmipc_go.Command.{ok, err, sub_word}
use shmipc_go.Queue.{Queue, Element, put, pop, size, mark_working}
use shmipc_go.Queue.Contents.{IsValid, head_of, tail_of, contents, window}
use shmipc_go.Queue.Calls.{
  put_memory, pop_memory, load-with_element, put-ok, put-full, pop-ok, pop-empty,
}
use shmipc_go.Queue.Effects.{put-IsValid, pop-IsValid}
use shmipc_go.Queue.Wakeup.{
  Consumer, idle, draining, drained, failed, State, Step, Reach, enqueue, mark, send, send_failed,
  wake, take, fail, drain, clear, rest, resume, mark_again, here, next,
}

abbrev flag_of : Queue → Mem → ℕ
flag_of q m = load 4 m q.working_flag

-- The consumer holds the flag, or has left it set; and the consumer will look at the queue again, or has failed.
abbrev holds : Consumer → ℕ
holds draining = 1
holds drained = 1
holds failed = 1
holds _ = 0

abbrev awake : Consumer → ℕ
awake idle = 0
awake _ = 1

record Inv (q : Queue) (s : State) : Type 0 where
  valid : IsValid q s.mem
  flagged : 0 < flag_of q s.mem → 0 < s.events + s.sending + s.unsent + holds s.consumer
  held : head_of q s.mem < tail_of q s.mem → 0 < s.waiting + flag_of q s.mem + awake s.consumer

-- A store to the flag leaves the counters.
module _ (q : Queue) (m : Mem) (v : IsValid q m) (n : ℕ) where
  head_of-flag : head_of q (store 4 m q.working_flag n) ≡ head_of q m
  head_of-flag =
      load-store_apart 8 4 m q.working_flag n q.head (ground (arith, v.layout.flag_apart, v.layout))

  tail_of-flag : tail_of q (store 4 m q.working_flag n) ≡ tail_of q m
  tail_of-flag =
      load-store_apart 8 4 m q.working_flag n q.tail (ground (arith, v.layout.flag_apart, v.layout))

  flag-IsValid : IsValid q (store 4 m q.working_flag n)
  flag-IsValid = record {
    layout = v.layout;
    ordered = omega (arith, head_of-flag, tail_of-flag, v.ordered);
    bounded = omega (arith, head_of-flag, tail_of-flag, v.bounded);
    in_range = omega (arith, tail_of-flag, v.in_range);
  }

-- What a call that succeeded did.
put-eq-ok :
    (q : Queue) (m m' : Mem) (e : Element)
    → IsValid q m
    → put q e m ≡ ok tt m'
    → (tail_of q m < head_of q m + q.cap) × (m' ≡ put_memory q e m)
put-eq-ok q m m' e v h = elim (dec_lt (tail_of q m) (head_of q m + q.cap)) [
  | yes room ↦ (room, cc (put-ok q m v e room))
  | no full ↦ cc (put-full q m v e (omega (arith, v.bounded)))
]

pop-eq-ok :
    (q : Queue) (m m' : Mem) (e : Element)
    → IsValid q m
    → pop q m ≡ ok e m'
    → (head_of q m < tail_of q m) × (m' ≡ pop_memory q m)
pop-eq-ok q m m' e v h = elim (dec_lt (head_of q m) (tail_of q m)) [
  | yes left ↦ (left, cc (pop-ok q m v left))
  | no none_left ↦ cc (pop-empty q m v (omega (arith, v.ordered)))
]

pop-eq-err : (q : Queue) (m m' : Mem) → IsValid q m → pop q m ≡ err queue_empty m' → m' ≡ m
pop-eq-err q m m' v h = elim (dec_lt (head_of q m) (tail_of q m)) [
  | yes left ↦ cc (pop-ok q m v left)
  | no none_left ↦ cc (pop-empty q m v (omega (arith, v.ordered)))
]

-- `markWorking` sets a flag of 0, and reads any other.
record Marked (q : Queue) (m : Mem) (won : Bool) (m' : Mem) : Type 0 where
  effect : m' ≡ (if won then store 4 m q.working_flag 1 else m)
  lost : won ≡ false → 0 < flag_of q m

mark-eq-ok :
    (q : Queue) (m m' : Mem) (won : Bool) → mark_working q m ≡ ok won m' → Marked q m won m'
unfolding mark_working
mark-eq-ok q m m' won h = ground arith

size-zero : (q : Queue) (m : Mem) → IsValid q m → size q m ≡ ok 0 m → tail_of q m ≡ head_of q m
size-zero q m v h =
    let e : sub_word 64 (tail_of q m) (head_of q m) ≡ 0 = ground arith in
    omega (arith, v.ordered, v.in_range)

flag_of-put :
    (q : Queue) (m : Mem) (e : Element) → IsValid q m → flag_of q (put_memory q e m) ≡ flag_of q m
flag_of-put q m e v =
    load-store_apart 4 8 _ q.tail _ q.working_flag (ground (arith, v.layout.flag_apart, v.layout))
    ∙ load-with_element 4 m _ e q.working_flag (inl (omega (arith, v.layout)))

flag_of-pop : (q : Queue) (m : Mem) → IsValid q m → flag_of q (pop_memory q m) ≡ flag_of q m
flag_of-pop q m v =
    load-store_apart 4 8 m q.head _ q.working_flag (ground (arith, v.layout.flag_apart, v.layout))

flag_of-store :
    (q : Queue) (m : Mem) (n : ℕ) → n < 2 ^ 32 → flag_of q (store 4 m q.working_flag n) ≡ n
flag_of-store q m n h = load-store_self 4 m q.working_flag n h

Step-Inv : {q : Queue} {s t : State} → Step q s t → Inv q s → Inv q t
Step-Inv {q} {s} (enqueue e m small h) i =
    let (room, eq) = put-eq-ok q s.mem m e i.valid h in
    rw eq (record {
      valid = put-IsValid q s.mem i.valid e room small;
      flagged = rw (flag_of-put q s.mem e i.valid) i.flagged;
      held = λ _. omega arith;
    })
Step-Inv {q} {s} (mark true m w h) i =
    let k = mark-eq-ok q s.mem m true h in
    rw k.effect (record {
      valid = flag-IsValid q s.mem i.valid 1;
      flagged = λ _. omega arith;
      held = λ _. omega (arith, flag_of-store q s.mem 1);
    })
Step-Inv {q} {s} (mark false m w h) i =
    let k = mark-eq-ok q s.mem m false h in
    let f = k.lost refl in
    rw k.effect (record { valid = i.valid; flagged = i.flagged; held = λ _. omega arith })
Step-Inv {q} {s} (send w) i = record {
  valid = i.valid;
  flagged = λ f. omega (arith, i.flagged f);
  held = i.held;
}
Step-Inv {q} {s} (send_failed w) i = record {
  valid = i.valid;
  flagged = λ f. omega (arith, i.flagged f);
  held = i.held;
}
Step-Inv {q} {s} (wake w c) i = record {
  valid = i.valid;
  flagged = λ f. omega arith;
  held = λ f. omega arith;
}
Step-Inv {q} {s} (take e m c h) i =
    let (left, eq) = pop-eq-ok q s.mem m e i.valid h in
    rw eq (record {
      valid = pop-IsValid q s.mem i.valid left;
      flagged = rw (flag_of-pop q s.mem i.valid) i.flagged;
      held = λ _. rw c (omega arith);
    })
Step-Inv {q} {s} (fail e m c h) i =
    let (left, eq) = pop-eq-ok q s.mem m e i.valid h in
    rw eq (record {
      valid = pop-IsValid q s.mem i.valid left;
      flagged = λ _. omega arith;
      held = λ _. omega arith;
    })
Step-Inv {q} {s} (drain m c h) i =
    rw (pop-eq-err q s.mem m i.valid h)
      (record { valid = i.valid; flagged = λ f. omega arith; held = λ f. omega arith })
Step-Inv {q} {s} (clear c) i = record {
  valid = flag-IsValid q s.mem i.valid 0;
  flagged = λ f. omega (arith, flag_of-store q s.mem 0);
  held = λ f. omega arith;
}
Step-Inv {q} {s} (rest c h) i = record {
  valid = i.valid;
  flagged = rw c at i.flagged;
  held = λ f. omega (arith, size-zero q s.mem i.valid h);
}
Step-Inv {q} {s} (resume n c h) i = record {
  valid = i.valid;
  flagged = rw c at i.flagged;
  held = λ f. omega arith;
}
Step-Inv {q} {s} (mark_again c) i = record {
  valid = flag-IsValid q s.mem i.valid 1;
  flagged = λ f. omega arith;
  held = λ f. omega arith;
}

Reach-Inv : {q : Queue} {s t : State} → Inv q s → Reach q s t → Inv q t
Reach-Inv i here = i
Reach-Inv i (next r st) = Step-Inv st (Reach-Inv i r)

-- Started on a valid queue that is empty, with its flag at 0.
pub record IsStart (q : Queue) (s : State) : Type 0 where
  pub valid : IsValid q s.mem
  pub empty : tail_of q s.mem ≡ head_of q s.mem
  pub clear_flag : load 4 s.mem q.working_flag ≡ 0

start-Inv : (q : Queue) (s : State) → IsStart q s → Inv q s
start-Inv q s start = record {
  valid = start.valid;
  flagged = λ f. omega (arith, start.clear_flag);
  held = λ f. omega (arith, start.empty);
}

-- Whatever the interleaving of producers and consumer from a valid queue that is empty with its flag at 0: when no producer is on its
-- way to `markWorking` or to the event it owes, no event is unhandled, no event failed to be written, and the
-- consumer is out of `handlePolling` without having left it by an error, then every element that was
-- put has been taken.
pub no_lost_wakeup :
    (q : Queue) (s t : State)
    → IsStart q s
    → Reach q s t
    → t.waiting ≡ 0
    → t.sending ≡ 0
    → t.events ≡ 0
    → t.unsent ≡ 0
    → t.consumer ≡ idle
    → contents q t.mem ≡ []
no_lost_wakeup q s t start r w se ev un c =
    let i = Reach-Inv (start-Inv q s start) r in
    let none_left : tail_of q t.mem - head_of q t.mem ≡ 0 = omega (arith, at_rest i) in
    ap (window q t.mem (head_of q t.mem)) none_left
  where
    at_rest : Inv q t → tail_of q t.mem ≤ head_of q t.mem
    at_rest i = elim (dec_lt (head_of q t.mem) (tail_of q t.mem)) [
      | yes left ↦
          let asleep : awake t.consumer ≡ 0 = rw c in
          let loose : holds t.consumer ≡ 0 = rw c in
          absurd (omega (arith, i.flagged (omega (arith, i.held left))))
      | no empty ↦ omega arith
    ]
