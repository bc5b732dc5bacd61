-- ===== src/Queue/Refine.antt =====
-- Calls of queue.go beside those of the list that the queue promises.
use shmipc_go.Prelude.{
  ℕ, ◌+◌, ◌<◌, ◌^◌, ◌≡◌, refl, List, [], ◌∷◌, length, arith, ◌≤◌, ◌-◌, Option, none, some,
}
use native.Mathlib.Decide.{dec_lt}
use shmipc_go.Memory.{Mem}
use shmipc_go.Command.{ok, err, panic}
use shmipc_go.Queue.{Queue, Element, put, pop}
use shmipc_go.Queue.Calls.{put_memory, pop_memory, put-ok, put-full, pop-ok, pop-empty}
use shmipc_go.Queue.Effects.{
  contents-put, put-IsValid, tail_of-put, contents-pop, pop-IsValid, tail_of-pop,
}
use shmipc_go.Queue.Contents.{IsValid, head_of, tail_of, slot, element_at, contents, length-window}
use shmipc_go.Queue.Fifo
use shmipc_go.Queue.Fifo.{
  Op, puts, pops, Reply, done, got, full, empty, IsWords, IsWordsOp, AllWords,
}

-- One call, as the client sees it; `none` is a panic.
unfoldable pub step : Queue → Mem → Op → Option (Reply × Mem)
step q m (puts e) = elim (put q e m) [
  | ok _ m' ↦ some (done, m')
  | err _ m' ↦ some (full, m')
  | panic ↦ none
]
step q m pops = elim (pop q m) [
  | ok e m' ↦ some (got e, m')
  | err _ m' ↦ some (empty, m')
  | panic ↦ none
]

unfoldable pub run : Queue → Mem → List Op → Option (List Reply)
run q m [] = some []
run q m (op ∷ ops) = elim (step q m op) [
  | none ↦ none
  | some (r, m') ↦ elim (run q m' ops) [ none ↦ none | some rs ↦ some (r ∷ rs) ]
]

-- What one call does, as one statement for both kinds and all branches.
record Refines (q : Queue) (m : Mem) (op : Op) (r : Reply) (m' : Mem) : Type 0 where
  runs : step q m op ≡ some (r, m')
  valid : IsValid q m'
  spec : Fifo.step q.cap (contents q m) op ≡ (r, contents q m')
  tail : tail_of q m' ≤ tail_of q m + 1

length-contents : (q : Queue) (m : Mem) → length (contents q m) ≡ tail_of q m - head_of q m
length-contents q m = length-window q m (head_of q m) (tail_of q m - head_of q m)

spec_empty : (xs : List Element) (cap : ℕ) → length xs ≡ 0 → Fifo.step cap xs pops ≡ (empty, xs)
unfolding Fifo.step
spec_empty [] cap h = refl
spec_empty (x ∷ xs) cap h = absurd (omega arith)

step-Refines :
    (q : Queue) (m : Mem) (op : Op)
    → IsValid q m
    → tail_of q m + 1 < 2 ^ 63
    → IsWordsOp op
    → (r : Reply) × (m' : Mem) × Refines q m op r m'
unfolding step Fifo.step
step-Refines q m (puts e) v small w = elim (dec_lt (tail_of q m) (head_of q m + q.cap)) [
  | yes room ↦ (
    done,
    put_memory q e m,
    record {
      runs = rw (put-ok q m v e room, step);
      valid = put-IsValid q m v e room small;
      spec = ground (arith, length-contents q m, contents-put q m v e w);
      tail = omega (arith, tail_of-put q m v e small);
    },
  )
  | no stuck ↦ (
    full,
    m,
    record {
      runs = rw (put-full q m v e (omega (arith, v.bounded)), step);
      valid = v;
      spec = ground (arith, length-contents q m, v.bounded);
      tail = omega arith;
    },
  )
]
step-Refines q m pops v small w = elim (dec_lt (head_of q m) (tail_of q m)) [
  | yes left ↦ (
    got (element_at m (slot q (head_of q m))),
    pop_memory q m,
    record {
      runs = rw (pop-ok q m v left, step);
      valid = pop-IsValid q m v left;
      spec = rw (contents-pop q m v left, Fifo.step);
      tail = omega (arith, tail_of-pop q m v left);
    },
  )
  | no none_left ↦ (
    empty,
    m,
    record {
      runs = rw (pop-empty q m v (omega (arith, v.ordered)), step);
      valid = v;
      spec = spec_empty (contents q m) q.cap (omega (arith, length-contents q m));
      tail = omega arith;
    },
  )
]

-- Any sequence of calls on a valid queue ends without a panic and returns what the bounded
-- first-in, first-out list of its contents returns, as long as fewer than 2^63 elements are put.
pub run_refines :
    (ops : List Op) (q : Queue) (m : Mem)
    → IsValid q m
    → tail_of q m + length ops < 2 ^ 63
    → AllWords ops
    → run q m ops ≡ some (Fifo.run q.cap (contents q m) ops)
unfolding run Fifo.run
run_refines [] q m v small w = refl
run_refines (op ∷ ops) q m v small w =
    let (r, m', once) = step-Refines q m op v (omega arith) w.0 in
    ground
      (arith, once.runs, once.spec, run_refines ops q m' once.valid (omega (arith, once.tail)) w.1)
