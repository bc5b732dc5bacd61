-- ===== src/BufferList/Run.antt =====
-- A free list of buffer_manager.go in use: buffers are taken, filled and returned in any order.
pub mod Refines
use shmipc_go.Prelude.{
  ℕ, zero, suc, ◌+◌, Option, some, none, List, [], ◌∷◌, ◌++◌, get_elem?, ltb, if◌then◌else◌,
}
use shmipc_go.Memory.{Mem, store}
use shmipc_go.Command.{ok, err, panic}
use shmipc_go.BufferSlice.{BufferSlice}
use shmipc_go.BufferList.{BufferList, pop, push}

-- What a process does: take a buffer, return the `i`th one it holds, or write the byte `j` of it.
pub data Op : Type 0 where
  pops : Op
  pushes : ℕ → Op
  fills : ℕ → ℕ → ℕ → Op

pub data Answer : Type 0 where
  got : ℕ → Answer
  refused returned filled missing : Answer

abbrev pub erase_at {ℓ} : {A : Type ℓ} → List A → ℕ → List A
erase_at [] i = []
erase_at (x ∷ xs) zero = xs
erase_at (x ∷ xs) (suc i) = x ∷ erase_at xs i

-- A step of the code; `none` is a panic.
unfoldable pub step :
    BufferList → Mem → List BufferSlice → Op → Option (Answer × Mem × List BufferSlice)
step b m held pops = elim (pop b m) [
  | ok s m' ↦ some (got s.offset_in_shm, m', s ∷ held)
  | err e m' ↦ some (refused, m', held)
  | panic ↦ none
]
step b m held (pushes i) = elim (get_elem? held i) [
  | none ↦ some (missing, m, held)
  | some s ↦ elim (push b s m) [
    | ok s' m' ↦ some (returned, m', erase_at held i)
    | err e m' ↦ none
    | panic ↦ none
  ]
]
step b m held (fills i j v) = elim (get_elem? held i) [
  | none ↦ some (missing, m, held)
  | some s ↦
      if ltb j s.block.len
      then some (filled, store 1 m (s.block.address + j) v, held)
      else some (missing, m, held)
]

unfoldable pub run :
    BufferList → Mem → List BufferSlice → List Op → Option (List Answer × Mem × List BufferSlice)
unfolding step
run b m held [] = some ([], m, held)
run b m held (op ∷ ops) = elim (step b m held op) [
  | none ↦ none
  | some (answer, m', held') ↦ elim (run b m' held' ops) [
    | none ↦ none
    | some (answers, m'', held'') ↦ some (answer ∷ answers, m'', held'')
  ]
]

-- What is promised: a queue of free buffers whose last one is never handed out. Buffers are named
-- by their offset in the region, which lies at `offset` in shared memory.
abbrev pub promised : ℕ → ℕ → List ℕ → List ℕ → Op → Answer × List ℕ × List ℕ
promised per offset [] held pops = (refused, [], held)
promised per offset (x ∷ []) held pops = (refused, x ∷ [], held)
promised per offset (x ∷ y ∷ free) held pops = (got (x + offset), y ∷ free, x ∷ held)
promised per offset free held (pushes i) = elim (get_elem? held i) [
  | none ↦ (missing, free, held)
  | some x ↦ (returned, free ++ x ∷ [], erase_at held i)
]
promised per offset free held (fills i j v) = elim (get_elem? held i) [
  | none ↦ (missing, free, held)
  | some x ↦ (if ltb j per then filled else missing, free, held)
]

abbrev pub promised_run : ℕ → ℕ → List ℕ → List ℕ → List Op → List Answer × List ℕ × List ℕ
promised_run per offset free held [] = ([], free, held)
promised_run per offset free held (op ∷ ops) =
    let now = promised per offset free held op in
    let rest = promised_run per offset now.1 now.2 ops in (now.0 ∷ rest.0, rest.1, rest.2)
