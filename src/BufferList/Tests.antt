-- ===== src/BufferList/Tests.antt =====
-- A free list of three buffers of four bytes, with the theorems about it applied.
use mathlib.Core.List.{Permᴰ}
use shmipc_go.Prelude.{ℕ, ◌≡◌, refl, inl, some, List, [], ◌∷◌, map, arith}
use shmipc_go.Memory.{Mem}
use shmipc_go.Command.{ok, Bytes}
use shmipc_go.BufferList.{BufferList, create_free_list, mapping_free_list}
use shmipc_go.BufferList.Free.{IsFree}
use shmipc_go.BufferList.Pop.{slice_of}
use shmipc_go.BufferList.Run.{
  Op, pops, pushes, fills, got, refused, returned, filled, missing, run, promised_run,
}
use shmipc_go.BufferList.Run.Refines.{run-promised_run}
use shmipc_go.BufferList.Created.{
  IsRoom, list_on, created_memory, created-IsFree, create-mapping_list,
}

abbrev blank : Mem
blank a = 0

abbrev mem : Bytes
mem = record { address = 1000; len = 200; cap = 200 }

abbrev list : BufferList
list = list_on 20 3 4 mem 8

abbrev start : Mem
start = created_memory 3 4 list blank

room : IsRoom 3 4 mem 8
room = omega arith

create-mapping_list_example :
    (m' : Mem) × (create_free_list 3 4 mem 8 blank ≡ ok list m')
    × (mapping_free_list mem 8 m' ≡ ok (list_on 24 3 4 mem 8) m')
    × IsFree list 4 m' (0 ∷ 24 ∷ 48 ∷ []) []
    × IsFree (list_on 24 3 4 mem 8) 4 m' (0 ∷ 24 ∷ 48 ∷ []) []
create-mapping_list_example = create-mapping_list 3 4 mem 8 blank room

start-IsFree : IsFree list 4 start (0 ∷ 24 ∷ 48 ∷ []) []
start-IsFree = created-IsFree 2 4 mem 8 blank room 20 (inl refl)

abbrev script : List Op
script = pops ∷ fills 0 3 255 ∷ pops ∷ pops ∷ pushes 1 ∷ pushes 5 ∷ pops ∷ []

promised-script :
    promised_run 4 44 (0 ∷ 24 ∷ 48 ∷ []) [] script
    ≡ (got 44 ∷ filled ∷ got 68 ∷ refused ∷ returned ∷ missing ∷ got 92 ∷ [], 0 ∷ [], 48 ∷ 24 ∷ [])
promised-script = refl

run-promised_run_example :
    (m' : Mem) × (run list start [] script
      ≡ some (
        got 44 ∷ filled ∷ got 68 ∷ refused ∷ returned ∷ missing ∷ got 92 ∷ [],
        m',
        map (slice_of list 4) (48 ∷ 24 ∷ []),
      ))
    × IsFree list 4 m' (0 ∷ []) (48 ∷ 24 ∷ [])
    × Permᴰ {A = ℕ} (0 ∷ 24 ∷ 48 ∷ []) (0 ∷ 48 ∷ 24 ∷ [])
run-promised_run_example = run-promised_run list 4 start (0 ∷ 24 ∷ 48 ∷ []) [] script start-IsFree
