-- ===== src/BufferManager/Tests.antt =====
-- A manager of one list of three buffers, with the theorems about it applied.
use shmipc_go.Prelude.{◌≡◌, refl, inl, false, List, [], ◌∷◌, arith}
use shmipc_go.Memory.{Mem, load, store, update}
use shmipc_go.Command.{ok, Bytes}
use shmipc_go.BufferSlice.{BufferSlice}
use shmipc_go.BufferList.{BufferList, pop, push}
use shmipc_go.BufferList.Free.{IsFree}
use shmipc_go.BufferList.Created.{list_on, created_memory, created-IsFree}
use shmipc_go.BufferManager.{BufferManager, check_buffer_returned, recycle_buffer}
use shmipc_go.BufferList.Pop.{slice_of, popped_memory}
use shmipc_go.BufferList.Popped.{popped_memory-IsFree}
use shmipc_go.BufferList.Frame.{IsFree-Agree, popped_memory-outside}
use shmipc_go.BufferManager.Recycle.{recycle_buffer-AllKept}
use shmipc_go.BufferManager.Alloc.{Kept, AllKept, choose, Returns, alloc_shm_buffer-choose}
use shmipc_go.BufferSlice.Header.{header_at}
use shmipc_go.BufferManager.Read.{Ends, read_buffer_slice-Ends}
use shmipc_go.BufferManager.Returned.{IsUntouched, mapped, check_buffer_returned-cross}

abbrev blank : Mem
blank a = 0

abbrev mem : Bytes
mem = record { address = 1000; len = 300; cap = 300 }

abbrev list : BufferList
list = list_on 20 3 4 mem 8

abbrev start : Mem
start = created_memory 3 4 list blank

abbrev manager_of : BufferList → BufferManager
manager_of l = record { lists = l ∷ []; mem = mem; min_slice_size = 4; max_slice_size = 4 }

start-IsUntouched : IsUntouched list 4 start (0 ∷ 24 ∷ 48 ∷ [])
unfolding load store update
start-IsUntouched = record {
  valid = created-IsFree 2 4 mem 8 blank (omega arith) 20 (inl refl);
  creator = refl;
  whole = refl;
  creator_zero = refl;
  mapper_zero = refl;
}

check_buffer_returned-cross_example :
    (m1 : Mem) × (m2 : Mem) × (s : BufferSlice) × (s' : BufferSlice) × (pop list start ≡ ok s m1)
    × (push (mapped list) s m1 ≡ ok s' m2)
    × IsFree list 4 m2 (24 ∷ 48 ∷ 0 ∷ []) []
    × (load 4 m2 list.size ≡ load 4 m2 list.cap)
    × (check_buffer_returned (manager_of list) m2 ≡ ok false m2)
    × (check_buffer_returned (manager_of (mapped list)) m2 ≡ ok false m2)
check_buffer_returned-cross_example =
    check_buffer_returned-cross list 4 start 0 24 (48 ∷ []) (manager_of list)
      (manager_of (mapped list)) start-IsUntouched refl refl

read_buffer_slice-Ends_example : Ends (manager_of list) 44 start
read_buffer_slice-Ends_example =
    read_buffer_slice-Ends (manager_of list) 44 start (omega arith) (omega arith)

-- Behind the list of small buffers, one of three larger ones of which two are left.
abbrev large : BufferList
large = list_on 20 2 8 mem 116

abbrev both : Mem
both = created_memory 2 8 large start

abbrev manager : BufferManager
manager = record { lists = list ∷ large ∷ []; mem = mem; min_slice_size = 4; max_slice_size = 8 }

abbrev kept : List Kept
kept =
    record { list = list; per = 4; free = 0 ∷ 24 ∷ 48 ∷ []; held = [] }
    ∷ record { list = large; per = 8; free = 0 ∷ 28 ∷ []; held = [] }
    ∷ []

list-both-IsFree : IsFree list 4 both (0 ∷ 24 ∷ 48 ∷ []) []
unfolding load store update header_at
list-both-IsFree =
    let v = start-IsUntouched.valid in
    record {
      layout = v.layout;
      per_word = refl;
      size_word = refl;
      head_word = refl;
      tail_word = refl;
      some_free = v.some_free;
      few = v.few;
      inside = v.inside;
      apart = v.apart;
      links = (
        record {
          cap_word = refl;
          size_word = refl;
          start_word = refl;
          next_word = refl;
          flag_word = refl;
        },
        (
          record {
            cap_word = refl;
            size_word = refl;
            start_word = refl;
            next_word = refl;
            flag_word = refl;
          },
          record { cap_word = refl; size_word = refl; start_word = refl; flag_word = refl },
        ),
      );
      caps = tt;
    }

kept-AllKept : AllKept both 0 kept
kept-AllKept = (
  omega arith,
  list-both-IsFree,
  (omega arith, created-IsFree 1 8 mem 116 start (omega arith) 20 (inl refl), tt),
)

alloc_shm_buffer-choose_example : Returns manager both kept 6 (choose kept 6)
alloc_shm_buffer-choose_example =
    alloc_shm_buffer-choose manager both kept 6 refl kept-AllKept (omega arith)

-- The second list with one of its buffers handed out.
abbrev one_out : List Kept
one_out =
    record { list = list; per = 4; free = 0 ∷ 24 ∷ 48 ∷ []; held = [] }
    ∷ record { list = large; per = 8; free = 28 ∷ []; held = 0 ∷ [] }
    ∷ []

abbrev taken : Mem
taken = popped_memory large both 0 28

taken-AllKept : AllKept taken 0 one_out
taken-AllKept =
    let v = created-IsFree 1 8 mem 116 start (omega arith) 20 (inl refl) in
    (
      omega arith,
      IsFree-Agree list 4 both taken (0 ∷ 24 ∷ 48 ∷ []) []
          (λ a _ h.
            popped_memory-outside large 8 both v.layout a (inl (omega arith)) 0 28 (omega arith))
          list-both-IsFree,
      (omega arith, popped_memory-IsFree large 8 both 0 28 [] [] v, tt),
    )

recycle_buffer-AllKept_example :
    (m' : Mem) × (recycle_buffer manager (slice_of large 8 0) taken ≡ ok tt m')
    × AllKept m' 0 (
        record { list = list; per = 4; free = 0 ∷ 24 ∷ 48 ∷ []; held = [] }
        ∷ record { list = large; per = 8; free = 28 ∷ 0 ∷ []; held = [] }
        ∷ [])
recycle_buffer-AllKept_example =
    recycle_buffer-AllKept manager taken
      (record { list = list; per = 4; free = 0 ∷ 24 ∷ 48 ∷ []; held = [] } ∷ []) [] large 8 28 0 []
      [] (slice_of large 8 0) refl taken-AllKept (omega arith)
      (record { header_at = refl; offset_at = refl }) refl refl
