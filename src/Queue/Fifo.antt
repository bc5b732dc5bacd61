-- ===== src/Queue/Fifo.antt =====
-- What the queue promises: a first-in, first-out list of at most `cap` elements.
use shmipc_go.Prelude.{ℕ, ◌<◌, ◌^◌, List, [], ◌∷◌, ◌++◌, length, ◌==◌, if◌then◌else◌}
use shmipc_go.Queue.{Element}

-- A client's calls, and what it sees of each.
pub data Op : Type 0 where
  puts : Element → Op
  pops : Op

pub data Reply : Type 0 where
  done : Reply
  got : Element → Reply
  full empty : Reply

unfoldable pub step : ℕ → List Element → Op → Reply × List Element
step cap xs (puts e) = if length xs == cap then (full, xs) else (done, xs ++ (e ∷ []))
step cap [] pops = (empty, [])
step cap (x ∷ xs) pops = (got x, xs)

unfoldable pub run : ℕ → List Element → List Op → List Reply
run cap xs [] = []
run cap xs (op ∷ ops) = let (r, xs') = step cap xs op in r ∷ run cap xs' ops

-- The fields of the element are 32-bit words.
pub record IsWords (e : Element) : Type 0 where
  pub seq_id : e.seq_id < 2 ^ 32
  pub offset : e.offset_in_shm_buf < 2 ^ 32
  pub status : e.status < 2 ^ 32

abbrev pub IsWordsOp : Op → Type 0
IsWordsOp (puts e) = IsWords e
IsWordsOp pops = Unit {0}

abbrev pub AllWords : List Op → Type 0
AllWords [] = Unit {0}
AllWords (op ∷ ops) = IsWordsOp op × AllWords ops
