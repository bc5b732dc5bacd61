-- ===== src/BlockIo.antt =====
-- block_io.go: transfers of a whole buffer over a blocking socket. The answers of the system to the
-- calls are a list; a call transfers at most what it is asked for.
pub mod Transfers
mod Tests
use shmipc_go.Prelude.{
  ℕ, zero, suc, ◌+◌, ◌-◌, ◌==◌, min, if◌then◌else◌, List, [], ◌∷◌, ◌++◌, take, drop, length,
}
use shmipc_go.Errors.{Error, system, eof}

-- One call: up to so many bytes go over, or it fails.
pub data Answer : Type 0 where
  moves : ℕ → Answer
  fails : Answer

-- A loop ends well, with an error, or has used up the answers and waits in a call.
pub data Transfer (A : Type 0) : Type 0 where
  complete : A → Transfer A
  refused : Error → Transfer A
  waits : Transfer A

-- `blockReadFull` with `missing` bytes to come behind `done`; `stream` is what the peer has sent. It
-- ends with the buffer and the rest of the stream.
unfoldable pub read_from : List Answer → List ℕ → List ℕ → ℕ → Transfer (List ℕ × List ℕ)
read_from answers stream done zero = complete (done, stream)
read_from [] stream done (suc missing) = waits
read_from (fails ∷ answers) stream done (suc missing) = refused system
read_from (moves most ∷ answers) stream done (suc missing) =
    let n = min most (min (suc missing) (length stream)) in
    let rest = read_from answers (drop n stream) (done ++ take n stream) (suc missing - n) in
    if n == 0 then refused eof else rest

abbrev pub block_read_full : List Answer → List ℕ → ℕ → Transfer (List ℕ × List ℕ)
block_read_full answers stream n = read_from answers stream [] n

-- `blockWriteFull`, behind the bytes `sent`; a call that writes nothing is repeated.
unfoldable pub write_from : List Answer → List ℕ → List ℕ → Transfer (List ℕ)
write_from answers sent [] = complete sent
write_from [] sent (x ∷ xs) = waits
write_from (fails ∷ answers) sent (x ∷ xs) = refused system
write_from (moves most ∷ answers) sent (x ∷ xs) =
    let n = min most (length (x ∷ xs)) in
    write_from answers (sent ++ take n (x ∷ xs)) (drop n (x ∷ xs))

abbrev pub block_write_full : List Answer → List ℕ → Transfer (List ℕ)
block_write_full answers payload = write_from answers [] payload
