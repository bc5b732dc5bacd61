-- ===== src/BlockIo/Tests.antt =====
-- Four bytes that go over in pieces, with the theorems about block_io.go applied.
use shmipc_go.Prelude.{ℕ, ◌≡◌, refl, List, [], ◌∷◌, ◌++◌, arith}
use shmipc_go.Errors.{eof}
use shmipc_go.BlockIo.{
  Answer, moves, complete, refused, read_from, block_read_full, block_write_full,
}
use shmipc_go.BlockIo.Transfers.{block_read_full-block_write_full}

abbrev pieces : List Answer
pieces = moves 1 ∷ moves 9 ∷ moves 2 ∷ moves 1 ∷ []

abbrev payload : List ℕ
payload = 1 ∷ 2 ∷ 3 ∷ 4 ∷ []

ends_early : block_read_full pieces (1 ∷ 2 ∷ []) 4 ≡ refused eof
unfolding read_from
ends_early = refl

block_read_full-block_write_full_example :
    (block_write_full pieces payload ≡ complete payload)
    × (block_read_full pieces (payload ++ 5 ∷ []) 4 ≡ complete (payload, 5 ∷ []))
block_read_full-block_write_full_example =
    block_read_full-block_write_full payload (5 ∷ []) pieces pieces (omega arith) (omega arith)
      (omega arith) (omega arith)
