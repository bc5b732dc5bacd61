-- ===== src/StreamPool/Tests.antt =====
-- A pool of two streams whose ring has wrapped, with the theorems about it applied.
use shmipc_go.Prelude.{◌≡◌, refl, [], ◌∷◌, arith}
use shmipc_go.StreamPool.{StreamPool, pop, push}
use shmipc_go.StreamPool.Ring.{window, contents, IsPool, Pushes, Pops, push-contents, pop-contents}

abbrev wrapped : StreamPool
wrapped = record { streams = 7 ∷ 8 ∷ 9 ∷ []; head = 2; tail = 4; capacity = 3 }

wrapped-IsPool : IsPool wrapped
wrapped-IsPool = record {
  slots = refl;
  ordered = omega arith;
  bounded = omega arith;
  in_range = omega arith;
}

contents-wrapped : contents wrapped ≡ 9 ∷ 7 ∷ []
unfolding window
contents-wrapped = refl

push-contents_example :
    Pushes 3 5 (contents wrapped) ((push 5 wrapped).0) (contents ((push 5 wrapped).1))
    × IsPool ((push 5 wrapped).1)
push-contents_example = push-contents 5 wrapped wrapped-IsPool (omega arith)

pop-contents_example :
    Pops (contents wrapped) ((pop wrapped).0) (contents ((pop wrapped).1))
    × IsPool ((pop wrapped).1)
pop-contents_example = pop-contents wrapped wrapped-IsPool
