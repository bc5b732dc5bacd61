-- ===== src/Command/Laws.antt =====
-- What a run that ended well says of its first part.
use shmipc_go.Prelude.{◌≡◌, refl}
use shmipc_go.Memory.{Mem}
use shmipc_go.Command.{Outcome, ok, err, panic, Command, and_then}

pub and_then-eq-ok :
    {A B : Type 0} (c : Outcome A) (k : A → Command B) {b : B} {m : Mem}
    → and_then c k ≡ ok b m
    → (a : A) × (m' : Mem) × (c ≡ ok a m') × (k a m' ≡ ok b m)
and_then-eq-ok (ok a m') k h = (a, m', refl, h)
and_then-eq-ok (err e m') k h = cc
and_then-eq-ok panic k h = cc
