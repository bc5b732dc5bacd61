-- ===== src/Command/Ensures.antt =====
-- What holds of the value of code that ends with one, along its steps.
use shmipc_go.Prelude.{◌≡◌, refl, subst, Bool, true, false, if◌then◌else◌}
use shmipc_go.Memory.{Mem}
use shmipc_go.Command.{Command, Outcome, ok, err, panic, and_then}

abbrev pub Ensures : {A : Type 0} → Outcome A → (A → Type 0) → Type 0
Ensures (ok a m) P = P a
Ensures (err e m) P = Unit {0}
Ensures panic P = Unit {0}

module _ {A B : Type 0} (Q : B → Type 0) where
  -- A step of which only the value is known.
  pub ensures-step :
      (o : Outcome A) (k : A → Command B)
      → ((a : A) (m : Mem) → Ensures (k a m) Q)
      → Ensures (and_then o k) Q
  ensures-step (ok a m) k h = h a m
  ensures-step (err e m) k h = tt
  ensures-step panic k h = tt

  -- A step of which more is known.
  pub ensures-then :
      (P : A → Type 0) (o : Outcome A) (k : A → Command B)
      → Ensures o P
      → ((a : A) (m : Mem) → P a → Ensures (k a m) Q)
      → Ensures (and_then o k) Q
  ensures-then P (ok a m) k p h = h a m p
  ensures-then P (err e m) k p h = tt
  ensures-then P panic k p h = tt

module _ {A : Type 0} (Q : A → Type 0) where
  pub ensures-if :
      (c : Bool) (x y : Command A) (m : Mem)
      → (c ≡ true → Ensures (x m) Q)
      → (c ≡ false → Ensures (y m) Q)
      → Ensures ((if c then x else y) m) Q
  ensures-if true x y m h h' = h refl
  ensures-if false x y m h h' = h' refl

  pub ensures_ok : (o : Outcome A) (a : A) (m : Mem) → Ensures o Q → o ≡ ok a m → Q a
  ensures_ok o a m h e = subst (λ r. Ensures r Q) e h
