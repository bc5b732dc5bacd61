-- ===== src/Command.antt =====
-- Code that reads and writes memory: it ends with a value, with an error, or with a panic, and
-- an error keeps what was written before it. Go's byte slices are windows on the memory.
pub mod Laws
pub mod Ensures
use shmipc_go.Prelude.{
  ℕ, ◌+◌, ◌-◌, ◌%◌, ◌^◌, Bool, true, false, ◌&&◌, leb, ltb, ◌==◌, if◌then◌else◌,
}
use shmipc_go.Errors.{Error}
use shmipc_go.Memory.{Address, Mem, load, store}

pub data Outcome (A : Type 0) : Type 0 where
  ok : A → Mem → Outcome A
  err : Error → Mem → Outcome A
  panic : Outcome A

abbrev pub Command : Type 0 → Type 0
Command A = Mem → Outcome A

abbrev pub pure : {A : Type 0} → A → Command A
pure = ok

abbrev pub throw : {A : Type 0} → Error → Command A
throw = err

abbrev pub crash : {A : Type 0} → Command A
crash m = panic

module _ {A B : Type 0} where
  abbrev pub and_then : Outcome A → (A → Command B) → Outcome B
  and_then (ok a m) k = k a m
  and_then (err e m) k = err e m
  and_then panic k = panic

  infixl 5 ◌>>=◌ ◌>>◌
  abbrev pub ◌>>=◌ : Command A → (A → Command B) → Command B
  c >>= k = λ m. and_then (c m) k

  abbrev pub ◌>>◌ : Command A → Command B → Command B
  c >> d = c >>= λ _. d

-- `if failed { return err }`
abbrev pub fail_if : Bool → Error → Command (Unit {0})
fail_if true e = throw e
fail_if false e = pure tt

abbrev pub panic_if : Bool → Command (Unit {0})
panic_if true = crash
panic_if false = pure tt

-- `*(*uintW)(unsafe.Pointer(p))` of `n` bytes, and its assignment.
abbrev pub read : ℕ → Address → Command ℕ
read n a m = ok (load n m a) m

abbrev pub write : ℕ → Address → ℕ → Command (Unit {0})
write n a v m = ok tt (store n m a v)

-- A byte slice: the address of its first byte, `len` and `cap`.
pub record Bytes : Type 0 where
  pub address : Address
  pub len : ℕ
  pub cap : ℕ

-- `b[lo:hi]`
abbrev pub slice : Bytes → ℕ → ℕ → Command Bytes
slice b lo hi =
    if leb lo hi && leb hi b.cap
    then pure (record { address = b.address + lo; len = hi - lo; cap = b.cap - lo })
    else crash

-- `&b[i]`
abbrev pub at : Bytes → ℕ → Command Address
at b i = if ltb i b.len then pure (b.address + i) else crash

-- Machine words: sums, differences and order at a width of `w` bits.
abbrev pub add_word : ℕ → ℕ → ℕ → ℕ
add_word w a b = (a + b) % 2 ^ w

abbrev pub sub_word : ℕ → ℕ → ℕ → ℕ
sub_word w a b = (a + 2 ^ w - b) % 2 ^ w

-- `a <= b` of two's complement numbers: adding half the range turns it into the unsigned order.
abbrev pub signed_le : ℕ → ℕ → ℕ → Bool
signed_le w a b = leb ((a + 2 ^ (w - 1)) % 2 ^ w) ((b + 2 ^ (w - 1)) % 2 ^ w)
