-- ===== src/Base/Go.antt =====
-- Go's `int` as a 64-bit pattern, slicing with its bounds check, and a call that may panic.
use libatbus_go.Base.Tests.{ltb, leb, if◌then◌else◌}
use libatbus_go.Base.Lists.{length}
use libatbus_go.Base.Slices.{slice}
use Prim.Native.Nat.{ℕ, ◌+◌, ◌%◌, ◌^◌}
use mathlib.Core.Bool.{Bool, ◌&&◌}
use mathlib.Core.List.{List}

-- What a call does: it returns, or it panics.
pub data Outcome {ℓ} (A : Type ℓ) : Type ℓ where
  returns : A → Outcome A
  panics : Outcome A

infixl 5 ◌>>=◌
abbrev pub ◌>>=◌ {ℓ κ} : {A : Type ℓ} {B : Type κ} → Outcome A → (A → Outcome B) → Outcome B
returns a >>= f = f a
panics >>= f = panics

-- `a < b` on two patterns of 64 bits, read as signed numbers: adding 2 ^ 63 keeps their order.
abbrev pub slt : ℕ → ℕ → Bool
slt a b = ltb ((a + 2 ^ 63) % 2 ^ 64) ((b + 2 ^ 63) % 2 ^ 64)

-- `xs[lo:hi]`. A bound that is negative as an `int` is a pattern above every length.
abbrev pub checked_slice {ℓ} : {A : Type ℓ} → ℕ → ℕ → List A → Outcome (List A)
checked_slice lo hi xs =
    if leb lo hi && leb hi (length xs) then returns (slice lo hi xs) else panics
