-- ===== src/Base/Bits.antt =====
-- The bit operations of the code as arithmetic, at variables.
use Prim.Native.Nat.{
  bit_and, bit_or, bit_and-bitwise, bit_or-bitwise, digits, max, min, ◌<◌, ◌≤◌, ◌%◌, ◌/◌, ◌*◌, ◌+◌,
  suc, zero, ℕ,
}
use mathlib.Core.Path.{◌≡◌, refl, ◌∙◌}
use mathlib.Core.Bool.{Bool, true, ◌&&◌}
use native.Mathlib.Omega.{arith}
use libatbus_go.Base.Tests.{◌==◌, ==_iff}

-- `digits` reads no more of its fuel than the left operand has: two amounts that suffice agree.
settled :
    (rest : ℕ → ℕ) (join : ℕ → ℕ → ℕ) (x y k l : ℕ)
    → x ≤ k
    → x ≤ l
    → digits rest join k x y ≡ digits rest join l x y
settled rest join zero y zero zero hk hl = refl
settled rest join zero y zero (suc l) hk hl = refl
settled rest join zero y (suc k) zero hk hl = refl
settled rest join zero y (suc k) (suc l) hk hl = refl
settled rest join (suc x) y zero l hk hl = absurd (omega arith)
settled rest join (suc x) y (suc k) zero hk hl = absurd (omega arith)
settled rest join (suc x) y (suc k) (suc l) hk hl =
    rw (settled rest join (suc x / 2) (y / 2) k l (omega arith) (omega arith)) refl

none_and : (y : ℕ) → bit_and 0 y ≡ 0
none_and = bit_and-bitwise 0

none_or : (y : ℕ) → bit_or 0 y ≡ y
none_or = bit_or-bitwise 0

bit_and_step : (x y : ℕ) → bit_and x y ≡ bit_and (x / 2) (y / 2) * 2 + min (x % 2) (y % 2)
bit_and_step zero y = let low = none_and (y / 2) in let all = none_and y in omega arith
bit_and_step (suc x) y =
    let same =
      settled (λ t. zero) min (suc x / 2) (y / 2) x (suc x / 2) (omega arith) (omega arith) in
    let low = bit_and-bitwise (suc x / 2) (y / 2) in
    let all = bit_and-bitwise (suc x) y in omega arith

bit_or_step : (x y : ℕ) → bit_or x y ≡ bit_or (x / 2) (y / 2) * 2 + max (x % 2) (y % 2)
bit_or_step zero y = let low = none_or (y / 2) in let all = none_or y in omega arith
bit_or_step (suc x) y =
    let same = settled (λ t. t) max (suc x / 2) (y / 2) x (suc x / 2) (omega arith) (omega arith) in
    let low = bit_or-bitwise (suc x / 2) (y / 2) in
    let all = bit_or-bitwise (suc x) y in omega arith

bit_and-zero_below : (n a : ℕ) → a ≤ n → bit_and a 0 ≡ 0
bit_and-zero_below zero zero h = none_and 0
bit_and-zero_below zero (suc a) h = absurd (omega arith)
bit_and-zero_below (suc n) zero h = none_and 0
bit_and-zero_below (suc n) (suc a) h =
    omega (arith, bit_and_step (suc a) 0, bit_and-zero_below n (suc a / 2) (omega arith))

bit_and-zero : (x : ℕ) → bit_and x 0 ≡ 0
bit_and-zero x = bit_and-zero_below x x (omega arith)

bit_or-zero_below : (n a : ℕ) → a ≤ n → bit_or a 0 ≡ a
bit_or-zero_below zero zero h = none_or 0
bit_or-zero_below zero (suc a) h = absurd (omega arith)
bit_or-zero_below (suc n) zero h = none_or 0
bit_or-zero_below (suc n) (suc a) h =
    omega (arith, bit_or_step (suc a) 0, bit_or-zero_below n (suc a / 2) (omega arith))

bit_or-zero : (a z : ℕ) → z ≡ 0 → bit_or a z ≡ a
bit_or-zero a z h = rw h (bit_or-zero_below a a (omega arith))

-- The masks of the low bits, one bit after the other.
low_1 : (a : ℕ) → bit_and a 1 ≡ a % 2
low_1 a = omega (arith, bit_and_step a 1, bit_and-zero (a / 2))

low_3 : (a : ℕ) → bit_and a 3 ≡ a % 4
low_3 a = omega (arith, bit_and_step a 3, low_1 (a / 2))

low_7 : (a : ℕ) → bit_and a 7 ≡ a % 8
low_7 a = omega (arith, bit_and_step a 7, low_3 (a / 2))

low_15 : (a : ℕ) → bit_and a 15 ≡ a % 16
low_15 a = omega (arith, bit_and_step a 15, low_7 (a / 2))

low_31 : (a : ℕ) → bit_and a 31 ≡ a % 32
low_31 a = omega (arith, bit_and_step a 31, low_15 (a / 2))

low_63 : (a : ℕ) → bit_and a 63 ≡ a % 64
low_63 a = omega (arith, bit_and_step a 63, low_31 (a / 2))

-- `x & 0x7F`
pub low_bits : (a : ℕ) → bit_and a 0x7f ≡ a % 128
low_bits a = omega (arith, bit_and_step a 127, low_63 (a / 2))

-- One bit on each side of `|`, where the low bit of the left is clear.
or_double : (a k y : ℕ) → a ≡ k * 2 → bit_or a y ≡ bit_or k (y / 2) * 2 + y % 2
or_double a k y e = let half : a / 2 ≡ k = omega arith in bit_or_step a y ∙ rw half (omega arith)

or_2 : (k y : ℕ) → y < 2 → bit_or (k * 2) y ≡ k * 2 + y
or_2 k y h = omega (arith, or_double (k * 2) k y (omega arith), bit_or-zero k (y / 2) (omega arith))

or_4 : (k y : ℕ) → y < 4 → bit_or (k * 4) y ≡ k * 4 + y
or_4 k y h = omega (arith, or_double (k * 4) (k * 2) y (omega arith), or_2 k (y / 2) (omega arith))

or_8 : (k y : ℕ) → y < 8 → bit_or (k * 8) y ≡ k * 8 + y
or_8 k y h = omega (arith, or_double (k * 8) (k * 4) y (omega arith), or_4 k (y / 2) (omega arith))

or_16 : (k y : ℕ) → y < 16 → bit_or (k * 16) y ≡ k * 16 + y
or_16 k y h =
    omega (arith, or_double (k * 16) (k * 8) y (omega arith), or_8 k (y / 2) (omega arith))

or_32 : (k y : ℕ) → y < 32 → bit_or (k * 32) y ≡ k * 32 + y
or_32 k y h =
    omega (arith, or_double (k * 32) (k * 16) y (omega arith), or_16 k (y / 2) (omega arith))

or_64 : (k y : ℕ) → y < 64 → bit_or (k * 64) y ≡ k * 64 + y
or_64 k y h =
    omega (arith, or_double (k * 64) (k * 32) y (omega arith), or_32 k (y / 2) (omega arith))

-- `x << 7 | y` for a group `y` of seven bits
pub or_group : (k y : ℕ) → y < 128 → bit_or (k * 128) y ≡ k * 128 + y
or_group k y h =
    omega (arith, or_double (k * 128) (k * 64) y (omega arith), or_64 k (y / 2) (omega arith))

-- A test that holds at every number below `k`, found by running it.
passes : (ℕ → Bool) → ℕ → Bool
passes test zero = true
passes test (suc k) = passes test k && test k

passes_at : (test : ℕ → Bool) (k y : ℕ) → y < k → passes test k ≡ true → test y ≡ true
unfolding passes
passes_at test zero y below run = absurd (omega arith)
passes_at test (suc k) y below run = ground (arith, passes_at test k y)

top_bit_table : passes (λ x. bit_and x 0x80 == x / 128 * 128) 256 ≡ true
unfolding passes
top_bit_table = refl

-- `b & 0x80` of a byte
pub top_bit : (b : ℕ) → b < 256 → bit_and b 0x80 ≡ b / 128 * 128
top_bit b h = (==_iff _ (b / 128 * 128)).0 (passes_at _ 256 b h top_bit_table)

set_top_bit_table : passes (λ x. bit_or 0x80 x == x + 128) 128 ≡ true
unfolding passes
set_top_bit_table = refl

-- `0x80 | g` for a group `g` of seven bits
pub set_top_bit : (g : ℕ) → g < 128 → bit_or 0x80 g ≡ g + 128
set_top_bit g h = (==_iff _ (g + 128)).0 (passes_at _ 128 g h set_top_bit_table)
