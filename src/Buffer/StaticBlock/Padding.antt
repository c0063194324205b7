-- ===== src/Buffer/StaticBlock/Padding.antt =====
-- The padding of a size.
use libatbus_go.Base.{
  ℕ, zero, suc, ◌+◌, ◌-◌, ◌*◌, ◌/◌, ◌%◌, ◌^◌, ◌≤◌, ◌<◌, ◌≡◌, refl, arith, subst, pos, false,
}
use libatbus_go.Base.{ltb, leb, ≢→==, le→leb, ◌==◌}
use libatbus_go.Buffer.StaticBlock.{
  bit_width_loop, bit_width, bin_of, bin_size, mimalloc_padding_size,
}
use native.Mathlib.Decide.{dec_lt}
use native.Mathlib.Nat.{pow-succ', one-le-pow}

bit_width_loop-zero : (fuel : ℕ) → bit_width_loop fuel 0 ≡ 0
unfolding bit_width_loop
bit_width_loop-zero zero = refl
bit_width_loop-zero (suc fuel) = refl

-- A number from `2 ^ b` up to twice that has `suc b` bits.
bit_width_loop_lem :
    (b fuel x : ℕ) → b < fuel → 2 ^ b ≤ x → x < 2 * 2 ^ b → bit_width_loop fuel x ≡ suc b
unfolding bit_width_loop
bit_width_loop_lem b zero x h lo hi = absurd (omega arith)
bit_width_loop_lem zero (suc fuel) x h lo hi =
    let one : x ≡ 1 = omega arith in rw (one, bit_width_loop-zero fuel) refl
bit_width_loop_lem (suc b) (suc fuel) x h lo hi =
    let twice : 2 ^ suc b ≡ 2 * 2 ^ b = pow-succ' 2 b in
    let some_bit : 0 < 2 ^ b = one-le-pow b 2 (omega arith) in
    let half =
      bit_width_loop_lem b fuel (x / 2) (omega arith) (omega (arith, twice, lo))
        (omega (arith, twice, hi)) in
    let ne : (x == 0) ≡ false = ≢→== x 0 (λ e. omega (arith, twice, some_bit, lo, e)) in
    rw (ne, half) refl

-- The size of the bin of `x + 1` words, where `x` has `suc b` bits and `b` is at least 2: the two
-- bits behind the first choose it.
bin_size_lem :
    (b x : ℕ)
    → 2 ≤ b
    → b < 64
    → 2 ^ b ≤ x
    → x < 2 * 2 ^ b
    → bin_size (bin_of (x + 1)) ≡ 2 ^ b + ((x / 2 ^ (b - 1)) % 4 + 1) * 2 ^ (b - 2)
bin_size_lem b x h fuel lo hi =
    let q = (x / 2 ^ (b - 1)) % 4 in
    let width : bit_width x ≡ suc b = bit_width_loop_lem b 64 x fuel lo hi in
    let back : x + 1 - 1 ≡ x = omega arith in
    let shift : suc b - 2 ≡ b - 1 = omega arith in
    let wide : ltb (suc b) 3 ≡ false = ground arith in
    let bin : bin_of (x + 1) ≡ suc b * 4 + q = rw (back, width, shift, wide) refl in
    let high : (suc b * 4 + q) / 4 ≡ suc b = omega arith in
    let low : (suc b * 4 + q) % 4 ≡ q = omega arith in
    let e1 : suc b - 1 ≡ b = omega arith in
    let e3 : suc b - 3 ≡ b - 2 = omega arith in rw (bin, high, low, wide, e1, e3) refl

-- Between 65 and 1024 words the bin has room for the words.
bin_room : (x : ℕ) → 64 ≤ x → x < 1024 → x + 1 ≤ bin_size (bin_of (x + 1))
bin_room x lo hi = elim (dec_lt x 128) [
  | yes a ↦ rw (bin_size_lem 6 x (omega arith) (omega arith) lo a) (omega arith)
  | no a ↦ elim (dec_lt x 256) [
    | yes b ↦ rw (bin_size_lem 7 x (omega arith) (omega arith) (omega arith) b) (omega arith)
    | no b ↦ elim (dec_lt x 512) [
      | yes c ↦ rw (bin_size_lem 8 x (omega arith) (omega arith) (omega arith) c) (omega arith)
      | no c ↦ rw (bin_size_lem 9 x (omega arith) (omega arith) (omega arith) hi) (omega arith)
    ]
  ]
]

le-false : (a b : ℕ) → b < a → leb a b ≡ false
le-false a b h = ground arith

-- `MimallocPaddingSize` of a size above 0 is at least that size, and a multiple of 8.
pub mimalloc_padding_size_lem :
    (n : ℕ) → 0 < n → (n ≤ mimalloc_padding_size (pos n)) × (mimalloc_padding_size (pos n) % 8 ≡ 0)
unfolding mimalloc_padding_size
mimalloc_padding_size_lem n h = elim (dec_lt 512 n) [
  | yes big ↦ elim (dec_lt 8192 n) [
    | yes huge ↦ ground arith
    | no medium ↦
        let w = (n + 8 - 1) / 8 in
        let back : w - 1 + 1 ≡ w = omega arith in
        let room : w ≤ bin_size (bin_of w) =
          subst (λ t. t ≤ bin_size (bin_of t)) back
            (bin_room (w - 1) (omega arith) (omega arith)) in
        rw
          (
            ≢→== n 0 (λ e. omega (arith, e, h)),
            le-false n 64 (omega arith),
            le-false n 512 (omega arith),
            le→leb n 8192 (omega arith),
          )
          (omega (arith, room), omega arith)
  ]
  | no small ↦ ground arith
]
