-- ===== src/Buffer/Vint/Read.antt =====
-- `ReadVint` on any bytes, whether `WriteVint` wrote them or not.
use libatbus_go.Base.{ℕ, zero, suc, ◌+◌, ◌-◌, ◌*◌, ◌%◌, ◌^◌, ◌≤◌, ◌<◌, ◌≡◌, refl, ap, ◌∙◌, arith}
use Prim.Native.Nat.{bit_and, bit_or}
use libatbus_go.Base.{List, [], ◌∷◌, ◌++◌, length, length-append, reverse, All, ◌==◌}
use libatbus_go.Base.{Bool-cases, inl, inr, ◌/◌}
use libatbus_go.Base.Bits.{low_bits, top_bit, or_group}
use libatbus_go.Buffer.Vint.{IsU64, shl7, read_vint_loop, read_vint}
use libatbus_go.Buffer.Vint.Encoding.{high_groups, encoding, read_vint-append_cons}
use mathlib.Core.List.{reverse-cons}

-- A byte with the continuation bit.
abbrev pub IsInner : ℕ → Type 0
IsInner b = (128 ≤ b) × (b < 256)

-- The number that the low seven bits of the bytes spell, behind `acc`.
abbrev pub horner : ℕ → List ℕ → ℕ
horner acc [] = acc
horner acc (b ∷ bs) = horner (acc * 128 + b % 128) bs

-- One round of the reader's arithmetic keeps the value modulo 2 ^ 64.
shift_in :
    (out acc b : ℕ)
    → out ≡ acc % 2 ^ 64
    → bit_or (shl7 out) (bit_and b 0x7f) ≡ (acc * 128 + b % 128) % 2 ^ 64
shift_in out acc b h =
    let e : shl7 out ≡ out % 2 ^ 57 * 128 = omega arith in
    rw (low_bits b, e) (or_group (out % 2 ^ 57) (b % 128) (omega arith) ∙ omega arith)

read_loop_complete :
    (front : List ℕ) (total last out acc : ℕ) (rest : List ℕ)
    → All IsInner front
    → last < 128
    → out ≡ acc % 2 ^ 64
    → read_vint_loop total (front ++ (last ∷ rest)) out
      ≡ (horner acc (front ++ (last ∷ [])) % 2 ^ 64, total - length rest)
unfolding read_vint_loop
read_loop_complete [] total last out acc rest inner hl h =
    rw (shift_in out acc last h) (ground (arith, top_bit last))
read_loop_complete (b ∷ front) total last out acc rest inner hl h = ground (
  arith,
  top_bit b,
  length-append front (last ∷ rest),
  shift_in out acc b h,
  read_loop_complete front total last ((acc * 128 + b % 128) % 2 ^ 64) (acc * 128 + b % 128) rest,
)

read_loop_incomplete :
    (b : ℕ) (front : List ℕ) (total out : ℕ)
    → All IsInner (b ∷ front)
    → read_vint_loop total (b ∷ front) out ≡ (0, 0)
unfolding read_vint_loop
read_loop_incomplete b [] total out h = ground (arith, top_bit b)
read_loop_incomplete b (c ∷ front) total out h =
    ground
      (arith, top_bit b, read_loop_incomplete c front total (bit_or (shl7 out) (bit_and b 0x7f)))

-- On any number of bytes with the continuation bit, then one without it, and whatever follows,
-- `ReadVint` returns the number that the low seven bits of those bytes spell, most significant
-- first, modulo 2 ^ 64, and how many bytes they are.
pub read_vint_complete :
    (front : List ℕ) (last : ℕ) (rest : List ℕ)
    → All IsInner front
    → last < 128
    → read_vint (front ++ (last ∷ rest))
      ≡ (horner 0 (front ++ (last ∷ [])) % 2 ^ 64, length front + 1)
read_vint_complete front last rest inner hl =
    read_vint-append_cons front last rest
    ∙ read_loop_complete front (length (front ++ (last ∷ rest))) last 0 0 rest inner hl refl
    ∙ ap (λ (n : ℕ). (horner 0 (front ++ (last ∷ [])) % 2 ^ 64, n))
        (omega (arith, length-append front (last ∷ rest)))

-- On bytes that all have the continuation bit, the empty slice included, it returns (0, 0).
pub read_vint_incomplete : (front : List ℕ) → All IsInner front → read_vint front ≡ (0, 0)
unfolding read_vint
read_vint_incomplete [] h = refl
read_vint_incomplete (b ∷ front) h = rw (read_loop_incomplete b front _ 0 h) (ground arith)

read_loop_bounds :
    (bytes : List ℕ) (total out : ℕ)
    → IsU64 out
    → IsU64 (read_vint_loop total bytes out).0 × ((read_vint_loop total bytes out).1 ≤ total)
unfolding read_vint_loop
read_loop_bounds [] total out h = omega arith
read_loop_bounds (b ∷ bytes) total out h =
    let out' = bit_or (shl7 out) (bit_and b 0x7f) in
    ground (arith, shift_in out out b, read_loop_bounds bytes total out')

-- Whatever the input, the value is a uint64, and no more bytes are consumed than there are.
pub read_vint_bounds :
    (bytes : List ℕ) → IsU64 (read_vint bytes).0 × ((read_vint bytes).1 ≤ length bytes)
unfolding read_vint
read_vint_bounds bytes = ground (arith, read_loop_bounds bytes (length bytes) 0)

All-append : (xs ys : List ℕ) → All IsInner xs → All IsInner ys → All IsInner (xs ++ ys)
All-append [] ys h k = k
All-append (x ∷ xs) ys h k = (h.0, All-append xs ys h.1 k)

high_groups-IsInner : (k v : ℕ) → All IsInner (reverse (high_groups k v))
unfolding high_groups
high_groups-IsInner zero v = tt
high_groups-IsInner (suc k) v = elim (Bool-cases (v == 0)) [
  | inl e ↦ rw e tt
  | inr e ↦
      rw (e, reverse-cons)
        (All-append (reverse (high_groups k (v / 128))) ((v % 128 + 128) ∷ [])
          (high_groups-IsInner k (v / 128)) (omega arith))
]

-- A list that stops before the last element of another one has only elements before the last.
All-prefix :
    (front high : List ℕ) (last x : ℕ) (back : List ℕ)
    → high ++ (last ∷ []) ≡ front ++ (x ∷ back)
    → All IsInner high
    → All IsInner front
All-prefix [] high last x back e h = tt
All-prefix (f ∷ front) [] last x back e h =
    absurd (omega (arith, ap length e, length-append front (x ∷ back)))
All-prefix (f ∷ front) (g ∷ high) last x back e h =
    ground (arith, All-prefix front high last x back)

-- On every proper prefix of the encoding of a uint64, `ReadVint` asks for more: it returns (0, 0).
pub read_vint_prefix :
    (v : ℕ) (front : List ℕ) (x : ℕ) (back : List ℕ)
    → encoding 9 v ≡ front ++ (x ∷ back)
    → read_vint front ≡ (0, 0)
read_vint_prefix v front x back e = read_vint_incomplete front (
    All-prefix front (reverse (high_groups 9 (v / 128))) (v % 128) x back e
      (high_groups-IsInner 9 (v / 128)))
