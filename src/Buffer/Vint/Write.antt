-- ===== src/Buffer/Vint/Write.antt =====
-- `WriteVint` writes the encoding at the front of the slice if it fits, and reports 0 if not.
use libatbus_go.Base.{
  ℕ, zero, suc, ◌+◌, ◌/◌, ◌%◌, ◌^◌, ◌≤◌, ◌<◌, ◌≡◌, ◌≢◌, refl, ap, ap₂, ◌∙◌, arith,
}
use libatbus_go.Base.{List, [], ◌∷◌, ◌++◌, length, length-append, reverse}
use libatbus_go.Base.{drop, lt→ltb}
use libatbus_go.Base.Bits.{low_bits}
use libatbus_go.Buffer.Vint.{
  IsU64, Writer, write_groups, first_group, finish_write, write_vint, vint_size_loop,
  vint_encoded_size,
}
use libatbus_go.Buffer.Vint.Encoding.{high_groups, high_groups-pos, encoding, length-reverse}
use native.Mathlib.Numerals.{add-one}
use mathlib.Core.List.{reverse-cons}
use libatbus_go.Buffer.Vint.Loops.{writer, write_groups_fits, write_groups_short, swap_loop-reverse}

-- The bytes after the first loop, put in order.
finish_write_lem :
    (g : ℕ) (high back : List ℕ)
    → finish_write (writer 0 ((g ∷ high) ++ back) (1 + length high) (0 + length high))
      ≡ (length high + 1, (reverse high ++ (g ∷ [])) ++ back)
unfolding finish_write
finish_write_lem g [] back = refl
finish_write_lem g (h ∷ high) back =
    let n = length (h ∷ high) in
    let swapped = swap_loop-reverse (0 + n) 0 (0 + n) [] (g ∷ h ∷ high) back refl in
    rw (lt→ltb 0 (0 + n) (omega arith), swapped (omega arith) (omega arith), reverse-cons g)
      (ap₂ (λ (k : ℕ) (out : List ℕ). (k, out)) (omega arith) refl)

write_vint_starts :
    (v b : ℕ) (rest : List ℕ)
    → write_vint v (b ∷ rest)
      ≡ finish_write
          (write_groups (suc (length rest)) (writer (v / 128) ((v % 128 ∷ []) ++ rest) 1 0))
unfolding write_vint first_group
write_vint_starts v b rest = ground (arith, low_bits v)

vint_size_loop_lem :
    (fuel v size : ℕ)
    → v < 128 ^ fuel
    → vint_size_loop fuel v size ≡ size + length (high_groups fuel v)
unfolding vint_size_loop high_groups
vint_size_loop_lem zero v size h = omega arith
vint_size_loop_lem (suc fuel) v size h =
    ground (arith, vint_size_loop_lem fuel (v / 128) (size + 1) (omega arith))

pub length-encoding : (k v : ℕ) → length (encoding k v) ≡ length (high_groups k (v / 128)) + 1
length-encoding k v =
    length-append (reverse (high_groups k (v / 128))) (v % 128 ∷ [])
    ∙ omega (arith, length-reverse (high_groups k (v / 128)))

vint_encoded_size_of_pos : (v : ℕ) → v ≢ 0 → vint_encoded_size v ≡ vint_size_loop 10 v 0
unfolding vint_encoded_size
vint_encoded_size_of_pos v h = ground arith

-- `VintEncodedSize` is the length of the encoding.
pub vint_encoded_size_lem : (v : ℕ) → IsU64 v → vint_encoded_size v ≡ length (encoding 9 v)
vint_encoded_size_lem zero h = unfold vint_encoded_size high_groups in refl
vint_encoded_size_lem (suc v) h = omega (
  arith,
  vint_encoded_size_of_pos (suc v) (omega arith),
  vint_size_loop_lem 10 (suc v) 0 (omega arith),
  ap length (high_groups-pos 9 (suc v) (omega arith)),
  length-encoding 9 (suc v),
)

-- For a uint64 and a slice of at least `VintEncodedSize` bytes, `WriteVint` returns that size, puts
-- the encoding at the front of the slice and leaves the bytes behind it alone.
pub write_vint_fits :
    (v : ℕ) (buf : List ℕ)
    → IsU64 v
    → vint_encoded_size v ≤ length buf
    → write_vint v buf ≡ (vint_encoded_size v, encoding 9 v ++ drop (vint_encoded_size v) buf)
write_vint_fits v [] h fits = absurd (omega (arith, vint_encoded_size_lem v h, length-encoding 9 v))
write_vint_fits v (b ∷ rest) h fits =
    let high = high_groups 9 (v / 128) in
    let size : vint_encoded_size v ≡ length high + 1 =
      vint_encoded_size_lem v h ∙ length-encoding 9 v in
    rw (size, add-one)
      (write_vint_starts v b rest
        ∙ ap finish_write (
            write_groups_fits 9 (suc (length rest)) (v / 128) 1 0 (v % 128 ∷ []) rest (omega arith)
              (omega arith) (omega arith) (omega arith) (omega arith))
        ∙ finish_write_lem (v % 128) high (drop (length high) rest)
        ∙ ap₂ (λ (n : ℕ) (out : List ℕ). (n, out)) (omega arith) refl)

finish_write_left : (w : Writer) → w.value ≢ 0 → (finish_write w).0 ≡ 0
unfolding finish_write
finish_write_left w h = ground arith

-- For a uint64 and a shorter slice, `WriteVint` returns 0.
pub write_vint_short :
    (v : ℕ) (buf : List ℕ) → IsU64 v → length buf < vint_encoded_size v → (write_vint v buf).0 ≡ 0
write_vint_short v [] h short = unfold write_vint in refl
write_vint_short v (b ∷ rest) h short =
    let fewer : length rest < length (high_groups 9 (v / 128)) =
      omega (arith, vint_encoded_size_lem v h, length-encoding 9 v) in
    ap (λ (p : ℕ × List ℕ). p.0) (write_vint_starts v b rest)
    ∙ finish_write_left _ (
        write_groups_short 9 (suc (length rest)) (v / 128) 1 0 (v % 128 ∷ []) rest (omega arith)
          (omega arith) (omega arith) (omega arith) fewer)
