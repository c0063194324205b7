-- ===== src/Buffer/Vint/Tests.antt =====
-- Concrete runs, and the theorems at concrete inputs.
use libatbus_go.Base.{ℕ, ◌*◌, ◌^◌, ◌≤◌, ◌<◌, ◌≡◌, ◌⊎◌, refl, arith, List, [], ◌∷◌}
use libatbus_go.Buffer.Vint.{
  read_vint_loop, read_vint, write_group, write_groups, swap_loop, first_group, finish_write,
  write_vint, vint_size_loop, vint_encoded_size,
}
use libatbus_go.Buffer.Vint.Encoding.{high_groups}
use libatbus_go.Buffer.Vint.Write.{write_vint_fits, write_vint_short}
use libatbus_go.Buffer.Vint.Read.{read_vint_complete, read_vint_incomplete, read_vint_prefix}
use libatbus_go.Buffer.Vint.RoundTrip.{read_vint-write_vint, vint_encoded_size_bounds}

abbrev slice_of_four : List ℕ
slice_of_four = 7 ∷ 7 ∷ 7 ∷ 7 ∷ []

write_300 : write_vint 300 slice_of_four ≡ (2, 0x82 ∷ 0x2c ∷ 7 ∷ 7 ∷ [])
unfolding write_vint write_group write_groups swap_loop first_group finish_write
write_300 = refl

read_300 : read_vint (0x82 ∷ 0x2c ∷ 7 ∷ []) ≡ (300, 2)
unfolding read_vint read_vint_loop
read_300 = refl

-- An eleventh group pushes the first one out of the 64 bits.
read_wraps :
    read_vint (0x81 ∷ 0x80 ∷ 0x80 ∷ 0x80 ∷ 0x80 ∷ 0x80 ∷ 0x80 ∷ 0x80 ∷ 0x80 ∷ 0x80 ∷ 0x05 ∷ [])
    ≡ (5, 11)
unfolding read_vint read_vint_loop
read_wraps = refl

size_300 : vint_encoded_size 300 ≡ 2
unfolding vint_encoded_size vint_size_loop
size_300 = refl

write_vint_fits_example :
    write_vint 300 slice_of_four ≡ (vint_encoded_size 300, 0x82 ∷ 0x2c ∷ 7 ∷ 7 ∷ [])
unfolding vint_encoded_size vint_size_loop high_groups
write_vint_fits_example = write_vint_fits 300 slice_of_four (omega arith) (omega arith)

write_vint_short_example : (write_vint 300 (7 ∷ [])).0 ≡ 0
unfolding vint_encoded_size vint_size_loop
write_vint_short_example = write_vint_short 300 (7 ∷ []) (omega arith) (omega arith)

read_vint-write_vint_example :
    read_vint (write_vint 300 slice_of_four).1 ≡ (300, vint_encoded_size 300)
unfolding vint_encoded_size vint_size_loop
read_vint-write_vint_example = read_vint-write_vint 300 slice_of_four (omega arith) (omega arith)

vint_encoded_size_bounds_example :
    let n = vint_encoded_size 300 in
    (1 ≤ n) × (n ≤ 10) × (300 < 128 ^ n) × ((n ≡ 1) ⊎ (128 ^ n ≤ 128 * 300))
vint_encoded_size_bounds_example = vint_encoded_size_bounds 300 (omega arith)

read_vint_complete_example : read_vint (0x82 ∷ 0x2c ∷ 7 ∷ []) ≡ (300, 2)
read_vint_complete_example =
    read_vint_complete (0x82 ∷ []) 0x2c (7 ∷ []) (omega arith) (omega arith)

read_vint_incomplete_example : read_vint (0x82 ∷ 0xac ∷ []) ≡ (0, 0)
read_vint_incomplete_example = read_vint_incomplete (0x82 ∷ 0xac ∷ []) (omega arith)

cut_300 : read_vint (0x82 ∷ []) ≡ (0, 0)
unfolding high_groups
cut_300 = read_vint_prefix 300 (0x82 ∷ []) 0x2c [] refl
