-- ===== src/IoStream/Frame/Tests.antt =====
-- Concrete runs, and the theorems at concrete inputs, with a sum of the bytes for the hash.
use libatbus_go.Base.{
  ◌⊎◌, ℕ, ◌+◌, ◌%◌, ◌^◌, ◌≤◌, ◌<◌, ◌≡◌, refl, arith, List, [], ◌∷◌, ◌++◌, length, take, drop,
  returns, panics,
}
use libatbus_go.Buffer.Vint.{
  read_vint_loop, read_vint, write_group, write_groups, swap_loop, first_group, finish_write,
  write_vint, vint_size_loop, vint_encoded_size,
}
use libatbus_go.Buffer.Vint.Encoding.{high_groups}
use libatbus_go.IoStream.Frame.{
  pack_frame, unpack_frame, verify_hash, incomplete, uint32_value, UnpackResult,
}
use libatbus_go.IoStream.Frame.Layout.{frame_of}
use libatbus_go.IoStream.Frame.Pack.{pack_frame_fits}
use libatbus_go.IoStream.Frame.Unpack.{
  HasHeader, Judged, accepted, unpack_panics, unpack_frame_cases, unpack_frame-pack_frame,
  unpack_frame_prefix,
}

abbrev byte_sum : List ℕ → ℕ
byte_sum [] = 0
byte_sum (b ∷ bs) = (b + byte_sum bs) % 2 ^ 32

abbrev space : List ℕ
space = 9 ∷ 9 ∷ 9 ∷ 9 ∷ 9 ∷ 9 ∷ 9 ∷ 9 ∷ []

abbrev payload : List ℕ
payload = 0xff ∷ 2 ∷ []

abbrev packed : List ℕ
packed = 1 ∷ 1 ∷ 0 ∷ 0 ∷ 2 ∷ 0xff ∷ 2 ∷ []

pack_run : pack_frame byte_sum payload space ≡ (7, packed ++ (9 ∷ []))
unfolding pack_frame vint_encoded_size vint_size_loop write_vint write_group write_groups swap_loop
    first_group finish_write
pack_run = refl

unpack_run : unpack_frame byte_sum (packed ++ (9 ∷ [])) ≡ returns (accepted payload 7)
unfolding unpack_frame verify_hash read_vint read_vint_loop
unpack_run = refl

-- The length field holds 2 ^ 63.
abbrev hostile : List ℕ
hostile = 0 ∷ 0 ∷ 0 ∷ 0 ∷ 0x81 ∷ 0x80 ∷ 0x80 ∷ 0x80 ∷ 0x80 ∷ 0x80 ∷ 0x80 ∷ 0x80 ∷ 0x80 ∷ 0 ∷ []

hostile-HasHeader : HasHeader hostile (2 ^ 63) 10
unfolding read_vint read_vint_loop
hostile-HasHeader = record {
  slice_size = omega arith;
  long = omega arith;
  reads = refl;
  complete = omega arith;
}

hostile_panics : unpack_frame byte_sum hostile ≡ panics
hostile_panics = unpack_panics byte_sum hostile (2 ^ 63) 10 hostile-HasHeader (omega arith)

pack_frame_fits_example : pack_frame byte_sum payload space ≡ (
  length (frame_of byte_sum payload),
  frame_of byte_sum payload ++ drop (length (frame_of byte_sum payload)) space,
)
unfolding high_groups
pack_frame_fits_example = pack_frame_fits byte_sum payload space (omega arith) (omega arith)

packed-HasHeader : HasHeader packed 2 1
unfolding read_vint read_vint_loop
packed-HasHeader = record {
  slice_size = omega arith;
  long = omega arith;
  reads = refl;
  complete = omega arith;
}

unpack_frame_cases_example :
    ((4 + 1 + 2 < 2 ^ 63)
      × (length packed < 4 + 1 + 2)
      × (unpack_frame byte_sum packed ≡ returns incomplete))
    ⊎ (((4 + 1 + 2 ≤ length packed)
          × (result : UnpackResult) × (unpack_frame byte_sum packed ≡ returns result)
          × Judged byte_sum
              (uint32_value (take 4 packed))
              (take 2 (drop (4 + 1) packed))
              (4 + 1 + 2)
              result)
        ⊎ ((2 ^ 63 ≤ 4 + 1 + 2) × (unpack_frame byte_sum packed ≡ panics)))
unpack_frame_cases_example = unpack_frame_cases byte_sum packed 2 1 packed-HasHeader

unpack_frame-pack_frame_example :
    unpack_frame byte_sum (pack_frame byte_sum payload space).1 ≡ returns (accepted payload 7)
unfolding high_groups
unpack_frame-pack_frame_example =
    unpack_frame-pack_frame byte_sum payload space (omega arith) (omega arith) (omega arith)

unpack_frame_prefix_example :
    unpack_frame byte_sum (1 ∷ 1 ∷ 0 ∷ 0 ∷ 2 ∷ 0xff ∷ []) ≡ returns incomplete
unfolding high_groups
unpack_frame_prefix_example =
    unpack_frame_prefix byte_sum payload (1 ∷ 1 ∷ 0 ∷ 0 ∷ 2 ∷ 0xff ∷ []) 2 [] (omega arith) refl
