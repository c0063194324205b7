-- ===== src/Buffer/StaticBlock/Tests.antt =====
-- Temporary buffers on small inputs.
use libatbus_go.Base.{ℕ, ◌%◌, ◌≤◌, ◌≡◌, refl, arith, List, [], ◌∷◌, some, pos}
use libatbus_go.Buffer.StaticBlock.{
  StaticBufferBlock, write_static, allocate_temporary_buffer_block, mimalloc_padding_size,
  bit_width_loop,
}
use libatbus_go.Buffer.StaticBlock.Padding.{mimalloc_padding_size_lem}
use libatbus_go.Buffer.StaticBlock.Laws.{IsSound, used_bytes, write_static_lem, allocate-IsSound}

abbrev half_full : StaticBufferBlock
half_full = record { bytes = 1 ∷ 2 ∷ 0 ∷ 0 ∷ []; capacity = 4; used = 2 }

half_full-IsSound : IsSound half_full
half_full-IsSound = record { filled = refl; within = omega arith }

abbrev more : List ℕ
more = 3 ∷ 4 ∷ 5 ∷ []

write_static_lem_example :
    ((write_static more half_full).0 ≡ 2)
    × IsSound (write_static more half_full).1
    × ((write_static more half_full).1.capacity ≡ 4)
    × (used_bytes (write_static more half_full).1 ≡ 1 ∷ 2 ∷ 3 ∷ 4 ∷ [])
write_static_lem_example = write_static_lem more half_full half_full-IsSound

allocate-IsSound_example :
    (s : StaticBufferBlock) × (allocate_temporary_buffer_block (pos 100) ≡ some s)
    × IsSound s
    × (s.used ≡ 100)
allocate-IsSound_example = allocate-IsSound 100 (omega arith)

mimalloc_padding_size_lem_example :
    (700 ≤ mimalloc_padding_size (pos 700)) × (mimalloc_padding_size (pos 700) % 8 ≡ 0)
mimalloc_padding_size_lem_example = mimalloc_padding_size_lem 700 (omega arith)

-- 513 bytes are padded to 896, by three quarters.
pads_513 : mimalloc_padding_size (pos 513) ≡ 896
unfolding mimalloc_padding_size bit_width_loop
pads_513 = refl

pads_8192 : mimalloc_padding_size (pos 8192) ≡ 8192
unfolding mimalloc_padding_size bit_width_loop
pads_8192 = refl
