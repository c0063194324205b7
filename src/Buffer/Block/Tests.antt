-- ===== src/Buffer/Block/Tests.antt =====
-- Concrete runs, and the theorems at concrete inputs.
use libatbus_go.Base.{◌-◌, ◌≡◌, refl, arith, [], ◌∷◌, some, none, pos, negsuc, drop}
use libatbus_go.Buffer.Block.{
  BufferBlock, new_buffer_block, new_buffer_block_from_slice, unread, size, raw_size, pop, reset,
  set_used, padding_size, head_size, full_size,
}
use libatbus_go.Buffer.Block.Laws.{IsValid, pop_lem}

abbrev block : BufferBlock
block = record { bytes = 1 ∷ 2 ∷ 3 ∷ 4 ∷ []; used = 1 }

runs :
    (new_buffer_block (negsuc 3) ≡ none)
    × (new_buffer_block_from_slice (some []) ≡ some (record { bytes = []; used = 0 }))
    × (unread (set_used (pos 9) block) ≡ [])
    × (unread (reset block) ≡ 1 ∷ 2 ∷ 3 ∷ 4 ∷ [])
    × (raw_size block ≡ 4)
    × (full_size 17 ≡ 48)
unfolding new_buffer_block new_buffer_block_from_slice unread set_used reset raw_size full_size
    head_size padding_size
runs = (refl, refl, refl, refl, refl, refl)

pop_lem_example :
    IsValid (pop 2 block)
    × (unread (pop 2 block) ≡ drop 2 (unread block))
    × (size (pop 2 block) ≡ size block - 2)
    × ((pop 2 block).bytes ≡ block.bytes)
pop_lem_example = pop_lem 2 block (omega arith)
