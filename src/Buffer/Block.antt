-- ===== src/Buffer/Block.antt =====
-- buffer/buffer_block.go: a slice of bytes of which the first `used` have been popped.
-- A nil block is `none`. `Pop` is modelled for sizes that are not negative: the manager, which calls
-- it, never passes more than the block holds.
pub mod Laws
mod Tests
use libatbus_go.Base.{ℕ, ◌+◌, ◌-◌, ◌*◌, ◌/◌, ◌%◌, ◌≤◌, List, [], Option, none, some, ℤ, pos, negsuc}
use libatbus_go.Base.{length, drop, overwrite, replicate, ltb, leb, ◌==◌, if◌then◌else◌}

pub record BufferBlock : Type 0 where
  pub bytes : List ℕ
  pub used : ℕ

-- `NewBufferBlock`
unfoldable pub new_buffer_block : ℤ → Option BufferBlock
new_buffer_block (negsuc n) = none
new_buffer_block (pos size) =
    if size == 0 then none else some (record { bytes = replicate size 0; used = 0 })

-- `NewBufferBlockFromSlice`; a nil slice is `none`.
unfoldable pub new_buffer_block_from_slice : Option (List ℕ) → Option BufferBlock
new_buffer_block_from_slice none = none
new_buffer_block_from_slice (some bytes) = some (record { bytes = bytes; used = 0 })

-- `Data`: the bytes that are not popped.
unfoldable pub unread : BufferBlock → List ℕ
unread b = if leb (length b.bytes) b.used then [] else drop b.used b.bytes

-- `Size`: `remaining < 0` is `len(b.data) < b.used`.
unfoldable pub size : BufferBlock → ℕ
size b = if ltb (length b.bytes) b.used then 0 else length b.bytes - b.used

-- `RawSize`
unfoldable pub raw_size : BufferBlock → ℕ
raw_size b = length b.bytes

-- `Pop`: the block afterwards; the code also returns `Data` of it.
unfoldable pub pop : ℕ → BufferBlock → BufferBlock
pop s b =
    if ltb (length b.bytes) (b.used + s)
    then record b { used = length b.bytes }
    else record b { used = b.used + s }

-- `Reset`
unfoldable pub reset : BufferBlock → BufferBlock
reset b = record b { used = 0 }

-- `SetUsed`
unfoldable pub set_used : ℤ → BufferBlock → BufferBlock
set_used (negsuc n) b = record b { used = 0 }
set_used (pos used) b = record b {
  used = if ltb (length b.bytes) used then length b.bytes else used;
}

-- `Clone`
unfoldable pub clone : BufferBlock → BufferBlock
clone b = record { bytes = overwrite (replicate (length b.bytes) 0) b.bytes; used = b.used }

abbrev pub data_align_size : ℕ
data_align_size = 8

-- `PaddingSize`
unfoldable pub padding_size : ℕ → ℕ
padding_size s = let pl = s % data_align_size in if pl == 0 then s else s + data_align_size - pl

-- `HeadSize`
unfoldable pub head_size : ℕ → ℕ
head_size s = padding_size 24

-- `FullSize`
unfoldable pub full_size : ℕ → ℕ
full_size s = head_size s + padding_size s
