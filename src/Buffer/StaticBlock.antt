-- ===== src/Buffer/StaticBlock.antt =====
-- buffer/static_buffer_block.go: a temporary buffer with a count of the bytes used, and the padding
-- of its size. A nil block is `none`; `int` arguments that the code tests for a sign are integers.
-- `x & ^(2 ^ k - 1)` rounds down to a multiple of `2 ^ k`, and `x >> k` divides by `2 ^ k`. Sizes are
-- far below 2 ^ 63, so the sums do not wrap.
pub mod Laws
pub mod Padding
mod Tests
use libatbus_go.Base.{
  ℕ, zero, suc, ◌+◌, ◌-◌, ◌*◌, ◌/◌, ◌%◌, ◌^◌, List, [], ◌∷◌, Option, none, some, Bool, true, false,
  ◌||◌, ℤ, pos, negsuc,
}
use libatbus_go.Base.{
  length, take, drop, copy_at, replicate, ltb, leb, ◌==◌, if◌then◌else◌, Outcome, returns,
  checked_slice,
}

-- `StaticBufferBlock`
pub record StaticBufferBlock : Type 0 where
  pub bytes : List ℕ
  pub capacity : ℕ
  pub used : ℕ

-- `if used < 0 { used = 0 }; if used > size { used = size }`
abbrev pub clamp_used : ℕ → ℤ → ℕ
clamp_used size (negsuc n) = 0
clamp_used size (pos n) = if ltb size n then size else n

-- `NewStaticBufferBlock`, `NewStaticBufferBlockWithUsed`
unfoldable pub new_static_buffer_block : ℤ → Option StaticBufferBlock
new_static_buffer_block (negsuc n) = none
new_static_buffer_block (pos size) =
    if size == 0
    then none
    else some (record { bytes = replicate size 0; capacity = size; used = 0 })

unfoldable pub new_static_buffer_block_with_used : ℤ → ℤ → Option StaticBufferBlock
new_static_buffer_block_with_used (negsuc n) used = none
new_static_buffer_block_with_used (pos size) used =
    if size == 0
    then none
    else some (record { bytes = replicate size 0; capacity = size; used = clamp_used size used })

-- `NewStaticBufferBlockFromData`, of a slice that is not nil
unfoldable pub new_static_buffer_block_from_data : List ℕ → Option StaticBufferBlock
new_static_buffer_block_from_data bytes =
    if length bytes == 0
    then none
    else some (record {
      bytes = copy_at 0 (replicate (length bytes) 0) bytes;
      capacity = length bytes;
      used = length bytes;
    })

-- `SetUsed`
unfoldable pub set_used_clamped : ℤ → StaticBufferBlock → StaticBufferBlock
set_used_clamped used s = record s { used = clamp_used s.capacity used }

-- `MaxSpan`, and `UsedSpan` with nil as the empty slice
unfoldable pub max_span : StaticBufferBlock → Outcome (List ℕ)
max_span s = checked_slice 0 s.capacity s.bytes

unfoldable pub used_span : StaticBufferBlock → Outcome (List ℕ)
used_span s = if s.used == 0 then returns [] else checked_slice 0 s.used s.bytes

-- `IsEmpty`, `Reset`
unfoldable pub is_unused : StaticBufferBlock → Bool
is_unused s = s.used == 0

unfoldable pub reset_used : StaticBufferBlock → StaticBufferBlock
reset_used s = record s { used = 0 }

-- `if n > available { n = available }`
abbrev pub at_most : ℕ → ℕ → ℕ
at_most available n = if ltb available n then available else n

-- `Write`
unfoldable pub write_static : List ℕ → StaticBufferBlock → ℕ × StaticBufferBlock
write_static bytes s =
    let n = at_most (s.capacity - s.used) (length bytes) in
    if length bytes == 0 || leb s.capacity s.used
    then (0, s)
    else (n, record s { bytes = copy_at s.used s.bytes (take n bytes); used = s.used + n })

-- `WriteAt`
unfoldable pub write_static_at : ℤ → List ℕ → StaticBufferBlock → ℕ × StaticBufferBlock
write_static_at (negsuc o) bytes s = (0, s)
write_static_at (pos offset) bytes s =
    let n = at_most (s.capacity - offset) (length bytes) in
    if leb s.capacity offset || length bytes == 0
    then (0, s)
    else (n, record s { bytes = copy_at offset s.bytes (take n bytes) })

-- `bitWidth`: an `int` has at most 63 bits.
unfoldable pub bit_width_loop : ℕ → ℕ → ℕ
bit_width_loop zero x = 0
bit_width_loop (suc fuel) x =
    let rest = bit_width_loop fuel (x / 2) in if x == 0 then 0 else suc rest

abbrev pub bit_width : ℕ → ℕ
bit_width x = bit_width_loop 64 x

-- The bin of a number of words, and its size
abbrev pub bin_of : ℕ → ℕ
bin_of wsize =
    let b = bit_width (wsize - 1) in
    if ltb b 3 then wsize else b * 4 + ((wsize - 1) / 2 ^ (b - 2)) % 4

abbrev pub bin_size : ℕ → ℕ
bin_size bin =
    if ltb (bin / 4) 3 then bin else 2 ^ (bin / 4 - 1) + (bin % 4 + 1) * 2 ^ (bin / 4 - 3)

-- `MimallocPaddingSize`
unfoldable pub mimalloc_padding_size : ℤ → ℕ
mimalloc_padding_size (negsuc n) = 8
mimalloc_padding_size (pos n) =
    if n == 0
    then 8
    else if leb n 64
    then (n + 8 - 1) / 8 * 8
    else if leb n 512
    then (n + 15) / 16 * 16
    else if leb n 8192
    then bin_size (bin_of ((n + 8 - 1) / 8)) * 8
    else (n + 4096 - 1) / 4096 * 4096

-- `AllocateTemporaryBufferBlock`
unfoldable pub allocate_temporary_buffer_block : ℤ → Option StaticBufferBlock
allocate_temporary_buffer_block (negsuc n) = none
allocate_temporary_buffer_block (pos n) =
    let size = mimalloc_padding_size (pos n) in
    if n == 0 then none else some (record { bytes = replicate size 0; capacity = size; used = n })
