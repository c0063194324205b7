-- ===== src/Buffer/StaticBlock/Laws.antt =====
-- What the operations of a temporary buffer keep.
use libatbus_go.Base.{
  ℕ, ◌-◌, ◌≤◌, ◌<◌, ◌≡◌, refl, sym, ◌∙◌, arith, List, ◌++◌, some, pos, min, inl, inr, Bool-cases,
  ◌||◌, append-nil,
}
use libatbus_go.Base.{
  length, length-take, length-copy_at, take-copy_at, length-replicate, take, leb, ≢→==, ◌==◌,
  replicate,
}
use libatbus_go.Buffer.StaticBlock.{
  StaticBufferBlock, at_most, write_static, allocate_temporary_buffer_block, mimalloc_padding_size,
}
use libatbus_go.Buffer.StaticBlock.Padding.{mimalloc_padding_size_lem}

-- The bytes fill the capacity, and no more are used.
pub record IsSound (s : StaticBufferBlock) : Type 0 where
  pub filled : length s.bytes ≡ s.capacity
  pub within : s.used ≤ s.capacity

-- A temporary buffer for some bytes has them in use, within a capacity that is padded.
pub allocate-IsSound :
    (n : ℕ)
    → 0 < n
    → (s : StaticBufferBlock) × (allocate_temporary_buffer_block (pos n) ≡ some s)
      × IsSound s
      × (s.used ≡ n)
unfolding allocate_temporary_buffer_block
allocate-IsSound n h =
    let size = mimalloc_padding_size (pos n) in
    (
      record { bytes = replicate size 0; capacity = size; used = n },
      rw (≢→== n 0 (λ e. omega (arith, e, h))) refl,
      record { filled = length-replicate size 0; within = (mimalloc_padding_size_lem n h).0 },
      refl,
    )

-- The bytes in use.
abbrev pub used_bytes : StaticBufferBlock → List ℕ
used_bytes s = take s.used s.bytes

-- `Write` on a sound buffer puts as many of the bytes as there is room for behind those in use,
-- returns their number, and keeps the buffer sound, at its capacity.
pub write_static_lem :
    (bytes : List ℕ) (s : StaticBufferBlock)
    → IsSound s
    → let n = min (s.capacity - s.used) (length bytes) in
      ((write_static bytes s).0 ≡ n)
      × IsSound (write_static bytes s).1
      × ((write_static bytes s).1.capacity ≡ s.capacity)
      × (used_bytes (write_static bytes s).1 ≡ used_bytes s ++ take n bytes)
unfolding write_static
write_static_lem bytes s ok =
    let filled = ok.filled in
    let within = ok.within in
    let n = min (s.capacity - s.used) (length bytes) in
    elim (Bool-cases (length bytes == 0 || leb s.capacity s.used)) [
      | inl e ↦
          let none_fit : n ≡ 0 = ground arith in
          rw (e, none_fit) (refl, ok, refl, sym (append-nil (take s.used s.bytes)))
      | inr e ↦
          let fits : at_most (s.capacity - s.used) (length bytes) ≡ n = ground arith in
          let some_room : s.used < s.capacity = ground arith in
          let long : length (take n bytes) ≡ n = length-take n bytes ∙ omega arith in
          rw (e, fits)
            (
              refl,
              record {
                filled = length-copy_at s.used s.bytes (take n bytes) ∙ filled;
                within = omega arith;
              },
              refl,
              take-copy_at s.used n s.bytes (take n bytes) (sym long) (omega arith),
            )
    ]
