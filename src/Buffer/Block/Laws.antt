-- ===== src/Buffer/Block/Laws.antt =====
-- What the operations of a block keep, and what they do to its unread bytes.
use libatbus_go.Base.{
  ℕ, ◌+◌, ◌-◌, ◌%◌, ◌≤◌, ◌<◌, ◌≡◌, refl, sym, ap, ◌∙◌, arith, List, ◌++◌, ℤ, min,
}
use native.Mathlib.Decide.{dec_lt}
use libatbus_go.Base.{
  length, length-drop, length-replicate, drop, drop-all, drop-drop, replicate, overwrite-fits,
  append-nil,
}
use libatbus_go.Buffer.Block.{BufferBlock, unread, size, pop, set_used, clone, padding_size}

abbrev pub IsValid : BufferBlock → Type 0
IsValid b = b.used ≤ length b.bytes

-- The unread bytes of a valid block, without the test for an empty rest.
pub unread_lem : (b : BufferBlock) → IsValid b → unread b ≡ drop b.used b.bytes
unfolding unread
unread_lem b v = ground (arith, drop-all b.used b.bytes)

pub size_lem : (b : BufferBlock) → IsValid b → size b ≡ length b.bytes - b.used
unfolding size
size_lem b v = ground arith

pub size-unread : (b : BufferBlock) → IsValid b → size b ≡ length (unread b)
size-unread b v = rw (unread_lem b v) (omega (arith, size_lem b v, length-drop b.used b.bytes))

pub pop-IsValid : (s : ℕ) (b : BufferBlock) → IsValid b → IsValid (pop s b)
unfolding pop
pop-IsValid s b v = ground arith

drop-min : (n : ℕ) (xs : List ℕ) → drop (min n (length xs)) xs ≡ drop n xs
drop-min n xs = elim (dec_lt (length xs) n) [
  | yes p ↦ drop-all (min n (length xs)) xs (omega arith) ∙ sym (drop-all n xs (omega arith))
  | no p ↦ ap (λ k. drop k xs) (omega arith)
]

pop_used :
    (s : ℕ) (b : BufferBlock) → pop s b ≡ record b { used = min (b.used + s) (length b.bytes) }
unfolding pop
pop_used s b = ground arith

-- Popping `s` bytes of a valid block drops them from its unread bytes, or all where there are fewer,
-- takes their number from its size, and leaves the block valid with the same storage.
pub pop_lem :
    (s : ℕ) (b : BufferBlock)
    → IsValid b
    → IsValid (pop s b)
      × (unread (pop s b) ≡ drop s (unread b))
      × (size (pop s b) ≡ size b - s)
      × ((pop s b).bytes ≡ b.bytes)
pop_lem s b v =
    let u = min (b.used + s) (length b.bytes) in
    let b' : BufferBlock = record b { used = u } in
    let ok : IsValid b' = omega arith in
    rw (pop_used s b) (
      ok,
      unread_lem b' ok
          ∙ drop-min (b.used + s) b.bytes
          ∙ sym (drop-drop s b.used b.bytes)
          ∙ ap (drop s) (sym (unread_lem b v)),
      omega (arith, size_lem b v, size_lem b' ok),
      refl,
    )

-- `SetUsed` clamps to the storage on both sides.
pub set_used-IsValid : (u : ℤ) (b : BufferBlock) → IsValid (set_used u b)
unfolding set_used
set_used-IsValid (ℤ.pos n) b = ground arith
set_used-IsValid (ℤ.negsuc n) b = ground arith

-- `Clone` gives an equal block.
pub clone_lem : (b : BufferBlock) → clone b ≡ b
unfolding clone
clone_lem b =
    let n = length b.bytes in
    let fresh = length-replicate {A = ℕ} n 0 in
    ap (λ (t : List ℕ). record { bytes = t; used = b.used })
      (overwrite-fits (replicate n 0) b.bytes (omega (arith, fresh))
        ∙ ap (λ t. b.bytes ++ t) (drop-all n (replicate n 0) (omega (arith, fresh)))
        ∙ append-nil b.bytes)

-- `PaddingSize` rounds up to a multiple of 8, and by less than 8.
pub padding_size_lem :
    (s : ℕ) → (padding_size s % 8 ≡ 0) × (s ≤ padding_size s) × (padding_size s < s + 8)
unfolding padding_size
padding_size_lem s = ground arith
