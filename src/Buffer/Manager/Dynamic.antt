-- ===== src/Buffer/Manager/Dynamic.antt =====
-- The dynamic mode of buffer/buffer_manager.go.
use libatbus_go.Base.{ℕ, ◌+◌, List, [], ◌∷◌, ◌++◌, Option, none, some, Bool, true, false, ◌&&◌, pos}
use libatbus_go.Base.{take, drop, overwrite, copy_at, ltb, ◌==◌, if◌then◌else◌}
use libatbus_go.Buffer.Block.{BufferBlock, new_buffer_block, size, raw_size, pop}
use libatbus_go.Buffer.Manager.Types.{
  no_data, malloc, Result, ok, err, Limit, release_block, fix_limit,
}

-- `list.Front`, `list.Back`, and what is left without that element
abbrev pub front? : List BufferBlock → Option BufferBlock
front? [] = none
front? (b ∷ bs) = some b

abbrev pub back? : List BufferBlock → Option BufferBlock
back? [] = none
back? (b ∷ []) = some b
back? (b ∷ c ∷ bs) = back? (c ∷ bs)

abbrev pub without_front : List BufferBlock → List BufferBlock
without_front [] = []
without_front (b ∷ bs) = bs

abbrev pub without_back : List BufferBlock → List BufferBlock
without_back [] = []
without_back (b ∷ []) = []
without_back (b ∷ c ∷ bs) = b ∷ without_back (c ∷ bs)

abbrev pub is_empty : List BufferBlock → Bool
is_empty [] = true
is_empty (b ∷ bs) = false

abbrev pub or_malloc {ℓ} : {A : Type ℓ} → (BufferBlock → A) → Option BufferBlock → Result A
or_malloc f none = err malloc
or_malloc f (some b) = ok (f b)

-- `dynamicPushBack` and `dynamicPushFront`: the new block, and the list with it
unfoldable pub dynamic_push_back : ℕ → List BufferBlock → Result (BufferBlock × List BufferBlock)
dynamic_push_back size bs = or_malloc (λ b. (b, bs ++ (b ∷ []))) (new_buffer_block (pos size))

unfoldable pub dynamic_push_front : ℕ → List BufferBlock → Result (BufferBlock × List BufferBlock)
dynamic_push_front size bs = or_malloc (λ b. (b, b ∷ bs)) (new_buffer_block (pos size))

-- The bytes that a pop of `n` takes from a block: `if size > block.Size() { size = block.Size() }`
abbrev pub clamp : ℕ → BufferBlock → ℕ
clamp n b = if ltb (size b) n then size b else n

-- `freeUnwritable && block.Size() <= 0`, after the pop
abbrev pub frees : Bool → BufferBlock → Bool
frees free_unwritable b = free_unwritable && size b == 0

-- `dynamicPopBack`
pop_last :
    ℕ → Bool → Option BufferBlock → List BufferBlock → Limit → Result (List BufferBlock × Limit)
pop_last n free_unwritable none bs l = err no_data
pop_last n free_unwritable (some b) bs l =
    let n' = clamp n b in
    let b' = pop n' b in
    let freed = frees free_unwritable b' in
    let bs' = if freed then without_back bs else without_back bs ++ (b' ∷ []) in
    ok (bs', fix_limit (is_empty bs') n' (release_block freed l))

unfoldable pub dynamic_pop_back :
    ℕ → Bool → List BufferBlock → Limit → Result (List BufferBlock × Limit)
unfolding pop_last
dynamic_pop_back n free_unwritable bs l = pop_last n free_unwritable (back? bs) bs l

-- `dynamicPopFront`
pop_first :
    ℕ → Bool → Option BufferBlock → List BufferBlock → Limit → Result (List BufferBlock × Limit)
pop_first n free_unwritable none bs l = err no_data
pop_first n free_unwritable (some b) bs l =
    let n' = clamp n b in
    let b' = pop n' b in
    let freed = frees free_unwritable b' in
    let bs' = if freed then without_front bs else b' ∷ without_front bs in
    ok (bs', fix_limit (is_empty bs') n' (release_block freed l))

unfoldable pub dynamic_pop_front :
    ℕ → Bool → List BufferBlock → Limit → Result (List BufferBlock × Limit)
unfolding pop_first
dynamic_pop_front n free_unwritable bs l = pop_first n free_unwritable (front? bs) bs l

-- The larger block of a merge at the back: the old bytes, then the new space.
abbrev pub grown_back : BufferBlock → BufferBlock → BufferBlock
grown_back b fresh = record { bytes = overwrite fresh.bytes b.bytes; used = b.used }

-- At the front the old bytes come after the new space of `n` bytes.
abbrev pub grown_front : ℕ → BufferBlock → BufferBlock → BufferBlock
grown_front n b fresh = record { bytes = copy_at n fresh.bytes b.bytes; used = b.used }

-- `dynamicMergeBack`: the new space, and the list with the larger block
merge_last : ℕ → Option BufferBlock → List BufferBlock → Result (List ℕ × List BufferBlock)
merge_last n none bs = err no_data
merge_last n (some b) bs =
    or_malloc
      (λ fresh. (
        drop (raw_size b) (grown_back b fresh).bytes,
        without_back bs ++ (grown_back b fresh ∷ []),
      ))
      (new_buffer_block (pos (n + raw_size b)))

unfoldable pub dynamic_merge_back : ℕ → List BufferBlock → Result (List ℕ × List BufferBlock)
unfolding merge_last
dynamic_merge_back n bs = if n == 0 then ok ([], bs) else merge_last n (back? bs) bs

-- `dynamicMergeFront`
merge_first : ℕ → Option BufferBlock → List BufferBlock → Result (List ℕ × List BufferBlock)
merge_first n none bs = err no_data
merge_first n (some b) bs =
    or_malloc
      (λ fresh. (take n (grown_front n b fresh).bytes, grown_front n b fresh ∷ without_front bs))
      (new_buffer_block (pos (n + raw_size b)))

unfoldable pub dynamic_merge_front : ℕ → List BufferBlock → Result (List ℕ × List BufferBlock)
unfolding merge_first
dynamic_merge_front n bs = if n == 0 then ok ([], bs) else merge_first n (front? bs) bs
