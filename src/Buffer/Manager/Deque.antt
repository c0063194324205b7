-- ===== src/Buffer/Manager/Deque.antt =====
-- The abstract view of a manager: a deque of blocks, its costs, and what a pop leaves of it.
use libatbus_go.Base.{
  ℕ, ◌+◌, ◌-◌, ◌≡◌, min, ◌&&◌, refl, ap, arith, List, [], ◌∷◌, ◌++◌, some, Bool, append-nil, inl,
  inr, Bool-cases,
}
use libatbus_go.Base.{length, All, leb, if◌then◌else◌}
use libatbus_go.Buffer.Block.{BufferBlock, size, pop}
use libatbus_go.Buffer.Block.Laws.{IsValid, pop_lem}
use libatbus_go.Buffer.Manager.Types.{ok, Limit, release_block, fix_limit}
use libatbus_go.Buffer.Manager.Dynamic.{
  dynamic_pop_back, dynamic_pop_front, back?, without_back, is_empty, clamp, frees,
}

-- The unread bytes of all blocks together.
unfoldable pub total : List BufferBlock → ℕ
total [] = 0
total (b ∷ bs) = size b + total bs

-- The limit's costs are the number of blocks and their unread bytes.
pub record Costs (l : Limit) (bs : List BufferBlock) : Type 0 where
  pub number : l.cost_number ≡ length bs
  pub bytes : l.cost_size ≡ total bs

-- What a pop of `n` bytes should leave of a block at an end: its first `n` unread bytes are read, or
-- all where there are fewer; with `freeUnwritable` it is gone where none are left.
abbrev pub after_pop : ℕ → Bool → BufferBlock → List BufferBlock
after_pop n free b =
    if free && leb (length b.bytes - b.used) n
    then []
    else record b { used = min (b.used + n) (length b.bytes) } ∷ []

-- The same by the code's own helpers.
abbrev pub left_of : ℕ → Bool → BufferBlock → List BufferBlock
left_of n free b = let b' = pop (clamp n b) b in if frees free b' then [] else b' ∷ []

abbrev pub popped_back : ℕ → Bool → BufferBlock → List BufferBlock → List BufferBlock
popped_back n free b rest = rest ++ left_of n free b

abbrev pub popped_front : ℕ → Bool → BufferBlock → List BufferBlock → List BufferBlock
popped_front n free b rest = left_of n free b ++ rest

pub total-append : (bs cs : List BufferBlock) → total (bs ++ cs) ≡ total bs + total cs
unfolding total
total-append [] cs = omega arith
total-append (b ∷ bs) cs = omega (arith, total-append bs cs)

pub All-append :
    (bs cs : List BufferBlock) → All IsValid bs → All IsValid cs → All IsValid (bs ++ cs)
All-append [] cs h k = k
All-append (b ∷ bs) cs h k = (h.0, All-append bs cs h.1 k)

-- What one end block keeps: it loses the bytes popped, and is dropped only when none are left.
pub left_of_lem :
    (n : ℕ) (free : Bool) (b : BufferBlock)
    → IsValid b
    → let b' = pop (clamp n b) b in
      All IsValid (left_of n free b)
      × (total (left_of n free b) + clamp n b ≡ size b)
      × (length (left_of n free b) + (if frees free b' then 1 else 0) ≡ 1)
unfolding total
left_of_lem n free b v = ground (arith, pop_lem (clamp n b) b v)

pub left_of-after_pop :
    (n : ℕ) (free : Bool) (b : BufferBlock) → IsValid b → left_of n free b ≡ after_pop n free b
unfolding pop size
left_of-after_pop n free b v = ground arith

pub fix_limit-Costs :
    (freed : Bool) (n : ℕ) (l : Limit) (bs bs' : List BufferBlock)
    → Costs l bs
    → length bs' + (if freed then 1 else 0) ≡ length bs
    → total bs' + n ≡ total bs
    → Costs (fix_limit (is_empty bs') n (release_block freed l)) bs'
unfolding total
fix_limit-Costs freed n l bs [] c hn ht = ground arith
fix_limit-Costs freed n l bs (b ∷ bs') c hn ht = ground arith

pub back?-append : (bs : List BufferBlock) (b : BufferBlock) → back? (bs ++ (b ∷ [])) ≡ some b
back?-append [] b = refl
back?-append (c ∷ []) b = refl
back?-append (c ∷ d ∷ bs) b = back?-append (d ∷ bs) b

pub without_back-append :
    (bs : List BufferBlock) (b : BufferBlock) → without_back (bs ++ (b ∷ [])) ≡ bs
without_back-append [] b = refl
without_back-append (c ∷ []) b = refl
without_back-append (c ∷ d ∷ bs) b = ap (◌∷◌ c) (without_back-append (d ∷ bs) b)

pub All-split :
    (bs cs : List BufferBlock) → All IsValid (bs ++ cs) → All IsValid bs × All IsValid cs
All-split [] cs h = (tt, h)
All-split (b ∷ bs) cs h = let (k, l) = All-split bs cs h.1 in ((h.0, k), l)

-- The pops of the dynamic mode, on a list with a last block and on one with a first.
pub dynamic_pop_back-snoc :
    (n : ℕ) (free : Bool) (l : Limit) (rest : List BufferBlock) (b : BufferBlock)
    → dynamic_pop_back n free (rest ++ (b ∷ [])) l
      ≡ ok (
        popped_back n free b rest,
        fix_limit
            (is_empty (popped_back n free b rest))
            (clamp n b)
            (release_block (frees free (pop (clamp n b) b)) l),
      )
unfolding dynamic_pop_back
dynamic_pop_back-snoc n free l rest b =
    rw (back?-append rest b, without_back-append rest b)
      (elim (Bool-cases (frees free (pop (clamp n b) b))) [
        | inl e ↦ rw (e, append-nil rest) refl
        | inr e ↦ rw e refl
      ])

pub dynamic_pop_front-cons :
    (n : ℕ) (free : Bool) (l : Limit) (rest : List BufferBlock) (b : BufferBlock)
    → dynamic_pop_front n free (b ∷ rest) l
      ≡ ok (
        popped_front n free b rest,
        fix_limit
            (is_empty (popped_front n free b rest))
            (clamp n b)
            (release_block (frees free (pop (clamp n b) b)) l),
      )
unfolding dynamic_pop_front
dynamic_pop_front-cons n free l rest b = elim (Bool-cases (frees free (pop (clamp n b) b))) [
  | inl e ↦ rw e refl
  | inr e ↦ rw e refl
]
