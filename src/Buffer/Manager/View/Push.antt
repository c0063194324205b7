-- ===== src/Buffer/Manager/View/Push.antt =====
-- `PushBack` and `PushFront`.
use libatbus_go.Base.{
  ℕ, ◌+◌, ◌≤◌, ◌<◌, ◌≡◌, refl, sym, ap, arith, List, [], ◌∷◌, ◌++◌, Option, none, some, true, false,
  ◌⊎◌, inl, inr, Bool-cases, subst,
}
use libatbus_go.Base.{length, length-append, returns, Outcome}
use libatbus_go.Buffer.Block.{BufferBlock, unread, size}
use libatbus_go.Buffer.Manager.Types.{
  Result, ok, err, buff_limit, Limit, StaticStorage, BufferManager, over_number, charge_block,
}
use libatbus_go.Buffer.Manager.Static.{circle_len}
use libatbus_go.Buffer.Manager.Dynamic.{dynamic_push_back, dynamic_push_front}
use libatbus_go.Buffer.Manager.Ops.{push_back, push_front, push_back_in, push_front_in}
use libatbus_go.Buffer.Manager.Deque.{Costs, total, total-append, All-append}
use libatbus_go.Buffer.Manager.RingPush.{
  IsFresh, new_buffer_block-IsFresh, static_push_back-Stored, static_push_front-Stored,
}
use libatbus_go.Buffer.Manager.View.{InRing, Keeps, manager, refuses, Stored-InRing}

-- A push that made the deque `bs` of a block `b` with `n` unread bytes.
pub record Pushed (n : ℕ) (r : Outcome (Result (List ℕ) × BufferManager)) (b : BufferBlock)
    (bs : List BufferBlock) : Type 0 where
  pub after : BufferManager
  pub answers : r ≡ returns (ok (unread b), after)
  pub fresh : IsFresh n b
  pub keeps : Keeps after bs

-- A limit that does not refuse leaves the ring a slot and the fixed buffer room.
ring_room :
    (sb : StaticStorage) (l : Limit) (bs : List BufferBlock) (n : ℕ)
    → InRing sb l bs
    → Costs l bs
    → refuses l n ≡ false
    → (length bs + 1 < circle_len sb) × (n ≤ length sb.buffer)
ring_room sb l bs n r c e =
    let slots = r.slots in
    let fits = r.fits in
    let some_slots = r.some_slots in
    let some_bytes = r.some_bytes in let number = c.number in ground arith

charge-Costs :
    (l : Limit) (bs bs' : List BufferBlock) (b : BufferBlock) (n : ℕ)
    → Costs l bs
    → IsFresh n b
    → length bs' ≡ length bs + 1
    → total bs' ≡ total bs + size b
    → Costs (charge_block l n) bs'
charge-Costs l bs bs' b n c f hn ht =
    let number = c.number in
    let bytes = c.bytes in
    let unread_size = f.unread_size in
    record { number = omega (arith, number, hn); bytes = omega (arith, bytes, unread_size, ht) }

total-snoc : (bs : List BufferBlock) (b : BufferBlock) → total (bs ++ (b ∷ [])) ≡ total bs + size b
unfolding total
total-snoc bs b = omega (arith, total-append bs (b ∷ []))

total-cons : (bs : List BufferBlock) (b : BufferBlock) → total (b ∷ bs) ≡ total bs + size b
unfolding total
total-cons bs b = omega arith

push_back_in_lem :
    (ds : List BufferBlock) (o : Option StaticStorage) (l : Limit) (bs : List BufferBlock) (n : ℕ)
    → Keeps (manager ds o l) bs
    → 0 < n
    → refuses l n ≡ false
    → (b : BufferBlock) × Pushed n (push_back_in o n (manager ds o l)) b (bs ++ (b ∷ []))
unfolding push_back_in dynamic_push_back
push_back_in_lem ds none l bs n k some_bytes e =
    let (b, made, fresh) = new_buffer_block-IsFresh n some_bytes in
    (
      b,
      record {
        after = manager (ds ++ (b ∷ [])) none (charge_block l n);
        answers = rw made refl;
        fresh = fresh;
        keeps = record {
          stored = ap (λ t. t ++ (b ∷ [])) k.stored;
          costs =
              charge-Costs l bs (bs ++ (b ∷ [])) b n k.costs fresh (length-append bs (b ∷ []))
                (total-snoc bs b);
          valid = All-append bs (b ∷ []) k.valid (fresh.valid, tt);
        };
      },
    )
push_back_in_lem ds (some sb) l bs n k some_bytes e =
    let (room, fits) = ring_room sb l bs n k.stored k.costs e in
    let (b, sb', made, st, fresh) =
      static_push_back-Stored n sb bs k.stored.holds room some_bytes fits in
    (
      b,
      record {
        after = manager ds (some sb') (charge_block l n);
        answers = rw made refl;
        fresh = fresh;
        keeps = record {
          stored = Stored-InRing sb sb' l (charge_block l n) bs _ k.stored refl refl st;
          costs =
              charge-Costs l bs (bs ++ (b ∷ [])) b n k.costs fresh (length-append bs (b ∷ []))
                (total-snoc bs b);
          valid = All-append bs (b ∷ []) k.valid (fresh.valid, tt);
        };
      },
    )

push_front_in_lem :
    (ds : List BufferBlock) (o : Option StaticStorage) (l : Limit) (bs : List BufferBlock) (n : ℕ)
    → Keeps (manager ds o l) bs
    → 0 < n
    → refuses l n ≡ false
    → (b : BufferBlock) × Pushed n (push_front_in o n (manager ds o l)) b (b ∷ bs)
unfolding push_front_in dynamic_push_front
push_front_in_lem ds none l bs n k some_bytes e =
    let (b, made, fresh) = new_buffer_block-IsFresh n some_bytes in
    (
      b,
      record {
        after = manager (b ∷ ds) none (charge_block l n);
        answers = rw made refl;
        fresh = fresh;
        keeps = record {
          stored = ap (λ t. b ∷ t) k.stored;
          costs = charge-Costs l bs (b ∷ bs) b n k.costs fresh (omega arith) (total-cons bs b);
          valid = (fresh.valid, k.valid);
        };
      },
    )
push_front_in_lem ds (some sb) l bs n k some_bytes e =
    let (room, fits) = ring_room sb l bs n k.stored k.costs e in
    let (b, sb', made, st, fresh) =
      static_push_front-Stored n sb bs k.stored.holds room some_bytes fits in
    (
      b,
      record {
        after = manager ds (some sb') (charge_block l n);
        answers = rw made refl;
        fresh = fresh;
        keeps = record {
          stored = Stored-InRing sb sb' l (charge_block l n) bs (b ∷ bs) k.stored refl refl st;
          costs = charge-Costs l bs (b ∷ bs) b n k.costs fresh (omega arith) (total-cons bs b);
          valid = (fresh.valid, k.valid);
        };
      },
    )

-- A block of `n` bytes behind the deque would exceed a limit: as many blocks as the limit on blocks
-- are there, or the bytes would be more than the limit on bytes. A limit of 0 is none.
abbrev pub Exceeds : Limit → ℕ → List BufferBlock → Type 0
Exceeds l n bs =
    ((0 < l.limit_number) × (l.limit_number ≤ length bs))
    ⊎ ((0 < l.limit_size) × (l.limit_size < total bs + n))

refuses-Exceeds :
    (l : Limit) (n : ℕ) (bs : List BufferBlock) → Costs l bs → refuses l n ≡ true → Exceeds l n bs
refuses-Exceeds l n bs c e =
    let number = c.number in
    let bytes = c.bytes in
    elim (Bool-cases (over_number l)) [ inl h ↦ inl (ground arith) | inr h ↦ inr (ground arith) ]

refuses-not-Exceeds :
    (l : Limit) (n : ℕ) (bs : List BufferBlock)
    → Costs l bs
    → refuses l n ≡ false
    → ¬ Exceeds l n bs
refuses-not-Exceeds l n bs c e (inl (some_limit, h)) = let number = c.number in ground arith
refuses-not-Exceeds l n bs c e (inr (some_limit, h)) = let bytes = c.bytes in ground arith

-- A push at the back, of a block with some bytes, on a manager that keeps a deque does one of two
-- things. Where the block would exceed a limit, it returns the limit error and changes nothing. Where
-- it would not, in both modes and without a panic, it returns the unread bytes of a new block of that
-- size, and the manager keeps the deque with that block at its back, at its cost.
pub push_back_lem :
    (n : ℕ) (m : BufferManager) (bs : List BufferBlock)
    → Keeps m bs
    → 0 < n
    → (Exceeds m.limit n bs × (push_back n m ≡ returns (err buff_limit, m)))
      ⊎ (¬ Exceeds m.limit n bs × (b : BufferBlock) × Pushed n (push_back n m) b (bs ++ (b ∷ [])))
unfolding push_back
push_back_lem n m bs k some_bytes = elim (Bool-cases (refuses m.limit n)) [
  | inl e ↦ inl (refuses-Exceeds m.limit n bs k.costs e, ground arith)
  | inr e ↦
      let (b, p) = push_back_in_lem m.dynamic_buffer m.static_buffer m.limit bs n k some_bytes e in
      let same : push_back n m ≡ push_back_in m.static_buffer n m = ground arith in
      inr (
        refuses-not-Exceeds m.limit n bs k.costs e,
        b,
        subst (λ r. Pushed n r b (bs ++ (b ∷ []))) (sym same) p,
      )
]

-- A push at the front, of a block with some bytes, on a manager that keeps a deque does one of two
-- things. Where the block would exceed a limit, it returns the limit error and changes nothing. Where
-- it would not, in both modes and without a panic, it returns the unread bytes of a new block of that
-- size, and the manager keeps the deque with that block at its front, at its cost.
pub push_front_lem :
    (n : ℕ) (m : BufferManager) (bs : List BufferBlock)
    → Keeps m bs
    → 0 < n
    → (Exceeds m.limit n bs × (push_front n m ≡ returns (err buff_limit, m)))
      ⊎ (¬ Exceeds m.limit n bs × (b : BufferBlock) × Pushed n (push_front n m) b (b ∷ bs))
unfolding push_front
push_front_lem n m bs k some_bytes = elim (Bool-cases (refuses m.limit n)) [
  | inl e ↦ inl (refuses-Exceeds m.limit n bs k.costs e, ground arith)
  | inr e ↦
      let (b, p) = push_front_in_lem m.dynamic_buffer m.static_buffer m.limit bs n k some_bytes e in
      let same : push_front n m ≡ push_front_in m.static_buffer n m = ground arith in
      inr (
        refuses-not-Exceeds m.limit n bs k.costs e,
        b,
        subst (λ r. Pushed n r b (b ∷ bs)) (sym same) p,
      )
]
