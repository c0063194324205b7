-- ===== src/Buffer/Manager/RingPop.antt =====
-- A pop on the static ring.
use libatbus_go.Base.{
  ℕ, ◌+◌, ◌%◌, ◌≡◌, refl, sym, ap, ◌∙◌, subst, arith, List, [], ◌∷◌, ◌++◌, append-nil, none, some,
  Bool, false, inl, inr, Bool-cases,
}
use libatbus_go.Base.{length, length-append, set, length-set}
use libatbus_go.Buffer.Block.{BufferBlock, pop}
use libatbus_go.Buffer.Manager.Types.{ok, Limit, StaticStorage, fix_limit, release_block}
use libatbus_go.Buffer.Manager.Dynamic.{is_empty, clamp, frees}
use libatbus_go.Buffer.Manager.Static.{
  circle_len, slot, before, after, static_pop_back, static_pop_front, reset_if_empty,
}
use libatbus_go.Buffer.Manager.Deque.{popped_back, popped_front}
use libatbus_go.Buffer.Manager.Window.{
  Holds, write_back-Holds, free_front-Holds, set_front-Holds, get_elem?-length,
}
use libatbus_go.Buffer.Manager.Ring.{
  slot_head, before_tail, static_empty-Holds, reset_if_empty-Holds,
}
use libatbus_go.Buffer.Manager.RingPush.{Stored}

-- The last block is in the slot before the tail.
pub slot_back :
    (sb : StaticStorage) (rest : List BufferBlock) (b : BufferBlock)
    → Holds sb (rest ++ (b ∷ []))
    → slot sb (before sb sb.tail) ≡ some b
slot_back sb rest b h =
    let long : length (rest ++ (b ∷ [])) ≡ length rest + 1 = length-append rest (b ∷ []) in
    let room = h.room in
    ap (slot sb) (before_tail sb rest b h)
    ∙ h.slots (length rest) (omega (arith, room, long))
    ∙ get_elem?-length rest (b ∷ [])

pub is_empty-snoc :
    (rest : List BufferBlock) (b : BufferBlock) → is_empty (rest ++ (b ∷ [])) ≡ false
is_empty-snoc [] b = refl
is_empty-snoc (c ∷ rest) b = refl

-- The ring after the last block is changed, or freed.
abbrev with_back : StaticStorage → BufferBlock → StaticStorage
with_back sb b' = record sb { circle_index = set sb.circle_index (before sb sb.tail) (some b') }

abbrev without_back_slot : StaticStorage → StaticStorage
without_back_slot sb = record sb {
  circle_index = set sb.circle_index (before sb sb.tail) none;
  tail = before sb sb.tail;
}

with_back-Holds :
    (sb : StaticStorage) (rest : List BufferBlock) (b b' : BufferBlock)
    → Holds sb (rest ++ (b ∷ []))
    → Holds (with_back sb b') (rest ++ (b' ∷ []))
with_back-Holds sb rest b b' h =
    let n = circle_len sb in
    let was = length-append rest (b ∷ []) in
    let is = length-append rest (b' ∷ []) in
    let same : length (rest ++ (b ∷ [])) ≡ length (rest ++ (b' ∷ [])) = was ∙ sym is in
    let room = h.room in
    let at_back =
      write_back-Holds sb rest (b ∷ []) (b' ∷ []) h (omega arith) (omega arith)
        (omega (arith, same, room)) in
    subst
      (λ t.
        Holds
          (record sb { circle_index = set sb.circle_index (before sb sb.tail) (some b'); tail = t })
          (rest ++ (b' ∷ [])))
      (ap (λ x. (sb.head + x) % n) (sym same) ∙ sym h.tail_at)
      (subst
        (λ i.
          Holds
            (record sb {
              circle_index = set sb.circle_index i (some b');
              tail = (sb.head + length (rest ++ (b' ∷ []))) % n;
            })
            (rest ++ (b' ∷ [])))
        (sym (before_tail sb rest b h)) at_back)

without_back_slot-Holds :
    (sb : StaticStorage) (rest : List BufferBlock) (b : BufferBlock)
    → Holds sb (rest ++ (b ∷ []))
    → Holds (without_back_slot sb) (rest ++ [])
without_back_slot-Holds sb rest b h =
    let n = circle_len sb in
    let long : length (rest ++ (b ∷ [])) ≡ length rest + 1 = length-append rest (b ∷ []) in
    let short : length (rest ++ []) ≡ length rest = ap length (append-nil rest) in
    let room = h.room in
    let at_back =
      write_back-Holds sb rest (b ∷ []) [] h (omega arith) (omega arith)
        (omega (arith, long, short, room)) in
    let place = before_tail sb rest b h in
    subst
      (λ i. Holds (record sb { circle_index = set sb.circle_index i none; tail = i }) (rest ++ []))
      (sym place)
      (subst
        (λ x.
          Holds
            (record sb {
              circle_index = set sb.circle_index ((sb.head + length rest) % n) none;
              tail = (sb.head + x) % n;
            })
            (rest ++ []))
        short at_back)

reset_if_empty-slots : (sb : StaticStorage) → circle_len (reset_if_empty sb) ≡ circle_len sb
reset_if_empty-slots sb = ground arith

reset_if_empty-buffer : (sb : StaticStorage) → (reset_if_empty sb).buffer ≡ sb.buffer
reset_if_empty-buffer sb = ground arith

-- What a pop stores, reset where nothing is left.
reset-Stored :
    (sb sb' : StaticStorage) (bs : List BufferBlock)
    → Holds sb' bs
    → sb'.buffer ≡ sb.buffer
    → circle_len sb' ≡ circle_len sb
    → Stored sb (reset_if_empty sb') bs
reset-Stored sb sb' bs h eb el = record {
  holds = reset_if_empty-Holds sb' bs h;
  same_buffer = reset_if_empty-buffer sb' ∙ eb;
  same_slots = reset_if_empty-slots sb' ∙ el;
}

abbrev pub limit_after : ℕ → Bool → BufferBlock → List BufferBlock → Limit → Limit
limit_after n free b bs' l =
    fix_limit (is_empty bs') (clamp n b) (release_block (frees free (pop (clamp n b) b)) l)

pub static_pop_back-Stored :
    (n : ℕ) (free : Bool) (sb : StaticStorage) (l : Limit) (rest : List BufferBlock)
    (b : BufferBlock)
    → Holds sb (rest ++ (b ∷ []))
    → (sb' : StaticStorage) × (static_pop_back n free sb l
        ≡ ok (sb', limit_after n free b (popped_back n free b rest) l))
      × Stored sb sb' (popped_back n free b rest)
unfolding static_pop_back
static_pop_back-Stored n free sb l rest b h =
    let b' = pop (clamp n b) b in
    let here = slot_back sb rest b h in
    let some_left = static_empty-Holds sb (rest ++ (b ∷ [])) h ∙ is_empty-snoc rest b in
    elim (Bool-cases (frees free b')) [
      | inl e ↦
          let freed = without_back_slot-Holds sb rest b h in
          (
            reset_if_empty (without_back_slot sb),
            rw (here, some_left, e, static_empty-Holds _ _ freed) refl,
            rw e (
                reset-Stored sb (without_back_slot sb) _ freed refl
                  (length-set sb.circle_index (before sb sb.tail) none)),
          )
      | inr e ↦
          let kept = with_back-Holds sb rest b b' h in
          (
            reset_if_empty (with_back sb b'),
            rw (here, e, some_left, is_empty-snoc rest b') refl,
            rw e (
                reset-Stored sb (with_back sb b') _ kept refl
                  (length-set sb.circle_index (before sb sb.tail) (some b'))),
          )
    ]

pub static_pop_front-Stored :
    (n : ℕ) (free : Bool) (sb : StaticStorage) (l : Limit) (b : BufferBlock)
    (rest : List BufferBlock)
    → Holds sb (b ∷ rest)
    → (sb' : StaticStorage) × (static_pop_front n free sb l
        ≡ ok (sb', limit_after n free b (popped_front n free b rest) l))
      × Stored sb sb' (popped_front n free b rest)
unfolding static_pop_front
static_pop_front-Stored n free sb l b rest h =
    let b' = pop (clamp n b) b in
    let here = slot_head sb (b ∷ rest) h in
    let some_left = static_empty-Holds sb (b ∷ rest) h in
    let without_front_slot : StaticStorage = record sb {
      circle_index = set sb.circle_index sb.head none;
      head = after sb sb.head;
    } in
    let with_front : StaticStorage = record sb {
      circle_index = set sb.circle_index sb.head (some b');
    } in
    elim (Bool-cases (frees free b')) [
      | inl e ↦
          let freed = free_front-Holds sb rest b h in
          (
            reset_if_empty without_front_slot,
            rw (here, some_left, e, static_empty-Holds without_front_slot rest freed) refl,
            rw e (
                reset-Stored sb without_front_slot rest freed refl
                  (length-set sb.circle_index sb.head none)),
          )
      | inr e ↦
          let kept = set_front-Holds sb rest b b' h in
          (
            reset_if_empty with_front,
            rw (here, e, some_left) refl,
            rw e (
                reset-Stored sb with_front (b' ∷ rest) kept refl
                  (length-set sb.circle_index sb.head (some b'))),
          )
    ]
