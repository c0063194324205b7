-- ===== src/Buffer/Manager/RingPush.antt =====
-- A push on the static ring.
use libatbus_go.Base.{
  ℕ, ◌+◌, ◌-◌, ◌≤◌, ◌<◌, ◌≡◌, refl, ◌∙◌, arith, List, [], ◌∷◌, ◌++◌, some, true, false, pos,
}
use libatbus_go.Base.{
  length, length-set, le→leb, ≢→==, replicate, length-replicate, slice, returns, length-slice,
}
use libatbus_go.Buffer.Block.{BufferBlock, new_buffer_block, size}
use libatbus_go.Buffer.Block.Laws.{IsValid, size_lem}
use libatbus_go.Buffer.Manager.Types.{ok, StaticStorage}
use libatbus_go.Buffer.Manager.Static.{
  circle_len, slot, is_full, is_initial, put_back, put_front, first_block, static_push_back,
  static_push_front,
}
use libatbus_go.Buffer.Manager.Static
use libatbus_go.Buffer.Manager.Window.{Holds, put_front-Holds, place_zero}
use libatbus_go.Buffer.Manager.Ring.{slot_head, is_full-Holds, restart-Holds, put_back-Holds}

-- The ring `sb'` holds `bs`, on the buffer and the slots of `sb`.
pub record Stored (sb sb' : StaticStorage) (bs : List BufferBlock) : Type 0 where
  pub holds : Holds sb' bs
  pub same_buffer : sb'.buffer ≡ sb.buffer
  pub same_slots : circle_len sb' ≡ circle_len sb

-- A block with `n` unread bytes.
pub record IsFresh (n : ℕ) (b : BufferBlock) : Type 0 where
  pub valid : IsValid b
  pub unread_size : size b ≡ n

pub new_buffer_block-IsFresh :
    (n : ℕ) → 0 < n → (b : BufferBlock) × (new_buffer_block (pos n) ≡ some b) × IsFresh n b
unfolding new_buffer_block
new_buffer_block-IsFresh n h =
    let b : BufferBlock = record { bytes = replicate n 0; used = 0 } in
    let long : length b.bytes ≡ n = length-replicate n 0 in
    (
      b,
      rw (≢→== n 0 (λ e. omega (arith, e, h))) refl,
      record { valid = omega arith; unread_size = omega (arith, size_lem b (omega arith), long) },
    )

-- Whether the ring has no block: its head slot and its tail slot are nil.
is_initial_nil : (sb : StaticStorage) → Holds sb [] → is_initial sb ≡ true
is_initial_nil sb h =
    let at_tail : sb.tail ≡ sb.head = h.tail_at ∙ place_zero (circle_len sb) sb.head h.head_in in
    rw (at_tail, slot_head sb [] h) refl

is_initial_cons :
    (sb : StaticStorage) (c : BufferBlock) (cs : List BufferBlock)
    → Holds sb (c ∷ cs)
    → is_initial sb ≡ false
is_initial_cons sb c cs h = rw (slot_head sb (c ∷ cs) h) refl

-- The first block, at the front of the fixed buffer.
abbrev from_buffer : ℕ → StaticStorage → BufferBlock
from_buffer n sb = record { bytes = slice 0 n sb.buffer; used = 0 }

first_block_lem :
    (n : ℕ) (sb : StaticStorage)
    → Holds sb []
    → 1 < circle_len sb
    → n ≤ length sb.buffer
    → IsFresh n (from_buffer n sb)
      × (sb' : StaticStorage) × (first_block n sb ≡ returns (ok (from_buffer n sb, sb')))
      × Stored sb sb' (from_buffer n sb ∷ [])
unfolding first_block
first_block_lem n sb h room long =
    let b = from_buffer n sb in
    let start : StaticStorage = record sb { head = 0; tail = 0 } in
    let held : length (slice 0 n sb.buffer) ≡ n - 0 = length-slice 0 n sb.buffer long in
    (
      record { valid = omega arith; unread_size = omega (arith, size_lem b (omega arith), held) },
      put_back start b,
      rw (le→leb 0 n (omega arith), le→leb n (length sb.buffer) long) refl,
      record {
        holds = put_back-Holds start [] b (restart-Holds sb h) room;
        same_buffer = refl;
        same_slots = length-set sb.circle_index 0 (some b);
      },
    )

pub static_push_back-Stored :
    (n : ℕ) (sb : StaticStorage) (bs : List BufferBlock)
    → Holds sb bs
    → length bs + 1 < circle_len sb
    → 0 < n
    → n ≤ length sb.buffer
    → (b : BufferBlock) × (sb' : StaticStorage) × (static_push_back n sb ≡ returns (ok (b, sb')))
      × Stored sb sb' (bs ++ (b ∷ []))
      × IsFresh n b
unfolding static_push_back
static_push_back-Stored n sb [] h room some_bytes long =
    let (fresh, sb', e, st) = first_block_lem n sb h room long in
    (from_buffer n sb, sb', rw (is_full-Holds sb [] h room, is_initial_nil sb h) e, st, fresh)
static_push_back-Stored n sb (c ∷ cs) h room some_bytes long =
    let (b, e, fresh) = new_buffer_block-IsFresh n some_bytes in
    (
      b,
      put_back sb b,
      rw (is_full-Holds sb (c ∷ cs) h room, is_initial_cons sb c cs h, e) refl,
      record {
        holds = put_back-Holds sb (c ∷ cs) b h room;
        same_buffer = refl;
        same_slots = length-set sb.circle_index sb.tail (some b);
      },
      fresh,
    )

pub static_push_front-Stored :
    (n : ℕ) (sb : StaticStorage) (bs : List BufferBlock)
    → Holds sb bs
    → length bs + 1 < circle_len sb
    → 0 < n
    → n ≤ length sb.buffer
    → (b : BufferBlock) × (sb' : StaticStorage) × (static_push_front n sb ≡ returns (ok (b, sb')))
      × Stored sb sb' (b ∷ bs)
      × IsFresh n b
unfolding static_push_front
static_push_front-Stored n sb [] h room some_bytes long =
    let (fresh, sb', e, st) = first_block_lem n sb h room long in
    (from_buffer n sb, sb', rw (is_full-Holds sb [] h room, is_initial_nil sb h) e, st, fresh)
static_push_front-Stored n sb (c ∷ cs) h room some_bytes long =
    let (b, e, fresh) = new_buffer_block-IsFresh n some_bytes in
    (
      b,
      put_front sb b,
      rw (is_full-Holds sb (c ∷ cs) h room, is_initial_cons sb c cs h, e) refl,
      record {
        holds = put_front-Holds sb (c ∷ cs) b h room;
        same_buffer = refl;
        same_slots = length-set sb.circle_index (Static.before sb sb.head) (some b);
      },
      fresh,
    )
