-- ===== src/Buffer/Manager/View.antt =====
-- A manager, in either mode, is a deque of blocks with its costs: what each method does to it.
pub mod Push
pub mod Pop
pub mod Observe
use libatbus_go.Base.{
  ℕ, zero, suc, ◌+◌, ◌-◌, ◌≤◌, ◌<◌, ◌≡◌, refl, sym, ap, ◌∙◌, arith, List, [], ◌∷◌, ◌++◌, Option,
  none, some, Bool, true, false, not, ◌&&◌, ◌||◌, ◌⊎◌, inl, inr, Bool-cases, subst,
}
use libatbus_go.Base.{length, length-append, All, ltb, leb, ◌==◌, if◌then◌else◌, returns, Outcome}
use libatbus_go.Buffer.Block.{BufferBlock, unread, size}
use libatbus_go.Buffer.Block.Laws.{IsValid}
use libatbus_go.Buffer.Manager.Types.{
  Result, ok, err, no_data, buff_limit, Limit, StaticStorage, BufferManager, over_number, over_size,
  charge_block,
}
use libatbus_go.Buffer.Manager.Static.{circle_len}
use libatbus_go.Buffer.Manager.Dynamic.{
  dynamic_push_back, dynamic_push_front, dynamic_pop_back, dynamic_pop_front,
}
use libatbus_go.Buffer.Manager.Ops.{
  push_back, push_front, push_back_in, push_front_in, pop_back, pop_front, pop_back_in,
  pop_front_in, pushed, with_dynamic, with_static,
}
use libatbus_go.Buffer.Manager.Deque.{
  Costs, total, total-append, All-append, popped_back, popped_front, left_of, left_of_lem,
  fix_limit-Costs,
}
use libatbus_go.Buffer.Manager.Window.{Holds}
use libatbus_go.Buffer.Manager.RingPush.{
  Stored, IsFresh, new_buffer_block-IsFresh, static_push_back-Stored, static_push_front-Stored,
}
use libatbus_go.Buffer.Manager.RingPop.{
  limit_after, static_pop_back-Stored, static_pop_front-Stored,
}

-- In static mode the ring has a slot more than the limit on blocks, and the fixed buffer has room
-- for the limit on bytes.
pub record InRing (sb : StaticStorage) (l : Limit) (bs : List BufferBlock) : Type 0 where
  pub holds : Holds sb bs
  pub slots : circle_len sb ≡ l.limit_number + 1
  pub fits : l.limit_size ≤ length sb.buffer
  pub some_slots : 0 < l.limit_number
  pub some_bytes : 0 < l.limit_size

abbrev pub KeepsIn : Option StaticStorage → List BufferBlock → Limit → List BufferBlock → Type 0
KeepsIn none ds l bs = ds ≡ bs
KeepsIn (some sb) ds l bs = InRing sb l bs

-- The manager keeps the deque `bs`, at its cost.
pub record Keeps (m : BufferManager) (bs : List BufferBlock) : Type 0 where
  pub stored : KeepsIn m.static_buffer m.dynamic_buffer m.limit bs
  pub costs : Costs m.limit bs
  pub valid : All IsValid bs

abbrev pub manager : List BufferBlock → Option StaticStorage → Limit → BufferManager
manager ds o l = record { dynamic_buffer = ds; static_buffer = o; limit = l }

-- Whether the limits refuse a block of `n` bytes.
abbrev pub refuses : Limit → ℕ → Bool
refuses l n = over_number l || over_size l n

pub Stored-InRing :
    (sb sb' : StaticStorage) (l l' : Limit) (bs bs' : List BufferBlock)
    → InRing sb l bs
    → l'.limit_number ≡ l.limit_number
    → l'.limit_size ≡ l.limit_size
    → Stored sb sb' bs'
    → InRing sb' l' bs'
Stored-InRing sb sb' l l' bs bs' r en es st =
    let slots = r.slots in
    let fits = r.fits in
    let same = st.same_slots in
    let long = ap (length {A = ℕ}) st.same_buffer in
    let some_slots = r.some_slots in
    let some_bytes = r.some_bytes in
    record {
      holds = st.holds;
      slots = omega (arith, slots, same, en);
      fits = omega (arith, fits, long, es);
      some_slots = omega (arith, some_slots, en);
      some_bytes = omega (arith, some_bytes, es);
    }
