-- ===== src/Buffer/Manager/View/Observe.antt =====
-- `NewBufferManager`, `SetMode`, and the methods that only look: `Empty`, `Count`, `Front`, `Back`,
-- and a pop of nothing.
use libatbus_go.Base.{
  ◌⊎◌, true, false, ℕ, zero, suc, ◌+◌, ◌%◌, ◌<◌, ◌≡◌, refl, sym, ap, ◌∙◌, subst, arith, List, [],
  ◌∷◌, ◌++◌, Option, none, some, Bool, not, ◌&&◌, inl, inr, snoc_cases, Bool-cases,
}
use libatbus_go.Base.{length, get_or, replicate, length-replicate, ltb, ◌==◌}
use libatbus_go.Buffer.Block.{BufferBlock, padding_size}
use libatbus_go.Buffer.Block.Laws.{padding_size_lem}
use libatbus_go.Buffer.Manager.Types.{no_data, Limit, StaticStorage, BufferManager}
use libatbus_go.Buffer.Manager.Static.{
  circle_len, static_front, static_back, static_count, static_pop_back, static_pop_front,
}
use libatbus_go.Buffer.Manager.Dynamic.{
  front?, back?, is_empty, dynamic_pop_back, dynamic_pop_front,
}
use libatbus_go.Buffer.Manager.Ops.{
  new_buffer_manager, reset, no_limit, set_mode, is_static_mode, empty, count, front, back,
  pop_back, pop_front, pop_back_in, pop_front_in,
}
use libatbus_go.Buffer.Manager.Deque.{Costs, total, back?-append}
use libatbus_go.Buffer.Manager.Window.{Holds, Holds-of, wraps_once, place_zero}
use libatbus_go.Buffer.Manager.Ring.{slot_head, static_empty-Holds}
use libatbus_go.Buffer.Manager.RingPop.{slot_back, is_empty-snoc}
use libatbus_go.Buffer.Manager.View.{InRing, Keeps, manager}

no-Costs : (l : Limit) → l.cost_number ≡ 0 → l.cost_size ≡ 0 → Costs l []
unfolding total
no-Costs l hn hs = record { number = hn; bytes = hs }

nothing : (l : Limit) → l.cost_number ≡ 0 → l.cost_size ≡ 0 → Keeps (manager [] none l) []
nothing l hn hs = record { stored = refl; costs = no-Costs l hn hs; valid = tt }

all_none : (n i : ℕ) → get_or {A = Option BufferBlock} (replicate n none) i none ≡ none
all_none zero i = refl
all_none (suc n) zero = refl
all_none (suc n) (suc i) = all_none n i

abbrev fresh_ring : ℕ → ℕ → StaticStorage
fresh_ring s n = record {
  buffer = replicate (padding_size (s + 8)) 0;
  circle_index = replicate (n + 1) none;
  head = 0;
  tail = 0;
}

fresh_ring-InRing :
    (s n : ℕ)
    → 0 < s
    → 0 < n
    → InRing (fresh_ring s n) (record no_limit { limit_size = s; limit_number = n }) []
fresh_ring-InRing s n hs hn =
    let slots : circle_len (fresh_ring s n) ≡ n + 1 = length-replicate (n + 1) none in
    let long : length (fresh_ring s n).buffer ≡ padding_size (s + 8) =
      length-replicate (padding_size (s + 8)) 0 in
    let (multiple, enough, below) = padding_size_lem (s + 8) in
    let m = circle_len (fresh_ring s n) in
    record {
      holds =
          Holds-of (fresh_ring s n) [] m refl (omega (arith, slots)) (omega (arith, slots))
            (sym (place_zero m 0 (omega (arith, slots)))) (λ k hk. all_none (n + 1) ((0 + k) % m));
      slots = slots;
      fits = omega (arith, long, enough);
      some_slots = hn;
      some_bytes = hs;
    }

one_is_zero : (s n : ℕ) → (not (s == 0) && ltb 0 n) ≡ false → (s ≡ 0) ⊎ (n ≡ 0)
one_is_zero zero n e = inl refl
one_is_zero (suc s) n e = inr (ground arith)

-- `SetMode` empties any manager, which then keeps the empty deque like a new manager. With two
-- positive numbers it is in static mode, with these as its limits; where one is 0, it is in dynamic
-- mode without limits, as a new manager is.
pub set_mode_lem :
    (s n : ℕ) (m : BufferManager)
    → Keeps (set_mode s n m) []
      × Keeps new_buffer_manager []
      × (((0 < s)
            × (0 < n)
            × (is_static_mode (set_mode s n m) ≡ true)
            × ((set_mode s n m).limit.limit_size ≡ s)
            × ((set_mode s n m).limit.limit_number ≡ n))
          ⊎ (((s ≡ 0) ⊎ (n ≡ 0)) × (set_mode s n m ≡ new_buffer_manager)))
unfolding set_mode reset new_buffer_manager
set_mode_lem s n m = elim (Bool-cases (not (s == 0) && ltb 0 n)) [
  | inl e ↦
      let both : (0 < s) × (0 < n) = ground arith in
      (
        rw e (record {
          stored = fresh_ring-InRing s n both.0 both.1;
          costs = no-Costs _ refl refl;
          valid = tt;
        }),
        nothing no_limit refl refl,
        inl (both.0, both.1, rw e refl, rw e refl, rw e refl),
      )
  | inr e ↦ (
    rw e (nothing no_limit refl refl),
    nothing no_limit refl refl,
    inr (one_is_zero s n e, rw e refl),
  )
]

static_count_lem :
    (sb : StaticStorage) (bs : List BufferBlock) → Holds sb bs → static_count sb ≡ length bs
unfolding static_count
static_count_lem sb [] h = rw (static_empty-Holds sb [] h) refl
static_count_lem sb (b ∷ bs) h =
    let here = h.head_in in
    let room = h.room in
    let at = h.tail_at in
    rw (static_empty-Holds sb (b ∷ bs) h) (
      ground
        (arith, wraps_once (circle_len sb) (sb.head + length (b ∷ bs)) (omega (arith, here, room))))

static_front_lem :
    (sb : StaticStorage) (bs : List BufferBlock) → Holds sb bs → static_front sb ≡ front? bs
unfolding static_front
static_front_lem sb [] h = rw (static_empty-Holds sb [] h) refl
static_front_lem sb (b ∷ bs) h = rw (static_empty-Holds sb (b ∷ bs) h, slot_head sb (b ∷ bs) h) refl

static_back-snoc :
    (sb : StaticStorage) (rest : List BufferBlock) (b : BufferBlock)
    → Holds sb (rest ++ (b ∷ []))
    → static_back sb ≡ back? (rest ++ (b ∷ []))
unfolding static_back
static_back-snoc sb rest b h =
    rw
      (
        static_empty-Holds sb (rest ++ (b ∷ [])) h,
        is_empty-snoc rest b,
        slot_back sb rest b h,
        back?-append rest b,
      )
      refl

static_back_lem :
    (sb : StaticStorage) (bs : List BufferBlock) → Holds sb bs → static_back sb ≡ back? bs
unfolding static_back
static_back_lem sb bs h = elim (snoc_cases bs) [
  | inl e ↦
      let nil : Holds sb [] = subst (Holds sb) e h in rw (e, static_empty-Holds sb [] nil) refl
  | inr (rest, b, e) ↦ static_back-snoc sb rest b (subst (Holds sb) e h) ∙ ap back? (sym e)
]

-- Every part of what a manager shows, of its two fields.
observe_in :
    (ds : List BufferBlock) (o : Option StaticStorage) (l : Limit) (bs : List BufferBlock)
    → Keeps (manager ds o l) bs
    → (empty (manager ds o l) ≡ is_empty bs)
      × (count (manager ds o l) ≡ length bs)
      × (front (manager ds o l) ≡ front? bs)
      × (back (manager ds o l) ≡ back? bs)
unfolding empty count front back
observe_in ds none l bs k =
    (ap is_empty k.stored, ap length k.stored, ap front? k.stored, ap back? k.stored)
observe_in ds (some sb) l bs k =
    let h = k.stored.holds in
    (
      static_empty-Holds sb bs h,
      static_count_lem sb bs h,
      static_front_lem sb bs h,
      static_back_lem sb bs h,
    )

-- A manager that keeps a deque shows it in both modes: `Empty` and `Count` tell its length, `Front`
-- and `Back` its two ends, nil where it is empty.
pub observe_lem :
    (m : BufferManager) (bs : List BufferBlock)
    → Keeps m bs
    → (empty m ≡ is_empty bs) × (count m ≡ length bs) × (front m ≡ front? bs) × (back m ≡ back? bs)
observe_lem m bs k = observe_in m.dynamic_buffer m.static_buffer m.limit bs k

pop_nothing :
    (ds : List BufferBlock) (o : Option StaticStorage) (l : Limit) (n : ℕ) (free : Bool)
    → Keeps (manager ds o l) []
    → (pop_back_in o n free (manager ds o l) ≡ (some no_data, manager ds o l))
      × (pop_front_in o n free (manager ds o l) ≡ (some no_data, manager ds o l))
unfolding pop_back_in pop_front_in dynamic_pop_back dynamic_pop_front static_pop_back
    static_pop_front
pop_nothing ds none l n free k = (rw k.stored refl, rw k.stored refl)
pop_nothing ds (some sb) l n free k =
    let e = static_empty-Holds sb [] k.stored.holds in (rw e refl, rw e refl)

-- On a manager that keeps the empty deque both pops return the error for no data and change nothing.
pub pop_empty_lem :
    (n : ℕ) (free : Bool) (m : BufferManager)
    → Keeps m []
    → (pop_back n free m ≡ (some no_data, m)) × (pop_front n free m ≡ (some no_data, m))
unfolding pop_back pop_front
pop_empty_lem n free m k = pop_nothing m.dynamic_buffer m.static_buffer m.limit n free k
