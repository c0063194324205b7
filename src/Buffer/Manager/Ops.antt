-- ===== src/Buffer/Manager/Ops.antt =====
-- The methods of `BufferManager`, in both modes. One that changes the manager returns it beside its
-- result.
use libatbus_go.Base.{ℕ, ◌+◌, ◌-◌, List, [], Option, none, some, Bool, true, false, not, ◌&&◌}
use libatbus_go.Base.{length, replicate, ltb, ◌==◌, if◌then◌else◌, Outcome, returns, ◌>>=◌}
use libatbus_go.Buffer.Block.{BufferBlock, unread, size, raw_size, padding_size, data_align_size}
use libatbus_go.Buffer.Manager.Types.{
  BufferError, no_data, buff_limit, Result, ok, err, Limit, StaticStorage, BufferManager,
  over_number, over_size, charge_block, charge_size,
}
use libatbus_go.Buffer.Manager.Dynamic.{
  front?, back?, is_empty, dynamic_push_back, dynamic_push_front, dynamic_pop_back,
  dynamic_pop_front, dynamic_merge_back, dynamic_merge_front,
}
use libatbus_go.Buffer.Manager.Static.{
  static_empty, static_front, static_back, static_push_back, static_push_front, static_pop_back,
  static_pop_front, static_merge_back, static_merge_front, static_count,
}

abbrev pub no_limit : Limit
no_limit = record { cost_number = 0; cost_size = 0; limit_number = 0; limit_size = 0 }

-- `NewBufferManager`
unfoldable pub new_buffer_manager : BufferManager
new_buffer_manager = record { dynamic_buffer = []; static_buffer = none; limit = no_limit }

-- `Reset`
unfoldable pub reset : BufferManager → BufferManager
reset m = record { dynamic_buffer = []; static_buffer = none; limit = no_limit }

-- `IsStaticMode`
abbrev pub is_static_mode : BufferManager → Bool
is_static_mode m = elim m.static_buffer [ none ↦ false | some sb ↦ true ]

-- `SetLimit`
unfoldable pub set_limit : ℕ → ℕ → BufferManager → Bool × BufferManager
set_limit max_size max_number m = if is_static_mode m then (false, m) else (
  true,
  record m { limit = record (m.limit) { limit_number = max_number; limit_size = max_size } },
)

-- `SetMode`
unfoldable pub set_mode : ℕ → ℕ → BufferManager → BufferManager
set_mode max_size max_number m =
    if not (max_size == 0) && ltb 0 max_number
    then record {
      dynamic_buffer = [];
      static_buffer = some (record {
        buffer = replicate (padding_size (max_size + data_align_size)) 0;
        circle_index = replicate (max_number + 1) none;
        head = 0;
        tail = 0;
      });
      limit = record no_limit { limit_size = max_size; limit_number = max_number };
    }
    else reset m

-- `Empty`
unfoldable pub empty : BufferManager → Bool
empty m = elim m.static_buffer [ none ↦ is_empty m.dynamic_buffer | some sb ↦ static_empty sb ]

-- `Front` and `Back`
unfoldable pub front : BufferManager → Option BufferBlock
front m = elim m.static_buffer [ none ↦ front? m.dynamic_buffer | some sb ↦ static_front sb ]

unfoldable pub back : BufferManager → Option BufferBlock
back m = elim m.static_buffer [ none ↦ back? m.dynamic_buffer | some sb ↦ static_back sb ]

-- `FrontData` and `BackData`: the unread bytes, and how many are read and unread.
unfoldable pub block_data : Option BufferBlock → Result (List ℕ × ℕ × ℕ)
block_data none = err no_data
block_data (some b) = ok (unread b, raw_size b - size b, size b)

unfoldable pub front_data : BufferManager → Result (List ℕ × ℕ × ℕ)
front_data m = block_data (front m)

unfoldable pub back_data : BufferManager → Result (List ℕ × ℕ × ℕ)
back_data m = block_data (back m)

-- What a push does with the answer of its mode.
abbrev pub pushed {ℓ} :
    {S : Type ℓ}
    → (S → BufferManager)
    → ℕ
    → BufferManager
    → Result (BufferBlock × S)
    → Result (List ℕ) × BufferManager
pushed store n m (err e) = (err e, m)
pushed store n m (ok (b, s)) = (ok (unread b), record (store s) { limit = charge_block m.limit n })

abbrev pub with_dynamic : BufferManager → List BufferBlock → BufferManager
with_dynamic m bs = record m { dynamic_buffer = bs }

abbrev pub with_static : BufferManager → StaticStorage → BufferManager
with_static m sb = record m { static_buffer = some sb }

unfoldable pub push_back_in :
    Option StaticStorage → ℕ → BufferManager → Outcome (Result (List ℕ) × BufferManager)
push_back_in none n m = returns (pushed (with_dynamic m) n m (dynamic_push_back n m.dynamic_buffer))
push_back_in (some sb) n m = static_push_back n sb >>= λ r. returns (pushed (with_static m) n m r)

unfoldable pub push_front_in :
    Option StaticStorage → ℕ → BufferManager → Outcome (Result (List ℕ) × BufferManager)
push_front_in none n m =
    returns (pushed (with_dynamic m) n m (dynamic_push_front n m.dynamic_buffer))
push_front_in (some sb) n m = static_push_front n sb >>= λ r. returns (pushed (with_static m) n m r)

-- `PushBack` and `PushFront`
unfoldable pub push_back : ℕ → BufferManager → Outcome (Result (List ℕ) × BufferManager)
push_back n m =
    if over_number m.limit
    then returns (err buff_limit, m)
    else if over_size m.limit n
    then returns (err buff_limit, m)
    else push_back_in m.static_buffer n m

unfoldable pub push_front : ℕ → BufferManager → Outcome (Result (List ℕ) × BufferManager)
push_front n m =
    if over_number m.limit
    then returns (err buff_limit, m)
    else if over_size m.limit n
    then returns (err buff_limit, m)
    else push_front_in m.static_buffer n m

-- What a pop does with the answer of its mode: `none` is success.
abbrev pub popped {ℓ} :
    {S : Type ℓ}
    → (S → BufferManager)
    → BufferManager
    → Result (S × Limit)
    → Option BufferError × BufferManager
popped store m (err e) = (some e, m)
popped store m (ok (s, l)) = (none, record (store s) { limit = l })

-- `PopBack` and `PopFront`
unfoldable pub pop_back_in :
    Option StaticStorage → ℕ → Bool → BufferManager → Option BufferError × BufferManager
pop_back_in none n free m =
    popped (with_dynamic m) m (dynamic_pop_back n free m.dynamic_buffer m.limit)
pop_back_in (some sb) n free m = popped (with_static m) m (static_pop_back n free sb m.limit)

unfoldable pub pop_back : ℕ → Bool → BufferManager → Option BufferError × BufferManager
pop_back n free m = pop_back_in m.static_buffer n free m

unfoldable pub pop_front_in :
    Option StaticStorage → ℕ → Bool → BufferManager → Option BufferError × BufferManager
pop_front_in none n free m =
    popped (with_dynamic m) m (dynamic_pop_front n free m.dynamic_buffer m.limit)
pop_front_in (some sb) n free m = popped (with_static m) m (static_pop_front n free sb m.limit)

unfoldable pub pop_front : ℕ → Bool → BufferManager → Option BufferError × BufferManager
pop_front n free m = pop_front_in m.static_buffer n free m

-- What a merge does with the answer of its mode.
abbrev pub merged {ℓ} :
    {S : Type ℓ}
    → (S → BufferManager)
    → ℕ
    → BufferManager
    → Result (List ℕ × S)
    → Result (List ℕ) × BufferManager
merged store n m (err e) = (err e, m)
merged store n m (ok (space, s)) = (ok space, record (store s) { limit = charge_size m.limit n })

unfoldable pub merge_back_in :
    Option StaticStorage → ℕ → BufferManager → Result (List ℕ) × BufferManager
merge_back_in none n m = merged (with_dynamic m) n m (dynamic_merge_back n m.dynamic_buffer)
merge_back_in (some sb) n m = merged (with_static m) n m (static_merge_back n sb)

unfoldable pub merge_front_in :
    Option StaticStorage → ℕ → BufferManager → Result (List ℕ) × BufferManager
merge_front_in none n m = merged (with_dynamic m) n m (dynamic_merge_front n m.dynamic_buffer)
merge_front_in (some sb) n m = merged (with_static m) n m (static_merge_front n sb)

-- `MergeBack` and `MergeFront`
unfoldable pub merge_back : ℕ → BufferManager → Outcome (Result (List ℕ) × BufferManager)
merge_back n m =
    if empty m
    then push_back n m
    else if over_size m.limit n
    then returns (err buff_limit, m)
    else returns (merge_back_in m.static_buffer n m)

unfoldable pub merge_front : ℕ → BufferManager → Outcome (Result (List ℕ) × BufferManager)
merge_front n m =
    if empty m
    then push_front n m
    else if over_size m.limit n
    then returns (err buff_limit, m)
    else returns (merge_front_in m.static_buffer n m)

-- `Count`
unfoldable pub count : BufferManager → ℕ
count m = elim m.static_buffer [ none ↦ length m.dynamic_buffer | some sb ↦ static_count sb ]
