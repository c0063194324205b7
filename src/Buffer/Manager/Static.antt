-- ===== src/Buffer/Manager/Static.antt =====
-- The static mode of buffer/buffer_manager.go: a ring of slots between `head` and `tail`, of which
-- one always stays empty.
use libatbus_go.Base.{ℕ, ◌+◌, ◌-◌, ◌%◌, List, [], Option, none, some, Bool, true, false, ◌&&◌, pos}
use libatbus_go.Base.{
  length, take, drop, set, get_or, leb, ◌==◌, if◌then◌else◌, Outcome, returns, ◌>>=◌, checked_slice,
}
use libatbus_go.Buffer.Block.{BufferBlock, new_buffer_block, size, raw_size, pop}
use libatbus_go.Buffer.Manager.Types.{
  no_data, buff_limit, Result, ok, err, Limit, StaticStorage, release_block, fix_limit,
}
use libatbus_go.Buffer.Manager.Dynamic.{or_malloc, clamp, grown_back, grown_front}

abbrev pub circle_len : StaticStorage → ℕ
circle_len sb = length sb.circle_index

abbrev pub slot : StaticStorage → ℕ → Option BufferBlock
slot sb i = get_or sb.circle_index i none

abbrev pub is_nil : Option BufferBlock → Bool
is_nil none = true
is_nil (some b) = false

-- `(i + circleLen - 1) % circleLen`
abbrev pub before : StaticStorage → ℕ → ℕ
before sb i = (i + circle_len sb - 1) % circle_len sb

abbrev pub after : StaticStorage → ℕ → ℕ
after sb i = (i + 1) % circle_len sb

-- `staticEmpty`, `staticFront`, `staticBack`
abbrev pub static_empty : StaticStorage → Bool
static_empty sb = sb.head == sb.tail

unfoldable pub static_front : StaticStorage → Option BufferBlock
static_front sb = if static_empty sb then none else slot sb sb.head

unfoldable pub static_back : StaticStorage → Option BufferBlock
static_back sb = if static_empty sb then none else slot sb (before sb sb.tail)

-- "Empty init": the first block is a part of the fixed buffer.
unfoldable pub first_block : ℕ → StaticStorage → Outcome (Result (BufferBlock × StaticStorage))
first_block n sb = checked_slice 0 n sb.buffer >>= λ bytes.
    let b : BufferBlock = record { bytes = bytes; used = 0 } in
    returns (
      ok (
        b,
        record sb {
          circle_index = set sb.circle_index 0 (some b);
          head = 0;
          tail = (0 + 1) % circle_len sb;
        },
      ))

-- The block is stored at the tail, or in front of the head.
abbrev pub put_back : StaticStorage → BufferBlock → StaticStorage
put_back sb b = record sb {
  circle_index = set sb.circle_index sb.tail (some b);
  tail = after sb sb.tail;
}

abbrev pub put_front : StaticStorage → BufferBlock → StaticStorage
put_front sb b = record sb {
  circle_index = set sb.circle_index (before sb sb.head) (some b);
  head = before sb sb.head;
}

abbrev pub is_full : StaticStorage → Bool
is_full sb = after sb sb.tail == sb.head

abbrev pub is_initial : StaticStorage → Bool
is_initial sb = is_nil (slot sb sb.head) && is_nil (slot sb sb.tail)

-- `staticPushBack` and `staticPushFront`
unfoldable pub static_push_back : ℕ → StaticStorage → Outcome (Result (BufferBlock × StaticStorage))
static_push_back n sb =
    if is_full sb
    then returns (err buff_limit)
    else if is_initial sb
    then first_block n sb
    else returns (or_malloc (λ b. (b, put_back sb b)) (new_buffer_block (pos n)))

unfoldable pub static_push_front :
    ℕ → StaticStorage → Outcome (Result (BufferBlock × StaticStorage))
static_push_front n sb =
    if is_full sb
    then returns (err buff_limit)
    else if is_initial sb
    then first_block n sb
    else returns (or_malloc (λ b. (b, put_front sb b)) (new_buffer_block (pos n)))

-- `Size` and `Pop` of a block that may be nil
abbrev pub size? : Option BufferBlock → ℕ
size? none = 0
size? (some b) = size b

abbrev pub clamp? : ℕ → Option BufferBlock → ℕ
clamp? n none = 0
clamp? n (some b) = clamp n b

abbrev pub pop? : ℕ → Option BufferBlock → Option BufferBlock
pop? n none = none
pop? n (some b) = some (pop n b)

-- "Fix limit and reset to init state"
abbrev pub reset_if_empty : StaticStorage → StaticStorage
reset_if_empty sb = if static_empty sb then record sb { head = 0; tail = 0 } else sb

-- `staticPopBack`. What it stores is the same block, changed, or nil.
unfoldable pub static_pop_back : ℕ → Bool → StaticStorage → Limit → Result (StaticStorage × Limit)
static_pop_back n free_unwritable sb l =
    let i = before sb sb.tail in
    let b = slot sb i in
    let n' = clamp? n b in
    let b' = pop? n' b in
    let freed = free_unwritable && size? b' == 0 in
    let popped : StaticStorage = record sb { circle_index = set sb.circle_index i b' } in
    let sb' : StaticStorage =
      if freed then record sb { circle_index = set sb.circle_index i none; tail = i } else popped in
    if static_empty sb
    then err no_data
    else ok (reset_if_empty sb', fix_limit (static_empty sb') n' (release_block freed l))

-- `staticPopFront`
unfoldable pub static_pop_front : ℕ → Bool → StaticStorage → Limit → Result (StaticStorage × Limit)
static_pop_front n free_unwritable sb l =
    let b = slot sb sb.head in
    let n' = clamp? n b in
    let b' = pop? n' b in
    let freed = free_unwritable && size? b' == 0 in
    let popped : StaticStorage = record sb { circle_index = set sb.circle_index sb.head b' } in
    let sb' : StaticStorage =
      if freed
      then record sb { circle_index = set sb.circle_index sb.head none; head = after sb sb.head }
      else popped in
    if static_empty sb
    then err no_data
    else ok (reset_if_empty sb', fix_limit (static_empty sb') n' (release_block freed l))

-- `staticMergeBack`
merge_slot_back : ℕ → Option BufferBlock → StaticStorage → Result (List ℕ × StaticStorage)
merge_slot_back n none sb = err no_data
merge_slot_back n (some b) sb =
    or_malloc
      (λ fresh. (
        drop (raw_size b) (grown_back b fresh).bytes,
        record sb {
          circle_index = set sb.circle_index (before sb sb.tail) (some (grown_back b fresh));
        },
      ))
      (new_buffer_block (pos (n + raw_size b)))

unfoldable pub static_merge_back : ℕ → StaticStorage → Result (List ℕ × StaticStorage)
unfolding merge_slot_back
static_merge_back n sb = if n == 0 then ok ([], sb) else merge_slot_back n (static_back sb) sb

-- `staticMergeFront`
merge_slot_front : ℕ → Option BufferBlock → StaticStorage → Result (List ℕ × StaticStorage)
merge_slot_front n none sb = err no_data
merge_slot_front n (some b) sb =
    or_malloc
      (λ fresh. (
        take n (grown_front n b fresh).bytes,
        record sb { circle_index = set sb.circle_index sb.head (some (grown_front n b fresh)) },
      ))
      (new_buffer_block (pos (n + raw_size b)))

unfoldable pub static_merge_front : ℕ → StaticStorage → Result (List ℕ × StaticStorage)
unfolding merge_slot_front
static_merge_front n sb = if n == 0 then ok ([], sb) else merge_slot_front n (static_front sb) sb

-- `Count` in static mode
unfoldable pub static_count : StaticStorage → ℕ
static_count sb =
    if static_empty sb
    then 0
    else if leb sb.head sb.tail
    then sb.tail - sb.head
    else circle_len sb - sb.head + sb.tail
