-- ===== src/IoStream/Receive.antt =====
-- The read path of channel/io_stream/channel_io_stream.go: what `readLoop` does with the bytes of a
-- read, `processReadHeadFrames` and `processCompleteLargeFrame`. The head buffer is a list of 7168
-- bytes. The payloads passed to the received callback are collected in order; the callback itself
-- is not modelled. `make` is taken to have the memory asked for. The sums that may leave an `int`
-- are taken modulo 2 ^ 64, and compared as signed numbers.
pub mod Stream
pub mod Head
pub mod Window
pub mod Parse
pub mod Large
pub mod Feed
pub mod Delivery
mod Tests
use libatbus_go.Base.{
  ℕ, zero, suc, ◌+◌, ◌-◌, ◌*◌, ◌%◌, ◌^◌, List, [], ◌∷◌, ◌++◌, Option, none, some, Bool, true, false,
  not, ◌&&◌, ◌||◌,
}
use libatbus_go.Base.{
  length, take, drop, slice, copy_at, replicate, ltb, leb, slt, ◌==◌, if◌then◌else◌, Outcome,
  returns, ◌>>=◌, checked_slice,
}
use libatbus_go.Buffer.Vint.{read_vint}
use libatbus_go.IoStream.Frame.{hash_size, uint32_value}

-- `DataSmallSize`
abbrev pub data_small_size : ℕ
data_small_size = 7168

-- `readLargeFrameState`
pub record LargeFrame : Type 0 where
  pub buffer : List ℕ
  pub write_pos : ℕ
  pub msg_len : ℕ

-- The fields of the configuration that the read path looks at
pub record ReadLimits : Type 0 where
  pub receive_buffer_limit_size : ℕ
  pub max_check_block_size_failed : ℕ
  pub max_check_hash_failed : ℕ

-- The fields of the connection and of the channel that it changes
pub record Receiver : Type 0 where
  pub head : List ℕ
  pub head_len : ℕ
  pub large : Option LargeFrame
  pub hash_failed : ℕ
  pub block_size_failed : ℕ
  pub statistic_hash_failed : ℕ
  pub statistic_block_size_failed : ℕ
  pub received : List (List ℕ)

unfoldable pub new_receiver : Receiver
new_receiver = record {
  head = replicate data_small_size 0;
  head_len = 0;
  large = none;
  hash_failed = 0;
  block_size_failed = 0;
  statistic_hash_failed = 0;
  statistic_block_size_failed = 0;
  received = [];
}

-- `atomic.AddUint64(&counter, 1)`
abbrev pub add_one : ℕ → ℕ
add_one n = (n + 1) % 2 ^ 64

abbrev pub count_hash_failed : Receiver → Receiver
count_hash_failed r = record r {
  hash_failed = add_one r.hash_failed;
  statistic_hash_failed = add_one r.statistic_hash_failed;
}

abbrev pub count_block_size_failed : Receiver → Receiver
count_block_size_failed r = record r {
  block_size_failed = add_one r.block_size_failed;
  statistic_block_size_failed = add_one r.statistic_block_size_failed;
}

abbrev pub too_big : ReadLimits → ℕ → Bool
too_big c n = ltb 0 c.receive_buffer_limit_size && ltb c.receive_buffer_limit_size n

module _ (sum32 : List ℕ → ℕ) (c : ReadLimits) where
  -- What both functions do with a complete frame: whether the connection is to be closed, and the
  -- receiver after the callback or the counts.
  unfoldable pub accept_frame : List ℕ → ℕ → ℕ → Receiver → Bool × Receiver
  accept_frame payload expected_hash msg_len r =
      if not (sum32 payload == expected_hash)
      then (ltb c.max_check_hash_failed (add_one r.hash_failed), count_hash_failed r)
      else if too_big c msg_len
      then (
        ltb c.max_check_block_size_failed (add_one r.block_size_failed),
        count_block_size_failed r,
      )
      else (false, record r { received = r.received ++ (payload ∷ []) })

  -- The large frame that starts in the head buffer: its hash, and what is there of its payload
  abbrev pub large_from : ℕ → ℕ → ℕ → ℕ → List ℕ → LargeFrame
  large_from start left vint_size msg_len head =
      let hashed =
        copy_at 0 (replicate (hash_size + msg_len) 0) (slice start (start + hash_size) head) in
      record {
        buffer =
            copy_at hash_size hashed (slice (start + hash_size + vint_size) (start + left) head);
        write_pos = hash_size + (left - hash_size - vint_size);
        msg_len = msg_len;
      }

  -- The loop of `processReadHeadFrames`, with `buffStart`, `buffLeftLen` and `isFree`. A frame takes
  -- at least a byte, so a fuel of `buffLeftLen` is enough.
  unfoldable pub head_frames : ℕ → ℕ → ℕ → Bool → Receiver → Outcome (ℕ × ℕ × Bool × Receiver)
  head_frames zero start left free r = returns (start, left, free, r)
  head_frames (suc fuel) start left free r =
      let (msg_len, vint_size) = read_vint (slice (start + hash_size) (start + left) r.head) in
      let total = (hash_size + vint_size + msg_len) % 2 ^ 64 in
      let payload_start = start + hash_size + vint_size in
      let expected_hash = uint32_value (slice start (start + hash_size) r.head) in
      let complete =
        checked_slice payload_start ((payload_start + msg_len) % 2 ^ 64) r.head >>= λ payload.
        let (closes, r') = accept_frame payload expected_hash msg_len r in
        head_frames fuel (start + total) (left - total) (free || closes) r' in
      if leb left hash_size
      then returns (start, left, free, r)
      else if vint_size == 0
      then returns (start, left, free, r)
      else if not (slt left total)
      then complete
      else if not (slt data_small_size total)
      then returns (start, left, free, r)
      else if too_big c msg_len
      then returns (start, left, true, count_block_size_failed r)
      else returns (
        start + left,
        0,
        free,
        record r { large = some (large_from start left vint_size msg_len r.head) },
      )

  -- "Compact": the head buffer and its length after the loop
  abbrev pub compact_head : ℕ → ℕ → Receiver → Receiver
  compact_head start left r = record r {
    head =
        if ltb 0 start && ltb 0 left
        then copy_at 0 r.head (slice start (start + left) r.head)
        else r.head;
    head_len = left;
  }

  -- `processReadHeadFrames`
  unfoldable pub process_read_head_frames : Receiver → Outcome (Bool × Receiver)
  process_read_head_frames r =
      head_frames r.head_len 0 r.head_len false r >>= λ s. returns (s.2, compact_head s.0 s.1 s.3)

  -- `processCompleteLargeFrame`
  unfoldable pub process_complete_large_frame : LargeFrame → Receiver → Outcome (Bool × Receiver)
  process_complete_large_frame lf r =
      checked_slice hash_size (hash_size + lf.msg_len) lf.buffer >>= λ payload.
      returns (accept_frame payload (uint32_value (take hash_size lf.buffer)) lf.msg_len r)

  -- One round of the loop of `readLoop` over `incoming`: the bytes that go to the large frame, or
  -- to the head buffer, and what that completes. The answer has the bytes left.
  abbrev pub at_most : ℕ → ℕ → ℕ
  at_most room n = if ltb room n then room else n

  unfoldable pub feed_large : LargeFrame → List ℕ → Receiver → Outcome (Bool × List ℕ × Receiver)
  feed_large lf incoming r =
      let n = at_most (hash_size + lf.msg_len - lf.write_pos) (length incoming) in
      let lf' : LargeFrame = record lf {
        buffer = copy_at lf.write_pos lf.buffer (take n incoming);
        write_pos = lf.write_pos + n;
      } in
      let r' : Receiver = record r { large = some lf' } in
      if leb (hash_size + lf.msg_len) (lf.write_pos + n)
      then (process_complete_large_frame lf' r' >>= λ s.
          returns (s.0, drop n incoming, if s.0 then s.1 else record (s.1) { large = none }))
      else returns (false, drop n incoming, r')

  unfoldable pub feed_head : List ℕ → Receiver → Outcome (Bool × List ℕ × Receiver)
  feed_head incoming r =
      let n = at_most (data_small_size - r.head_len) (length incoming) in
      let r' : Receiver = record r {
        head = copy_at r.head_len r.head (take n incoming);
        head_len = r.head_len + n;
      } in
      if leb data_small_size r.head_len
      then returns (true, incoming, r)
      else process_read_head_frames r' >>= λ s. returns (s.0, drop n incoming, s.1)

  abbrev pub feed_round : List ℕ → Receiver → Outcome (Bool × List ℕ × Receiver)
  feed_round incoming r = elim r.large [
    | none ↦ feed_head incoming r
    | some lf ↦ feed_large lf incoming r
  ]

  -- The loop: whether the connection is to be closed. A round takes a byte, but for one that ends a
  -- large frame which is already complete, so twice the number of the bytes is enough fuel.
  unfoldable pub feed_loop : ℕ → List ℕ → Receiver → Outcome (Bool × Receiver)
  feed_loop zero incoming r = returns (false, r)
  feed_loop (suc fuel) [] r = returns (false, r)
  feed_loop (suc fuel) (x ∷ xs) r = feed_round (x ∷ xs) r >>= λ s. elim (s.0) [
    | true ↦ returns (true, s.2)
    | false ↦ feed_loop fuel (s.1) (s.2)
  ]

  unfoldable pub feed : List ℕ → Receiver → Outcome (Bool × Receiver)
  feed incoming r = feed_loop (2 * length incoming) incoming r

  -- `readLoop` over the reads of a connection, in order: it stops at the first that closes it.
  unfoldable pub feed_all : List (List ℕ) → Receiver → Outcome (Bool × Receiver)
  feed_all [] r = returns (false, r)
  feed_all (chunk ∷ chunks) r = feed chunk r >>= λ s. elim (s.0) [
    | true ↦ returns (true, s.1)
    | false ↦ feed_all chunks (s.1)
  ]
