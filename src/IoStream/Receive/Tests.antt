-- ===== src/IoStream/Receive/Tests.antt =====
-- The read path on small inputs.
use libatbus_go.Base.{
  ℕ, ◌≡◌, refl, List, [], ◌∷◌, none, Bool, true, false, Outcome, returns, panics, replicate,
}
use libatbus_go.IoStream.Receive.{
  ReadLimits, Receiver, feed, feed_loop, feed_head, feed_large, head_frames,
  process_read_head_frames, process_complete_large_frame, accept_frame,
}
use libatbus_go.IoStream.Receive.{new_receiver, feed_all}
use libatbus_go.IoStream.Receive.Stream.{frames}
use libatbus_go.IoStream.Receive.Delivery.{joined, feed_all-frames}
use libatbus_go.Buffer.Vint.Encoding.{high_groups}
use libatbus_go.Base.{arith}
use libatbus_go.Buffer.Vint.{read_vint, read_vint_loop}

abbrev sum : List ℕ → ℕ
sum xs = 7

abbrev limits : ReadLimits
limits = record {
  receive_buffer_limit_size = 2;
  max_check_block_size_failed = 0;
  max_check_hash_failed = 1;
}

abbrev small : Receiver
small = record {
  head = replicate 16 0;
  head_len = 0;
  large = none;
  hash_failed = 0;
  block_size_failed = 0;
  statistic_hash_failed = 0;
  statistic_block_size_failed = 0;
  received = [];
}

outcome : Outcome (Bool × Receiver) → Outcome (Bool × ℕ × List (List ℕ))
outcome panics = panics
outcome (returns (b, r)) = returns (b, r.head_len, r.received)

-- Two frames and the start of a third.
two_frames :
    outcome (feed sum limits (7 ∷ 0 ∷ 0 ∷ 0 ∷ 1 ∷ 9 ∷ 7 ∷ 0 ∷ 0 ∷ 0 ∷ 2 ∷ 5 ∷ 6 ∷ 7 ∷ 0 ∷ []) small)
    ≡ returns (false, 2, (9 ∷ []) ∷ (5 ∷ 6 ∷ []) ∷ [])
unfolding outcome feed feed_loop feed_head feed_large head_frames process_read_head_frames
    process_complete_large_frame accept_frame read_vint read_vint_loop
two_frames = refl

-- A frame with another hash is dropped, and the next is received.
bad_hash :
    outcome (feed sum limits (8 ∷ 0 ∷ 0 ∷ 0 ∷ 1 ∷ 9 ∷ 7 ∷ 0 ∷ 0 ∷ 0 ∷ 1 ∷ 5 ∷ []) small)
    ≡ returns (false, 0, (5 ∷ []) ∷ [])
unfolding outcome feed feed_loop feed_head feed_large head_frames process_read_head_frames
    process_complete_large_frame accept_frame read_vint read_vint_loop
bad_hash = refl

-- A payload above the limit closes the connection.
too_long :
    outcome (feed sum limits (7 ∷ 0 ∷ 0 ∷ 0 ∷ 3 ∷ 1 ∷ 1 ∷ 1 ∷ []) small) ≡ returns (true, 0, [])
unfolding outcome feed feed_loop feed_head feed_large head_frames process_read_head_frames
    process_complete_large_frame accept_frame read_vint read_vint_loop
too_long = refl

-- A length field of 2 ^ 64 - 1 makes the slice expression panic.
hostile_length :
    outcome (
      feed sum limits
        (7 ∷ 0 ∷ 0 ∷ 0 ∷ 129 ∷ 255 ∷ 255 ∷ 255 ∷ 255 ∷ 255 ∷ 255 ∷ 255 ∷ 255 ∷ 127 ∷ [])
        small)
    ≡ panics
unfolding outcome feed feed_loop feed_head feed_large head_frames process_read_head_frames
    process_complete_large_frame accept_frame read_vint read_vint_loop
hostile_length = refl

abbrev sent : List (List ℕ)
sent = (9 ∷ []) ∷ (5 ∷ 6 ∷ []) ∷ []

-- The reads cut the first frame in its hash, and the second in its hash too.
abbrev reads : List (List ℕ)
reads = (7 ∷ 0 ∷ 0 ∷ []) ∷ (0 ∷ 1 ∷ 9 ∷ 7 ∷ 0 ∷ []) ∷ (0 ∷ 0 ∷ 2 ∷ 5 ∷ 6 ∷ []) ∷ []

feed_all-frames_example :
    (r : Receiver) × (feed_all sum limits reads new_receiver ≡ returns (false, r))
    × (r.received ≡ sent)
unfolding joined frames high_groups
feed_all-frames_example =
    feed_all-frames sum limits sent reads refl
      ((omega arith, omega arith, refl), ((omega arith, omega arith, refl), tt))
