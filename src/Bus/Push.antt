-- ===== src/Bus/Push.antt =====
-- The counts of a connection over some pushes.
use libatbus_go.Base.{
  ℕ, suc, ◌+◌, ◌%◌, ◌^◌, ◌≡◌, refl, ap, arith, List, [], ◌∷◌, Option, none, some, Bool, true, false,
  not, ◌&&◌, Bool-cases, inl, inr, length,
}
use libatbus_go.Base.{if◌then◌else◌}
use libatbus_go.Bus.Types.{
  ErrorType, success, params, no_data, closing, channel_not_support, other_error, is_success,
  connected, handshaking, same_state, Connection, ConnectionStatistic,
}
use libatbus_go.Bus.Connection.{IoChannel, push, push_to, push_started, push_failed}

-- A push: the channel as it stands at that call, and the bytes
abbrev pub Pushing : Type 0
Pushing = Option IoChannel × List ℕ

abbrev pub failures : List ErrorType → ℕ
failures [] = 0
failures (r ∷ rs) = if is_success r then failures rs else suc (failures rs)

-- The bytes of the pushes whose answer is an error
abbrev pub failed_bytes : List Pushing → List ErrorType → ℕ
failed_bytes ((channel, p) ∷ ps) (r ∷ rs) =
    if is_success r then failed_bytes ps rs else length p + failed_bytes ps rs
failed_bytes _ _ = 0

abbrev pub total_bytes : List Pushing → ℕ
total_bytes [] = 0
total_bytes ((channel, p) ∷ ps) = length p + total_bytes ps

-- What one push does to the counts, by its answer.
record Counted (n : ℕ) (r : ErrorType) (a b : ConnectionStatistic) : Type 0 where
  start_times : b.push_start_times ≡ (a.push_start_times + 1) % 2 ^ 64
  start_size : b.push_start_size ≡ (a.push_start_size + n) % 2 ^ 64
  failed_times :
      b.push_failed_times
      ≡ (if is_success r then a.push_failed_times else (a.push_failed_times + 1) % 2 ^ 64)
  failed_size :
      b.push_failed_size
      ≡ (if is_success r then a.push_failed_size else (a.push_failed_size + n) % 2 ^ 64)

answered :
    (n : ℕ) (r : ErrorType) (c : Connection)
    → Counted n r c.statistic
        (if is_success r then push_started n c else push_failed n (push_started n c)).statistic
answered n success c = record {
  start_times = refl;
  start_size = refl;
  failed_times = refl;
  failed_size = refl;
}
answered n params c = record {
  start_times = refl;
  start_size = refl;
  failed_times = refl;
  failed_size = refl;
}
answered n no_data c = record {
  start_times = refl;
  start_size = refl;
  failed_times = refl;
  failed_size = refl;
}
answered n closing c = record {
  start_times = refl;
  start_size = refl;
  failed_times = refl;
  failed_size = refl;
}
answered n channel_not_support c = record {
  start_times = refl;
  start_size = refl;
  failed_times = refl;
  failed_size = refl;
}
answered n (other_error k) c = record {
  start_times = refl;
  start_size = refl;
  failed_times = refl;
  failed_size = refl;
}

push_to-Counted :
    (channel : Option IoChannel) (bytes : List ℕ) (stream : Option ℕ) (c : Connection)
    → Counted
        (length bytes)
        ((push_to channel bytes stream (push_started (length bytes) c)).0)
        c.statistic
        ((push_to channel bytes stream (push_started (length bytes) c)).1).statistic
push_to-Counted channel bytes none c = record {
  start_times = refl;
  start_size = refl;
  failed_times = refl;
  failed_size = refl;
}
push_to-Counted none bytes (some stream) c = record {
  start_times = refl;
  start_size = refl;
  failed_times = refl;
  failed_size = refl;
}
push_to-Counted (some channel) bytes (some stream) c =
    answered (length bytes) (channel.send stream bytes) c

push-Counted :
    (channel : Option IoChannel) (bytes : List ℕ) (c : Connection)
    → Counted
        (length bytes)
        ((push channel bytes c).0)
        c.statistic
        ((push channel bytes c).1).statistic
unfolding push
push-Counted channel bytes c =
    elim (Bool-cases
      (not (same_state c.status connected) && not (same_state c.status handshaking))) [
        | inl h ↦ rw h record {
          start_times = refl;
          start_size = refl;
          failed_times = refl;
          failed_size = refl;
        }
        | inr h ↦ rw h (push_to-Counted channel bytes c.io_stream_connection c)
      ]

-- Some pushes, in order, with their answers
unfoldable pub push_all : List Pushing → Connection → List ErrorType × Connection
push_all [] c = ([], c)
push_all ((channel, p) ∷ ps) c =
    let (r, c1) = push channel p c in let (rs, c2) = push_all ps c1 in (r ∷ rs, c2)

-- Over any pushes in a row, whatever the state of the connection, and with answers of the channel that
-- may differ from call to call, the counts of the pushes that started grow by their number and their
-- bytes, and the counts of those that failed by the number and the bytes of those that were answered
-- with an error, all modulo 2 ^ 64.
pub push_all-counts :
    (ps : List Pushing) (c : Connection)
    → let (rs, c') = push_all ps c in
      let a = c.statistic in
      let b = c'.statistic in
      (length rs ≡ length ps)
      × (b.push_start_times % 2 ^ 64 ≡ (a.push_start_times + length ps) % 2 ^ 64)
      × (b.push_start_size % 2 ^ 64 ≡ (a.push_start_size + total_bytes ps) % 2 ^ 64)
      × (b.push_failed_times % 2 ^ 64 ≡ (a.push_failed_times + failures rs) % 2 ^ 64)
      × (b.push_failed_size % 2 ^ 64 ≡ (a.push_failed_size + failed_bytes ps rs) % 2 ^ 64)
unfolding push_all
push_all-counts [] c = (refl, omega arith, omega arith, omega arith, omega arith)
push_all-counts ((channel, p) ∷ ps) c =
    let (r, c1) = push channel p c in
    let once = push-Counted channel p c in
    let (long, times, size, failed, failed_size) = push_all-counts ps c1 in
    let (rs, c2) = push_all ps c1 in
    let a = c.statistic in
    let m = c1.statistic in
    let b = c2.statistic in
    let failed_next = once.failed_times in
    let bytes_next = once.failed_size in
    (
      ap suc long,
      omega (arith, times, once.start_times),
      omega (arith, size, once.start_size),
      counts_on (is_success r) b.push_failed_times m.push_failed_times a.push_failed_times
          (failures rs) failed failed_next,
      counts_on_size (is_success r) b.push_failed_size m.push_failed_size a.push_failed_size
          (failed_bytes ps rs) (length p) failed_size bytes_next,
    )
  where
    counts_on :
        (ok : Bool) (total after before k : ℕ)
        → total % 2 ^ 64 ≡ (after + k) % 2 ^ 64
        → after ≡ (if ok then before else (before + 1) % 2 ^ 64)
        → total % 2 ^ 64 ≡ (before + (if ok then k else suc k)) % 2 ^ 64
    counts_on true total after before k h e = omega (arith, h, e)
    counts_on false total after before k h e = omega (arith, h, e)

    counts_on_size :
        (ok : Bool) (total after before k n : ℕ)
        → total % 2 ^ 64 ≡ (after + k) % 2 ^ 64
        → after ≡ (if ok then before else (before + n) % 2 ^ 64)
        → total % 2 ^ 64 ≡ (before + (if ok then k else n + k)) % 2 ^ 64
    counts_on_size true total after before k n h e = omega (arith, h, e)
    counts_on_size false total after before k n h e = omega (arith, h, e)
