-- ===== src/IoStream/Reader.antt =====
-- channel/io_stream/frame_codec.go, `FrameReader`: a buffer that frames are read from as they come
-- in. The unread bytes stand between the two positions. The payload that a read returns is a value
-- here: in Go it may share the buffer, and the code copies it before it moves bytes over it.
pub mod Contents
pub mod Refine
mod Tests
use libatbus_go.Base.{ℕ, ◌+◌, ◌-◌, ◌*◌, ◌/◌, List, [], ◌∷◌, Option, none, some, min}
use libatbus_go.Base.{length, slice, copy_at, overwrite, replicate, ltb, if◌then◌else◌}
use libatbus_go.Base.{Outcome, returns, ◌>>=◌, checked_slice}
use libatbus_go.IoStream.Frame.{FrameError, UnpackResult, unpack_frame}

pub record FrameReader : Type 0 where
  pub buf : List ℕ
  pub read_pos : ℕ
  pub write_pos : ℕ

-- `NewFrameReader`
unfoldable pub new_frame_reader : ℕ → FrameReader
new_frame_reader capacity = record { buf = replicate capacity 0; read_pos = 0; write_pos = 0 }

-- The branch of `Write` that grows the buffer.
unfoldable pub grow : FrameReader → ℕ → FrameReader
grow r needed =
    let twice = length r.buf * 2 in
    let new_size = if ltb twice needed then needed else twice in
    record {
      buf = overwrite (replicate new_size 0) (slice r.read_pos r.write_pos r.buf);
      read_pos = 0;
      write_pos = r.write_pos - r.read_pos;
    }

-- `copy(r.buf[r.writePos:], data)` copies as many bytes as both have.
unfoldable pub append_bytes : FrameReader → List ℕ → ℕ × FrameReader
append_bytes r bytes =
    let n = min (length r.buf - r.write_pos) (length bytes) in
    (n, record r { buf = copy_at r.write_pos r.buf bytes; write_pos = r.write_pos + n })

-- `Write`
unfoldable pub write : FrameReader → List ℕ → ℕ × FrameReader
write r bytes =
    let needed = r.write_pos + length bytes in
    append_bytes (if ltb (length r.buf) needed then grow r needed else r) bytes

-- The compaction in `ReadFrame`, after `readPos` has moved.
unfoldable pub compact : FrameReader → FrameReader
compact r =
    if ltb (length r.buf / 2) r.read_pos
    then record {
      buf = copy_at 0 r.buf (slice r.read_pos r.write_pos r.buf);
      read_pos = 0;
      write_pos = r.write_pos - r.read_pos;
    }
    else r

-- `if result.Error == nil && result.Consumed > 0`
unfoldable pub consume : Option FrameError → ℕ → FrameReader → FrameReader
consume (some e) consumed r = r
consume none consumed r =
    if ltb 0 consumed then compact (record r { read_pos = r.read_pos + consumed }) else r

-- `Available`
unfoldable pub available : FrameReader → ℕ
available r = r.write_pos - r.read_pos

-- `Reset`
unfoldable pub reset : FrameReader → FrameReader
reset r = record r { read_pos = 0; write_pos = 0 }

-- `murmur3.Sum32`
module _ (sum32 : List ℕ → ℕ) where
  -- `ReadFrame`
  unfoldable pub read_frame : FrameReader → Outcome (UnpackResult × FrameReader)
  read_frame r = checked_slice r.read_pos r.write_pos r.buf >>= λ bytes.
      unpack_frame sum32 bytes >>= λ result.
      returns (result, consume result.error result.consumed r)
