-- ===== src/IoStream/Frame.antt =====
-- channel/io_stream/frame_codec.go: a frame is the hash of the payload in four bytes, lowest first,
-- the payload's length as a variable-length integer, and the payload.
-- The hash is murmur3, a library: a parameter, of which the code relies on nothing but its type,
-- uint32. Lengths of slices are natural numbers, below 2 ^ 63 as in Go; the length that a frame
-- claims is any uint64, and what the code computes from it is a pattern of 64 bits.
pub mod Layout
pub mod Pack
pub mod Unpack
mod Tests
use libatbus_go.Base.{
  ℕ, ◌+◌, ◌*◌, ◌/◌, ◌%◌, ◌^◌, ◌<◌, List, [], ◌∷◌, Bool, true, false, not, Option, none, some,
}
use libatbus_go.Base.{length, take, drop, slice, copy_at, get_or, ltb, ◌==◌, if◌then◌else◌}
use libatbus_go.Base.{Outcome, returns, panics, ◌>>=◌, slt, checked_slice}
use libatbus_go.Buffer.Vint.{read_vint, write_vint, vint_encoded_size}

abbrev pub hash_size : ℕ
hash_size = 4

abbrev pub IsU32 : ℕ → Type 0
IsU32 v = v < 2 ^ 32

-- `binary.LittleEndian.PutUint32` and `Uint32`
abbrev pub uint32_bytes : ℕ → List ℕ
uint32_bytes v = v % 256 ∷ v / 256 % 256 ∷ v / 65536 % 256 ∷ v / 16777216 % 256 ∷ []

abbrev pub uint32_value : List ℕ → ℕ
uint32_value bs =
    get_or bs 0 0 + get_or bs 1 0 * 256 + get_or bs 2 0 * 65536 + get_or bs 3 0 * 16777216

-- The errors of a frame, and the codes of error_code/ that go with them.
pub data FrameError : Type 0 where
  incomplete_frame invalid_frame_hash : FrameError

pub data ErrorCode : Type 0 where
  success no_data bad_data : ErrorCode

-- `UnpackFrameResult`
pub record UnpackResult : Type 0 where
  pub payload : List ℕ
  pub consumed : ℕ
  pub error : Option FrameError
  pub error_code : ErrorCode

abbrev pub incomplete : UnpackResult
incomplete = record {
  payload = [];
  consumed = 0;
  error = some incomplete_frame;
  error_code = no_data;
}

-- `PackFrameSize`, as a pattern
unfoldable pub pack_frame_size : ℕ → ℕ
pack_frame_size payload_size = (hash_size + vint_encoded_size payload_size + payload_size) % 2 ^ 64

-- `TryUnpackFrameHeader`: the payload's length, the header's size, and whether more is needed
unfoldable pub try_unpack_frame_header : List ℕ → ℕ × ℕ × Bool
try_unpack_frame_header bytes =
    let (payload_len, vint_size) = read_vint (drop hash_size bytes) in
    if ltb (length bytes) (hash_size + 1)
    then (0, 0, true)
    else if vint_size == 0
    then (0, 0, true)
    else (payload_len, hash_size + vint_size, false)

-- `murmur3.Sum32`
module _ (sum32 : List ℕ → ℕ) where
  -- `PackFrame`: the size written, and the frame afterwards. `WriteVint` gets a part of the frame,
  -- which shares its bytes.
  unfoldable pub pack_frame : List ℕ → List ℕ → ℕ × List ℕ
  pack_frame payload frame =
      let payload_len = length payload in
      let vint_size = vint_encoded_size payload_len in
      let total_size = hash_size + vint_size + length payload in
      let hashed = copy_at 0 frame (uint32_bytes (sum32 payload)) in
      let (vint_written, part) =
        write_vint payload_len (slice hash_size (hash_size + vint_size) hashed) in
      let sized = copy_at hash_size hashed part in
      if ltb (length frame) total_size
      then (0, frame)
      else if not (vint_written == vint_size)
      then (0, sized)
      else (total_size, copy_at (hash_size + vint_size) sized payload)

  -- The hash check at the end of `UnpackFrame`.
  unfoldable pub verify_hash : ℕ → ℕ → List ℕ → UnpackResult
  verify_hash expected_hash total payload =
      if not (sum32 payload == expected_hash)
      then record {
        payload = payload;
        consumed = total;
        error = some invalid_frame_hash;
        error_code = bad_data;
      }
      else record { payload = payload; consumed = total; error = none; error_code = success }

  -- `UnpackFrame`. `total` is `HashSize + vintSize + int(payloadLen)`, which is also
  -- `payloadStart + int(payloadLen)`.
  unfoldable pub unpack_frame : List ℕ → Outcome UnpackResult
  unpack_frame bytes =
      let expected_hash = uint32_value (take hash_size bytes) in
      let (payload_len, vint_size) = read_vint (drop hash_size bytes) in
      let total = (hash_size + vint_size + payload_len) % 2 ^ 64 in
      let checked = checked_slice (hash_size + vint_size) total bytes >>= λ payload.
      returns (verify_hash expected_hash total payload) in
      if ltb (length bytes) (hash_size + 1)
      then returns incomplete
      else if vint_size == 0
      then returns incomplete
      else if slt (length bytes) total
      then returns incomplete
      else checked
