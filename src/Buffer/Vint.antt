-- ===== src/Buffer/Vint.antt =====
-- buffer/buffer_algorithm.go: the variable-length integers of the frame header. The most significant
-- group of seven bits comes first, and every byte but the last has its top bit set.
-- A byte slice is a list of numbers below 256, and a function that writes into its argument returns
-- the new contents beside its result.
pub mod Encoding
pub mod Loops
pub mod Write
pub mod Read
pub mod RoundTrip
mod Tests
use Prim.Native.Nat.{bit_and, bit_or}
use libatbus_go.Base.{
  ℕ, zero, suc, ◌+◌, ◌-◌, ◌*◌, ◌/◌, ◌%◌, ◌^◌, ◌<◌, List, [], ◌∷◌, Bool, ◌&&◌, not,
}
use libatbus_go.Base.{length, get_or, set, leb, ltb, ◌==◌, if◌then◌else◌}

abbrev pub IsByte : ℕ → Type 0
IsByte b = b < 256

abbrev pub IsU64 : ℕ → Type 0
IsU64 v = v < 2 ^ 64

-- `v >> 7`, and `out << 7` of a uint64
abbrev pub shr7 : ℕ → ℕ
shr7 v = v / 128

abbrev pub shl7 : ℕ → ℕ
shl7 v = v * 128 % 2 ^ 64

-- `byte(v)`
abbrev pub byte : ℕ → ℕ
byte v = v % 256

-- The loop of `ReadVint`. The list is what the loop has not reached, and `total` is `len(data)`, so
-- `left` is the length of the list's tail.
unfoldable pub read_vint_loop : ℕ → List ℕ → ℕ → ℕ × ℕ
read_vint_loop total [] out = (out, total)
read_vint_loop total (b ∷ rest) out =
    let out' = bit_or (shl7 out) (bit_and b 0x7f) in
    let left = length rest in
    let more = read_vint_loop total rest out' in
    if bit_and b 0x80 == 0 then (out', total - left) else if left == 0 then (0, 0) else more

-- `ReadVint`: the value and the number of bytes consumed.
unfoldable pub read_vint : List ℕ → ℕ × ℕ
read_vint bytes = if length bytes == 0 then (0, 0) else read_vint_loop (length bytes) bytes 0

-- The variables of `WriteVint`.
pub record Writer : Type 0 where
  pub value : ℕ
  pub buf : List ℕ
  pub used : ℕ
  pub d : ℕ

-- One round of the loop that writes the groups behind the first.
unfoldable pub write_group : Writer → Writer
write_group w = record {
  value = shr7 w.value;
  buf = set w.buf (w.d + 1) (byte (bit_or 0x80 (bit_and w.value 0x7f)));
  used = w.used + 1;
  d = w.d + 1;
}

-- `for value != 0 && used+1 <= len(data)`. Each round uses a byte of the slice, so its length is
-- fuel enough.
unfoldable pub write_groups : ℕ → Writer → Writer
write_groups zero w = w
write_groups (suc fuel) w =
    let next = write_groups fuel (write_group w) in
    if not (w.value == 0) && leb (w.used + 1) (length w.buf) then next else w

-- `for i, j := 0, d; i < j; i, j = i+1, j-1`, which swaps two bytes a round.
unfoldable pub swap_loop : ℕ → ℕ → ℕ → List ℕ → List ℕ
swap_loop zero i j buf = buf
swap_loop (suc fuel) i j buf =
    let next =
      swap_loop fuel (i + 1) (j - 1) (set (set buf i (get_or buf j 0)) j (get_or buf i 0)) in
    if ltb i j then next else buf

unfoldable pub first_group : ℕ → List ℕ → Writer
first_group value buf = record {
  value = shr7 value;
  buf = set buf 0 (byte (bit_and value 0x7f));
  used = 1;
  d = 0;
}

unfoldable pub finish_write : Writer → ℕ × List ℕ
finish_write w =
    if not (w.value == 0)
    then (0, w.buf)
    else (w.used, if ltb 0 w.d then swap_loop w.d 0 w.d w.buf else w.buf)

-- `WriteVint`: the number of bytes written, and the slice afterwards.
unfoldable pub write_vint : ℕ → List ℕ → ℕ × List ℕ
write_vint value buf =
    if length buf == 0
    then (0, buf)
    else finish_write (write_groups (length buf) (first_group value buf))

-- A uint64 has ten groups of seven bits at most.
abbrev pub max_vint_size : ℕ
max_vint_size = 10

unfoldable pub vint_size_loop : ℕ → ℕ → ℕ → ℕ
vint_size_loop zero value size = size
vint_size_loop (suc fuel) value size =
    let next = vint_size_loop fuel (shr7 value) (size + 1) in if value == 0 then size else next

-- `VintEncodedSize`; `max_vint_size` rounds are enough for a uint64.
unfoldable pub vint_encoded_size : ℕ → ℕ
vint_encoded_size value = if value == 0 then 1 else vint_size_loop max_vint_size value 0
