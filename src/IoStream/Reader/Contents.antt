-- ===== src/IoStream/Reader/Contents.antt =====
-- What a reader holds, and that `Write` appends to it.
use libatbus_go.Base.{
  ℕ, ◌+◌, ◌-◌, ◌*◌, ◌≤◌, ◌≡◌, refl, sym, ap, ◌∙◌, arith, min, inl, inr, Bool-cases,
}
use libatbus_go.Base.{List, ◌++◌, length, slice, replicate, ltb, if◌then◌else◌}
use libatbus_go.Base.{
  length-copy_at, length-overwrite, length-replicate, take-overwrite, slice-copy_at, slice-zero,
  length-slice,
}
use libatbus_go.IoStream.Reader.{FrameReader, grow, append_bytes, write, available}

pub record IsValid (r : FrameReader) : Type 0 where
  pub ordered : r.read_pos ≤ r.write_pos
  pub in_buf : r.write_pos ≤ length r.buf

-- The bytes that are written and not read.
abbrev pub contents : FrameReader → List ℕ
contents r = slice r.read_pos r.write_pos r.buf

pub length-contents : {r : FrameReader} → IsValid r → length (contents r) ≡ available r
unfolding available
length-contents {r} v = length-slice r.read_pos r.write_pos r.buf v.in_buf

record Holds (r : FrameReader) (bytes : List ℕ) : Type 0 where
  valid : IsValid r
  holds : contents r ≡ bytes

append_bytes-Holds :
    (r : FrameReader) (bytes : List ℕ)
    → IsValid r
    → r.write_pos + length bytes ≤ length r.buf
    → ((append_bytes r bytes).0 ≡ length bytes)
      × Holds (append_bytes r bytes).1 (contents r ++ bytes)
unfolding append_bytes
append_bytes-Holds r bytes v room =
    let n : min (length r.buf - r.write_pos) (length bytes) ≡ length bytes = omega arith in
    let k = r.write_pos - r.read_pos in
    let same = length-copy_at r.write_pos r.buf bytes in
    rw n (
      refl,
      record {
        valid = record { ordered = omega arith; in_buf = omega (arith, same) };
        holds =
            slice-copy_at r.read_pos k r.write_pos (length bytes) r.buf bytes (omega arith) refl
              room;
      },
    )

grow-Holds :
    (r : FrameReader) (needed : ℕ)
    → IsValid r
    → r.write_pos ≤ needed
    → Holds (grow r needed) (contents r)
      × (needed ≤ length (grow r needed).buf)
      × ((grow r needed).write_pos ≡ r.write_pos - r.read_pos)
unfolding grow
grow-Holds r needed v h =
    let twice = length r.buf * 2 in
    let size = if ltb twice needed then needed else twice in
    let enough : (needed ≤ size) × (length r.buf ≤ size) = ground arith in
    let fresh = length-replicate {A = ℕ} size 0 in
    let same = length-overwrite (replicate size 0) (contents r) in
    let held : length (contents r) ≡ r.write_pos - r.read_pos =
      length-slice r.read_pos r.write_pos r.buf v.in_buf in
    (
      record {
        valid = record { ordered = omega arith; in_buf = omega (arith, same, fresh) };
        holds =
            slice-zero (r.write_pos - r.read_pos) _
            ∙ take-overwrite (r.write_pos - r.read_pos) (replicate size 0) (contents r) (sym held)
                (omega (arith, fresh));
      },
      omega (arith, same, fresh),
      refl,
    )

-- `Write` on a valid reader takes all of its argument, whether it has to grow the buffer or not: it
-- returns the length of the argument, the reader stays valid, and the argument stands behind the
-- unread bytes.
pub write_lem :
    (r : FrameReader) (bytes : List ℕ)
    → IsValid r
    → ((write r bytes).0 ≡ length bytes)
      × IsValid (write r bytes).1
      × (contents (write r bytes).1 ≡ contents r ++ bytes)
unfolding write
write_lem r bytes v = elim (Bool-cases (ltb (length r.buf) (r.write_pos + length bytes))) [
  | inl e ↦
      let (held, room, at) = grow-Holds r (r.write_pos + length bytes) v (omega arith) in
      let out =
        append_bytes-Holds (grow r (r.write_pos + length bytes)) bytes held.valid
          (omega (arith, room, at)) in
      rw e (out.0, out.1.valid, out.1.holds ∙ ap (λ t. t ++ bytes) held.holds)
  | inr e ↦
      let out = append_bytes-Holds r bytes v (ground arith) in
      rw e (out.0, out.1.valid, out.1.holds)
]
