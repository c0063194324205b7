-- ===== src/IoStream/Reader/Refine.antt =====
-- `ReadFrame` on the bytes that a reader holds.
use libatbus_go.Base.{
  ℕ, ◌+◌, ◌-◌, ◌≤◌, ◌<◌, ◌≡◌, refl, sym, ap, ◌∙◌, arith, inl, inr, Bool-cases, none, ◌⊎◌, ◌≢◌, ◌^◌,
  take,
}
use libatbus_go.Base.{List, ◌++◌, length, drop, ltb, returns}
use libatbus_go.Base.{
  length-overwrite, length-append, take-overwrite, drop-slice, length-slice, slice-zero, ◌/◌,
  drop-append_left, lt→ltb, le→leb,
}
use libatbus_go.IoStream.Frame.{IsU32, UnpackResult, incomplete, uint32_value, unpack_frame}
use libatbus_go.IoStream.Frame.Layout.{frame_of}
use libatbus_go.IoStream.Frame.Unpack.{
  IsSlice, HasHeader, accepted, rejected, unpacked, unpack_frame-frame_of, unpack_frame_cases,
}
use libatbus_go.IoStream.Reader.{FrameReader, compact, consume, read_frame}
use libatbus_go.IoStream.Reader.Contents.{IsValid, contents}

compact_lem :
    (r : FrameReader) → IsValid r → IsValid (compact r) × (contents (compact r) ≡ contents r)
unfolding compact
compact_lem r v = elim (Bool-cases (ltb (length r.buf / 2) r.read_pos)) [
  | inl e ↦
      let held = length-slice r.read_pos r.write_pos r.buf v.in_buf in
      rw e (
        record {
          ordered = omega arith;
          in_buf = omega (arith, length-overwrite r.buf (contents r));
        },
        slice-zero (r.write_pos - r.read_pos) _
            ∙ take-overwrite (r.write_pos - r.read_pos) r.buf (contents r) (sym held) (omega arith),
      )
  | inr e ↦ rw e (v, refl)
]

-- What a successful read leaves.
consume_lem :
    (r : FrameReader) (n : ℕ)
    → IsValid r
    → 0 < n
    → n ≤ length (contents r)
    → IsValid (consume none n r) × (contents (consume none n r) ≡ drop n (contents r))
unfolding consume
consume_lem r n v pos h =
    let held = length-slice r.read_pos r.write_pos r.buf v.in_buf in
    let moved : FrameReader = record r { read_pos = r.read_pos + n } in
    let ok : IsValid moved = record { ordered = omega arith; in_buf = v.in_buf } in
    let (valid, same) = compact_lem moved ok in
    rw (lt→ltb 0 n pos) (valid, same ∙ sym (drop-slice n r.read_pos r.write_pos r.buf))

module _ (sum32 : List ℕ → ℕ) where
  read_frame_step :
      (r : FrameReader) (result : UnpackResult)
      → IsValid r
      → unpack_frame sum32 (contents r) ≡ returns result
      → read_frame sum32 r ≡ returns (result, consume result.error result.consumed r)
  unfolding read_frame
  read_frame_step r result v e =
      rw (le→leb r.read_pos r.write_pos v.ordered, le→leb r.write_pos (length r.buf) v.in_buf, e)
        refl

  -- A valid reader whose unread bytes begin with a frame returns its payload, accepted, and keeps
  -- exactly the bytes behind the frame, whether it moves them or not.
  pub read_frame-frame_of :
      (r : FrameReader) (payload rest : List ℕ)
      → IsU32 (sum32 payload)
      → IsSlice (contents r)
      → IsValid r
      → contents r ≡ frame_of sum32 payload ++ rest
      → (r' : FrameReader) × (read_frame sum32 r ≡ returns (unpacked sum32 payload, r'))
        × IsValid r'
        × (contents r' ≡ rest)
  read_frame-frame_of r payload rest hash h v e =
      let n = length (frame_of sum32 payload) in
      let long = ap length e ∙ length-append (frame_of sum32 payload) rest in
      let framed : unpack_frame sum32 (contents r) ≡ returns (unpacked sum32 payload) =
        ap (unpack_frame sum32) e
        ∙ unpack_frame-frame_of sum32 payload rest hash (omega (arith, ap length e)) in
      let (valid, left) = consume_lem r n v (omega arith) (omega arith) in
      (
        consume none n r,
        read_frame_step r (unpacked sum32 payload) v framed,
        valid,
        left ∙ ap (drop n) e ∙ drop-append_left n (frame_of sum32 payload) rest refl,
      )

  -- A valid reader whose unread bytes begin with a complete header, of a frame whose length is an
  -- `int`, does one of three things in `ReadFrame`. If the frame is not there in full, it asks for
  -- more and stays as it is. If it is, and its payload has the hash that is written, it returns the
  -- payload and keeps exactly the bytes behind the frame. If the hash is another, it returns
  -- `ErrInvalidFrameHash` and stays as it is.
  pub read_frame_cases :
      (r : FrameReader) (p n : ℕ)
      → IsValid r
      → HasHeader (contents r) p n
      → 4 + n + p < 2 ^ 63
      → let hash = uint32_value (take 4 (contents r)) in
        let payload = take p (drop (4 + n) (contents r)) in
        ((length (contents r) < 4 + n + p) × (read_frame sum32 r ≡ returns (incomplete, r)))
        ⊎ (((4 + n + p ≤ length (contents r))
              × (sum32 payload ≡ hash)
              × (r' : FrameReader) × (read_frame sum32 r
                  ≡ returns (accepted payload (4 + n + p), r'))
              × IsValid r'
              × (contents r' ≡ drop (4 + n + p) (contents r)))
            ⊎ ((4 + n + p ≤ length (contents r))
                × (sum32 payload ≢ hash)
                × (read_frame sum32 r ≡ returns (rejected payload (4 + n + p), r))))
  unfolding consume
  read_frame_cases r p n v h small = elim (unpack_frame_cases sum32 (contents r) p n h) [
    | inl (_, short, e) ↦ inl (short, read_frame_step r incomplete v e)
    | inr (inl (whole, result, e, inl (good, is))) ↦
        let total = 4 + n + p in
        let payload = take p (drop (4 + n) (contents r)) in
        let (valid, left) = consume_lem r total v (omega arith) whole in
        inr (
          inl (
            whole,
            good,
            consume none total r,
            read_frame_step r (accepted payload total) v (e ∙ ap returns is),
            valid,
            left,
          ))
    | inr (inl (whole, result, e, inr (bad, is))) ↦
        let payload = take p (drop (4 + n) (contents r)) in
        inr
          (inr (whole, bad, read_frame_step r (rejected payload (4 + n + p)) v (e ∙ ap returns is)))
    | inr (inr (big, _)) ↦ absurd (omega (arith, big))
  ]
