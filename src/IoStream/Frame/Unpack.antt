-- ===== src/IoStream/Frame/Unpack.antt =====
-- `UnpackFrame` on any bytes, and on what `PackFrame` wrote.
use libatbus_go.Base.{
  ℕ, ◌+◌, ◌-◌, ◌%◌, ◌^◌, ◌≤◌, ◌<◌, ◌≡◌, ◌≢◌, refl, sym, ap, ◌∙◌, arith, append_assoc, none, some,
  Bool-cases, ◌==◌, ==_iff, ◌⊎◌, inl, inr,
}
use libatbus_go.Base.{
  List, ◌∷◌, ◌++◌, length, length-append, take, drop, take-append_left, drop-append_left,
  length-drop, append_split, returns, panics,
}
use libatbus_go.Buffer.Vint.{IsU64, read_vint, vint_encoded_size}
use libatbus_go.Buffer.Vint.Encoding.{encoding, read_vint-encoding}
use libatbus_go.Buffer.Vint.Read.{read_vint_bounds, read_vint_prefix}
use libatbus_go.Buffer.Vint.Write.{vint_encoded_size_lem, length-encoding}
use libatbus_go.IoStream.Frame.{
  IsU32, uint32_value, pack_frame, unpack_frame, verify_hash, UnpackResult, incomplete, success,
  invalid_frame_hash, bad_data,
}
use libatbus_go.IoStream.Frame.Layout.{
  uint32_value-uint32_bytes, header, frame_of, length-header, length-frame_of,
}
use libatbus_go.IoStream.Frame.Pack.{pack_frame_fits}
use native.Mathlib.Decide.{dec_lt}

-- A Go slice is shorter than 2 ^ 63.
abbrev pub IsSlice : List ℕ → Type 0
IsSlice bytes = length bytes < 2 ^ 63

-- The bytes hold a header whose length field says `p` in `n` bytes.
pub record HasHeader (bytes : List ℕ) (p n : ℕ) : Type 0 where
  pub slice_size : IsSlice bytes
  pub long : 5 ≤ length bytes
  pub reads : read_vint (drop 4 bytes) ≡ (p, n)
  pub complete : n ≢ 0

header_bounds : {bytes : List ℕ} {p n : ℕ} → HasHeader bytes p n → IsU64 p × (4 + n ≤ length bytes)
header_bounds {bytes} {p} {n} h =
    ground (arith, read_vint_bounds (drop 4 bytes), length-drop 4 bytes)

-- The result for a frame whose hash fits its payload.
abbrev pub accepted : List ℕ → ℕ → UnpackResult
accepted payload total = record {
  payload = payload;
  consumed = total;
  error = none;
  error_code = success;
}

-- The result for a frame whose hash does not.
abbrev pub rejected : List ℕ → ℕ → UnpackResult
rejected payload total = record {
  payload = payload;
  consumed = total;
  error = some invalid_frame_hash;
  error_code = bad_data;
}

module _ (sum32 : List ℕ → ℕ) where
  unpack_waits :
      (bytes : List ℕ) (p n : ℕ)
      → HasHeader bytes p n
      → 4 + n + p < 2 ^ 63
      → length bytes < 4 + n + p
      → unpack_frame sum32 bytes ≡ returns incomplete
  unfolding unpack_frame
  unpack_waits bytes p n h small short = rw (h.reads) (ground (arith, header_bounds h))

  unpack_whole :
      (bytes : List ℕ) (p n : ℕ)
      → HasHeader bytes p n
      → 4 + n + p ≤ length bytes
      → unpack_frame sum32 bytes
        ≡ returns (
            verify_hash sum32
              (uint32_value (take 4 bytes))
              (4 + n + p)
              (take p (drop (4 + n) bytes)))
  unfolding unpack_frame
  unpack_whole bytes p n h whole =
      let e : (4 + n + p) % 2 ^ 64 ≡ 4 + n + p = omega (arith, h.slice_size) in
      let e' : 4 + n + p - (4 + n) ≡ p = omega arith in rw (h.reads, e, e') (ground arith)

  pub unpack_panics :
      (bytes : List ℕ) (p n : ℕ)
      → HasHeader bytes p n
      → 2 ^ 63 ≤ 4 + n + p
      → unpack_frame sum32 bytes ≡ panics
  unfolding unpack_frame
  unpack_panics bytes p n h big = rw (h.reads) (ground (arith, header_bounds h))

  -- The result for a whole frame: accepted exactly where the payload has the hash that is written.
  abbrev pub Judged : ℕ → List ℕ → ℕ → UnpackResult → Type 0
  Judged hash payload total result =
      ((sum32 payload ≡ hash) × (result ≡ accepted payload total))
      ⊎ ((sum32 payload ≢ hash) × (result ≡ rejected payload total))

  verify_hash-Judged :
      (hash total : ℕ) (payload : List ℕ)
      → Judged hash payload total (verify_hash sum32 hash total payload)
  unfolding verify_hash
  verify_hash-Judged hash total payload = elim (Bool-cases (sum32 payload == hash)) [
    | inl e ↦ rw e (inl ((==_iff (sum32 payload) hash).0 e, refl))
    | inr e ↦ rw e (inr ((λ p. absurd (ground (arith, p, e))), refl))
  ]

  -- `UnpackFrame` on a slice whose header is complete and claims a payload of `p` bytes, in a length
  -- field of `n` bytes, does one of three things. If the frame is longer than the slice, and its
  -- length is an `int`, the answer is `ErrIncompleteFrame`. If the slice holds it, the answer is the
  -- payload behind the header and the frame's length, accepted where the payload's hash is the one in
  -- the first four bytes, and with `ErrInvalidFrameHash` where it is not. If the frame's length is no
  -- `int`, that is 2 ^ 63 or more, the call panics.
  pub unpack_frame_cases :
      (bytes : List ℕ) (p n : ℕ)
      → HasHeader bytes p n
      → ((4 + n + p < 2 ^ 63)
          × (length bytes < 4 + n + p)
          × (unpack_frame sum32 bytes ≡ returns incomplete))
        ⊎ (((4 + n + p ≤ length bytes)
              × (result : UnpackResult) × (unpack_frame sum32 bytes ≡ returns result)
              × Judged
                  (uint32_value (take 4 bytes))
                  (take p (drop (4 + n) bytes))
                  (4 + n + p)
                  result)
            ⊎ ((2 ^ 63 ≤ 4 + n + p) × (unpack_frame sum32 bytes ≡ panics)))
  unpack_frame_cases bytes p n h = elim (dec_lt (4 + n + p) (2 ^ 63)) [
    | yes small ↦ elim (dec_lt (length bytes) (4 + n + p)) [
      | yes short ↦ inl (small, short, unpack_waits bytes p n h small short)
      | no whole ↦
          let hash = uint32_value (take 4 bytes) in
          let payload = take p (drop (4 + n) bytes) in
          inr (
            inl (
              omega arith,
              verify_hash sum32 hash (4 + n + p) payload,
              unpack_whole bytes p n h (omega arith),
              verify_hash-Judged hash (4 + n + p) payload,
            ))
    ]
    | no big ↦ inr (inr (omega arith, unpack_panics bytes p n h (omega arith)))
  ]

  unpack_short :
      (bytes : List ℕ)
      → (length bytes < 5) ⊎ (read_vint (drop 4 bytes) ≡ (0, 0))
      → unpack_frame sum32 bytes ≡ returns incomplete
  unfolding unpack_frame
  unpack_short bytes (inl h) = ground arith
  unpack_short bytes (inr h) = rw h (ground arith)

  abbrev pub unpacked : List ℕ → UnpackResult
  unpacked payload = accepted payload (length (frame_of sum32 payload))

  -- The bytes behind the hash, cut behind the length field.
  frame_tail :
      (payload rest : List ℕ)
      → drop 4 (frame_of sum32 payload ++ rest) ≡ encoding 9 (length payload) ++ (payload ++ rest)
  frame_tail payload rest = append_assoc (encoding 9 (length payload)) payload rest

  frame_of-HasHeader :
      (payload rest : List ℕ)
      → IsSlice (frame_of sum32 payload ++ rest)
      → HasHeader
          (frame_of sum32 payload ++ rest)
          (length payload)
          (vint_encoded_size (length payload))
  frame_of-HasHeader payload rest h =
      let v = length payload in
      let total = length-append (frame_of sum32 payload) rest in
      let framed = length-append (header sum32 payload) payload in
      let v64 : IsU64 v = omega (arith, total, framed) in
      let size = vint_encoded_size_lem v v64 in
      record {
        slice_size = h;
        long = omega (arith, total, length-frame_of sum32 payload v64, size, length-encoding 9 v);
        reads =
            ap read_vint (frame_tail payload rest)
            ∙ read_vint-encoding 9 v (payload ++ rest) (omega arith) v64
            ∙ ap (λ (n : ℕ). (v, n)) (sym size);
        complete = omega (arith, size, length-encoding 9 v);
      }

  verify_hash_ok :
      (payload : List ℕ) (expected total : ℕ)
      → sum32 payload ≡ expected
      → verify_hash sum32 expected total payload ≡ accepted payload total
  unfolding verify_hash
  verify_hash_ok payload expected total e = ground arith

  pub unpack_frame-frame_of :
      (payload rest : List ℕ)
      → IsU32 (sum32 payload)
      → IsSlice (frame_of sum32 payload ++ rest)
      → unpack_frame sum32 (frame_of sum32 payload ++ rest) ≡ returns (unpacked payload)
  unpack_frame-frame_of payload rest hash h =
      let v = length payload in
      let n = vint_encoded_size v in
      let has = frame_of-HasHeader payload rest h in
      let total = length-append (frame_of sum32 payload) rest in
      let framed = length-append (header sum32 payload) payload in
      let v64 : IsU64 v = omega (arith, total, framed) in
      let size = length-header sum32 payload v64 in
      unpack_whole (frame_of sum32 payload ++ rest) v n has (omega (arith, total, framed, size))
      ∙ ap returns (
          rw
            (
              append_assoc (header sum32 payload) payload rest,
              drop-append_left (4 + n) (header sum32 payload) (payload ++ rest) (sym size),
              take-append_left v payload rest refl,
            )
            (verify_hash_ok payload _ (4 + n + v)
                (sym (uint32_value-uint32_bytes (sum32 payload) hash))
              ∙ ap (accepted payload) (sym (length-frame_of sum32 payload v64))))

  -- `UnpackFrame` on a slice that `PackFrame` wrote a frame into, with room for it, accepts: it
  -- returns the payload and the frame's length, whatever bytes stand behind the frame.
  pub unpack_frame-pack_frame :
      (payload frame : List ℕ)
      → IsU32 (sum32 payload)
      → IsSlice frame
      → length (frame_of sum32 payload) ≤ length frame
      → unpack_frame sum32 (pack_frame sum32 payload frame).1 ≡ returns (unpacked payload)
  unpack_frame-pack_frame payload frame hash h fits =
      let k = length (frame_of sum32 payload) in
      let back = drop k frame in
      let long = length-append (frame_of sum32 payload) back in
      let framed = length-append (header sum32 payload) payload in
      let v64 : IsU64 (length payload) = omega (arith, framed) in
      ap (λ (p : ℕ × List ℕ). unpack_frame sum32 p.1) (pack_frame_fits sum32 payload frame v64 fits)
      ∙ unpack_frame-frame_of payload back hash (omega (arith, long, length-drop k frame))

  -- A header that is whole, with a part of the payload behind it.
  unpack_partial :
      (a b c d : ℕ) (payload tail mid : List ℕ)
      → IsSlice (frame_of sum32 payload)
      → tail ≡ encoding 9 (length payload) ++ mid
      → length mid < length payload
      → unpack_frame sum32 (a ∷ b ∷ c ∷ d ∷ tail) ≡ returns incomplete
  unpack_partial a b c d payload tail mid h e short =
      let v = length payload in
      let framed = length-append (header sum32 payload) payload in
      let v64 : IsU64 v = omega (arith, framed) in
      let size = vint_encoded_size_lem v v64 in
      let all = length-frame_of sum32 payload v64 in
      let long : length tail ≡ length (encoding 9 v) + length mid =
        ap length e ∙ length-append (encoding 9 v) mid in
      let some_byte = length-encoding 9 v in
      let has : HasHeader (a ∷ b ∷ c ∷ d ∷ tail) v (length (encoding 9 v)) = record {
        slice_size = omega arith;
        long = omega arith;
        reads = ap read_vint e ∙ read_vint-encoding 9 v mid (omega arith) v64;
        complete = omega arith;
      } in
      unpack_waits (a ∷ b ∷ c ∷ d ∷ tail) v (length (encoding 9 v)) has (omega arith) (omega arith)

  -- On every proper prefix of a frame, `UnpackFrame` returns `ErrIncompleteFrame`.
  pub unpack_frame_prefix :
      (payload front : List ℕ) (x : ℕ) (back : List ℕ)
      → IsSlice (frame_of sum32 payload)
      → frame_of sum32 payload ≡ front ++ (x ∷ back)
      → unpack_frame sum32 front ≡ returns incomplete
  unpack_frame_prefix payload (a ∷ b ∷ c ∷ d ∷ e ∷ front) x back h p =
      elim (append_split (encoding 9 (length payload)) payload (e ∷ front) x back (ap (drop 4) p)) [
        | inl (y, rest, q) ↦
            unpack_short (a ∷ b ∷ c ∷ d ∷ e ∷ front)
              (inr (read_vint_prefix (length payload) (e ∷ front) y rest q))
        | inr (mid, q, r) ↦
            unpack_partial a b c d payload (e ∷ front) mid h q
              (omega (arith, ap length r, length-append mid (x ∷ back)))
      ]
  unpack_frame_prefix payload front x back h p = unpack_short front (inl (omega arith))
