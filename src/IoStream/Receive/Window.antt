-- ===== src/IoStream/Receive/Window.antt =====
-- The bytes that a receiver holds of a stream of frames: in the head buffer, or in a large frame.
use libatbus_go.Base.{
  ℕ, ◌+◌, ◌-◌, ◌^◌, ◌≤◌, ◌<◌, ◌≡◌, refl, sym, ap, ◌∙◌, arith, ◌⊎◌, inl, Bool, false, none, some,
  append-nil, All,
}
use libatbus_go.Base.{
  List, [], ◌∷◌, ◌++◌, length, length-append, length-drop, take, drop, slice, copy_at, replicate,
  take-all, take-overwrite, drop-append_left, take-copy_at, length-copy_at, length-replicate,
  ==-refl, Outcome, returns,
}
use libatbus_go.Buffer.Vint.{read_vint, IsU64}
use libatbus_go.Buffer.Vint.Encoding.{encoding}
use libatbus_go.Buffer.Vint.Write.{vint_encoded_size_lem, length-encoding}
use libatbus_go.Buffer.Vint.RoundTrip.{vint_encoded_size_bounds}
use libatbus_go.IoStream.Frame.{uint32_bytes, uint32_value}
use libatbus_go.IoStream.Frame.Layout.{header, frame_of, uint32_value-uint32_bytes}
use libatbus_go.IoStream.Receive.{ReadLimits, LargeFrame, Receiver, accept_frame, large_from}
use libatbus_go.IoStream.Receive.Stream.{
  slice_window, frames, IsSendable, header_len_lem, frame_len_lem,
}

module _ (sum32 : List ℕ → ℕ) (c : ReadLimits) where
  -- The head buffer holds the bytes `w`, and `s` is still to come of the frames of `todo`: `w` has
  -- no whole frame, and leaves the buffer room.
  pub record HeadHolds (w s : List ℕ) (todo : List (List ℕ)) : Type 0 where
    pub stream : w ++ s ≡ frames sum32 todo
    pub room : length w < 7168
    pub waits : (todo ≡ []) ⊎ (length w < length (frames sum32 todo))

  -- The large frame has a part of the first payload of `todo`, and `s` is still to come.
  pub record LargeHolds (lf : LargeFrame) (s : List ℕ) (todo : List (List ℕ)) : Type 0 where
    pub payload : List ℕ
    pub later : List (List ℕ)
    pub here : List ℕ
    pub more : List ℕ
    pub is_next : todo ≡ payload ∷ later
    pub splits : payload ≡ here ++ more
    pub some_more : 0 < length more
    pub says_len : lf.msg_len ≡ length payload
    pub buffer_len : length lf.buffer ≡ 4 + length payload
    pub at : lf.write_pos ≡ 4 + length here
    pub holds : take (4 + length here) lf.buffer ≡ uint32_bytes (sum32 payload) ++ here
    pub still : s ≡ more ++ frames sum32 later

  -- What is left to hold after the loop: `left` bytes at `start` of the head buffer, or a large frame.
  abbrev pub Leaves : List ℕ → List (List ℕ) → ℕ → ℕ → Receiver → Type 0
  Leaves s todo start left r =
      ((r.large ≡ none)
        × (w : List ℕ) × (tail : List ℕ) × (drop start r.head ≡ w ++ tail)
        × (length w ≡ left)
        × HeadHolds w s todo)
      ⊎ ((left ≡ 0) × (lf : LargeFrame) × (r.large ≡ some lf) × LargeHolds lf s todo)

  pub record Parsed (s : List ℕ) (todo : List (List ℕ)) (r : Receiver)
      (out : Outcome (ℕ × ℕ × Bool × Receiver)) : Type 0 where
    pub start : ℕ
    pub left : ℕ
    pub after : Receiver
    pub new : List (List ℕ)
    pub later : List (List ℕ)
    pub runs : out ≡ returns (start, left, false, after)
    pub splits : todo ≡ new ++ later
    pub received : after.received ≡ r.received ++ new
    pub same_head : after.head ≡ r.head
    pub leaves : Leaves s later start left after

  pub header_short :
      (p : List ℕ) → length (frame_of sum32 p) < 2 ^ 62 → length (header sum32 p) < 15
  header_short p h =
      let long = frame_len_lem sum32 p in
      let small : IsU64 (length p) = omega (arith, long, h) in
      let bound = (vint_encoded_size_bounds (length p) small).1 in
      omega (arith, header_len_lem sum32 p, vint_encoded_size_lem (length p) small, bound)

  -- The accepted frame of a payload that is sendable.
  pub accepts_sendable :
      (p : List ℕ) (r : Receiver)
      → IsSendable sum32 c p
      → accept_frame sum32 c p (uint32_value (uint32_bytes (sum32 p))) (length p) r
        ≡ (false, record r { received = r.received ++ (p ∷ []) })
  unfolding accept_frame
  accepts_sendable p r ok =
      rw (uint32_value-uint32_bytes (sum32 p) ok.0, ==-refl (sum32 p), ok.2) refl

  -- Nothing more can be parsed: the loop stops where it is.
  pub stays :
      (s : List ℕ) (todo : List (List ℕ)) (start : ℕ) (w tail : List ℕ) (r : Receiver)
      (out : Outcome (ℕ × ℕ × Bool × Receiver))
      → drop start r.head ≡ w ++ tail
      → r.large ≡ none
      → HeadHolds w s todo
      → out ≡ returns (start, length w, false, r)
      → Parsed s todo r out
  stays s todo start w tail r out e none_large h runs = record {
    start = start;
    left = length w;
    after = r;
    new = [];
    later = todo;
    runs = runs;
    splits = refl;
    received = sym (append-nil r.received);
    same_head = refl;
    leaves = inl (none_large, w, tail, e, refl, h);
  }

  pub frames-pos : (p : List ℕ) (ps : List (List ℕ)) → 4 < length (frames sum32 (p ∷ ps))
  unfolding frames
  frames-pos p ps = omega (
    arith,
    length-append (frame_of sum32 p) (frames sum32 ps),
    frame_len_lem sum32 p,
    length-encoding 9 (length p),
  )

  -- The bytes of the head buffer behind `start`, and the frames that they begin.
  pub record Window (start : ℕ) (w s tail : List ℕ) (todo : List (List ℕ)) (r : Receiver)
      : Type 0 where
    pub place : drop start r.head ≡ w ++ tail
    pub stream : w ++ s ≡ frames sum32 todo
    pub inside : start + length w ≤ length r.head
    pub bounded : length r.head < 2 ^ 62
    pub sendable : All (IsSendable sum32 c) todo
    pub no_large : r.large ≡ none
    pub room : length w ≤ 7168

  -- `ReadVint` in the head buffer reads the window.
  pub window_vint :
      (start : ℕ) (w tail : List ℕ) (r : Receiver)
      → drop start r.head ≡ w ++ tail
      → 4 < length w
      → read_vint (slice (start + 4) (start + length w) r.head) ≡ read_vint (drop 4 w)
  window_vint start w tail r e h =
      let long = length-drop 4 w in
      ap read_vint (
        slice_window start 4 (length w) r.head w tail e (omega arith) (omega arith)
        ∙ take-all (length w - 4) (drop 4 w) (omega (arith, long)))

  pub window_hash :
      (start : ℕ) (w tail : List ℕ) (r : Receiver)
      → drop start r.head ≡ w ++ tail
      → 4 ≤ length w
      → slice start (start + 4) r.head ≡ take 4 w
  window_hash start w tail r e h =
      ap (λ t. slice t (start + 4) r.head) (omega arith)
      ∙ slice_window start 0 4 r.head w tail e h (omega arith)

  -- The part of a payload that stands behind a header in the window.
  pub window_part :
      (start v : ℕ) (w head mid tail : List ℕ) (r : Receiver)
      → drop start r.head ≡ w ++ tail
      → w ≡ head ++ mid
      → length head ≡ 4 + v
      → slice (start + 4 + v) (start + length w) r.head ≡ mid
  window_part start v w head mid tail r e ew eh =
      let wide = ap length ew ∙ length-append head mid in
      let size : length w - (4 + v) ≡ length mid = omega (arith, wide, eh) in
      ap (λ t. slice t (start + length w) r.head) (omega arith)
      ∙ slice_window start (4 + v) (length w) r.head w tail e (omega arith)
          (omega (arith, wide, eh))
      ∙ ap (take (length w - (4 + v)))
          (ap (drop (4 + v)) ew ∙ drop-append_left (4 + v) head mid (sym eh))
      ∙ take-all (length w - (4 + v)) mid (omega (arith, size))

  -- A buffer for a large frame, with its hash and the part of its payload that is there.
  large_buffer :
      (n : ℕ) (hash mid : List ℕ)
      → length hash ≡ 4
      → length mid ≤ n
      → take (4 + length mid) (copy_at 4 (copy_at 0 (replicate (4 + n) 0) hash) mid) ≡ hash ++ mid
  large_buffer n hash mid eh hm =
      let zeros = length-replicate {A = ℕ} (4 + n) 0 in
      let long = length-copy_at 0 (replicate (4 + n) 0) hash in
      take-copy_at 4 (length mid) (copy_at 0 (replicate (4 + n) 0) hash) mid refl
        (omega (arith, zeros, long))
      ∙ ap (λ t. t ++ mid)
          (take-overwrite 4 (replicate (4 + n) 0) hash (sym eh) (omega (arith, zeros)))

  pub large_from-LargeHolds :
      (start : ℕ) (p : List ℕ) (ps : List (List ℕ)) (w s tail mid : List ℕ) (x : ℕ) (m : List ℕ)
      (r : Receiver)
      → drop start r.head ≡ w ++ tail
      → w ≡ header sum32 p ++ mid
      → mid ++ (x ∷ m) ≡ p
      → s ≡ (x ∷ m) ++ frames sum32 ps
      → LargeHolds
          (large_from sum32 c start (length w) (length (encoding 9 (length p))) (length p) r.head)
          s
          (p ∷ ps)
  large_from-LargeHolds start p ps w s tail mid x m r place ew ep es =
      let v = length (encoding 9 (length p)) in
      let hash = uint32_bytes (sum32 p) in
      let head_len = header_len_lem sum32 p in
      let wide = ap length ew ∙ length-append (header sum32 p) mid in
      let pay = ap length (sym ep) ∙ length-append mid (x ∷ m) in
      let is_hash : slice start (start + 4) r.head ≡ hash =
        window_hash start w tail r place (omega (arith, wide, head_len)) ∙ ap (take 4) ew in
      let is_mid = window_part start v w (header sum32 p) mid tail r place ew head_len in
      let zeros = length-replicate {A = ℕ} (4 + length p) 0 in
      let hashed = copy_at 0 (replicate (4 + length p) 0) (slice start (start + 4) r.head) in
      let part = slice (start + 4 + v) (start + length w) r.head in
      let long = length-copy_at 0 (replicate (4 + length p) 0) (slice start (start + 4) r.head) in
      let longer = length-copy_at 4 hashed part in
      record {
        payload = p;
        later = ps;
        here = mid;
        more = x ∷ m;
        is_next = refl;
        splits = sym ep;
        some_more = omega arith;
        says_len = refl;
        buffer_len = omega (arith, longer, long, zeros);
        at = omega (arith, wide, head_len);
        holds = rw (is_hash, is_mid) (large_buffer (length p) hash mid refl (omega (arith, pay)));
        still = es;
      }
