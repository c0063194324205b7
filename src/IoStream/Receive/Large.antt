-- ===== src/IoStream/Receive/Large.antt =====
-- The invariant of the read path between two rounds, and a round that feeds a large frame.
use libatbus_go.Base.{
  ℕ, ◌+◌, ◌-◌, ◌≤◌, ◌<◌, ◌≡◌, refl, sym, ap, ap₂, ◌∙◌, subst, arith, ◌⊎◌, inl, inr, Bool, true,
  false, none, some, append-nil, append_assoc, All,
}
use libatbus_go.Base.{
  List, [], ◌∷◌, ◌++◌, length, length-append, take, drop, copy_at, take-all, drop-all,
  take-append_left, drop-append_left, take-copy_at, length-copy_at, leb, le→leb, Outcome, returns,
}
use libatbus_go.IoStream.Frame.{uint32_bytes, uint32_value}
use libatbus_go.IoStream.Receive.{
  ReadLimits, LargeFrame, Receiver, at_most, feed_large, process_complete_large_frame,
}
use libatbus_go.IoStream.Receive.Stream.{cut_cases, frames, IsSendable}
use libatbus_go.IoStream.Receive.Window.{HeadHolds, LargeHolds, accepts_sendable, frames-pos}

module _ (sum32 : List ℕ → ℕ) (c : ReadLimits) where
  -- Between two rounds the receiver holds the bytes that came of the frames of `todo`, while `s` is
  -- still to come: in the head buffer, or in a large frame with the head buffer empty.
  pub record Holds (r : Receiver) (s : List ℕ) (todo : List (List ℕ)) : Type 0 where
    pub head_size : length r.head ≡ 7168
    pub state :
        ((r.large ≡ none) × (r.head_len < 7168) × HeadHolds sum32 c (take r.head_len r.head) s todo)
        ⊎ ((lf : LargeFrame) × (r.large ≡ some lf)
            × (r.head_len ≡ 0)
            × LargeHolds sum32 c lf s todo)

  -- What a round makes of `incoming`, with `s` to come behind it: it takes a byte at least.
  pub record Fed (incoming s : List ℕ) (todo : List (List ℕ)) (r : Receiver)
      (out : Outcome (Bool × List ℕ × Receiver)) : Type 0 where
    pub after : Receiver
    pub rest : List ℕ
    pub new : List (List ℕ)
    pub later : List (List ℕ)
    pub runs : out ≡ returns (false, rest, after)
    pub splits : todo ≡ new ++ later
    pub received : after.received ≡ r.received ++ new
    pub keeps : Holds after (rest ++ s) later
    pub progress : length rest < length incoming

  -- An empty head buffer waits for any frames.
  pub empty-HeadHolds :
      (s : List ℕ) (todo : List (List ℕ)) → s ≡ frames sum32 todo → HeadHolds sum32 c [] s todo
  empty-HeadHolds s [] e = record { stream = e; room = omega arith; waits = inl refl }
  empty-HeadHolds s (p ∷ ps) e = record {
    stream = e;
    room = omega arith;
    waits = inr (omega (arith, frames-pos sum32 c p ps));
  }

  -- Bytes put behind those that a large frame has.
  extended :
      (buffer hash here chunk : List ℕ)
      → length hash ≡ 4
      → take (4 + length here) buffer ≡ hash ++ here
      → 4 + length here + length chunk ≤ length buffer
      → take (4 + length (here ++ chunk)) (copy_at (4 + length here) buffer chunk)
        ≡ hash ++ (here ++ chunk)
  extended buffer hash here chunk eh holds fits =
      let e : 4 + length (here ++ chunk) ≡ 4 + length here + length chunk =
        omega (arith, length-append here chunk) in
      ap (λ n. take n (copy_at (4 + length here) buffer chunk)) e
      ∙ take-copy_at (4 + length here) (length chunk) buffer chunk refl fits
      ∙ ap (λ t. t ++ chunk) holds
      ∙ append_assoc hash here chunk

  -- The bytes do not complete the frame.
  feed_large_part :
      (lf : LargeFrame) (incoming s : List ℕ) (todo : List (List ℕ)) (r : Receiver) (x : ℕ)
      (m : List ℕ)
      → (h : LargeHolds sum32 c lf (incoming ++ s) todo) → 0 < length incoming
      → length r.head ≡ 7168
      → r.head_len ≡ 0
      → h.more ≡ incoming ++ (x ∷ m)
      → s ≡ (x ∷ m) ++ frames sum32 h.later
      → Fed incoming s todo r (feed_large sum32 c lf incoming r)
  unfolding feed_large
  feed_large_part lf incoming s todo r x m h some_bytes size empty em es =
      let hash = uint32_bytes (sum32 h.payload) in
      let pay = ap length h.splits ∙ length-append h.here h.more in
      let wide = ap length em ∙ length-append incoming (x ∷ m) in
      let says = h.says_len in
      let at = h.at in
      let room = h.buffer_len in
      let n : at_most sum32 c (4 + lf.msg_len - lf.write_pos) (length incoming) ≡ length incoming =
        ground arith in
      let all : take (length incoming) incoming ≡ incoming =
        take-all (length incoming) incoming (omega arith) in
      let gone : drop (length incoming) incoming ≡ [] =
        drop-all (length incoming) incoming (omega arith) in
      let waits : leb (4 + lf.msg_len) (lf.write_pos + length incoming) ≡ false = ground arith in
      let buffer = copy_at lf.write_pos lf.buffer incoming in
      let lf' : LargeFrame = record lf {
        buffer = buffer;
        write_pos = lf.write_pos + length incoming;
      } in
      record {
        after = record r { large = some lf' };
        rest = [];
        new = [];
        later = todo;
        runs = rw (n, all, gone, waits) refl;
        splits = refl;
        received = sym (append-nil r.received);
        keeps = record {
          head_size = size;
          state = inr (
            lf',
            refl,
            empty,
            record {
              payload = h.payload;
              later = h.later;
              here = h.here ++ incoming;
              more = x ∷ m;
              is_next = h.is_next;
              splits =
                  h.splits ∙ ap (λ t. h.here ++ t) em ∙ sym (append_assoc h.here incoming (x ∷ m));
              some_more = omega arith;
              says_len = says;
              buffer_len = length-copy_at lf.write_pos lf.buffer incoming ∙ room;
              at = omega (arith, at, length-append h.here incoming);
              holds =
                  ap (λ k. take (4 + length (h.here ++ incoming)) (copy_at k lf.buffer incoming)) at
                  ∙ extended lf.buffer hash h.here incoming refl h.holds
                      (omega (arith, room, pay, wide));
              still = es;
            },
          );
        };
        progress = some_bytes;
      }

  -- The bytes complete the frame: its payload is received, and what is left goes to the head buffer.
  feed_large_whole :
      (lf : LargeFrame) (incoming s : List ℕ) (todo : List (List ℕ)) (r : Receiver) (m : List ℕ)
      → (h : LargeHolds sum32 c lf (incoming ++ s) todo) → length r.head ≡ 7168
      → r.head_len ≡ 0
      → incoming ≡ h.more ++ m
      → m ++ s ≡ frames sum32 h.later
      → IsSendable sum32 c h.payload
      → Fed incoming s todo r (feed_large sum32 c lf incoming r)
  unfolding feed_large process_complete_large_frame
  feed_large_whole lf incoming s todo r m h size empty ei em sendable =
      let p = h.payload in
      let hash = uint32_bytes (sum32 p) in
      let pay = ap length h.splits ∙ length-append h.here h.more in
      let wide = ap length ei ∙ length-append h.more m in
      let says = h.says_len in
      let at = h.at in
      let room = h.buffer_len in
      let some_more = h.some_more in
      let k = length h.more in
      let n : at_most sum32 c (4 + lf.msg_len - lf.write_pos) (length incoming) ≡ k =
        ground arith in
      let first : take k incoming ≡ h.more = ap (take k) ei ∙ take-append_left k h.more m refl in
      let behind : drop k incoming ≡ m = ap (drop k) ei ∙ drop-append_left k h.more m refl in
      let done : leb (4 + lf.msg_len) (lf.write_pos + k) ≡ true = ground arith in
      let buffer = copy_at lf.write_pos lf.buffer h.more in
      let long : length buffer ≡ 4 + length p =
        length-copy_at lf.write_pos lf.buffer h.more ∙ room in
      let full : buffer ≡ hash ++ p =
        sym (
          take-all (4 + length (h.here ++ h.more)) buffer
            (omega (arith, long, pay, length-append h.here h.more)))
        ∙ ap (λ w. take (4 + length (h.here ++ h.more)) (copy_at w lf.buffer h.more)) at
        ∙ extended lf.buffer hash h.here h.more refl h.holds (omega (arith, room, pay))
        ∙ ap (λ t. hash ++ t) (sym h.splits) in
      let lf' : LargeFrame = record {
        buffer = buffer;
        write_pos = lf.write_pos + k;
        msg_len = length p;
      } in
      let r' : Receiver = record r { large = some lf' } in
      let width : 4 + length p - 4 ≡ length p = omega arith in
      let slice_is : take (4 + lf.msg_len - 4) (drop 4 buffer) ≡ p =
        ap₂ (λ j t. take (4 + j - 4) (drop 4 t)) says full
        ∙ ap (λ j. take j p) width
        ∙ take-all (length p) p (omega arith) in
      let value : uint32_value (take 4 buffer) ≡ uint32_value hash =
        ap (λ t. uint32_value (take 4 t)) full in
      let inside : leb (4 + lf.msg_len) (length buffer) ≡ true =
        le→leb (4 + lf.msg_len) (length buffer) (omega (arith, says, long)) in
      let accepts = accepts_sendable sum32 c p r' sendable in
      record {
        after = record r { large = none; received = r.received ++ (p ∷ []) };
        rest = m;
        new = p ∷ [];
        later = h.later;
        runs =
            rw
              (
                n,
                first,
                behind,
                done,
                le→leb 4 (4 + lf.msg_len) (omega arith),
                inside,
                slice_is,
                value,
                says,
                accepts,
              )
              refl;
        splits = h.is_next;
        received = refl;
        keeps = record {
          head_size = size;
          state = inl (
            refl,
            omega (arith, empty),
            subst (λ j. HeadHolds sum32 c (take j r.head) (m ++ s) h.later) (sym empty)
                (empty-HeadHolds (m ++ s) h.later em),
          );
        };
        progress = omega (arith, wide, some_more);
      }

  -- A round that feeds a large frame.
  pub feed_large-Fed :
      (lf : LargeFrame) (incoming s : List ℕ) (todo : List (List ℕ)) (r : Receiver)
      → LargeHolds sum32 c lf (incoming ++ s) todo
      → 0 < length incoming
      → length r.head ≡ 7168
      → r.head_len ≡ 0
      → All (IsSendable sum32 c) todo
      → Fed incoming s todo r (feed_large sum32 c lf incoming r)
  feed_large-Fed lf incoming s todo r h some_bytes size empty sendable =
      elim (cut_cases incoming s h.more (frames sum32 h.later) h.still) [
        | inl (m, ei, em) ↦
            feed_large_whole lf incoming s todo r m h size empty ei em
              (subst (All (IsSendable sum32 c)) h.is_next sendable).0
        | inr (x, m, em, es) ↦
            feed_large_part lf incoming s todo r x m h some_bytes size empty em es
      ]
