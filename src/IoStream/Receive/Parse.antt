-- ===== src/IoStream/Receive/Parse.antt =====
-- What the loop of `processReadHeadFrames` makes of the bytes that have arrived.
use libatbus_go.Base.{
  ℕ, zero, suc, ◌+◌, ◌-◌, ◌≤◌, ◌≡◌, ◌≢◌, refl, sym, ap, ap₂, ◌∙◌, arith, inl, inr, Bool, false,
  some, append-nil, append_assoc,
}
use libatbus_go.Base.{
  List, [], ◌∷◌, ◌++◌, length, length-append, drop-drop, take, drop, slice, take-append_left,
  drop-append_left, Outcome,
}
use libatbus_go.Buffer.Vint.{read_vint}
use libatbus_go.Buffer.Vint.Encoding.{encoding}
use libatbus_go.Buffer.Vint.Write.{length-encoding}
use libatbus_go.IoStream.Frame.{uint32_bytes, uint32_value}
use libatbus_go.IoStream.Frame.Layout.{header, frame_of}
use libatbus_go.IoStream.Receive.{ReadLimits, Receiver, accept_frame, large_from, head_frames}
use libatbus_go.IoStream.Receive.Stream.{
  cut_cases, slice_window, frames, header_len_lem, frame_len_lem, reads_header, reads_part,
}
use libatbus_go.IoStream.Receive.Head.{
  round_short, round_vint, round_wait, round_frame, round_large,
}
use native.Mathlib.Decide.{dec_lt}
use libatbus_go.IoStream.Receive.Window.{
  Parsed, header_short, accepts_sendable, stays, frames-pos, Window, window_vint, window_hash,
  large_from-LargeHolds,
}

module _ (sum32 : List ℕ → ℕ) (c : ReadLimits) where
  -- A window that is a part of the next frame, with its header: the loop waits for the rest, in the
  -- head buffer or in a large frame.
  parse_partial :
      (fuel start : ℕ) (p : List ℕ) (ps : List (List ℕ)) (w s tail mid : List ℕ) (x : ℕ)
      (m : List ℕ) (r : Receiver)
      → Window sum32 c start w s tail (p ∷ ps) r
      → w ≡ header sum32 p ++ mid
      → mid ++ (x ∷ m) ≡ p
      → s ≡ (x ∷ m) ++ frames sum32 ps
      → Parsed sum32 c s (p ∷ ps) r (head_frames sum32 c (suc fuel) start (length w) false r)
  unfolding frames
  parse_partial fuel start p ps w s tail mid x m r win ew ep es =
      let sendable = win.sendable.0 in
      let n = length p in
      let v = length (encoding 9 (length p)) in
      let some_v = length-encoding 9 (length p) in
      let wide = ap length ew ∙ length-append (header sum32 p) mid in
      let head_len = header_len_lem sum32 p in
      let whole = frame_len_lem sum32 p in
      let pay = ap length (sym ep) ∙ length-append mid (x ∷ m) in
      let short = sendable.1 in
      let after_it = length-append (frame_of sum32 p) (frames sum32 ps) in
      let reads =
        window_vint sum32 c start w tail r win.place (omega (arith, wide, head_len, some_v))
        ∙ ap (λ l. read_vint (drop 4 l)) ew
        ∙ reads_header sum32 p mid sendable.1 in
      let ne : v ≢ 0 = λ e. omega (arith, e, some_v) in
      let room = win.room in
      elim (dec_lt 7168 (4 + v + n)) [
        | no fits ↦
            stays sum32 c s (p ∷ ps) start w tail r _ win.place win.no_large
              (record {
                stream = win.stream;
                room = omega (arith, wide, head_len, pay, fits);
                waits = inr (omega (arith, wide, head_len, pay, whole, after_it));
              })
              (round_wait sum32 c fuel start (length w) r n v reads ne (omega (arith, short, whole))
                (omega (arith, wide, head_len, some_v)) (omega (arith, room))
                (omega (arith, wide, head_len, pay)) (omega (arith, fits)))
        | yes big ↦
            let lf = large_from sum32 c start (length w) v n r.head in
            record {
              start = start + length w;
              left = 0;
              after = record r { large = some lf };
              new = [];
              later = p ∷ ps;
              runs =
                  round_large sum32 c fuel start (length w) r n v reads ne
                    (omega (arith, short, whole)) (omega (arith, wide, head_len, some_v))
                    (omega (arith, room)) (omega (arith, wide, head_len, pay)) big sendable.2;
              splits = refl;
              received = sym (append-nil r.received);
              same_head = refl;
              leaves = inr (
                refl,
                lf,
                refl,
                large_from-LargeHolds sum32 c start p ps w s tail mid x m r win.place ew ep es,
              );
            }
      ]

  -- A window that begins with a whole frame: the loop goes on behind it, with its payload received.
  parse_whole :
      (fuel start : ℕ) (p : List ℕ) (ps : List (List ℕ)) (w s tail m : List ℕ) (r : Receiver)
      → Window sum32 c start w s tail (p ∷ ps) r
      → w ≡ frame_of sum32 p ++ m
      → m ++ s ≡ frames sum32 ps
      → let r' : Receiver = record r { received = r.received ++ (p ∷ []) } in
        let start' = start + length (frame_of sum32 p) in
        Window sum32 c start' m s tail ps r'
        × (head_frames sum32 c (suc fuel) start (length w) false r
            ≡ head_frames sum32 c fuel start' (length m) false r')
  parse_whole fuel start p ps w s tail m r win ew es =
      let sendable = win.sendable.0 in
      let n = length p in
      let v = length (encoding 9 (length p)) in
      let some_v = length-encoding 9 (length p) in
      let total = length (frame_of sum32 p) in
      let whole = frame_len_lem sum32 p in
      let wide = ap length ew ∙ length-append (frame_of sum32 p) m in
      let room = win.room in
      let inside = win.inside in
      let short = sendable.1 in
      let head_len = header_len_lem sum32 p in
      let split : w ≡ header sum32 p ++ (p ++ m) = ew ∙ append_assoc (header sum32 p) p m in
      let reads =
        window_vint sum32 c start w tail r win.place (omega (arith, wide, whole, some_v))
        ∙ ap (λ l. read_vint (drop 4 l)) split
        ∙ reads_header sum32 p (p ++ m) sendable.1 in
      let hash_is : slice start (start + 4) r.head ≡ uint32_bytes (sum32 p) =
        window_hash sum32 c start w tail r win.place (omega (arith, wide, whole))
        ∙ ap (take 4) ew in
      let width : 4 + v + n - (4 + v) ≡ n = omega arith in
      let payload_is : slice (start + 4 + v) (start + 4 + v + n) r.head ≡ p =
        ap₂ (λ a b. slice a b r.head) (omega arith) (omega arith)
        ∙ slice_window start (4 + v) (4 + v + n) r.head w tail win.place
            (omega (arith, wide, whole)) (omega arith)
        ∙ ap₂ take width (
            ap (drop (4 + v)) split
            ∙ drop-append_left (4 + v) (header sum32 p) (p ++ m) (sym head_len))
        ∙ take-append_left n p m refl in
      let ne : v ≢ 0 = λ e. omega (arith, e, some_v) in
      let step =
        round_frame sum32 c fuel start (length w) r n v reads ne (omega (arith, short, whole))
          (omega (arith, wide, whole, some_v)) (omega (arith, room)) p
          (record r { received = r.received ++ (p ∷ []) }) (omega (arith, wide, whole))
          (omega (arith, wide, whole, inside)) win.bounded payload_is
          (ap (λ h. accept_frame sum32 c p (uint32_value h) n r) hash_is
            ∙ accepts_sendable sum32 c p r sendable) in
      (
        record {
          place =
              sym (drop-drop total start r.head)
              ∙ ap (drop total)
                  (win.place ∙ ap (λ l. l ++ tail) ew ∙ append_assoc (frame_of sum32 p) m tail)
              ∙ drop-append_left total (frame_of sum32 p) (m ++ tail) refl;
          stream = es;
          inside = omega (arith, wide, inside);
          bounded = win.bounded;
          sendable = win.sendable.1;
          no_large = win.no_large;
          room = omega (arith, wide, room);
        },
        step
            ∙ ap₂
                (λ a b.
                  head_frames sum32 c fuel a b false
                    (record r { received = r.received ++ (p ∷ []) }))
                (omega (arith, whole)) (omega (arith, whole, wide)),
      )

  after_frame :
      (p : List ℕ) (ps : List (List ℕ)) (s : List ℕ) (r : Receiver)
      (out out' : Outcome (ℕ × ℕ × Bool × Receiver))
      → out ≡ out'
      → Parsed sum32 c s ps (record r { received = r.received ++ (p ∷ []) }) out'
      → Parsed sum32 c s (p ∷ ps) r out
  after_frame p ps s r out out' e parsed = record {
    start = parsed.start;
    left = parsed.left;
    after = parsed.after;
    new = p ∷ parsed.new;
    later = parsed.later;
    runs = e ∙ parsed.runs;
    splits = ap (◌∷◌ p) parsed.splits;
    received = parsed.received ∙ append_assoc r.received (p ∷ []) parsed.new;
    same_head = parsed.same_head;
    leaves = parsed.leaves;
  }

  -- A window that is a part of the next frame.
  parse_part :
      (fuel start : ℕ) (p : List ℕ) (ps : List (List ℕ)) (w s tail : List ℕ) (x : ℕ) (m : List ℕ)
      (r : Receiver)
      → Window sum32 c start w s tail (p ∷ ps) r
      → frame_of sum32 p ≡ w ++ (x ∷ m)
      → s ≡ (x ∷ m) ++ frames sum32 ps
      → Parsed sum32 c s (p ∷ ps) r (head_frames sum32 c (suc fuel) start (length w) false r)
  unfolding frames
  parse_part fuel start p ps w s tail x m r win ef es =
      let sendable = win.sendable.0 in
      let whole = ap length ef ∙ length-append w (x ∷ m) in
      let after_it = length-append (frame_of sum32 p) (frames sum32 ps) in
      let short = header_short sum32 c p sendable.1 in
      elim (dec_lt 4 (length w)) [
        | no few ↦
            stays sum32 c s (p ∷ ps) start w tail r _ win.place win.no_large
              (record {
                stream = win.stream;
                room = omega (arith, few);
                waits = inr (omega (arith, whole, after_it));
              })
              (round_short sum32 c fuel start (length w) r (omega (arith, few)))
        | yes many ↦ elim (cut_cases w (x ∷ m) (header sum32 p) p (sym ef)) [
          | inl (mid, ew, ep) ↦ parse_partial fuel start p ps w s tail mid x m r win ew ep es
          | inr (y, m', eh, ep) ↦
              let less = ap length eh ∙ length-append w (y ∷ m') in
              stays sum32 c s (p ∷ ps) start w tail r _ win.place win.no_large
                (record {
                  stream = win.stream;
                  room = omega (arith, less, short);
                  waits = inr (omega (arith, whole, after_it));
                })
                (round_vint sum32 c fuel start (length w) r (
                  window_vint sum32 c start w tail r win.place many
                  ∙ reads_part sum32 p w y m' eh many))
        ]
      ]

  nothing_left : (w s : List ℕ) → w ++ s ≡ [] → length w ≡ 0
  nothing_left w s e = omega (arith, ap length e, length-append w s)

  pub parse_all :
      (fuel start : ℕ) (w s tail : List ℕ) (todo : List (List ℕ)) (r : Receiver)
      → Window sum32 c start w s tail todo r
      → length w ≤ fuel
      → Parsed sum32 c s todo r (head_frames sum32 c fuel start (length w) false r)
  unfolding frames head_frames
  parse_all zero start w s tail [] r win h =
      stays sum32 c s [] start w tail r _ win.place win.no_large
        (record { stream = win.stream; room = omega arith; waits = inl refl }) refl
  parse_all zero start w s tail (p ∷ ps) r win h =
      stays sum32 c s (p ∷ ps) start w tail r _ win.place win.no_large
        (record {
          stream = win.stream;
          room = omega arith;
          waits = inr (omega (arith, frames-pos sum32 c p ps));
        })
        refl
  parse_all (suc fuel) start w s tail [] r win h =
      let none_left = nothing_left w s win.stream in
      stays sum32 c s [] start w tail r _ win.place win.no_large
        (record { stream = win.stream; room = omega (arith, none_left); waits = inl refl })
        (round_short sum32 c fuel start (length w) r (omega (arith, none_left)))
  parse_all (suc fuel) start w s tail (p ∷ ps) r win h =
      elim (cut_cases w s (frame_of sum32 p) (frames sum32 ps) win.stream) [
        | inl (m, ew, es) ↦
            let (win', step) = parse_whole fuel start p ps w s tail m r win ew es in
            let shorter = ap length ew ∙ length-append (frame_of sum32 p) m in
            let some_bytes = frame_len_lem sum32 p in
            after_frame p ps s r _ _ step (
              parse_all fuel (start + length (frame_of sum32 p)) m s tail ps
                (record r { received = r.received ++ (p ∷ []) }) win'
                (omega (arith, shorter, some_bytes)))
        | inr (x, m, ef, es) ↦ parse_part fuel start p ps w s tail x m r win ef es
      ]
