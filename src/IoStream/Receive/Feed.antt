-- ===== src/IoStream/Receive/Feed.antt =====
-- A round of `readLoop` that feeds the head buffer, with the compaction behind it.
use libatbus_go.Base.{
  ℕ, zero, suc, ◌+◌, ◌-◌, ◌≤◌, ◌<◌, ◌≡◌, refl, sym, ap, ◌∙◌, subst, arith, inl, inr, false, ◌&&◌,
  none, Bool-cases, append_assoc, All,
}
use libatbus_go.Base.{
  List, [], ◌∷◌, ◌++◌, length, length-take, length-drop, take, drop, slice, copy_at, take-all,
  take-append-drop, take-append_left, take-copy_at, length-copy_at, take-overwrite, ltb, leb,
  returns,
}
use libatbus_go.IoStream.Receive.{
  ReadLimits, Receiver, at_most, head_frames, compact_head, process_read_head_frames, feed_head,
}
use libatbus_go.IoStream.Receive.Stream.{frames, IsSendable, slice_window}
use libatbus_go.IoStream.Receive.Parse.{parse_all}
use libatbus_go.IoStream.Receive.Window.{HeadHolds, Leaves, Window}
use libatbus_go.IoStream.Receive.Large.{Holds, Fed}

module _ (sum32 : List ℕ → ℕ) (c : ReadLimits) where
  -- The compaction keeps the bytes that are left, at the front.
  compact_lem :
      (start left : ℕ) (w tail : List ℕ) (r : Receiver)
      → drop start r.head ≡ w ++ tail
      → length w ≡ left
      → left ≤ length r.head
      → (take left (compact_head sum32 c start left r).head ≡ w)
        × (length (compact_head sum32 c start left r).head ≡ length r.head)
  compact_lem start left w tail r place len fits =
      let window : slice start (start + left) r.head ≡ w =
        ap (λ t. slice t (start + left) r.head) (omega arith)
        ∙ slice_window start 0 left r.head w tail place (omega (arith, len)) (omega arith)
        ∙ take-all (left - 0) w (omega (arith, len)) in
      elim (Bool-cases (ltb 0 start && ltb 0 left)) [
        | inl e ↦
            rw (e, window) (take-overwrite left r.head w (sym len) fits, length-copy_at 0 r.head w)
        | inr e ↦ rw e (stays_put start left w tail r place len e, refl)
      ]
    where
      stays_put :
          (start left : ℕ) (w tail : List ℕ) (r : Receiver)
          → drop start r.head ≡ w ++ tail
          → length w ≡ left
          → (ltb 0 start && ltb 0 left) ≡ false
          → take left r.head ≡ w
      stays_put zero left w tail r place len e =
          ap (take left) place ∙ take-append_left left w tail (sym len)
      stays_put (suc start) zero [] tail r place len e = refl
      stays_put (suc start) zero (x ∷ w) tail r place len e = absurd (omega (arith, len))
      stays_put (suc start) (suc left) w tail r place len e = absurd (ground arith)

  compact-length :
      (start left : ℕ) (r : Receiver)
      → length (compact_head sum32 c start left r).head ≡ length r.head
  compact-length start left r = elim (Bool-cases (ltb 0 start && ltb 0 left)) [
    | inl e ↦ rw e (length-copy_at 0 r.head (slice start (start + left) r.head))
    | inr e ↦ rw e refl
  ]

  -- What `processReadHeadFrames` leaves keeps the invariant.
  process_keeps :
      (s : List ℕ) (todo : List (List ℕ)) (start left : ℕ) (r : Receiver)
      → length r.head ≡ 7168
      → Leaves sum32 c s todo start left r
      → Holds sum32 c (compact_head sum32 c start left r) s todo
  process_keeps s todo start left r size (inl (no_large, w, tail, place, len, h)) =
      let room = h.room in
      let (kept, same) =
        compact_lem start left w tail r place len (omega (arith, len, size, room)) in
      record {
        head_size = same ∙ size;
        state = inl (
          no_large,
          omega (arith, len, room),
          subst (λ t. HeadHolds sum32 c t s todo) (sym kept) h,
        );
      }
  process_keeps s todo start left r size (inr (none_left, lf, is_large, h)) = record {
    head_size = compact-length start left r ∙ size;
    state = inr (lf, is_large, none_left, h);
  }

  at_most-bounds :
      (room n : ℕ)
      → (at_most sum32 c room n ≤ room)
        × (at_most sum32 c room n ≤ n)
        × (0 < room → 0 < n → 0 < at_most sum32 c room n)
  at_most-bounds room n = (ground arith, ground arith, λ h k. ground arith)

  -- A round that feeds the head buffer.
  pub feed_head-Fed :
      (incoming s : List ℕ) (todo : List (List ℕ)) (r : Receiver)
      → HeadHolds sum32 c (take r.head_len r.head) (incoming ++ s) todo
      → r.large ≡ none
      → r.head_len < 7168
      → 0 < length incoming
      → length r.head ≡ 7168
      → All (IsSendable sum32 c) todo
      → Fed sum32 c incoming s todo r (feed_head sum32 c incoming r)
  unfolding feed_head process_read_head_frames
  feed_head-Fed incoming s todo r h no_large free some_bytes size sendable =
      let k = r.head_len in
      let n = at_most sum32 c (7168 - k) (length incoming) in
      let (n_room, n_len, n_pos) = at_most-bounds (7168 - k) (length incoming) in
      let n_some = n_pos (omega arith) some_bytes in
      let part = take n incoming in
      let behind = drop n incoming in
      let wide = length-take n incoming in
      let left = length-drop n incoming in
      let head' = copy_at k r.head part in
      let size' = length-copy_at k r.head part ∙ size in
      let w = take (k + n) head' in
      let long = length-take (k + n) head' in
      let w_len : length w ≡ k + n = omega (arith, long, size') in
      let w_is : w ≡ take k r.head ++ part =
        take-copy_at k n r.head part (omega (arith, wide)) (omega (arith, size)) in
      let r' : Receiver = record r { head = head'; head_len = k + n } in
      let stream : w ++ (behind ++ s) ≡ frames sum32 todo =
        ap (λ t. t ++ (behind ++ s)) w_is
        ∙ append_assoc (take k r.head) part (behind ++ s)
        ∙ ap (λ t. take k r.head ++ t)
            (sym (append_assoc part behind s) ∙ ap (λ t. t ++ s) (take-append-drop n incoming))
        ∙ h.stream in
      let win : Window sum32 c 0 w (behind ++ s) (drop (k + n) head') todo r' = record {
        place = sym (take-append-drop (k + n) head');
        stream = stream;
        inside = omega (arith, w_len, size');
        bounded = omega (arith, size');
        sendable = sendable;
        no_large = no_large;
        room = omega (arith, w_len);
      } in
      let parsed =
        parse_all sum32 c (k + n) 0 w (behind ++ s) (drop (k + n) head') todo r' win
          (omega (arith, w_len)) in
      let runs =
        subst
          (λ j.
            head_frames sum32 c (k + n) 0 j false r'
            ≡ returns (parsed.start, parsed.left, false, parsed.after))
          w_len parsed.runs in
      record {
        after = compact_head sum32 c parsed.start parsed.left parsed.after;
        rest = behind;
        new = parsed.new;
        later = parsed.later;
        runs = rw (leb-false 7168 k free, runs) refl;
        splits = parsed.splits;
        received = parsed.received;
        keeps =
            process_keeps (behind ++ s) parsed.later parsed.start parsed.left parsed.after
              (ap length parsed.same_head ∙ size') parsed.leaves;
        progress = omega (arith, left);
      }
    where
      leb-false : (a b : ℕ) → b < a → leb a b ≡ false
      leb-false a b h = ground arith
