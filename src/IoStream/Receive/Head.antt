-- ===== src/IoStream/Receive/Head.antt =====
-- The rounds of the loop of `processReadHeadFrames`, one lemma for each way that a round ends.
use libatbus_go.Base.{
  ℕ, suc, ◌+◌, ◌-◌, ◌%◌, ◌^◌, ◌≤◌, ◌<◌, ◌≡◌, ◌≢◌, refl, ◌∙◌, arith, Bool, false, some,
}
use libatbus_go.Base.{List, length, slice, leb, ltb, slt, ≢→==, le→leb, le→ltb, Outcome, returns}
use libatbus_go.Buffer.Vint.{read_vint}
use libatbus_go.IoStream.Frame.{uint32_value}
use libatbus_go.IoStream.Receive.{
  ReadLimits, Receiver, too_big, accept_frame, large_from, head_frames,
}

le-false : (a b : ℕ) → b < a → leb a b ≡ false
le-false a b h = ground arith

slt_small : (a b : ℕ) → a < 2 ^ 63 → b < 2 ^ 63 → slt a b ≡ ltb a b
slt_small a b ha hb = ground arith

module _ (sum32 : List ℕ → ℕ) (c : ReadLimits) (fuel start left : ℕ) (r : Receiver) where
  abbrev stops : Outcome (ℕ × ℕ × Bool × Receiver)
  stops = returns (start, left, false, r)

  abbrev round : Outcome (ℕ × ℕ × Bool × Receiver)
  round = head_frames sum32 c (suc fuel) start left false r

  -- At most the bytes of a hash are left.
  pub round_short : left ≤ 4 → round ≡ stops
  unfolding head_frames
  round_short h = ground arith

  -- The length field is not complete.
  pub round_vint : read_vint (slice (start + 4) (start + left) r.head) ≡ (0, 0) → round ≡ stops
  unfolding head_frames
  round_vint e = rw e (ground arith)

  module _ (n v : ℕ) (reads : read_vint (slice (start + 4) (start + left) r.head) ≡ (n, v))
      (complete : v ≢ 0) (small : 4 + v + n < 2 ^ 62) (some_left : 4 < left)
      (left_small : left < 2 ^ 62) where
    -- The frame is not complete, and small enough for the head buffer.
    pub round_wait : left < 4 + v + n → 4 + v + n ≤ 7168 → round ≡ stops
    unfolding head_frames
    round_wait more fits = rw reads (ground arith)

    -- The frame is complete, and accepted.
    pub round_frame :
        (p : List ℕ) (r' : Receiver)
        → 4 + v + n ≤ left
        → start + 4 + v + n ≤ length r.head
        → length r.head < 2 ^ 62
        → slice (start + 4 + v) (start + 4 + v + n) r.head ≡ p
        → accept_frame sum32 c p (uint32_value (slice start (start + 4) r.head)) n r ≡ (false, r')
        → round ≡ head_frames sum32 c fuel (start + (4 + v + n)) (left - (4 + v + n)) false r'
    unfolding head_frames
    round_frame p r' whole inside bounded is accepts =
        let total : (4 + v + n) % 2 ^ 64 ≡ 4 + v + n = omega arith in
        let last : (start + 4 + v + n) % 2 ^ 64 ≡ start + 4 + v + n = omega arith in
        rw
          (
            reads,
            total,
            last,
            le-false left 4 some_left,
            ≢→== v 0 complete,
            not_less,
            le→leb (start + 4 + v) (start + 4 + v + n) (omega arith),
            le→leb (start + 4 + v + n) (length r.head) inside,
            is,
            accepts,
          )
          refl
      where
        not_less : slt left (4 + v + n) ≡ false
        not_less =
            slt_small left (4 + v + n) (omega arith) (omega arith) ∙ le→ltb left (4 + v + n) whole

    -- The frame is too large for the head buffer, and within the limit.
    pub round_large :
        left < 4 + v + n
        → 7168 < 4 + v + n
        → too_big c n ≡ false
        → round
          ≡ returns (
            start + left,
            0,
            false,
            record r { large = some (large_from sum32 c start left v n r.head) },
          )
    unfolding head_frames
    round_large more big allowed = rw (reads, allowed) (ground arith)
