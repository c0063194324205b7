-- ===== src/IoStream/Receive/Delivery.antt =====
-- The loop of `readLoop` over the bytes of a read, and the reads of a connection: whatever the
-- pieces, the frames arrive in order.
use libatbus_go.Base.{
  ℕ, zero, suc, ◌*◌, ◌≤◌, ◌<◌, ◌≡◌, refl, sym, ap, ◌∙◌, subst, arith, inl, inr, Bool, false, Option,
  none, some, append-nil, append_assoc, All,
}
use libatbus_go.Base.{
  List, [], ◌∷◌, ◌++◌, length, length-append, length-replicate, take, Outcome, returns,
}
use libatbus_go.IoStream.Receive.{
  ReadLimits, LargeFrame, Receiver, new_receiver, feed_head, feed_large, feed_round, feed_loop,
  feed, feed_all,
}
use libatbus_go.IoStream.Receive.Stream.{frames, IsSendable}
use libatbus_go.IoStream.Receive.Large.{Holds, Fed, empty-HeadHolds, feed_large-Fed}
use libatbus_go.IoStream.Receive.Feed.{feed_head-Fed}

-- The bytes of some reads, one behind the other.
unfoldable pub joined : List (List ℕ) → List ℕ
joined [] = []
joined (chunk ∷ chunks) = chunk ++ joined chunks

module _ (sum32 : List ℕ → ℕ) (c : ReadLimits) where
  All-suffix :
      (new later : List (List ℕ))
      → All (IsSendable sum32 c) (new ++ later)
      → All (IsSendable sum32 c) later
  All-suffix [] later h = h
  All-suffix (p ∷ new) later h = All-suffix new later (h.1)

  feed_round-Fed :
      (incoming s : List ℕ) (todo : List (List ℕ)) (r : Receiver)
      → Holds sum32 c r (incoming ++ s) todo
      → 0 < length incoming
      → All (IsSendable sum32 c) todo
      → Fed sum32 c incoming s todo r (feed_round sum32 c incoming r)
  feed_round-Fed incoming s todo r h some_bytes sendable = elim h.state [
    | inl (no_large, free, holds) ↦ round_is none no_large (
        feed_head-Fed sum32 c incoming s todo r holds no_large free some_bytes h.head_size sendable)
    | inr (lf, is_large, empty, holds) ↦
        round_is (some lf) is_large
          (feed_large-Fed sum32 c lf incoming s todo r holds some_bytes h.head_size empty sendable)
  ]
    where
      round_is :
          (l : Option LargeFrame)
          → r.large ≡ l
          → Fed sum32 c incoming s todo r (elim l [
            | none ↦ feed_head sum32 c incoming r
            | some lf ↦ feed_large sum32 c lf incoming r
          ])
          → Fed sum32 c incoming s todo r (feed_round sum32 c incoming r)
      round_is l e =
          subst
            (λ l. Fed sum32 c incoming s todo r (elim l [
              | none ↦ feed_head sum32 c incoming r
              | some lf ↦ feed_large sum32 c lf incoming r
            ]))
            (sym e)

  -- What some bytes do, with `s` to come behind them.
  record Delivered (s : List ℕ) (todo : List (List ℕ)) (r : Receiver)
      (out : Outcome (Bool × Receiver)) : Type 0 where
    after : Receiver
    new : List (List ℕ)
    later : List (List ℕ)
    runs : out ≡ returns (false, after)
    splits : todo ≡ new ++ later
    received : after.received ≡ r.received ++ new
    keeps : Holds sum32 c after s later

  nothing_new :
      (s : List ℕ) (todo : List (List ℕ)) (r : Receiver) (out : Outcome (Bool × Receiver))
      → Holds sum32 c r s todo
      → out ≡ returns (false, r)
      → Delivered s todo r out
  nothing_new s todo r out h e = record {
    after = r;
    new = [];
    later = todo;
    runs = e;
    splits = refl;
    received = sym (append-nil r.received);
    keeps = h;
  }

  -- Some bytes, and then what the rest does.
  then_more :
      (s : List ℕ) (todo : List (List ℕ)) (r : Receiver) (out : Outcome (Bool × Receiver))
      (mid : Receiver) (new later : List (List ℕ))
      → {out' : Outcome (Bool × Receiver)} → out ≡ out'
      → todo ≡ new ++ later
      → mid.received ≡ r.received ++ new
      → Delivered s later mid out'
      → Delivered s todo r out
  then_more s todo r out mid new later e splits received rest = record {
    after = rest.after;
    new = new ++ rest.new;
    later = rest.later;
    runs = e ∙ rest.runs;
    splits = splits ∙ ap (λ t. new ++ t) rest.splits ∙ sym (append_assoc new rest.new rest.later);
    received =
        rest.received ∙ ap (λ t. t ++ rest.new) received ∙ append_assoc r.received new rest.new;
    keeps = rest.keeps;
  }

  feed_loop-Delivered :
      (fuel : ℕ) (incoming s : List ℕ) (todo : List (List ℕ)) (r : Receiver)
      → Holds sum32 c r (incoming ++ s) todo
      → length incoming ≤ fuel
      → All (IsSendable sum32 c) todo
      → Delivered s todo r (feed_loop sum32 c fuel incoming r)
  unfolding feed_loop
  feed_loop-Delivered zero [] s todo r h enough sendable = nothing_new s todo r _ h refl
  feed_loop-Delivered zero (x ∷ xs) s todo r h enough sendable = absurd (omega arith)
  feed_loop-Delivered (suc fuel) [] s todo r h enough sendable = nothing_new s todo r _ h refl
  feed_loop-Delivered (suc fuel) (x ∷ xs) s todo r h enough sendable =
      let fed = feed_round-Fed (x ∷ xs) s todo r h (omega arith) sendable in
      let shorter = fed.progress in
      let rest =
        feed_loop-Delivered fuel fed.rest s fed.later fed.after fed.keeps
          (omega (arith, enough, shorter))
          (All-suffix fed.new fed.later (subst (All (IsSendable sum32 c)) fed.splits sendable)) in
      then_more s todo r _ fed.after fed.new fed.later (rw fed.runs refl) fed.splits fed.received
        rest

  feed_all-Delivered :
      (chunks : List (List ℕ)) (s : List ℕ) (todo : List (List ℕ)) (r : Receiver)
      → Holds sum32 c r (joined chunks ++ s) todo
      → All (IsSendable sum32 c) todo
      → Delivered s todo r (feed_all sum32 c chunks r)
  unfolding feed_all feed joined
  feed_all-Delivered [] s todo r h sendable = nothing_new s todo r _ h refl
  feed_all-Delivered (chunk ∷ chunks) s todo r h sendable =
      let h' = subst (λ t. Holds sum32 c r t todo) (append_assoc chunk (joined chunks) s) h in
      let fed =
        feed_loop-Delivered (2 * length chunk) chunk (joined chunks ++ s) todo r h' (omega arith)
          sendable in
      let rest =
        feed_all-Delivered chunks s fed.later fed.after fed.keeps
          (All-suffix fed.new fed.later (subst (All (IsSendable sum32 c)) fed.splits sendable)) in
      then_more s todo r _ fed.after fed.new fed.later (rw fed.runs refl) fed.splits fed.received
        rest

  -- Nothing more is to come: all frames are complete.
  Holds-complete : (todo : List (List ℕ)) (r : Receiver) → Holds sum32 c r [] todo → todo ≡ []
  Holds-complete todo r h = elim h.state [
    | inl (_, _, holds) ↦ elim holds.waits [
      | inl none_left ↦ none_left
      | inr less ↦
          absurd
            (omega (arith, less, ap length holds.stream, length-append (take r.head_len r.head) []))
    ]
    | inr (_, _, _, holds) ↦ absurd (
        omega (
          arith,
          ap length holds.still,
          length-append holds.more (frames sum32 holds.later),
          holds.some_more,
        ))
  ]

  new_receiver-Holds : (ps : List (List ℕ)) → Holds sum32 c new_receiver (frames sum32 ps) ps
  unfolding new_receiver
  new_receiver-Holds ps = record {
    head_size = length-replicate {A = ℕ} 7168 0;
    state = inl (refl, omega arith, empty-HeadHolds sum32 c (frames sum32 ps) ps refl);
  }

  -- If the reads of a new connection have, one behind the other, the frames of the payloads `ps`,
  -- and each has a hash in 32 bits, a frame shorter than 2 ^ 62 and a length within the limit, then
  -- the read path returns without closing the connection, wherever the reads are cut, and has
  -- passed on the payloads, in order and nothing else.
  pub feed_all-frames :
      (ps chunks : List (List ℕ))
      → joined chunks ≡ frames sum32 ps
      → All (IsSendable sum32 c) ps
      → ((r : Receiver) × (feed_all sum32 c chunks new_receiver ≡ returns (false, r))
          × (r.received ≡ ps))
  unfolding new_receiver
  feed_all-frames ps chunks cut sendable =
      let start =
        subst (λ t. Holds sum32 c new_receiver t ps) (sym cut ∙ sym (append-nil (joined chunks)))
          (new_receiver-Holds ps) in
      let fed = feed_all-Delivered chunks [] ps new_receiver start sendable in
      let all_new =
        fed.splits
        ∙ ap (λ t. fed.new ++ t) (Holds-complete fed.later fed.after fed.keeps)
        ∙ append-nil fed.new in
      (fed.after, fed.runs, fed.received ∙ sym all_new)
