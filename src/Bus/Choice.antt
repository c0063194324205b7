-- ===== src/Bus/Choice.antt =====
-- `GetDataConnection` takes the best data connection that can carry the message.
use libatbus_go.Base.{
  ℕ, ◌≡◌, ◌≢◌, ◌≤◌, refl, sym, ap, ap₂, ◌∙◌, ◌⊎◌, not, arith, subst, List, [], ◌∷◌, some, Bool,
  true, false, ◌&&◌, ◌||◌, Bool-cases, inl, inr, All,
}
use libatbus_go.Base.{◌==◌, ==_iff, ==-refl, ≢→==, leb, leb→le}
use libatbus_go.Address.{String, same_text}
use libatbus_go.Bus.Types.{
  ConnectionState, disconnected, connecting, handshaking, connected, disconnecting, same_state,
  access_share_addr, access_share_host, Connection, Endpoint, Store, has, get_flag,
  connection_sorted,
}
use libatbus_go.Bus.Select.{
  score_connection, insert_scored, sort_scored, may_carry, first_carrier, get_data_connection,
}

module _ (heap : ℕ → Connection) where
  abbrev score : ℕ → ℕ
  score c = score_connection (heap c)

  -- The best come first.
  abbrev pub IsScored : List ℕ → Type 0
  IsScored [] = Unit
  IsScored (c ∷ cs) = All (λ x. score c ≤ score x) cs × IsScored cs

  All-insert :
      (k c : ℕ) (cs : List ℕ)
      → k ≤ score c
      → All (λ x. k ≤ score x) cs
      → All (λ x. k ≤ score x) (insert_scored heap c cs)
  unfolding insert_scored
  All-insert k c [] hc h = (hc, tt)
  All-insert k c (x ∷ xs) hc (hx, h) = elim (Bool-cases (leb (score c) (score x))) [
    | inl e ↦ rw e (hc, (hx, h))
    | inr e ↦ rw e (hx, All-insert k c xs hc h)
  ]

  All-weaker :
      (k m : ℕ) (cs : List ℕ) → k ≤ m → All (λ x. m ≤ score x) cs → All (λ x. k ≤ score x) cs
  All-weaker k m [] h a = tt
  All-weaker k m (x ∷ xs) h (hx, a) = (omega (arith, h, hx), All-weaker k m xs h a)

  insert_scored-IsScored : (c : ℕ) (cs : List ℕ) → IsScored cs → IsScored (insert_scored heap c cs)
  unfolding insert_scored
  insert_scored-IsScored c [] h = (tt, tt)
  insert_scored-IsScored c (x ∷ xs) (hx, h) = elim (Bool-cases (leb (score c) (score x))) [
    | inl e ↦
        let le = leb→le (score c) (score x) e in
        rw e ((le, All-weaker (score c) (score x) xs le hx), (hx, h))
    | inr e ↦ rw e (All-insert (score x) c xs (ground (arith, e)) hx, insert_scored-IsScored c xs h)
  ]

  sort_scored-IsScored : (cs : List ℕ) → IsScored (sort_scored heap cs)
  unfolding sort_scored
  sort_scored-IsScored [] = tt
  sort_scored-IsScored (c ∷ cs) =
      insert_scored-IsScored c (sort_scored heap cs) (sort_scored-IsScored cs)

  has-insert_scored :
      (x c : ℕ) (cs : List ℕ) → has x (insert_scored heap c cs) ≡ ((c == x) || has x cs)
  unfolding insert_scored
  has-insert_scored x c [] = refl
  has-insert_scored x c (y ∷ ys) = elim (Bool-cases (leb (score c) (score y))) [
    | inl e ↦ rw e refl
    | inr e ↦ rw e (ground (arith, has-insert_scored x c ys))
  ]

  pub has-sort_scored : (x : ℕ) (cs : List ℕ) → has x (sort_scored heap cs) ≡ has x cs
  unfolding sort_scored
  has-sort_scored x [] = refl
  has-sort_scored x (c ∷ cs) =
      has-insert_scored x c (sort_scored heap cs) ∙ ap (λ b. (c == x) || b) (has-sort_scored x cs)

  All-has : (k x : ℕ) (cs : List ℕ) → has x cs ≡ true → All (λ y. k ≤ score y) cs → k ≤ score x
  All-has k x [] h a = absurd (ground (arith, h))
  All-has k x (y ∷ ys) h (hy, a) = elim (Bool-cases (y == x)) [
    | inl e ↦ subst (λ z. k ≤ score z) ((==_iff y x).0 e) hy
    | inr e ↦ All-has k x ys (ground (arith, h, e)) a
  ]

  -- The first that is good enough, in a list with the best first.
  first_best :
      (ok : Connection → Bool) (x : ℕ) (cs : List ℕ)
      → IsScored cs
      → has x cs ≡ true
      → ok (heap x) ≡ true
      → ((d : ℕ) × (first_carrier ok heap cs ≡ some d)
          × (has d cs ≡ true)
          × (ok (heap d) ≡ true)
          × (score d ≤ score x))
  unfolding first_carrier
  first_best ok x [] sorted h good = absurd (ground (arith, h))
  first_best ok x (c ∷ cs) (first, sorted) h good = elim (Bool-cases (ok (heap c))) [
    | inl e ↦ (
      c,
      rw e refl,
      ap (λ b. b || has c cs) (==-refl c),
      e,
      All-has (score c) x (c ∷ cs) h (omega arith, first),
    )
    | inr e ↦
        let other : (c == x) ≡ false = elim (Bool-cases (c == x)) [
          | inl p ↦ absurd (ground (arith, sym e ∙ ap (λ z. ok (heap z)) ((==_iff c x).0 p) ∙ good))
          | inr p ↦ p
        ] in
        let (d, found, there, able, best) =
          first_best ok x cs sorted (ground (arith, h, other)) good in
        (d, rw (e, found) refl, ground (arith, there), able, best)
  ]

-- What a connection must be to carry what one endpoint sends to another: it is connected, and what it
-- reaches is right. A connection inside a process serves endpoints of one host and one process, one
-- inside a host serves endpoints of one host, and one that is not inside a host serves all.
pub record CanCarry (own other : Endpoint) (c : Connection) : Type 0 where
  pub is_connected : c.status ≡ connected
  pub reaches :
      ((other.hostname ≡ own.hostname) × (other.pid ≡ own.pid) × (c.flags access_share_addr ≡ true))
      ⊎ (((other.hostname ≡ own.hostname) × (c.flags access_share_host ≡ true))
          ⊎ (c.flags access_share_host ≡ false))

-- `d` is as near as `c`: memory that is shared comes first, then a host that is shared.
abbrev pub AsNear : Connection → Connection → Type 0
AsNear d c =
    ((d.flags access_share_addr ≡ true) × (c.flags access_share_addr ≡ false))
    ⊎ ((d.flags access_share_addr ≡ c.flags access_share_addr)
        × ((d.flags access_share_host ≡ true) ⊎ (c.flags access_share_host ≡ false)))

same_text-true : (a b : String) → same_text a b ≡ true → a ≡ b
same_text-true [] [] h = refl
same_text-true [] (y ∷ ys) h = absurd (ground (arith, h))
same_text-true (x ∷ xs) [] h = absurd (ground (arith, h))
same_text-true (x ∷ xs) (y ∷ ys) h =
    ap₂ (λ a b. a ∷ b) ((==_iff x y).0 (ground (arith, h)))
      (same_text-true xs ys (ground (arith, h)))

same_text_refl : (a : String) → same_text a a ≡ true
same_text_refl [] = refl
same_text_refl (x ∷ xs) = ground (arith, same_text_refl xs)

same_state-true : (s : ConnectionState) → same_state s connected ≡ true → s ≡ connected
same_state-true disconnected h = absurd (ground (arith, h))
same_state-true connecting h = absurd (ground (arith, h))
same_state-true handshaking h = absurd (ground (arith, h))
same_state-true connected h = refl
same_state-true disconnecting h = absurd (ground (arith, h))

-- The code's test, of two endpoints
abbrev carries : Endpoint → Endpoint → Connection → Bool
carries own other c =
    may_carry (same_text other.hostname own.hostname && (other.pid == own.pid))
      (same_text other.hostname own.hostname) c

carries-of :
    (own other : Endpoint) (c : Connection) → CanCarry own other c → carries own other c ≡ true
carries-of own other c h = rw (h.is_connected) (by_reach h.reaches)
  where
    by_reach :
        ((other.hostname ≡ own.hostname)
            × (other.pid ≡ own.pid)
            × (c.flags access_share_addr ≡ true))
          ⊎ (((other.hostname ≡ own.hostname) × (c.flags access_share_host ≡ true))
              ⊎ (c.flags access_share_host ≡ false))
        → (((same_text other.hostname own.hostname && (other.pid == own.pid))
              && c.flags access_share_addr)
            || (same_text other.hostname own.hostname && c.flags access_share_host)
            || not (c.flags access_share_host))
          ≡ true
    by_reach (inl (host, pid, addr)) =
        rw (host, pid, addr, same_text_refl own.hostname, ==-refl own.pid) refl
    by_reach (inr (inl (host, shares))) =
        ground (arith, ap (λ t. same_text t own.hostname) host, same_text_refl own.hostname, shares)
    by_reach (inr (inr far)) = ground (arith, far)

carries-to :
    (own other : Endpoint) (c : Connection) → carries own other c ≡ true → CanCarry own other c
carries-to own other c h = record {
  is_connected = same_state-true c.status (ground (arith, h));
  reaches = elim (Bool-cases (c.flags access_share_host)) [
    | inr far ↦ inr (inr far)
    | inl near ↦
        let host : same_text other.hostname own.hostname ≡ true = ground (arith, h, near) in
        inr (inl (same_text-true other.hostname own.hostname host, near))
  ];
}

AsNear-score : (d c : Connection) → score_connection d ≤ score_connection c → AsNear d c
AsNear-score d c h = elim (Bool-cases (d.flags access_share_addr)) [
  | inl near ↦ elim (Bool-cases (c.flags access_share_addr)) [
    | inl e ↦ inr (near ∙ sym e, by_host (d.flags access_share_host) (near ∙ sym e) refl)
    | inr e ↦ inl (near, e)
  ]
  | inr far ↦ elim (Bool-cases (c.flags access_share_addr)) [
    | inl e ↦ absurd (ground (arith, h, far, e))
    | inr e ↦ inr (far ∙ sym e, by_host (d.flags access_share_host) (far ∙ sym e) refl)
  ]
]
  where
    by_host :
        (b : Bool)
        → d.flags access_share_addr ≡ c.flags access_share_addr
        → d.flags access_share_host ≡ b
        → (d.flags access_share_host ≡ true) ⊎ (c.flags access_share_host ≡ false)
    by_host true same e = inl e
    by_host false same e = inr (ground (arith, h, same, e))

-- Where the data connection `x` of another endpoint, whose list is not sorted yet, is connected and
-- reaches from this endpoint to that one, `GetDataConnection` answers a data connection of that
-- endpoint that is connected and reaches so too, and is as near as `x`: one that shares memory comes
-- before one that does not, and among equals one that shares the host. And `x` is still a data
-- connection of that endpoint.
pub get_data_connection-best :
    (e peer x : ℕ) (enable_fallback : Bool) (s : Store)
    → e ≢ peer
    → get_flag connection_sorted (s.endpoint peer) ≡ false
    → has x (s.endpoint peer).data_conn ≡ true
    → CanCarry (s.endpoint e) (s.endpoint peer) (s.connection x)
    → ((d : ℕ) × ((get_data_connection e peer enable_fallback s).0 ≡ some d)
        × (has d (s.endpoint peer).data_conn ≡ true)
        × CanCarry (s.endpoint e) (s.endpoint peer) (s.connection d)
        × AsNear (s.connection d) (s.connection x)
        × (has x (((get_data_connection e peer enable_fallback s).1).endpoint peer).data_conn
            ≡ true))
unfolding get_data_connection
get_data_connection-best e peer x fallback s other unsorted there can =
    let own = s.endpoint e in
    let to = s.endpoint peer in
    let cs = to.data_conn in
    let sorted = sort_scored s.connection cs in
    let (d, found, has_d, able_d, best) =
      first_best s.connection (carries own to) x sorted (sort_scored-IsScored s.connection cs)
        (has-sort_scored s.connection x cs ∙ there) (carries-of own to (s.connection x) can) in
    (
      d,
      rw (≢→== e peer other, unsorted, found) refl,
      sym (has-sort_scored s.connection d cs) ∙ has_d,
      carries-to own to (s.connection d) able_d,
      AsNear-score (s.connection d) (s.connection x) best,
      rw (≢→== e peer other, ==-refl peer, unsorted) (has-sort_scored s.connection x cs ∙ there),
    )
