-- ===== src/Topology/Above.antt =====
-- Where two peers stand on each other's chain, and what the loops of `GetRelation` find.
use libatbus_go.Base.{
  ℕ, zero, suc, ◌≤◌, ◌≡◌, ◌≢◌, refl, sym, ap, ◌∙◌, arith, List, Option, none, some, true, false,
  inl, inr, Bool-cases,
}
use libatbus_go.Base.{==_iff}
use libatbus_go.Topology.{TopologyPeer, upstream_of}
use libatbus_go.Topology.Query.{
  RelationType, invalid, self, immediate_upstream, transitive_upstream, immediate_downstream,
  transitive_downstream, same_upstream_peer, other_upstream_peer, points_to, child_of, other_hop,
  after_upstream, after_downstream,
}
use libatbus_go.Topology.Chain.{climb}
use mathlib.Core.Option.{none-ne-some, some-injective}

-- `t` stands on the chain of upstreams of `p`.
abbrev pub IsAbove : List TopologyPeer → ℕ → ℕ → Type 0
IsAbove heap t p = (k : ℕ) × (climb heap k (upstream_of heap p) ≡ some t)

-- `p` and `q` have one upstream.
abbrev pub ShareUpstream : List TopologyPeer → ℕ → ℕ → Type 0
ShareUpstream heap p q = (u : ℕ) × (upstream_of heap p ≡ some u) × (upstream_of heap q ≡ some u)

-- What each relation from `p` to `q` says, with the next hop that goes with it.
abbrev pub Describes : List TopologyPeer → ℕ → ℕ → RelationType → Option ℕ → Type 0
Describes heap p q invalid hop = ⊥
Describes heap p q self hop = (p ≡ q) × (hop ≡ some q)
Describes heap p q immediate_upstream hop = (upstream_of heap p ≡ some q) × (hop ≡ some q)
Describes heap p q immediate_downstream hop = (upstream_of heap q ≡ some p) × (hop ≡ some q)
Describes heap p q same_upstream_peer hop =
    (u : ℕ) × (upstream_of heap p ≡ some u) × (upstream_of heap q ≡ some u) × (hop ≡ some u)
Describes heap p q transitive_upstream hop = IsAbove heap q p × (hop ≡ upstream_of heap p)
Describes heap p q transitive_downstream hop =
    (c : ℕ) × (hop ≡ some c) × (upstream_of heap c ≡ some p) × IsAbove heap c q
Describes heap p q other_upstream_peer hop =
    ¬ IsAbove heap q p
    × ¬ IsAbove heap p q
    × ¬ ShareUpstream heap p q
    × (hop ≡ some (other_hop (upstream_of heap p) q))

pub points_to-true : (o : Option ℕ) (t : ℕ) → points_to o t ≡ true → o ≡ some t
points_to-true none t e = absurd (grind (arith, e))
points_to-true (some x) t e = ap some ((==_iff x t).0 e)

pub points_to-false : (o : Option ℕ) (t : ℕ) → points_to o t ≡ false → o ≢ some t
points_to-false none t e h = none-ne-some t h
points_to-false (some x) t e h = let same = some-injective x t h in grind (arith, ==_iff, same, e)

-- What the loop found: a peer on the chain whose upstream is the target, or that no peer past the
-- start is the target.
abbrev pub Finds : List TopologyPeer → ℕ → Option ℕ → Option ℕ → Type 0
Finds heap t o none = (k : ℕ) → climb heap (suc k) o ≢ some t
Finds heap t o (some c) = (upstream_of heap c ≡ some t) × (k : ℕ) × (climb heap k o ≡ some c)

pub climb_none : (heap : List TopologyPeer) (o : Option ℕ) → o ≡ climb heap 0 o
climb_none heap none = refl
climb_none heap (some p) = refl

pub child_of-above :
    (heap : List TopologyPeer) (t n p : ℕ)
    → points_to (upstream_of heap p) t ≡ false
    → (a : Option ℕ) × Finds heap t (upstream_of heap p) a
      × ((m : ℕ) → n ≤ m → child_of m heap t (upstream_of heap p) ≡ some a)
    → (a : Option ℕ) × Finds heap t (some p) a
      × ((m : ℕ) → suc n ≤ m → child_of m heap t (some p) ≡ some a)
unfolding child_of
child_of-above heap t n p e (none, finds, runs) = (
  none,
  elim [
    | zero ↦
        λ h. points_to-false (upstream_of heap p) t e (climb_none heap (upstream_of heap p) ∙ h)
    | suc k ↦ finds k
  ],
  elim [ zero ↦ λ h. absurd (omega arith) | suc m ↦ λ h. rw (e, runs m (omega arith)) refl ],
)
child_of-above heap t n p e (some c, (at_c, k, reaches), runs) = (
  some c,
  (at_c, suc k, reaches),
  elim [ zero ↦ λ h. absurd (omega arith) | suc m ↦ λ h. rw (e, runs m (omega arith)) refl ],
)

pub child_of-total :
    (heap : List TopologyPeer) (t n : ℕ) (o : Option ℕ)
    → climb heap n o ≡ none
    → (a : Option ℕ) × Finds heap t o a × ((m : ℕ) → n ≤ m → child_of m heap t o ≡ some a)
unfolding child_of
child_of-total heap t n none e =
    (none, λ k. none-ne-some t, elim [ zero ↦ λ h. refl | suc m ↦ λ h. refl ])
child_of-total heap t zero (some p) e = absurd (grind (arith, e))
child_of-total heap t (suc n) (some p) e =
    let up = upstream_of heap p in
    elim (Bool-cases (points_to up t)) [
      | inl yes_up ↦ (
        some p,
        (points_to-true up t yes_up, 0, refl),
        elim [ zero ↦ λ h. absurd (omega arith) | suc m ↦ λ h. rw yes_up refl ],
      )
      | inr no_up ↦ child_of-above heap t n p no_up (child_of-total heap t n up e)
    ]

-- One step more on a chain.
suc_step :
    (heap : List TopologyPeer) (t : ℕ) (o : Option ℕ) (c k : ℕ)
    → climb heap k o ≡ some c
    → upstream_of heap c ≡ some t
    → (j : ℕ) × (climb heap j o ≡ some t)
suc_step heap t none c k e up = absurd (none-ne-some c e)
suc_step heap t (some x) c zero e up = (
  1,
  sym (climb_none heap (upstream_of heap x)) ∙ ap (upstream_of heap) (some-injective x c e) ∙ up,
)
suc_step heap t (some x) c (suc k) e up =
    let (j, r) = suc_step heap t (upstream_of heap x) c k e up in (suc j, r)

not-IsAbove :
    (heap : List TopologyPeer) (t p : ℕ)
    → upstream_of heap p ≢ some t
    → Finds heap t (upstream_of heap p) none
    → ¬ IsAbove heap t p
not-IsAbove heap t p ne finds (zero, e) = ne (climb_none heap (upstream_of heap p) ∙ e)
not-IsAbove heap t p ne finds (suc k, e) = finds k e

-- The relation of two peers without one right above the other, and without a common upstream.
pub far_lem :
    (heap : List TopologyPeer) (p q : ℕ)
    → upstream_of heap p ≢ some q
    → upstream_of heap q ≢ some p
    → ¬ ShareUpstream heap p q
    → (a b : Option ℕ) → Finds heap q (upstream_of heap p) a
    → Finds heap p (upstream_of heap q) b
    → (t : RelationType) × (hop : Option ℕ) × (after_upstream
          (some a)
          (after_downstream (some b) (upstream_of heap p) q)
          (upstream_of heap p)
        ≡ some (t, hop))
      × Describes heap p q t hop
far_lem heap p q np nq ns (some c) b (at_c, k, reaches) fb = (
  transitive_upstream,
  upstream_of heap p,
  refl,
  (suc_step heap q (upstream_of heap p) c k reaches at_c, refl),
)
far_lem heap p q np nq ns none (some c) fa (at_c, k, reaches) =
    (transitive_downstream, some c, refl, (c, refl, at_c, (k, reaches)))
far_lem heap p q np nq ns none none fa fb = (
  other_upstream_peer,
  some (other_hop (upstream_of heap p) q),
  refl,
  (not-IsAbove heap q p np fa, not-IsAbove heap p q nq fb, ns, refl),
)
