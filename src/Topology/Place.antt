-- ===== src/Topology/Place.antt =====
-- Where `UpdatePeer` puts a peer, and where it finds a circle.
use libatbus_go.Base.{
  ℕ, zero, suc, ◌<◌, ◌≡◌, ◌≢◌, refl, sym, ap, ◌∙◌, arith, List, Option, none, some, true, false,
  ◌⊎◌, inl, inr, Bool-cases,
}
use libatbus_go.Base.{length, ◌==◌, ==_iff}
use libatbus_go.Topology.{
  TopologyPeer, TopologyRegistry, peer_at, upstream_of, update, update_at, update_upstream, leave,
  join, move_peer, cycle_from, get_peer_instance,
}
use libatbus_go.Topology.Map.{lookup}
use libatbus_go.Topology.Chain.{Ends, climb, avoids-climb}
use libatbus_go.Topology.WellFormed.{WellFormed, bus_id_of, update_other, update_self}
use libatbus_go.Topology.Move.{IsHeld, leave_lem, join_lem, set_upstream-WellFormed}
use mathlib.Core.Option.{none-ne-some}

-- The pointer for an upstream's id: nil for the id 0, else the peer that is registered.
abbrev pub IsPeerOf : TopologyRegistry → ℕ → Option ℕ → Type 0
IsPeerOf r id u =
    ((id ≡ 0) × (u ≡ none)) ⊎ ((q : ℕ) × (get_peer_instance id r ≡ some q) × (u ≡ some q))

-- The peer of `target` is registered and proactive, and its upstream is the peer of `upstream`.
pub record Placed (r : TopologyRegistry) (target upstream : ℕ) : Type 0 where
  pub peer : ℕ
  pub found : get_peer_instance target r ≡ some peer
  pub proactive : (peer_at r.heap peer).proactively_added ≡ true
  pub above : IsPeerOf r upstream (upstream_of r.heap peer)

-- The chain from the peer of `upstream` comes to a peer with the id `target`.
pub record Circle (r : TopologyRegistry) (target upstream : ℕ) : Type 0 where
  pub start : Option ℕ
  pub starts : IsPeerOf r upstream start
  pub steps : ℕ
  pub met : ℕ
  pub reaches : climb r.heap steps start ≡ some met
  pub names : bus_id_of r.heap met ≡ target

-- A changed peer `p` with the upstream `u`, in a registry that knows the same ids.
pub Placed-at :
    (r r' : TopologyRegistry) (target upstream p : ℕ) (u : Option ℕ)
    → r'.data_of ≡ r.data_of
    → get_peer_instance target r ≡ some p
    → IsPeerOf r upstream u
    → upstream_of r'.heap p ≡ u
    → (peer_at r'.heap p).proactively_added ≡ true
    → Placed r' target upstream
Placed-at r r' target upstream p u same found above up pro = record {
  peer = p;
  found = ap (lookup target) same ∙ found;
  proactive = pro;
  above = elim above [
    | inl (zero_id, nil) ↦ inl (zero_id, up ∙ nil)
    | inr (q, at_q, is_q) ↦ inr (q, ap (lookup upstream) same ∙ at_q, up ∙ is_q)
  ];
}

pub IsPeerOf-IsHeld :
    (r : TopologyRegistry) (id : ℕ) (u : Option ℕ) → WellFormed r → IsPeerOf r id u → IsHeld r u
IsPeerOf-IsHeld r id u w h q e = elim h [
  | inl (zero_id, nil) ↦ absurd (none-ne-some q (sym nil ∙ e))
  | inr (x, at_x, is_x) ↦ (w.named id q (at_x ∙ sym is_x ∙ e)).0
]

-- The upstream set where its chain still ends, and the new downstream entered.
pub placed_lem :
    (r : TopologyRegistry) (target p : ℕ) (u : Option ℕ)
    → WellFormed r
    → p < length r.heap
    → IsHeld r u
    → Ends (update (update_upstream u) p r.heap) u
    → let r' = join target p u (update_at (update_upstream u) p r) in
      WellFormed r'
      × (r'.data_of ≡ r.data_of)
      × (upstream_of r'.heap p ≡ u)
      × ((peer_at r'.heap p).proactively_added ≡ (peer_at r.heap p).proactively_added)
placed_lem r target p u w h held end =
    let f = update_upstream u in
    let r1 = update_at f p r in
    let (w', same) = join_lem target p u r1 (set_upstream-WellFormed p u r w h held end) in
    (
      w',
      same.registered,
      same.upstreams p ∙ ap (λ x. x.upstream) (update_self f p r.heap h),
      same.proactive p ∙ ap (λ x. x.proactively_added) (update_self f p r.heap h),
    )

-- A peer that moves below a chain without its id.
pub move_peer_lem :
    (n target upstream p : ℕ) (u : Option ℕ) (r : TopologyRegistry)
    → WellFormed r
    → get_peer_instance target r ≡ some p
    → (peer_at r.heap p).proactively_added ≡ true
    → IsPeerOf r upstream u
    → cycle_from n r.heap target u ≡ some false
    → WellFormed (move_peer target p u r) × Placed (move_peer target p u r) target upstream
move_peer_lem n target upstream p u r w found pro above free =
    let (h, named) = w.named target p found in
    let r1 = leave target p (upstream_of r.heap p) r in
    let (w1, same) = leave_lem target p (upstream_of r.heap p) r w in
    let found1 : get_peer_instance target r1 ≡ some p =
      ap (lookup target) same.registered ∙ found in
    let h1 = (w1.named target p found1).0 in
    let f = update_upstream u in
    let other : (i : ℕ) → i ≢ p → upstream_of (update f p r1.heap) i ≡ upstream_of r.heap i =
      λ i ne. ap (λ x. x.upstream) (update_other f p i r1.heap ne) ∙ same.upstreams i in
    let above1 : IsPeerOf r1 upstream u = elim above [
      | inl x ↦ inl x
      | inr (q, at_q, is_q) ↦ inr (q, ap (lookup upstream) same.registered ∙ at_q, is_q)
    ] in
    let end : Ends (update f p r1.heap) u =
      (n, avoids-climb r.heap (update f p r1.heap) target p named other n u free) in
    let (w2, table, up, kept) =
      placed_lem r1 target p u w1 h1 (IsPeerOf-IsHeld r1 upstream u w1 above1) end in
    (
      w2,
      Placed-at r1 (move_peer target p u r) target upstream p u table found1 above1 up
          (kept ∙ same.proactive p ∙ pro),
    )

-- The check for a circle says where the circle is.
pub cycle_from-true :
    (n target : ℕ) (heap : List TopologyPeer) (o : Option ℕ)
    → cycle_from n heap target o ≡ some true
    → (k : ℕ) × (i : ℕ) × (climb heap k o ≡ some i) × (bus_id_of heap i ≡ target)
unfolding cycle_from
cycle_from-true n target heap none e = absurd (grind (arith, e))
cycle_from-true zero target heap (some c) e = absurd (grind (arith, e))
cycle_from-true (suc n) target heap (some c) e =
    elim (Bool-cases ((peer_at heap c).bus_id == target)) [
      | inl same ↦ (0, c, refl, (==_iff (bus_id_of heap c) target).0 same)
      | inr other ↦
          let (k, i, reaches, is) =
            cycle_from-true n target heap (upstream_of heap c) (rw other at e) in
          (suc k, i, reaches, is)
    ]
