-- ===== src/Topology/Query.antt =====
-- `GetRelation` of impl/atbus_topology.go, with its loops on fuel.
use libatbus_go.Base.{ℕ, zero, suc, List, Option, none, some, Bool, false, ◌||◌}
use libatbus_go.Base.{◌==◌, if◌then◌else◌}
use libatbus_go.Topology.{
  TopologyPeer, TopologyRegistry, upstream_of, same_upstream, get_peer_instance,
}

-- `TopologyRelationType` (types/atbus_topology.go)
pub data RelationType : Type 0 where
  invalid self immediate_upstream transitive_upstream immediate_downstream : RelationType
  transitive_downstream same_upstream_peer other_upstream_peer : RelationType

abbrev pub points_to : Option ℕ → ℕ → Bool
points_to none p = false
points_to (some q) p = q == p

-- The loops of `GetRelation`: the peer on the chain from `cur` whose upstream is `target`, if any.
unfoldable pub child_of : ℕ → List TopologyPeer → ℕ → Option ℕ → Option (Option ℕ)
child_of fuel heap target none = some none
child_of zero heap target (some c) = none
child_of (suc fuel) heap target (some c) =
    let rest = child_of fuel heap target (upstream_of heap c) in
    if points_to (upstream_of heap c) target then some (some c) else rest

-- `OtherUpstreamPeer`: the upstream of `from`, or `to` where there is none
abbrev pub other_hop : Option ℕ → ℕ → ℕ
other_hop none to = to
other_hop (some u) to = u

abbrev pub after_downstream : Option (Option ℕ) → Option ℕ → ℕ → Option (RelationType × Option ℕ)
after_downstream none up to = none
after_downstream (some (some child)) up to = some (transitive_downstream, some child)
after_downstream (some none) up to = some (other_upstream_peer, some (other_hop up to))

abbrev pub after_upstream :
    Option (Option ℕ)
    → Option (RelationType × Option ℕ)
    → Option ℕ
    → Option (RelationType × Option ℕ)
after_upstream none below up = none
after_upstream (some (some child)) below up = some (transitive_upstream, up)
after_upstream (some none) below up = below

-- `GetRelation` on two peers, after its lookups
unfoldable pub relation_of : ℕ → List TopologyPeer → ℕ → ℕ → Option (RelationType × Option ℕ)
relation_of fuel heap from to =
    let up = upstream_of heap from in
    let to_up = upstream_of heap to in
    let below = after_downstream (child_of fuel heap from to_up) up to in
    let above = after_upstream (child_of fuel heap to up) below up in
    if points_to up to
    then some (immediate_upstream, some to)
    else if points_to to_up from
    then some (immediate_downstream, some to)
    else if same_upstream up to_up
    then some (same_upstream_peer, up)
    else above

unfoldable pub relation_found :
    ℕ → List TopologyPeer → Bool → Option ℕ → Option ℕ → Option (RelationType × Option ℕ)
relation_found fuel heap same none to = some (invalid, none)
relation_found fuel heap same (some from) none = some (invalid, none)
relation_found fuel heap same (some from) (some to) =
    let other = relation_of fuel heap from to in if same then some (self, some to) else other

-- `GetRelation`
unfoldable pub get_relation : ℕ → ℕ → ℕ → TopologyRegistry → Option (RelationType × Option ℕ)
get_relation fuel from to r =
    let found =
      relation_found fuel r.heap (from == to) (get_peer_instance from r) (get_peer_instance to r) in
    if from == 0 || to == 0 then some (invalid, none) else found
