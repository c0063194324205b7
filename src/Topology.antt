-- ===== src/Topology.antt =====
-- impl/atbus_topology.go: the peers of a topology, each with an optional upstream, and the registry
-- that finds them by their bus ids.
-- A peer is an object that other peers point to, so the model has a heap: a list of peers, and a
-- pointer is an index into it. Nothing leaves the heap, as a peer that the registry forgets may
-- still be pointed to. A map is an association list with at most one entry for a key. The maps of
-- the code never hold a nil peer, so a value is a pointer; a nil map and an empty one are the same.
-- A bus id is a number; 0 stands for none. A loop up the chain of upstreams runs on fuel, with
-- `none` where that runs out.
pub mod Map
pub mod Policy
pub mod Chain
pub mod WellFormed
pub mod Move
pub mod Place
pub mod Update
pub mod Query
pub mod Above
pub mod Relation
mod Tests
use libatbus_go.Base.{
  ℕ, zero, suc, ◌+◌, List, [], ◌∷◌, ◌++◌, Option, none, some, Bool, true, false, not, ◌&&◌, ◌||◌,
}
use libatbus_go.Base.{length, get_or, ◌==◌, if◌then◌else◌}
use libatbus_go.Topology.Map.{lookup, insert, delete, has_none}
use libatbus_go.Topology.Policy.{TopologyData, no_data}

-- `TopologyPeer`
pub record TopologyPeer : Type 0 where
  pub bus_id : ℕ
  pub proactively_added : Bool
  pub upstream : Option ℕ
  pub downstream : List (ℕ × ℕ)
  pub topology_data : TopologyData

-- `TopologyRegistry`, with the heap
pub record TopologyRegistry : Type 0 where
  pub heap : List TopologyPeer
  pub data_of : List (ℕ × ℕ)

-- `CreateTopologyPeer` and `CreateTopologyRegistry`
abbrev pub create_topology_peer : ℕ → TopologyPeer
create_topology_peer id = record {
  bus_id = id;
  proactively_added = false;
  upstream = none;
  downstream = [];
  topology_data = no_data;
}

unfoldable pub create_topology_registry : TopologyRegistry
create_topology_registry = record { heap = []; data_of = [] }

-- The peer that a pointer leads to, and what is stored through one.
abbrev pub peer_at : List TopologyPeer → ℕ → TopologyPeer
peer_at heap p = get_or heap p (create_topology_peer 0)

abbrev pub update : (TopologyPeer → TopologyPeer) → ℕ → List TopologyPeer → List TopologyPeer
update f p [] = []
update f zero (x ∷ xs) = f x ∷ xs
update f (suc p) (x ∷ xs) = x ∷ update f p xs

abbrev pub update_at : (TopologyPeer → TopologyPeer) → ℕ → TopologyRegistry → TopologyRegistry
update_at f p r = record r { heap = update f p r.heap }

abbrev pub upstream_of : List TopologyPeer → ℕ → Option ℕ
upstream_of heap p = (peer_at heap p).upstream

-- `ContainsDownstream`
unfoldable pub contains_downstream : ℕ → TopologyPeer → Bool
contains_downstream id p = elim (lookup id p.downstream) [ none ↦ false | some s ↦ true ]

-- `setProactivelyAdded`, `updateUpstream`, `updateData`, `addDownstream`, `removeDownstream`
abbrev pub set_proactively_added : Bool → TopologyPeer → TopologyPeer
set_proactively_added v p = record p { proactively_added = v }

abbrev pub update_upstream : Option ℕ → TopologyPeer → TopologyPeer
update_upstream u p = record p { upstream = u }

abbrev pub update_data : Option TopologyData → TopologyPeer → TopologyPeer
update_data none p = p
update_data (some d) p = record p { topology_data = d }

abbrev pub add_downstream : ℕ → ℕ → TopologyPeer → TopologyPeer
add_downstream id child p = record p { downstream = insert id child p.downstream }

-- `check` is the pointer that the entry must hold; `removeDownstream` with a nil one has no caller.
abbrev pub removes : ℕ → Option ℕ → Bool
removes check none = false
removes check (some s) = s == check

abbrev pub remove_downstream : ℕ → ℕ → TopologyPeer → TopologyPeer
remove_downstream id check p =
    if removes check (lookup id p.downstream)
    then record p { downstream = delete id p.downstream }
    else p

-- `GetPeerInstance`, and `GetPeer`
abbrev pub get_peer_instance : ℕ → TopologyRegistry → Option ℕ
get_peer_instance id r = lookup id r.data_of

-- `mutablePeer`: the peer of an id, made where there is none.
abbrev pub make_peer : ℕ → Option ℕ → TopologyRegistry → ℕ × TopologyRegistry
make_peer id (some p) r = (p, r)
make_peer id none r = (
  length r.heap,
  record {
    heap = r.heap ++ (create_topology_peer id ∷ []);
    data_of = insert id (length r.heap) r.data_of;
  },
)

unfoldable pub mutable_peer : ℕ → TopologyRegistry → ℕ × TopologyRegistry
mutable_peer id r = make_peer id (get_peer_instance id r) r

-- `RemovePeer`
abbrev pub forget_leaf : ℕ → ℕ → TopologyRegistry → TopologyRegistry
forget_leaf id p r =
    let r' = update_at (set_proactively_added false) p r in
    if has_none (peer_at r'.heap p).downstream
    then record r' { data_of = delete id r'.data_of }
    else r'

abbrev pub is_orphan : TopologyPeer → Bool
is_orphan p = not p.proactively_added && has_none p.downstream

unfoldable pub remove_peer : ℕ → ℕ → TopologyRegistry → Option TopologyRegistry
remove_peer zero id r = none
remove_peer (suc fuel) id r = elim (get_peer_instance id r) [
  | none ↦ some r
  | some p ↦ elim (upstream_of r.heap p) [
    | none ↦ some (forget_leaf id p r)
    | some u ↦
        let r' = update_at (remove_downstream id p) u (forget_leaf id p r) in
        let up = peer_at r'.heap u in
        let rest = remove_peer fuel up.bus_id r' in if is_orphan up then rest else some r'
  ]
]

-- "检查成环": whether the chain of upstreams from `cur` meets the id `target`
unfoldable pub cycle_from : ℕ → List TopologyPeer → ℕ → Option ℕ → Option Bool
cycle_from fuel heap target none = some false
cycle_from zero heap target (some c) = none
cycle_from (suc fuel) heap target (some c) =
    let rest = cycle_from fuel heap target (upstream_of heap c) in
    if (peer_at heap c).bus_id == target then some true else rest

-- `peer.GetUpstream() == upstream`. Where both are nil it does not hold: the right side is a nil
-- pointer in an interface.
abbrev pub same_upstream : Option ℕ → Option ℕ → Bool
same_upstream (some u) (some v) = u == v
same_upstream none v = false
same_upstream (some u) none = false

-- What changes when the peer `p` of `target` gets another upstream.
abbrev pub leave : ℕ → ℕ → Option ℕ → TopologyRegistry → TopologyRegistry
leave target p none r = r
leave target p (some old) r = update_at (remove_downstream target p) old r

abbrev pub join : ℕ → ℕ → Option ℕ → TopologyRegistry → TopologyRegistry
join target p none r = r
join target p (some u) r = update_at (add_downstream target p) u r

abbrev pub move_peer : ℕ → ℕ → Option ℕ → TopologyRegistry → TopologyRegistry
move_peer target p u r =
    join target p u (update_at (update_upstream u) p (leave target p (upstream_of r.heap p) r))

abbrev pub move_unless :
    Option Bool → ℕ → ℕ → Option ℕ → TopologyRegistry → Option (Bool × TopologyRegistry)
move_unless none target p u r = none
move_unless (some true) target p u r = some (false, r)
move_unless (some false) target p u r = some (true, move_peer target p u r)

-- `UpdatePeer`, where the peer of `target` exists, and where it is made
abbrev pub touch : Option TopologyData → ℕ → TopologyRegistry → TopologyRegistry
touch d p r = update_at (update_data d) p (update_at (set_proactively_added true) p r)

unfoldable pub update_found :
    ℕ
    → ℕ
    → Option ℕ
    → Option ℕ
    → Option TopologyData
    → TopologyRegistry
    → Option (Bool × TopologyRegistry)
update_found fuel target (some p) u d r =
    let r' = touch d p r in
    if same_upstream (upstream_of r'.heap p) u
    then some (true, r')
    else move_unless (cycle_from fuel r'.heap target u) target p u r'
update_found fuel target none u d r =
    let (p, r') = mutable_peer target r in
    some (true, join target p u (update_at (update_upstream u) p (touch d p r')))

-- `upstream = r.mutablePeer(upstreamBusId)`, nil for the id 0
abbrev pub find_upstream : ℕ → TopologyRegistry → Option ℕ × TopologyRegistry
find_upstream id r =
    if id == 0 then (none, r) else (some (mutable_peer id r).0, (mutable_peer id r).1)

unfoldable pub update_peer :
    ℕ → ℕ → ℕ → Option TopologyData → TopologyRegistry → Option (Bool × TopologyRegistry)
update_peer fuel target upstream d r =
    let (u, r') = find_upstream upstream r in
    let updated = update_found fuel target (get_peer_instance target r) u d r' in
    if target == 0 || target == upstream then some (false, r) else updated
