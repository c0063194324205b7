-- ===== src/Topology/Tests.antt =====
-- The registry on small topologies.
use libatbus_go.Base.{
  ℕ, zero, suc, ◌≡◌, refl, arith, List, [], ◌∷◌, Option, none, some, Bool, true, false,
}
use libatbus_go.Topology.{
  TopologyPeer, TopologyRegistry, create_topology_registry, update_peer, remove_peer,
  get_peer_instance, peer_at, mutable_peer, update_found, cycle_from, create_topology_peer,
}
use libatbus_go.Topology.Policy.{TopologyPolicyRule, TopologyData, check_policy, check_data}
use libatbus_go.Topology.WellFormed.{WellFormed}
use libatbus_go.Topology.Update.{Updated, update_peer_lem}
use mathlib.Core.Option.{none-ne-some, some-injective}

-- The peer 2 below the peer 1.
abbrev parent : TopologyPeer
parent = record (create_topology_peer 1) { downstream = (2, 1) ∷ [] }

abbrev child : TopologyPeer
child = record (create_topology_peer 2) { proactively_added = true; upstream = some 0 }

abbrev pair : TopologyRegistry
pair = record { heap = parent ∷ child ∷ []; data_of = (1, 0) ∷ (2, 1) ∷ [] }

pair-WellFormed : WellFormed pair
pair-WellFormed = record {
  acyclic = elim [
    | none ↦ (0, refl)
    | some zero ↦ (1, refl)
    | some (suc zero) ↦ (2, refl)
    | some (suc (suc p)) ↦ (1, refl)
  ];
  linked = elim [
    | zero ↦ λ j e. absurd (none-ne-some j e)
    | suc zero ↦ λ j e. ground (arith, some-injective 0 j e)
    | suc (suc i) ↦ λ j e. absurd (none-ne-some j e)
  ];
  named = λ id p e. ground (arith, e);
}

-- The parent cannot go below its child.
update_peer_lem_example : Updated 1 2 (λ m. update_peer m 1 2 none pair)
update_peer_lem_example = update_peer_lem 1 2 none pair pair-WellFormed (omega arith) (omega arith)

-- A run of calls, each on plenty of fuel.
data Call : Type 0 where
  update_call : ℕ → ℕ → Call
  remove_call : ℕ → Call

state : Option (Bool × TopologyRegistry) → Option TopologyRegistry
state none = none
state (some (b, r)) = some r

step : Call → Option TopologyRegistry → Option TopologyRegistry
unfolding state
step c none = none
step (update_call target upstream) (some r) = state (update_peer 20 target upstream none r)
step (remove_call target) (some r) = remove_peer 20 target r

run_calls : List Call → Option TopologyRegistry → Option TopologyRegistry
unfolding step
run_calls [] r = r
run_calls (c ∷ cs) r = run_calls cs (step c r)

-- How an id stands in a registry.
data Standing : Type 0 where
  no_answer gone passive proactive : Standing

standing : ℕ → Option TopologyRegistry → Standing
standing id none = no_answer
standing id (some r) = elim (get_peer_instance id r) [
  | none ↦ gone
  | some p ↦ elim (peer_at r.heap p).proactively_added [ true ↦ proactive | false ↦ passive ]
]

-- Removing the leaf 3 leaves 2, which was added, and 1, which 2 needs.
removes_leaf :
    standing 3 (
      run_calls
        (update_call 2 1 ∷ update_call 3 2 ∷ remove_call 3 ∷ [])
        (some create_topology_registry))
    ≡ gone
unfolding standing run_calls step state update_peer update_found mutable_peer cycle_from remove_peer
    create_topology_registry
removes_leaf = refl

keeps_proactive :
    standing 2 (
      run_calls
        (update_call 2 1 ∷ update_call 3 2 ∷ remove_call 3 ∷ [])
        (some create_topology_registry))
    ≡ proactive
unfolding standing run_calls step state update_peer update_found mutable_peer cycle_from remove_peer
    create_topology_registry
keeps_proactive = refl

keeps_needed :
    standing 1 (
      run_calls
        (update_call 2 1 ∷ update_call 3 2 ∷ remove_call 3 ∷ [])
        (some create_topology_registry))
    ≡ passive
unfolding standing run_calls step state update_peer update_found mutable_peer cycle_from remove_peer
    create_topology_registry
keeps_needed = refl

-- Removing the last one below a passive peer removes both.
removes_passive :
    standing 1 (run_calls (update_call 2 1 ∷ remove_call 2 ∷ []) (some create_topology_registry))
    ≡ gone
unfolding standing run_calls step state update_peer update_found mutable_peer cycle_from remove_peer
    create_topology_registry
removes_passive = refl

-- 1 was removed while 2 still pointed to it, and was added again.
added_again :
    standing 1 (
      run_calls
        (update_call 2 1 ∷ update_call 3 2 ∷ remove_call 2 ∷ update_call 1 0 ∷ [])
        (some create_topology_registry))
    ≡ proactive
unfolding standing run_calls step state update_peer update_found mutable_peer cycle_from remove_peer
    create_topology_registry
added_again = refl

-- The removal of 3 then removes 2 and, by its id, the new peer 1.
removes_stale :
    standing 1 (
      run_calls
        (update_call 2 1 ∷ update_call 3 2 ∷ remove_call 2 ∷ update_call 1 0 ∷ remove_call 3 ∷ [])
        (some create_topology_registry))
    ≡ gone
unfolding standing run_calls step state update_peer update_found mutable_peer cycle_from remove_peer
    create_topology_registry
removes_stale = refl

-- `RequireSameProcess` compares the hosts and the pids; a label must have an allowed value.
abbrev here : TopologyData
here = record { pid = 7; hostname = 104 ∷ []; labels = ((1 ∷ []), (5 ∷ [])) ∷ [] }

abbrev same_process : TopologyPolicyRule
same_process = record {
  require_same_process = true;
  require_same_host_name = false;
  require_label_values = ((1 ∷ []), ((4 ∷ []) ∷ (5 ∷ []) ∷ [])) ∷ [];
}

allows_self : check_policy (some same_process) (some here) (some here) ≡ true
unfolding check_policy check_data
allows_self = refl

refuses_other_pid :
    check_policy (some same_process) (some here) (some (record here { pid = 8 })) ≡ false
unfolding check_policy check_data
refuses_other_pid = refl
