-- ===== src/Topology/Relation.antt =====
-- `GetRelation`: its answer describes where the two peers stand.
use libatbus_go.Base.{ℕ, ◌≤◌, ◌≡◌, List, Option, some}
use libatbus_go.Topology.{TopologyPeer}
use libatbus_go.Topology.Query.{RelationType}
use libatbus_go.Topology.Above.{Describes}

-- An answer, on any fuel from some on, that describes where `p` and `q` stand.
pub record Answered (heap : List TopologyPeer) (p q : ℕ)
    (run : ℕ → Option (RelationType × Option ℕ)) : Type 0 where
  pub fuel : ℕ
  pub kind : RelationType
  pub hop : Option ℕ
  pub answers : (m : ℕ) → fuel ≤ m → run m ≡ some (kind, hop)
  pub describes : Describes heap p q kind hop
