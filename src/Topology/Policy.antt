-- ===== src/Topology/Policy.antt =====
-- `TopologyData`, `TopologyPolicyRule` (types/atbus_topology.go) and `CheckPolicy`
-- (impl/atbus_topology.go). A string is the list of its bytes, a map an association list, a set the
-- list of its members, and a pid the bit pattern of its int32.
use libatbus_go.Base.{ℕ, List, [], ◌∷◌, Option, none, some, Bool, true, false, not, ◌&&◌, ◌||◌}
use libatbus_go.Base.{◌==◌, if◌then◌else◌}

abbrev pub Text : Type 0
Text = List ℕ

pub record TopologyData : Type 0 where
  pub pid : ℕ
  pub hostname : Text
  pub labels : List (Text × Text)

pub record TopologyPolicyRule : Type 0 where
  pub require_same_process : Bool
  pub require_same_host_name : Bool
  pub require_label_values : List (Text × List Text)

abbrev pub no_data : TopologyData
no_data = record { pid = 0; hostname = []; labels = [] }

-- `==` on strings
abbrev pub same_text : Text → Text → Bool
same_text [] [] = true
same_text [] (y ∷ ys) = false
same_text (x ∷ xs) [] = false
same_text (x ∷ xs) (y ∷ ys) = x == y && same_text xs ys

abbrev pub label : Text → List (Text × Text) → Option Text
label k [] = none
label k ((i, v) ∷ xs) = if same_text i k then some v else label k xs

abbrev pub member : Text → List Text → Bool
member v [] = false
member v (x ∷ xs) = same_text x v || member v xs

abbrev pub allowed : Option Text → List Text → Bool
allowed none values = false
allowed (some v) values = member v values

-- The loop over the required labels: Go's order of a map is any, and the answer the same.
abbrev pub labels_allowed : List (Text × List Text) → List (Text × Text) → Bool
labels_allowed [] labels = true
labels_allowed ((k, values) ∷ rules) labels =
    allowed (label k labels) values && labels_allowed rules labels

-- Whether the process and the host are as the rule asks.
abbrev pub host_allowed : TopologyPolicyRule → TopologyData → TopologyData → Bool
host_allowed rule from to =
    if rule.require_same_process || rule.require_same_host_name
    then same_text from.hostname to.hostname
      && not (rule.require_same_process && not (from.pid == to.pid))
    else true

unfoldable pub check_data : TopologyPolicyRule → Option TopologyData → Option TopologyData → Bool
check_data rule none to = false
check_data rule (some from) none = false
check_data rule (some from) (some to) =
    if host_allowed rule from to then labels_allowed rule.require_label_values to.labels else false

-- `CheckPolicy`
unfoldable pub check_policy :
    Option TopologyPolicyRule → Option TopologyData → Option TopologyData → Bool
check_policy none from to = true
check_policy (some rule) from to = check_data rule from to
