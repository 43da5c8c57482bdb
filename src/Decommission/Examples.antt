-- ===== src/Decommission/Examples.antt =====
-- The theorems on decommissioning at a rack of two pods that is to have one.
use cass_operator.Prelude.{refl, true, List, [], ◌∷◌, none, some, All}
use cass_operator.Result.{ok}
use cass_operator.Datacenter.{progress_none, scaling_down, status_true}
use cass_operator.Conditions.{new_datacenter_condition}
use cass_operator.Pods.{Pod, state_started, state_decommissioning}
use cass_operator.Decommission.World.{Settings, State}
use cass_operator.Decommission.Ops.{decommission_nodes, check_decommissioning_nodes}
use cass_operator.Decommission.Safety.{IsSafe, decommission_nodes-IsSafe}
use cass_operator.Decommission.Earned.{IsEarned}
use cass_operator.Decommission.Cleanup.{check_decommissioning_nodes-IsEarned}
use cass_operator.Fixtures.{rack, datacenter, pod}

abbrev settings : Settings
settings = record {
  now = 100;
  failure = λ calls c. none;
  dc = datacenter "cassandra" "4.0.0" 1 (rack "r1" ∷ []);
  endpoints =
      record {
        host_id = "h1";
        native_transport_address = "";
        rpc_address = "10.0.0.1";
        status = "NORMAL";
        load = "7";
      }
      ∷ [];
  capacity = λ calls p. ok (some 100);
  parse_load = λ load. ok 7;
  claims = λ p. [];
}

abbrev pods : List Pod
pods =
    pod "dc1-r1-sts-0" "n1" "r1" state_started true
    ∷ pod "dc1-r1-sts-1" "n2" "r1" state_started true
    ∷ []

abbrev two_nodes : State
two_nodes = record {
  dc_pods = pods;
  stateful_sets = record { rack = "r1"; replicas = 2 } ∷ [];
  conditions = [];
  progress = progress_none;
  node_statuses = [];
  trace = [];
}

decommission_nodes-IsSafe_example :
    All (IsSafe settings pods) (decommission_nodes settings two_nodes).1.trace
decommission_nodes-IsSafe_example = decommission_nodes-IsSafe settings two_nodes refl

abbrev leaving_pods : List Pod
leaving_pods =
    pod "dc1-r1-sts-0" "n1" "r1" state_started true
    ∷ pod "dc1-r1-sts-1" "n2" "r1" state_decommissioning true
    ∷ []

-- The pod that is leaving has no endpoint any more.
abbrev leaving : State
leaving = record two_nodes {
  dc_pods = leaving_pods;
  conditions = new_datacenter_condition scaling_down status_true ∷ [];
}

abbrev settings_with_claims : Settings
settings_with_claims = record settings { claims = λ p. "server-data" ∷ []; endpoints = [] }

check_decommissioning_nodes-IsEarned_example :
    All
      (IsEarned settings_with_claims leaving_pods)
      (check_decommissioning_nodes settings_with_claims leaving).1.trace
check_decommissioning_nodes-IsEarned_example =
    check_decommissioning_nodes-IsEarned settings_with_claims leaving refl
