-- ===== src/Emm/Examples.antt =====
-- The theorem on removals at two racks, one of them with its pod down on a node to be evacuated.
use cass_operator.Prelude.{
  String, true, false, List, [], ◌∷◌, none, All, refl, ◌==◌, if◌then◌else◌, string_eq,
}
use cass_operator.Result.{Outcome, ok, err}
use cass_operator.Pods.{
  Pod, state_started, is_server_ready, has_pod_potentially_bootstrapped,
  find_all_pods_not_ready_and_potentially_bootstrapped,
}
use cass_operator.Emm.World.{Spi, Node, Taint}
use cass_operator.Emm.Harmless.{IsHarmless}
use cass_operator.Emm.Service.{down_pods, racks_with_down_pods}
use cass_operator.Emm.Check.{check_node_emm}
use cass_operator.Emm.Availability.{start, check_node_emm-IsHarmless}
use cass_operator.Fixtures.{pod}

abbrev node : String → List Taint → Node
node n taints = record { name = n; role = ""; taints = taints }

abbrev nodes : List Node
nodes =
    node "n1"
      (record { key = "node.vmware.com/drain"; value = "drain"; effect = "NoSchedule" } ∷ [])
    ∷ node "n2" []
    ∷ node "n3" []
    ∷ []

abbrev named_node : List Node → String → Outcome Node
named_node [] name = err "not found"
named_node (n ∷ ns) name = if n.name == name then ok n else named_node ns name

abbrev cluster : Spi
cluster = record {
  now = 0;
  node_of = λ t name. named_node nodes name;
  all_nodes = λ t. ok nodes;
  pvc_of = λ t p. ok (record { name = p.name; selected_node = p.node_name; health = "" });
  failure = λ t e. none;
  range = λ t names. names;
  range-same = λ t names n. refl;
  node_statuses = [];
  in_progress_node_replacements = [];
  is_stopped = false;
  is_initialized = true;
}

abbrev pods : List Pod
pods = pod "p1" "n1" "r1" state_started false ∷ pod "p2" "n2" "r2" state_started true ∷ []

check_node_emm-IsHarmless_example :
    All (IsHarmless cluster pods []) (check_node_emm cluster (start pods [])).1.trace
unfolding racks_with_down_pods down_pods find_all_pods_not_ready_and_potentially_bootstrapped
    is_server_ready has_pod_potentially_bootstrapped
check_node_emm-IsHarmless_example =
    check_node_emm-IsHarmless cluster pods [] refl (λ e. cc) (λ e. cc, tt)
