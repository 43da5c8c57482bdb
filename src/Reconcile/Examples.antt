-- ===== src/Reconcile/Examples.antt =====
-- The theorems on the stages at a datacenter with one rack of two nodes, whose stateful set has one replica.
use cass_operator.Prelude.{String, ◌≢◌, true, false, [], ◌∷◌, none, some}
use cass_operator.Result.{ok, done}
use cass_operator.Templates.{StatefulSet}
use cass_operator.Datacenter.{Datacenter}
use cass_operator.Racks.{RackInformation}
use cass_operator.Fixtures.{datacenter, rack, pod}
use cass_operator.Construct.PodTemplate.{base_template}
use cass_operator.Reconcile.World.{Settings, State, Secret, Answer, found, not_found, nth}
use cass_operator.Reconcile.Scaling.{check_rack_scale}
use cass_operator.Reconcile.Growth.{Scaled, check_rack_scale-Scaled}
use cass_operator.Reconcile.Upgrade.{check_rack_pod_template}
use cass_operator.Reconcile.Updates.{Upgraded}
use cass_operator.Reconcile.OneUpgrade.{check_rack_pod_template-Upgraded}
use cass_operator.Reconcile.Start.{start_racks}
use cass_operator.Reconcile.Waiting.{start_racks-IsNotDone}
use cass_operator.Reconcile.ConfigSecret.{check_config_secret}
use cass_operator.Reconcile.Stored.{IsSettled, check_config_secret-IsSettled}
use cass_operator.Reconcile.Users.{get_users, create_users}
use cass_operator.Reconcile.Served.{Served, create_users-Served}

abbrev plain : Datacenter
plain = datacenter "cassandra" "3.11.7" 2 (rack "r1" ∷ [])

abbrev some_datacenter : Datacenter
some_datacenter = record plain {
  annotations = ("a", "b") ∷ [];
  spec = record plain.spec {
    config_secret = "config";
    rolling_restart_requested = true;
    canary_upgrade = true;
    canary_upgrade_count = 1;
  };
}

abbrev some_rack : RackInformation
some_rack = record { rack_name = "r1"; node_count = 2; seed_count = 1 }

abbrev some_set : StatefulSet
some_set = record {
  name = "cluster1-dc1-r1-sts";
  namespace = "ns";
  labels = [];
  annotations = [];
  generation = 1;
  selector = [];
  replicas = 1;
  service_name = "";
  template = base_template plain;
  volume_claim_templates = [];
  partition = none;
  status = record {
    observed_generation = 1;
    replicas = 1;
    ready_replicas = 1;
    current_replicas = 1;
    updated_replicas = 1;
  };
}

abbrev secret_of : String → Answer Secret
secret_of name = found (record {
  name = name;
  annotations = ("a", "b") ∷ [];
  contents = ("config", "{}") ∷ ("username", "u") ∷ ("password", "p") ∷ [];
})

abbrev some_settings : Settings
some_settings = record {
  now = 100;
  around = record {
    environment = record { registry_override = []; base_image_os = []; pull_secrets = "" };
    psp_enabled = false;
    extension_id = "";
    merge_json = λ values config. ok "{}";
    hash = λ sts. "h";
  };
  desired_rack_information = some_rack ∷ [];
  failure = λ t c. none;
  get_stateful_set = λ t name. not_found;
  get_pod = λ t name. not_found;
  claim_of_pod = λ p. none;
  get_claim = λ t name. not_found;
  get_secret = λ t name. secret_of name;
}

abbrev some_state : State
some_state = record {
  dc = some_datacenter;
  stateful_sets = some some_set ∷ [];
  dc_pods = pod "p0" "n0" "r1" "Started" true ∷ [];
  node_to_dc = [];
  trace = [];
}

check_rack_scale-Scaled_example :
    Scaled some_settings
      (some some_rack)
      (check_rack_scale some_settings some_state).0
      (some some_set)
      (nth 0 (check_rack_scale some_settings some_state).1.stateful_sets)
      (check_rack_scale some_settings some_state).1.trace
check_rack_scale-Scaled_example = check_rack_scale-Scaled some_settings some_state 0

-- The upgrade goes on to its update, where there is no secret to read the configuration from.
abbrev upgradable_state : State
upgradable_state = record some_state { dc = plain }

check_rack_pod_template-Upgraded_example :
    Upgraded 0
      (some some_set ∷ [])
      []
      (check_rack_pod_template some_settings upgradable_state).0
      (check_rack_pod_template some_settings upgradable_state).1
check_rack_pod_template-Upgraded_example =
    check_rack_pod_template-Upgraded some_settings upgradable_state

start_racks-IsNotDone_example :
    (start_racks some_settings (λ c. "invalid") (λ t. some_state.dc_pods) (λ n. "0") some_state).0
    ≢ ok done
start_racks-IsNotDone_example =
    start_racks-IsNotDone some_settings (λ c. "invalid") (λ t. some_state.dc_pods) (λ n. "0")
      some_state

check_config_secret-IsSettled_example :
    IsSettled some_settings some_datacenter
      (check_config_secret some_settings (λ secret. "h") some_state).0
      (check_config_secret some_settings (λ secret. "h") some_state).1
check_config_secret-IsSettled_example =
    check_config_secret-IsSettled some_settings (λ secret. "h") some_state

create_users-Served_example :
    Served some_settings
      (get_users some_datacenter)
      false
      (create_users some_settings (ok "pw") some_state).0
      (create_users some_settings (ok "pw") some_state).1
create_users-Served_example = create_users-Served some_settings (ok "pw") some_state
