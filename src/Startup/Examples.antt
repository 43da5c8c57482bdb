-- ===== src/Startup/Examples.antt =====
-- The theorems on a pass at a cluster of two racks with one pod each.
use cass_operator.Prelude.{String, ◌≡◌, ◌≤◌, refl, true, false, [], ◌∷◌, none}
use cass_operator.Result.{ok}
use cass_operator.Pods.{
  Pod, rack_label, state_ready_to_start, state_starting, state_started, is_server_ready,
  is_server_starting,
}
use cass_operator.Pods.Filters.{filter_pod_list_by_labels, map_contains}
use cass_operator.Racks.{RackInformation}
use cass_operator.Startup.World.{Member, Settings, State}
use cass_operator.Startup.Seeds.{label_seed_pods}
use cass_operator.Startup.Pass.{check_pods_ready}
use cass_operator.Startup.Quiet.{starts}
use cass_operator.Startup.Serial.{starts-check_pods_ready-le}
use cass_operator.Startup.Patience.{starts-check_pods_ready-waits}
use cass_operator.Startup.SeedCount.{label_seed_pods-count}
use cass_operator.Fixtures.{pod}

abbrev rack_info : String → RackInformation
rack_info name = record { rack_name = name; node_count = 1; seed_count = 1 }

abbrev settings : Settings
settings = record {
  now = 100;
  failure = λ calls c. none;
  stopped = false;
  size = 2;
  additional_seeds = [];
  node_replacements = [];
  node_statuses = [];
  endpoints = [];
  rack_labels = λ name. (rack_label, name) ∷ [];
  desired_rack_information = rack_info "r1" ∷ rack_info "r2" ∷ [];
  rack_order = "r2" ∷ "r1" ∷ [];
}

abbrev member : Pod → Member
member p = record { pod = p; in_dc = true }

abbrev unstarted : State
unstarted = record {
  members =
      member (pod "p1" "n1" "r1" state_ready_to_start false)
      ∷ member (pod "p2" "n2" "r2" state_ready_to_start false)
      ∷ [];
  trace = [];
  last_server_node_started = 0;
}

starts-check_pods_ready-le_example : starts (check_pods_ready settings unstarted).1 ≤ 1
starts-check_pods_ready-le_example =
    starts-check_pods_ready-le settings unstarted refl ((λ e. cc), ((λ e. cc), tt))

abbrev started : State
started = record {
  members = member (pod "p1" "n1" "r1" state_started true) ∷ [];
  trace = [];
  last_server_node_started = 0;
}

label_seed_pods-count_example : (label_seed_pods settings (rack_info "r1") started).0 ≡ ok 1
unfolding filter_pod_list_by_labels map_contains is_server_ready
label_seed_pods-count_example =
    label_seed_pods-count settings (λ calls c. refl) (rack_info "r1") started

abbrev half_started : State
half_started = record {
  members =
      member (pod "p1" "n1" "r1" state_starting false)
      ∷ member (pod "p2" "n2" "r2" state_ready_to_start false)
      ∷ [];
  trace = [];
  last_server_node_started = 0;
}

starts-check_pods_ready-waits_example :
    starts (check_pods_ready settings half_started).1 ≡ starts half_started
unfolding is_server_starting is_server_ready
starts-check_pods_ready-waits_example =
    starts-check_pods_ready-waits settings half_started refl refl
