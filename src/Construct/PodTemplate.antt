-- ===== src/Construct/PodTemplate.antt =====
-- The pod template of a rack: buildPodTemplateSpec of construct_podtemplatespec.go.
use Prim.Native.Nat.{Ordering}
use Prim.Native.String.{compare}
use cass_operator.Prelude.{
  String, Bool, true, false, ◌||◌, List, [], ◌∷◌, map, Option, none, some, ◌==◌, insert,
  if◌then◌else◌, string_eq,
}
use cass_operator.Result.{Outcome, ok, err}
use cass_operator.Templates.{PodTemplateSpec, Requirement, is_in, is_there, SecurityContext}
use cass_operator.Datacenter.{Datacenter, is_host_network_enabled}
use cass_operator.Pods.{value_at, cass_node_state, state_ready_to_start, rack_label}
use cass_operator.Labels.{
  Labels, get_rack_labels, add_managed_by_label, merge_map, cluster_label, datacenter_label,
}
use cass_operator.Images.{add_default_registry_image_pull_secrets}
use cass_operator.Construct.Config.{Surroundings}
use cass_operator.Construct.Volumes.{add_volumes}
use cass_operator.Construct.Containers.{build_init_containers, build_containers}

-- `sort.Strings`
insert_string : String → List String → List String
insert_string s [] = s ∷ []
insert_string s (t ∷ ts) = elim (compare t s) [
  | Ordering.lt ↦ t ∷ insert_string s ts
  | _ ↦ s ∷ t ∷ ts
]

unfoldable pub sort_strings : List String → List String
unfolding insert_string
sort_strings [] = []
sort_strings (s ∷ ss) = insert_string s (sort_strings ss)

unfoldable pub calculate_node_affinity : Labels → Option (List Requirement)
calculate_node_affinity [] = none
calculate_node_affinity (l ∷ ls) = some (
    map (λ key. record { key = key; operator = is_in (value_at key (l ∷ ls) ∷ []) })
      (sort_strings (map (λ e. e.0) (l ∷ ls))))

unfoldable pub calculate_pod_anti_affinity :
    (allow_multiple_nodes_per_worker : Bool) → Option (List Requirement × String)
calculate_pod_anti_affinity true = none
calculate_pod_anti_affinity false = some (
  record { key = cluster_label; operator = is_there }
      ∷ record { key = datacenter_label; operator = is_there }
      ∷ record { key = rack_label; operator = is_there }
      ∷ [],
  "kubernetes.io/hostname",
)

-- The image of every version runs as the user `cassandra`: CalculateDockerImageRunsAsCassandra.
unfoldable pub calculate_docker_image_runs_as_cassandra : (version : String) → Bool
calculate_docker_image_runs_as_cassandra version = true

unfoldable pub should_define_security_context : Datacenter → Bool
should_define_security_context dc = elim dc.spec.docker_image_runs_as_cassandra [
  | some answer ↦ answer
  | none ↦
      dc.spec.server_type == "dse"
      || calculate_docker_image_runs_as_cassandra dc.spec.server_version
]

abbrev empty_template : PodTemplateSpec
empty_template = record {
  labels = [];
  annotations = [];
  service_account_name = "";
  host_network = false;
  dns_policy = "";
  termination_grace_period_seconds = none;
  security_context = none;
  image_pull_secrets = [];
  affinity = record { node_affinity = none; pod_anti_affinity = none };
  tolerations = [];
  node_selector = [];
  volumes = [];
  init_containers = [];
  containers = [];
}

abbrev pub base_template : Datacenter → PodTemplateSpec
base_template dc = elim dc.spec.pod_template_spec [ none ↦ empty_template | some t ↦ t ]

abbrev cassandra_user : SecurityContext
cassandra_user = record { run_as_user = 999; run_as_group = 999; fs_group = 999 }

-- Service account, network, grace period, security context and pull secrets
unfoldable pub with_pod_settings : Surroundings → Datacenter → PodTemplateSpec → PodTemplateSpec
with_pod_settings around dc base =
    let host = is_host_network_enabled dc in
    record base {
      service_account_name =
          if dc.spec.service_account == "" then "default" else dc.spec.service_account;
      host_network = host || base.host_network;
      dns_policy = if host then "ClusterFirstWithHostNet" else base.dns_policy;
      termination_grace_period_seconds = elim base.termination_grace_period_seconds [
        | none ↦ some 120
        | some t ↦ some t
      ];
      security_context = elim base.security_context [
        | some c ↦ some c
        | none ↦ if should_define_security_context dc then some cassandra_user else none
      ];
      image_pull_secrets =
          (add_default_registry_image_pull_secrets around.environment base.image_pull_secrets).0;
    }

unfoldable pub pod_labels : Datacenter → (rack_name : String) → Labels
pod_labels dc rack_name =
    insert cass_node_state state_ready_to_start
      (add_managed_by_label (get_rack_labels dc rack_name))

-- Labels, affinity and tolerations; annotations are merged with none.
unfoldable pub with_scheduling :
    Datacenter
    → (node_affinity_labels : Labels) → (rack_name : String) → PodTemplateSpec
    → PodTemplateSpec
with_scheduling dc node_affinity_labels rack_name base = record base {
  labels = merge_map base.labels (pod_labels dc rack_name);
  affinity = record {
    node_affinity = calculate_node_affinity node_affinity_labels;
    pod_anti_affinity = calculate_pod_anti_affinity dc.spec.allow_multiple_nodes_per_worker;
  };
  tolerations = dc.spec.tolerations;
}

unfoldable pub build_pod_template_spec :
    Surroundings
    → Datacenter
    → (node_affinity_labels : Labels) → (rack_name : String) → Outcome PodTemplateSpec
build_pod_template_spec around dc node_affinity_labels rack_name =
    let base = add_volumes dc (
      with_scheduling dc node_affinity_labels rack_name
        (with_pod_settings around dc (base_template dc))) in
    elim (build_init_containers around dc rack_name base) [
      | err e ↦ err e
      | ok base' ↦ build_containers around dc base'
    ]
