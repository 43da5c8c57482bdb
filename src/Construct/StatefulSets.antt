-- ===== src/Construct/StatefulSets.antt =====
-- The stateful set of a rack: construct_statefulset.go, with AddStatefulSetChanges of
-- operator/pkg/psp/labels_annotations.go and the hash annotation of
-- operator/pkg/utils/hash_annotation.go.
use cass_operator.Prelude.{
  ℕ, String, append, Bool, true, false, List, [], ◌∷◌, map, none, some, ◌==◌, insert, lookup,
  if◌then◌else◌, string_eq,
}
use cass_operator.Result.{Outcome, ok, err}
use cass_operator.Templates.{PodTemplateSpec, VolumeClaim, StatefulSet, StatefulSetStatus}
use cass_operator.Datacenter.{Datacenter, Rack, get_racks}
use cass_operator.Labels.{
  Labels, get_rack_labels, add_managed_by_label, add_defunct_managed_by_label, merge_map,
  managed_by_label, managed_by_label_defunct_value, get_all_pods_service_name,
}
use cass_operator.Construct.Config.{Surroundings}
use cass_operator.Construct.Security.{add_management_api_server_security}
use cass_operator.Construct.PodTemplate.{build_pod_template_spec}

abbrev zone_label : String
zone_label = "failure-domain.beta.kubernetes.io/zone"

is_defunct : Labels → Bool
is_defunct labels = elim (lookup managed_by_label labels) [
  | none ↦ false
  | some v ↦ v == managed_by_label_defunct_value
]

unfoldable pub uses_defunct_pvc_managed_by_label : List VolumeClaim → Bool
unfolding is_defunct
uses_defunct_pvc_managed_by_label [] = false
uses_defunct_pvc_managed_by_label (pvc ∷ pvcs) =
    let rest = uses_defunct_pvc_managed_by_label pvcs in
    if is_defunct pvc.labels then true else rest

unfoldable pub name_for_stateful_set : Datacenter → (rack_name : String) → String
name_for_stateful_set dc rack_name =
    append (append (append (append (append dc.spec.cluster_name "-") dc.name) "-") rack_name) "-sts"

-- The loop of rackNodeAffinitylabels, which ends at the first rack of the name. MergeMap writes into the
-- rack's own map, where a later call finds the same labels and writes them again.
affinity_labels : Datacenter → (rack_name : String) → List Rack → Labels
affinity_labels dc rack_name [] = []
affinity_labels dc rack_name (rack ∷ racks) =
    let rest = affinity_labels dc rack_name racks in
    let merged = merge_map rack.node_affinity_labels dc.spec.node_affinity_labels in
    if rack.name == rack_name
    then if rack.zone == "" then merged else merge_map merged ((zone_label, rack.zone) ∷ [])
    else rest

unfoldable pub rack_node_affinity_labels : Datacenter → (rack_name : String) → Labels
unfolding affinity_labels
rack_node_affinity_labels dc rack_name = affinity_labels dc rack_name (get_racks dc)

unfoldable pub claim_labels : Datacenter → (rack_name : String) → (defunct : Bool) → Labels
claim_labels dc rack_name true = add_defunct_managed_by_label (get_rack_labels dc rack_name)
claim_labels dc rack_name false = add_managed_by_label (get_rack_labels dc rack_name)

unfoldable pub volume_claims : Datacenter → Labels → (spec : String) → List VolumeClaim
volume_claims dc labels spec =
    record { name = "server-data"; labels = labels; spec = spec }
    ∷ map (λ s. record { name = s.name; labels = labels; spec = s.pvc_spec })
        dc.spec.storage_config.additional_volumes

abbrev no_status : StatefulSetStatus
no_status = record {
  observed_generation = 0;
  replicas = 0;
  ready_replicas = 0;
  current_replicas = 0;
  updated_replicas = 0;
}

abbrev extension_id_label : String
extension_id_label = "appplatform.vmware.com/extension-id"

abbrev instance_id_label : String
instance_id_label = "appplatform.vmware.com/instance-id"

abbrev emm_integrated_annotation : String
emm_integrated_annotation = "appplatform.vmware.com/vsphere-emm-integrated"

unfoldable pub add_labels : Surroundings → (dc_name : String) → Labels → Labels
add_labels around dc_name labels =
    insert instance_id_label dc_name (insert extension_id_label around.extension_id labels)

unfoldable pub add_stateful_set_changes : Surroundings → Datacenter → StatefulSet → StatefulSet
add_stateful_set_changes around dc sts = record sts {
  volume_claim_templates =
      map {A = VolumeClaim} (λ c. record c { labels = add_labels around dc.name c.labels })
        sts.volume_claim_templates;
  template = record sts.template {
    labels = add_labels around dc.name sts.template.labels;
    annotations = insert emm_integrated_annotation "true" sts.template.annotations;
  };
}

abbrev pub resource_hash_annotation_key : String
resource_hash_annotation_key = "cassandra.datastax.com/resource-hash"

unfoldable pub add_hash_annotation : Surroundings → StatefulSet → StatefulSet
add_hash_annotation around sts = record sts {
  annotations = insert resource_hash_annotation_key (around.hash sts) sts.annotations;
}

-- A node selector of the datacenter replaces the template's.
abbrev pub with_node_selector : Datacenter → PodTemplateSpec → PodTemplateSpec
with_node_selector dc template = elim dc.spec.node_selector [
  | [] ↦ template
  | l ∷ ls ↦ record template { node_selector = merge_map [] (l ∷ ls) }
]

unfoldable pub assemble :
    Datacenter
    → (rack_name : String) → (replicas : ℕ) → List VolumeClaim
    → PodTemplateSpec
    → StatefulSet
assemble dc rack_name replicas claims template = record {
  name = name_for_stateful_set dc rack_name;
  namespace = dc.namespace;
  labels = add_managed_by_label (get_rack_labels dc rack_name);
  annotations = [];
  generation = 0;
  selector = get_rack_labels dc rack_name;
  replicas = replicas;
  service_name = get_all_pods_service_name dc;
  template = template;
  volume_claim_templates = claims;
  partition = none;
  status = no_status;
}

-- newStatefulSetForCassandraDatacenterHelper
unfoldable pub new_stateful_set :
    Surroundings
    → (rack_name : String) → Datacenter
    → (replicas : ℕ) → (defunct : Bool) → Outcome StatefulSet
new_stateful_set around rack_name dc replicas defunct =
    elim dc.spec.storage_config.cassandra_data_volume_claim_spec [
      | none ↦ err "StorageConfig.cassandraDataVolumeClaimSpec is required"
      | some spec ↦
          elim (build_pod_template_spec around dc (rack_node_affinity_labels dc rack_name)
            rack_name) [
              | err e ↦ err e
              | ok template ↦
                  let secured =
                    add_management_api_server_security dc (with_node_selector dc template) in
                  let claims = volume_claims dc (claim_labels dc rack_name defunct) spec in
                  let sts = assemble dc rack_name replicas claims secured in
                  ok (
                    add_hash_annotation around
                      (if around.psp_enabled then add_stateful_set_changes around dc sts else sts))
            ]
    ]
