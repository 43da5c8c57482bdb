-- ===== src/Construct/Selected.antt =====
-- Whether the selectors of a rack's stateful set and of its datacenter's services match the pods of the template.
use cass_operator.Pods.{rack_label}
use cass_operator.Prelude.{
  ℕ, String, ◌≡◌, refl, ◌∙◌, Bool, true, false, List, [], ◌∷◌, Option, none, some, arith, ==-refl,
  lookup, insert, lookup-insert, if◌then◌else◌, string_eq,
}
use cass_operator.Result.{Outcome, ok, err}
use cass_operator.Templates.{PodTemplateSpec, StatefulSet, VolumeClaim, Service}
use cass_operator.Datacenter.{Datacenter}
use cass_operator.Pods.Filters.{map_contains}
use cass_operator.Labels.{
  Labels, merge_map, get_rack_labels, get_datacenter_labels, get_cluster_labels,
  add_managed_by_label, cluster_label, datacenter_label,
}
use cass_operator.Labels.Laws.{IsMap, lookup-merge_map}
use cass_operator.Construct.Config.{Surroundings}
use cass_operator.Construct.PodTemplate.{build_pod_template_spec, base_template, pod_labels}
use cass_operator.Construct.Security.{add_management_api_server_security}
use cass_operator.Construct.StatefulSets.{
  new_stateful_set, assemble, volume_claims, claim_labels, add_stateful_set_changes,
  add_hash_annotation, rack_node_affinity_labels, add_labels, with_node_selector,
}
use cass_operator.Construct.Services.{
  make_generic_headless_service, add_additional_options, new_service_for_cassandra_datacenter,
  new_all_pods_service_for_cassandra_datacenter, new_node_port_service_for_cassandra_datacenter,
}
use cass_operator.Construct.TemplateLabels.{
  build_pod_template_spec-labels, add_management_api_server_security-labels,
  with_node_selector-labels,
}

map_contains-cons :
    (k v : String) (base m : Labels)
    → lookup k base ≡ some v
    → map_contains base m ≡ true
    → map_contains base ((k, v) ∷ m) ≡ true
unfolding map_contains
map_contains-cons k v base m h e = ground (arith, ==-refl v)

map_contains-insert :
    (k v : String) (base m : Labels)
    → lookup k m ≡ none
    → map_contains base m ≡ true
    → map_contains (insert k v base) m ≡ true
unfolding map_contains
map_contains-insert k v base [] n h = refl
map_contains-insert k v base ((j, w) ∷ m) n h = ground (
  arith,
  string_eq.same_iff k j,
  string_eq.same_iff j k,
  lookup-insert k j v base,
  map_contains-insert k v base m,
)

pod_labels-IsMap : (dc : Datacenter) (rack : String) → IsMap (pod_labels dc rack)
unfolding pod_labels add_managed_by_label get_rack_labels get_datacenter_labels get_cluster_labels
pod_labels-IsMap dc rack = (refl, (refl, (refl, (refl, (refl, tt)))))

-- The labels match the selector of the rack and that of the datacenter.
abbrev pub Matches : Datacenter → (rack : String) → Labels → Type 0
Matches dc rack labels =
    (map_contains labels (get_rack_labels dc rack) ≡ true)
    × (map_contains labels (get_datacenter_labels dc) ≡ true)

module _ (dc : Datacenter) (rack : String) (given : Labels) where
  abbrev merged_labels : Labels
  merged_labels = merge_map given (pod_labels dc rack)

  own : (j v : String) → lookup j (pod_labels dc rack) ≡ some v → lookup j merged_labels ≡ some v
  own j v h = rw (lookup-merge_map given (pod_labels dc rack) j (pod_labels-IsMap dc rack), h) refl

  merged_labels-Matches : Matches dc rack merged_labels
  unfolding map_contains get_rack_labels get_datacenter_labels get_cluster_labels pod_labels
      add_managed_by_label
  merged_labels-Matches =
      let cluster = own cluster_label dc.spec.cluster_name refl in
      let datacenter = own datacenter_label dc.name refl in
      let rack_is = own rack_label rack refl in
      let of_dc =
        map_contains-cons _ _ merged_labels ((datacenter_label, dc.name) ∷ []) cluster
          (map_contains-cons _ _ merged_labels [] datacenter refl) in
      (
        map_contains-cons _ _ merged_labels ((datacenter_label, dc.name) ∷ (rack_label, rack) ∷ [])
            cluster
            (map_contains-cons _ _ merged_labels ((rack_label, rack) ∷ []) datacenter
              (map_contains-cons _ _ merged_labels [] rack_is refl)),
        of_dc,
      )

add_labels-Matches :
    (around : Surroundings) (dc : Datacenter) (rack name : String) (labels : Labels)
    → Matches dc rack labels
    → Matches dc rack (add_labels around name labels)
unfolding add_labels get_rack_labels get_datacenter_labels get_cluster_labels
add_labels-Matches around dc rack name labels h = (
  map_contains-insert _ _ _ _ refl (map_contains-insert _ _ _ _ refl h.0),
  map_contains-insert _ _ _ _ refl (map_contains-insert _ _ _ _ refl h.1),
)

-- The set selects with the rack's labels, and its pods match them and the datacenter's.
abbrev pub IsSelected : Datacenter → (rack : String) → StatefulSet → Type 0
IsSelected dc rack sts =
    (sts.selector ≡ get_rack_labels dc rack) × Matches dc rack sts.template.labels

finished-IsSelected :
    (around : Surroundings) (dc : Datacenter) (rack : String) (sts : StatefulSet) (b : Bool)
    → IsSelected dc rack sts
    → IsSelected dc rack
        (add_hash_annotation around (if b then add_stateful_set_changes around dc sts else sts))
unfolding add_hash_annotation add_stateful_set_changes
finished-IsSelected around dc rack sts true h =
    (h.0, add_labels-Matches around dc rack dc.name sts.template.labels h.1)
finished-IsSelected around dc rack sts false h = h

assembled-IsSelected :
    (dc : Datacenter) (rack : String) (replicas : ℕ) (claims : List VolumeClaim)
    (t : PodTemplateSpec)
    → Matches dc rack t.labels
    → IsSelected dc rack (assemble dc rack replicas claims t)
unfolding assemble
assembled-IsSelected dc rack replicas claims t h = (refl, h)

built-IsSelected :
    (around : Surroundings) (rack : String) (dc : Datacenter) (replicas : ℕ) (defunct : Bool)
    (sts : StatefulSet)
    → new_stateful_set around rack dc replicas defunct ≡ ok sts
    → IsSelected dc rack sts
unfolding new_stateful_set
built-IsSelected around rack dc replicas defunct sts h =
    by_claim dc.spec.storage_config.cassandra_data_volume_claim_spec refl
  where
    labels : Labels
    labels = rack_node_affinity_labels dc rack

    by_claim :
        (o : Option String)
        → dc.spec.storage_config.cassandra_data_volume_claim_spec ≡ o
        → IsSelected dc rack sts
    by_claim none e = absurd (ground arith)
    by_claim (some spec) e = by_template (build_pod_template_spec around dc labels rack) refl
      where
        by_template :
            (r : Outcome PodTemplateSpec)
            → build_pod_template_spec around dc labels rack ≡ r
            → IsSelected dc rack sts
        by_template (err x) r = absurd (ground arith)
        by_template (ok t) r =
            let template = add_management_api_server_security dc (with_node_selector dc t) in
            let same : template.labels ≡ merge_map (base_template dc).labels (pod_labels dc rack) =
              add_management_api_server_security-labels dc (with_node_selector dc t)
              ∙ (with_node_selector-labels dc t
                  ∙ build_pod_template_spec-labels around dc labels rack t r) in
            let matches : Matches dc rack template.labels =
              rw same (merged_labels-Matches dc rack (base_template dc).labels) in
            let base_sts =
              assemble dc rack replicas (volume_claims dc (claim_labels dc rack defunct) spec)
                template in
            let built : ok (
                  add_hash_annotation around (
                    if around.psp_enabled
                    then add_stateful_set_changes around dc base_sts
                    else base_sts))
                ≡ ok sts =
              rw (e, r, new_stateful_set) at h in
            let whole : add_hash_annotation around (
                  if around.psp_enabled
                  then add_stateful_set_changes around dc base_sts
                  else base_sts)
                ≡ sts =
              cc in
            rw (← whole) (
              finished-IsSelected around dc rack base_sts around.psp_enabled
                (assembled-IsSelected dc rack replicas _ template matches))

-- A stateful set that is built for a rack selects by the rack's labels, and its pods match them, whatever labels the
-- datacenter's template has; so they match the selector of the datacenter's, of the all-pods and of the node port
-- service.
pub new_stateful_set-IsSelected :
    (around : Surroundings) (rack : String) (dc : Datacenter) (replicas : ℕ) (defunct : Bool)
    (sts : StatefulSet) (hash : Service → String)
    → new_stateful_set around rack dc replicas defunct ≡ ok sts
    → (sts.selector ≡ get_rack_labels dc rack)
      × (map_contains sts.template.labels sts.selector ≡ true)
      × (map_contains sts.template.labels (new_service_for_cassandra_datacenter hash dc).selector
          ≡ true)
      × (map_contains sts.template.labels
            (new_all_pods_service_for_cassandra_datacenter hash dc).selector
          ≡ true)
      × (map_contains sts.template.labels
            (new_node_port_service_for_cassandra_datacenter dc).selector
          ≡ true)
unfolding new_service_for_cassandra_datacenter new_all_pods_service_for_cassandra_datacenter
    new_node_port_service_for_cassandra_datacenter add_additional_options
    make_generic_headless_service
new_stateful_set-IsSelected around rack dc replicas defunct sts hash h =
    let selected = built-IsSelected around rack dc replicas defunct sts h in
    (selected.0, rw selected.0 selected.1.0, selected.1.1, selected.1.1, selected.1.1)
