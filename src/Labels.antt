-- ===== src/Labels.antt =====
-- Labels and names of the resources that the operator makes: GetClusterLabels and so on of
-- operator/pkg/apis/cassandra/v1beta1/cassandradatacenter_types.go, operator/pkg/oplabels, MergeMap of
-- operator/pkg/utils/utilities.go, and shouldUpdateLabelsForRackResource and its like of
-- operator/pkg/reconciliation/reconcile_racks.go.
pub mod Laws
mod Examples
use cass_operator.Prelude.{
  String, append, Bool, true, false, not, ◌&&◌, List, [], ◌∷◌, Option, none, some, ◌==◌, lookup,
  insert, if◌then◌else◌, string_eq,
}
use cass_operator.Datacenter.{Datacenter}
use cass_operator.Pods.{rack_label}
use cass_operator.Pods.Filters.{map_contains}

abbrev pub Labels : Type 0
Labels = List (String × String)

abbrev pub cluster_label : String
cluster_label = "cassandra.datastax.com/cluster"

abbrev pub datacenter_label : String
datacenter_label = "cassandra.datastax.com/datacenter"

abbrev pub managed_by_label : String
managed_by_label = "app.kubernetes.io/managed-by"

abbrev pub managed_by_label_value : String
managed_by_label_value = "cass-operator"

abbrev pub managed_by_label_defunct_value : String
managed_by_label_defunct_value = "cassandra-operator"

unfoldable pub add_managed_by_label : Labels → Labels
add_managed_by_label m = insert managed_by_label managed_by_label_value m

unfoldable pub add_defunct_managed_by_label : Labels → Labels
add_defunct_managed_by_label m = insert managed_by_label managed_by_label_defunct_value m

unfoldable pub has_managed_by_cassandra_operator_label : Labels → Bool
has_managed_by_cassandra_operator_label m = elim (lookup managed_by_label m) [
  | none ↦ false
  | some v ↦ v == managed_by_label_value
]

unfoldable pub get_cluster_labels : Datacenter → Labels
get_cluster_labels dc = (cluster_label, dc.spec.cluster_name) ∷ []

unfoldable pub get_datacenter_labels : Datacenter → Labels
get_datacenter_labels dc = insert datacenter_label dc.name (get_cluster_labels dc)

unfoldable pub get_rack_labels : Datacenter → (rack_name : String) → Labels
get_rack_labels dc rack_name = insert rack_label rack_name (get_datacenter_labels dc)

unfoldable pub get_seed_service_name : Datacenter → String
get_seed_service_name dc = append dc.spec.cluster_name "-seed-service"

-- `cluster-datacenter` and a suffix
abbrev service_name : Datacenter → (suffix : String) → String
service_name dc suffix = append (append (append dc.spec.cluster_name "-") dc.name) suffix

unfoldable pub get_additional_seeds_service_name : Datacenter → String
get_additional_seeds_service_name dc = service_name dc "-additional-seed-service"

unfoldable pub get_all_pods_service_name : Datacenter → String
get_all_pods_service_name dc = service_name dc "-all-pods-service"

unfoldable pub get_datacenter_service_name : Datacenter → String
get_datacenter_service_name dc = service_name dc "-service"

unfoldable pub get_node_port_service_name : Datacenter → String
get_node_port_service_name dc = service_name dc "-node-port-service"

-- MergeMap with one source; more sources are merged one after the other.
unfoldable pub merge_map : (destination source : Labels) → Labels
merge_map destination [] = destination
merge_map destination ((k, v) ∷ source) = merge_map (insert k v destination) source

-- `reflect.DeepEqual` on maps
unfoldable pub maps_equal : Labels → Labels → Bool
maps_equal a b = map_contains a b && map_contains b a

unfoldable pub merge_in_labels_if_different : (existing new : Labels) → Bool × Labels
merge_in_labels_if_different existing new =
    let updated = merge_map (merge_map [] existing) new in
    if maps_equal existing updated then (false, existing) else (true, updated)

unfoldable pub should_update_labels_for_cluster_resource : Labels → Datacenter → Bool × Labels
should_update_labels_for_cluster_resource labels dc =
    merge_in_labels_if_different labels (add_managed_by_label (get_cluster_labels dc))

unfoldable pub should_update_labels_for_rack_resource :
    Labels → Datacenter → (rack_name : String) → Bool × Labels
should_update_labels_for_rack_resource labels dc rack_name =
    merge_in_labels_if_different labels (add_managed_by_label (get_rack_labels dc rack_name))

unfoldable pub should_update_labels_for_datacenter_resource : Labels → Datacenter → Bool × Labels
should_update_labels_for_datacenter_resource labels dc =
    merge_in_labels_if_different labels (add_managed_by_label (get_datacenter_labels dc))
