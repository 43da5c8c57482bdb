-- ===== src/Pods/Filters.antt =====
-- The filters of reconcile_racks_helpers.go and k8s_utils.go, and the sets of names they are used with.
use cass_operator.Prelude.{
  String, Bool, true, false, List, [], ◌∷◌, none, some, filter, lookup, ◌==◌, if◌then◌else◌,
  string_eq,
}
use cass_operator.Pods.{Pod, node_state, state_started}

unfoldable pub map_contains : (base submap : List (String × String)) → Bool
map_contains base [] = true
map_contains base ((k, v) ∷ submap) =
    let rest = map_contains base submap in
    elim (lookup k base) [ none ↦ false | some w ↦ if w == v then rest else false ]

unfoldable pub filter_pod_list_by_labels : List Pod → List (String × String) → List Pod
filter_pod_list_by_labels pods label_map = filter (λ p. map_contains p.labels label_map) pods

unfoldable pub filter_pod_list_by_cass_node_state : List Pod → String → List Pod
filter_pod_list_by_cass_node_state pods state = filter (λ p. node_state p == state) pods

unfoldable pub list_all_started_pods : List Pod → List Pod
list_all_started_pods pods = filter_pod_list_by_cass_node_state pods state_started

unfoldable pub filter_pods_with_label : List Pod → (label value : String) → List Pod
filter_pods_with_label pods label value =
    filter (λ p. elim (lookup label p.labels) [ none ↦ false | some v ↦ v == value ]) pods
