-- ===== src/Emm/Nodes.antt =====
-- What the reconciler does for EMM: GetAllNodesInDC, StartNodeReplace and RemovePod of
-- operator/pkg/reconciliation/check_nodes.go.
use cass_operator.Prelude.{
  String, append, List, [], ◌∷◌, ◌++◌, Option, none, some, map, filter, not, ◌==◌, if◌then◌else◌,
  string_eq,
}
use cass_operator.StringSet.{StringSet, keys, of_names, union_string_set}
use cass_operator.Pods.{Pod, is_mgmt_api_running}
use cass_operator.Emm.World.{
  Node, Pvc, drain, delete_pod, delete_pvc, Spi, M, pure, fail, ◌>>=◌, ◌>>◌, get_pods, get_node,
  get_pod_pvc, ranged, perform, add_replace_node,
}

unfoldable pub get_pods_pvcs : Spi → List Pod → M (List Pvc)
get_pods_pvcs spi [] = pure []
get_pods_pvcs spi (p ∷ ps) = do
  pvc ← get_pod_pvc spi p
  pvcs ← get_pods_pvcs spi ps
  pure (pvc ∷ pvcs)

abbrev not_empty : List String → List String
not_empty = filter (λ n. not (n == ""))

unfoldable pub get_pvcs_node_name_set : List Pvc → StringSet
get_pvcs_node_name_set pvcs = of_names (not_empty (map (λ c. c.selected_node) pvcs))

unfoldable pub get_pods_node_name_set : List Pod → StringSet
get_pods_node_name_set pods = of_names (not_empty (map (λ p. p.node_name) pods))

unfoldable pub get_named_node : Spi → (name : String) → M (List Node)
get_named_node spi name =
    if name == "" then pure [] else (do node ← get_node spi name; pure (node ∷ []))

unfoldable pub get_named_nodes : Spi → List String → M (List Node)
get_named_nodes spi [] = pure []
get_named_nodes spi (name ∷ names) = do
  node ← get_named_node spi name
  nodes ← get_named_nodes spi names
  pure (node ++ nodes)

unfoldable pub get_nodes_for_name_set : Spi → StringSet → M (List Node)
get_nodes_for_name_set spi set = do names ← ranged spi (keys set); get_named_nodes spi names

-- The nodes of the pods and those that their claims are bound to
unfoldable pub get_nodes_in_dc : Spi → M (List Node)
get_nodes_in_dc spi = do
  pods ← get_pods
  pvcs ← get_pods_pvcs spi pods
  get_nodes_for_name_set spi
      (union_string_set (get_pvcs_node_name_set pvcs) (get_pods_node_name_set pods))

unfoldable pub remove_pod : Spi → Pod → M (Unit {0})
remove_pod spi p = do
  if is_mgmt_api_running spi.now p then perform spi (drain p) else pure tt
  perform spi (delete_pod p)

unfoldable pub get_dc_pod_by_name : (name : String) → List Pod → Option Pod
get_dc_pod_by_name name [] = none
get_dc_pod_by_name name (p ∷ ps) = if p.name == name then some p else get_dc_pod_by_name name ps

unfoldable pub replace_pod : Spi → (name : String) → Pod → M (Unit {0})
replace_pod spi name p = do
  pvc ← get_pod_pvc spi p
  add_replace_node spi name
  perform spi (delete_pvc pvc)
  remove_pod spi p

unfoldable pub replace_found : Spi → (name : String) → Option Pod → M (Unit {0})
replace_found spi name none =
    fail (append (append "Pod with name '" name) "' not part of datacenter")
replace_found spi name (some p) = replace_pod spi name p

unfoldable pub start_node_replace : Spi → (name : String) → M (Unit {0})
start_node_replace spi name = do
  pods ← get_pods
  replace_found spi name (get_dc_pod_by_name name pods)
