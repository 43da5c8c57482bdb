-- ===== src/Emm/Service.antt =====
-- `EMMServiceImpl` of operator/pkg/psp/emm.go.
use cass_operator.Prelude.{
  String, Bool, true, false, not, ◌&&◌, ◌||◌, List, [], ◌∷◌, none, some, map, filter, length,
  lookup, insert, erase, ◌==◌, ltb, if◌then◌else◌, string_eq,
}
use cass_operator.Result.{Outcome, ok, err}
use cass_operator.StringSet.{
  StringSet, has, keys, of_names, union_string_set, subtract_string_set, intersection_string_set,
}
use cass_operator.Pods.{
  Pod, rack_of, is_pod_unschedulable, find_all_pods_not_ready,
  find_all_pods_not_ready_and_potentially_bootstrapped,
}
use cass_operator.Emm.World.{
  Taint, Node, Effect, update_pod, Spi, M, pure, ◌>>=◌, ◌>>◌, get_all_nodes, get_pod_pvc, get_pods,
  ranged,
}
use cass_operator.Emm.Nodes.{get_nodes_in_dc, remove_pod, start_node_replace}

abbrev pub emm_failure_annotation : String
emm_failure_annotation = "appplatform.vmware.com/emm-failure"

abbrev pub evacuate_all_data : String
evacuate_all_data = "drain"

abbrev pub planned_downtime : String
planned_downtime = "planned-downtime"

pub has_taint : (value : String) → List Taint → Bool
has_taint value [] = false
has_taint value (t ∷ ts) =
    (t.key == "node.vmware.com/drain" && t.effect == "NoSchedule" && t.value == value)
    || has_taint value ts

-- The names of the datacenter's nodes that have the taint with the value.
unfoldable pub tainted : String → List Node → StringSet
tainted value nodes = of_names (map (λ n. n.name) (filter (λ n. has_taint value n.taints) nodes))

-- getPlannedDownTimeNodeNameSet and getEvacuateAllDataNodeNameSet, by the value
unfoldable pub get_tainted_node_name_set : Spi → (value : String) → M StringSet
get_tainted_node_name_set spi value = do nodes ← get_nodes_in_dc spi; pure (tainted value nodes)

-- getNodeNameSet: the nodes that can run a pod
unfoldable pub get_node_name_set : Spi → M StringSet
get_node_name_set spi = do
  nodes ← get_all_nodes spi
  pure (of_names (map (λ n. n.name) (filter (λ n. n.role == "agent") nodes)))

abbrev pub is_annotated : Pod → Bool
is_annotated pod = elim (lookup emm_failure_annotation pod.annotations) [
  | none ↦ false
  | some v ↦ true
]

abbrev pub annotated_pods : List Pod → List Pod
annotated_pods = filter is_annotated

abbrev pub pods_on_node : String → List Pod → List Pod
pods_on_node node_name = filter (λ p. p.node_name == node_name)

abbrev pub Visited : Type 0
Visited = Outcome Bool × List Pod × List Effect

-- After a pod: an error leaves the pods behind it as they are.
unfoldable pub after_pod : Outcome Bool → Pod → (left : List Pod) → List Effect → Visited → Visited
after_pod (err e) p left t rest = (err e, p ∷ left, t)
after_pod (ok changed) p left t (err e, ps, t') = (err e, p ∷ ps, t')
after_pod (ok changed) p left t (ok more, ps, t') = (ok (changed || more), p ∷ ps, t')

-- A loop over pods that may change each in place: whether any was changed, the pods and the calls.
unfoldable pub visit :
    (Pod → List Effect → Outcome Bool × Pod × List Effect) → List Pod → List Effect → Visited
unfolding after_pod
visit f [] t = (ok false, [], t)
visit f (p ∷ ps) t = let (r, p', t') = f p t in after_pod r p' ps t' (visit f ps t')

unfoldable pub visit_pods : (Pod → List Effect → Outcome Bool × Pod × List Effect) → M Bool
visit_pods f w = let (r, ps, t) = visit f w.pods w.trace in (r, record w { pods = ps; trace = t })

-- UpdatePod on a pod that was changed in memory
unfoldable pub updated : Spi → Pod → List Effect → Outcome Bool × Pod × List Effect
updated spi p t = elim (spi.failure t (update_pod p)) [
  | none ↦ (ok true, p, update_pod p ∷ t)
  | some e ↦ (err e, p, update_pod p ∷ t)
]

-- addPodAnnotation on the pods of the node; an annotation that is there already is not changed, and
-- counts as an update if it has the value.
unfoldable pub fail_pod :
    Spi → (node_name value : String) → Pod → List Effect → Outcome Bool × Pod × List Effect
unfolding updated
fail_pod spi node_name value p t =
    if p.node_name == node_name
    then elim (lookup emm_failure_annotation p.annotations) [
      | some current ↦ (ok (current == value), p, t)
      | none ↦
          updated spi (record p { annotations = insert emm_failure_annotation value p.annotations })
            t
    ]
    else (ok false, p, t)

unfoldable pub fail_emm : Spi → (node_name value : String) → M Bool
unfolding visit_pods fail_pod
fail_emm spi node_name value = visit_pods (fail_pod spi node_name value)

-- The loops over a set of nodes that call failEMM on each
unfoldable pub fail_all : Spi → (value : String) → List String → M Bool
fail_all spi value [] = pure false
fail_all spi value (name ∷ names) = do
  changed ← fail_emm spi name value
  more ← fail_all spi value names
  pure (changed || more)

-- The nodes of a set in the order in which Go ranges over it
unfoldable pub fail_set : Spi → (value : String) → StringSet → M Bool
fail_set spi value nodes = do names ← ranged spi (keys nodes); fail_all spi value names

-- removePodAnnotation on the annotated pods of the nodes
unfoldable pub clean_pod : Spi → StringSet → Pod → List Effect → Outcome Bool × Pod × List Effect
unfolding updated
clean_pod spi nodes p t =
    if is_annotated p && has nodes p.node_name
    then updated spi (record p { annotations = erase emm_failure_annotation p.annotations }) t
    else (ok false, p, t)

unfoldable pub emm_nodes : Spi → M StringSet
emm_nodes spi = do
  nodes ← get_tainted_node_name_set spi evacuate_all_data
  nodes2 ← get_tainted_node_name_set spi planned_downtime
  pure (union_string_set nodes nodes2)

unfoldable pub failed_nodes : List Pod → StringSet
failed_nodes pods = of_names (map (λ p. p.node_name) (annotated_pods pods))

unfoldable pub cleanup_emm_annotations : Spi → M Bool
cleanup_emm_annotations spi = do
  nodes ← emm_nodes spi
  pods ← get_pods
  visit_pods (clean_pod spi (subtract_string_set (failed_nodes pods) nodes))

unfoldable pub emm_failure_still_processing : Spi → M Bool
emm_failure_still_processing spi = do
  nodes ← emm_nodes spi
  pods ← get_pods
  pure (ltb 0 (length (intersection_string_set nodes (failed_nodes pods))))

-- A loop of RemovePod that ends with the first error
unfoldable pub remove_all : Spi → List Pod → M (Unit {0})
remove_all spi [] = pure tt
remove_all spi (p ∷ ps) = do remove_pod spi p; remove_all spi ps

unfoldable pub remove_all_not_ready_pods_on_emm_nodes : Spi → M Bool
remove_all_not_ready_pods_on_emm_nodes spi = do
  planned ← get_tainted_node_name_set spi planned_downtime
  evacuated ← get_tainted_node_name_set spi evacuate_all_data
  pods ← get_pods
  let stuck =
      filter (λ p. has (union_string_set planned evacuated) p.node_name)
        (find_all_pods_not_ready pods)
  remove_all spi stuck
  pure (ltb 0 (length stuck))

unfoldable pub down_pods : Spi → List Pod → List Pod
down_pods spi pods = find_all_pods_not_ready_and_potentially_bootstrapped pods spi.node_statuses

-- getRacksWithNotReadyPodsBootstrapped
unfoldable pub racks_with_down_pods : Spi → List Pod → M (List String)
racks_with_down_pods spi pods = ranged spi (keys (of_names (map rack_of (down_pods spi pods))))

-- getPodPVCSelectedNodeName, whose pod is the first of that name, and has one claim
unfoldable pub selected_of_first : Spi → List Pod → M String
selected_of_first spi [] = pure ""
selected_of_first spi (p ∷ ps) = do pvc ← get_pod_pvc spi p; pure pvc.selected_node

unfoldable pub get_pod_pvc_selected_node_name : Spi → String → M String
get_pod_pvc_selected_node_name spi pod_name = do
  pods ← get_pods
  selected_of_first spi (filter (λ p. p.name == pod_name) pods)

-- A pod that cannot be scheduled, and whose volume stays on another node that is evacuated
unfoldable pub replace_stuck : Spi → StringSet → Pod → M Bool
replace_stuck spi evacuated p = do
  pvc_node ← get_pod_pvc_selected_node_name spi p.name
  let is_stuck = not (pvc_node == "") && not (p.node_name == pvc_node) && has evacuated pvc_node
  if is_stuck then (start_node_replace spi p.name >> pure true) else pure false

-- The loop over the down pods: whether one was replaced
unfoldable pub replace_evacuated : Spi → StringSet → List Pod → M Bool
unfolding replace_stuck
replace_evacuated spi evacuated [] = pure false
replace_evacuated spi evacuated (p ∷ ps) = do
  replaced ← (if is_pod_unschedulable p then replace_stuck spi evacuated p else pure false)
  more ← replace_evacuated spi evacuated ps
  pure (replaced || more)

unfoldable pub replace_any : Spi → List Pod → M Bool
replace_any spi [] = pure false
replace_any spi (p ∷ ps) = do
  evacuated ← get_tainted_node_name_set spi evacuate_all_data
  replace_evacuated spi evacuated (p ∷ ps)

unfoldable pub perform_evacuate_data_pod_replace : Spi → M Bool
perform_evacuate_data_pod_replace spi = do pods ← get_pods; replace_any spi (down_pods spi pods)

-- The first pod on the first of the nodes that has one
unfoldable pub remove_next : Spi → List Pod → List String → M Bool
remove_next spi pods [] = pure false
remove_next spi pods (name ∷ names) = elim (pods_on_node name pods) [
  | [] ↦ remove_next spi pods names
  | p ∷ _ ↦ remove_pod spi p >> pure true
]

unfoldable pub remove_next_pod_from_evacuate_data_node : Spi → M Bool
remove_next_pod_from_evacuate_data_node spi = do
  nodes ← get_tainted_node_name_set spi evacuate_all_data
  pods ← get_pods
  names ← ranged spi (keys nodes)
  remove_next spi pods names

unfoldable pub remove_node : Spi → List Pod → List String → M Bool
remove_node spi pods [] = pure false
remove_node spi pods (name ∷ names) = elim (pods_on_node name pods) [
  | [] ↦ remove_node spi pods names
  | p ∷ ps ↦ remove_all spi (p ∷ ps) >> pure true
]

unfoldable pub remove_from_one : Spi → StringSet → M Bool
remove_from_one spi nodes = do
  pods ← get_pods
  names ← ranged spi (keys nodes)
  remove_node spi pods names

-- The error of the read is not looked at: with it the set of nodes is empty.
unfoldable pub remove_all_pods_from_one_planned_downtime_node : Spi → M Bool
remove_all_pods_from_one_planned_downtime_node spi w =
    let (r, w') = get_tainted_node_name_set spi planned_downtime w in
    elim r [ ok nodes ↦ remove_from_one spi nodes w' | err e ↦ (ok false, w') ]
