-- ===== src/Emm/Check.antt =====
-- `checkNodeEMM` and `checkPVCHealth` of operator/pkg/psp/emm.go: a step goes on or ends the check.
use cass_operator.Prelude.{
  ℕ, String, Bool, true, false, List, [], ◌∷◌, map, length, ◌==◌, ltb, if◌then◌else◌, string_eq,
  nat_eq,
}
use cass_operator.Result.{
  Outcome, ok, err, ReconcileResult, continue_reconcile, call_back_soon, error_out,
}
use cass_operator.StringSet.{StringSet, keys, of_names, union_string_set, subtract_string_set}
use cass_operator.Pods.{Pod, rack_label}
use cass_operator.Pods.Filters.{filter_pods_with_label}
use cass_operator.Emm.World.{World, Spi, M, get_pod_pvc, get_pods, ranged}
use cass_operator.Emm.World
use cass_operator.Emm.Nodes.{start_node_replace}
use cass_operator.Emm.Service.{
  planned_downtime, evacuate_all_data, get_tainted_node_name_set, get_node_name_set, fail_set,
  cleanup_emm_annotations, emm_failure_still_processing, racks_with_down_pods,
  remove_all_not_ready_pods_on_emm_nodes, perform_evacuate_data_pod_replace,
  remove_next_pod_from_evacuate_data_node, remove_all_pods_from_one_planned_downtime_node,
}

pub data Flow (A : Type 0) : Type 0 where
  next : A → Flow A
  exit : ReconcileResult → Flow A

abbrev pub Step : Type 0 → Type 0
Step A = World → Flow A × World

unfoldable pub next_with : {A : Type 0} → A → Step A
next_with a w = (next a, w)

unfoldable pub exit_with : {A : Type 0} → ReconcileResult → Step A
exit_with r w = (exit r, w)

abbrev pub go_on : {A B : Type 0} → Flow A → (A → Step B) → Step B
go_on (next a) f w = f a w
go_on (exit r) f w = (exit r, w)

abbrev pub flow_of : {A : Type 0} → Outcome A → Flow A
flow_of (ok a) = next a
flow_of (err e) = exit (error_out e)

-- `if err != nil { return result.Error(err) }`
unfoldable pub lift : {A : Type 0} → M A → Step A
lift m w = let (r, w') = m w in (flow_of r, w')

-- `if didUpdate { return result.RequeueSoon(secs) }`
unfoldable pub requeue_if : Bool → ℕ → Step (Unit {0})
unfolding exit_with next_with
requeue_if true secs = exit_with (call_back_soon secs)
requeue_if false secs = next_with tt

infixl 5 ◌>>=◌ ◌>>◌
-- opening this opens what ends or lifts a step too
unfoldable pub ◌>>=◌ : {A B : Type 0} → Step A → (A → Step B) → Step B
unfolding next_with exit_with lift requeue_if World.◌>>=◌
◌>>=◌ m f w = let (r, w') = m w in go_on r f w'

abbrev pub ◌>>◌ : {A B : Type 0} → Step A → Step B → Step B
m >> n = m >>= λ _. n

unfoldable pub settle_failures : Spi → Step (Unit {0})
settle_failures spi = do
  did_update ← lift (cleanup_emm_annotations spi)
  requeue_if did_update 2
  still_processing ← lift (emm_failure_still_processing spi)
  requeue_if still_processing 2

unfoldable pub require_initialized : Spi → Step (Unit {0})
require_initialized spi = if spi.is_initialized then next_with tt else exit_with continue_reconcile

-- Not enough nodes without a taint for the pods
unfoldable pub fail_for_space : Spi → (planned evacuated all_nodes : StringSet) → Step (Unit {0})
fail_for_space spi planned evacuated all_nodes = do
  pods ← lift get_pods
  let unavailable = union_string_set planned evacuated
  let available = subtract_string_set all_nodes unavailable
  let pod_names = of_names (map (λ p. p.name) pods)
  changed ←
      (if ltb (length available) (length pod_names)
        then lift (fail_set spi "NotEnoughResources" unavailable)
        else next_with false)
  requeue_if changed 10

unfoldable pub fail_when_stopped : Spi → (evacuated : StringSet) → Step (Unit {0})
fail_when_stopped spi evacuated = do
  changed ←
      (if spi.is_stopped then lift (fail_set spi "GenericFailure" evacuated) else next_with false)
  requeue_if changed 2

unfoldable pub fail_when_racks_down :
    Spi → (planned evacuated : StringSet) → (racks : List String) → Step (Unit {0})
fail_when_racks_down spi planned evacuated racks = do
  changed ←
      (if ltb 1 (length racks)
        then lift (fail_set spi "TooManyExistingFailures" (union_string_set planned evacuated))
        else next_with false)
  requeue_if changed 2

-- The first of the racks with down pods; the empty name if there is none.
unfoldable pub down_rack_of : List String → String
down_rack_of [] = ""
down_rack_of (r ∷ rs) = r

-- getRackNodeNameSet
unfoldable pub get_rack_node_name_set : String → List Pod → StringSet
get_rack_node_name_set rack pods =
    of_names (map (λ p. p.node_name) (filter_pods_with_label pods rack_label rack))

unfoldable pub fail_other_racks :
    Spi → (planned evacuated : StringSet) → (down_rack : String) → Step (Unit {0})
fail_other_racks spi planned evacuated down_rack = do
  pods ← lift get_pods
  let others =
      subtract_string_set (union_string_set planned evacuated)
        (get_rack_node_name_set down_rack pods)
  changed ←
      (if down_rack == ""
        then next_with false
        else lift (fail_set spi "TooManyExistingFailures" others))
  requeue_if changed 2

-- With a rack down nothing but its stuck pods is touched.
unfoldable pub wait_for_rack : Spi → Step (Unit {0})
wait_for_rack spi = do
  replaced ← lift (perform_evacuate_data_pod_replace spi)
  requeue_if replaced 2
  exit_with continue_reconcile

unfoldable pub move_ready_pods : Spi → Step (Unit {0})
move_ready_pods spi = do
  moved ← lift (remove_next_pod_from_evacuate_data_node spi)
  requeue_if moved 2
  emptied ← lift (remove_all_pods_from_one_planned_downtime_node spi)
  requeue_if emptied 2
  exit_with continue_reconcile

unfoldable pub move_pods : Spi → (down_rack : String) → Step (Unit {0})
move_pods spi down_rack = do
  removed ← lift (remove_all_not_ready_pods_on_emm_nodes spi)
  requeue_if removed 2
  if down_rack == "" then move_ready_pods spi else wait_for_rack spi

-- From the down racks on
unfoldable pub guard_racks :
    Spi → (planned evacuated : StringSet) → (racks : List String) → Step (Unit {0})
guard_racks spi planned evacuated racks = do
  fail_when_racks_down spi planned evacuated racks
  fail_other_racks spi planned evacuated (down_rack_of racks)
  move_pods spi (down_rack_of racks)

unfoldable pub protect_racks : Spi → (planned evacuated : StringSet) → Step (Unit {0})
protect_racks spi planned evacuated = do
  pods ← lift get_pods
  racks ← lift (racks_with_down_pods spi pods)
  guard_racks spi planned evacuated racks

unfoldable pub check_steps : Spi → Step (Unit {0})
check_steps spi = do
  settle_failures spi
  require_initialized spi
  planned ← lift (get_tainted_node_name_set spi planned_downtime)
  evacuated ← lift (get_tainted_node_name_set spi evacuate_all_data)
  all_nodes ← lift (get_node_name_set spi)
  fail_for_space spi planned evacuated all_nodes
  fail_when_stopped spi evacuated
  protect_racks spi planned evacuated

abbrev pub result_of : Flow (Unit {0}) → ReconcileResult
result_of (next u) = continue_reconcile
result_of (exit r) = r

unfoldable pub check_node_emm : Spi → World → ReconcileResult × World
check_node_emm spi w = let (r, w') = check_steps spi w in (result_of r, w')

-- The pods with a claim whose volume is inaccessible, of one rack, or of all for the empty name
unfoldable pub inaccessible_pods : Spi → List Pod → M (List Pod)
inaccessible_pods spi [] = World.pure []
inaccessible_pods spi (p ∷ ps) = World.◌>>=◌ (get_pod_pvc spi p) λ pvc.
    World.◌>>=◌ (inaccessible_pods spi ps)
      λ rest. World.pure (if pvc.health == "inaccessible" then p ∷ rest else rest)

unfoldable pub inaccessible_names : Spi → (rack : String) → M (List String)
inaccessible_names spi rack = World.◌>>=◌ get_pods λ pods.
    World.◌>>=◌ (inaccessible_pods spi pods) λ found. World.pure (
      keys (
        of_names (
          map (λ p. p.name)
            (if rack == "" then found else filter_pods_with_label found rack_label rack))))

unfoldable pub replace_first : Spi → List String → Step (Unit {0})
replace_first spi [] = exit_with continue_reconcile
replace_first spi (name ∷ names) = do
  lift (start_node_replace spi name)
  exit_with (call_back_soon 2)

-- No replacement while another one is under way
unfoldable pub replace_unless_busy : Spi → List String → Step (Unit {0})
replace_unless_busy spi names =
    if ltb 0 (length spi.in_progress_node_replacements)
    then exit_with continue_reconcile
    else (do ordered ← lift (ranged spi names); replace_first spi ordered)

unfoldable pub check_pvc_steps : Spi → Step (Unit {0})
check_pvc_steps spi = do
  names ← lift (inaccessible_names spi "")
  if length names == 0 then exit_with continue_reconcile else next_with tt
  pods ← lift get_pods
  racks ← lift (racks_with_down_pods spi pods)
  if ltb 1 (length racks) then exit_with continue_reconcile else next_with tt
  names' ←
      (if length racks == 1
        then lift (inaccessible_names spi (down_rack_of racks))
        else next_with names)
  if length names' == 0 then exit_with continue_reconcile else next_with tt
  replace_unless_busy spi names'

unfoldable pub check_pvc_health : Spi → World → ReconcileResult × World
check_pvc_health spi w = let (r, w') = check_pvc_steps spi w in (result_of r, w')
