-- ===== src/Reconcile/Start.antt =====
-- How a pass comes to its racks: CalculateRackInformation with the list of stateful sets that it makes, and the head of
-- ReconcileAllRacks up to CheckStatefulSetControllerCaughtUp.
use cass_operator.Prelude.{ℕ, String, List, [], ◌∷◌, Option, none, if◌then◌else◌}
use cass_operator.Result.{Outcome, ok, err, ReconcileResult, completed}
use cass_operator.Passing.{pure, lift_outcome, ◌>>=◌, ◌>>◌}
use cass_operator.Templates.{StatefulSet}
use cass_operator.Datacenter.{Condition}
use cass_operator.Conditions.{check_for_invalid_state}
use cass_operator.Pods.{Pod}
use cass_operator.Pods.Filters.{filter_pod_list_by_labels}
use cass_operator.Labels.{get_datacenter_labels}
use cass_operator.Racks
use cass_operator.Racks.{RackInformation, calculate_rack_information}
use cass_operator.Reconcile.World.{Settings, M, Call, get, put}
use cass_operator.Reconcile.CaughtUp.{check_stateful_set_controller_caught_up}

-- The list that Go's `make` fills with nil pointers
unfoldable pub unread_sets : List RackInformation → List (Option StatefulSet)
unread_sets [] = []
unread_sets (info ∷ infos) = none ∷ unread_sets infos

abbrev pub racks_outcome : Racks.Outcome (List RackInformation) → Outcome (List RackInformation)
racks_outcome (Racks.ok infos) = ok infos
racks_outcome Racks.too_few_nodes =
    err "the number of nodes cannot be smaller than the number of racks"

unfoldable pub take_racks : M (List RackInformation)
take_racks = do
  s ← get
  infos ← lift_outcome (racks_outcome (calculate_rack_information s.dc))
  put (record s { stateful_sets = unread_sets infos })
  pure infos

-- `list` is the listing of the cluster's pods, which is empty where it fails.
unfoldable pub take_pods : (list : List Call → List Pod) → M (Unit {0})
take_pods list = do
  s ← get
  put (record s { dc_pods = filter_pod_list_by_labels (list s.trace) (get_datacenter_labels s.dc) })

unfoldable pub start_racks :
    Settings
    → (error : Condition → String) → (list : List Call → List Pod) → (digits : ℕ → String)
    → M ReconcileResult
start_racks cfg error list digits = do
  infos ← take_racks
  s ← get
  let validity = check_for_invalid_state error s.dc.status.conditions
  if completed validity then pure validity else (do
    take_pods list
    check_stateful_set_controller_caught_up (record cfg { desired_rack_information = infos })
        digits)
