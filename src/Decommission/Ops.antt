-- ===== src/Decommission/Ops.antt =====
-- DecommissionNodes and CheckDecommissioningNodes.
use cass_operator.Prelude.{
  ℕ, String, ◌+◌, ◌-◌, Bool, true, false, ◌&&◌, List, [], ◌∷◌, Option, none, some, ◌==◌, ltb, leb,
  if◌then◌else◌, string_eq, erase,
}
use cass_operator.Result.{ReconcileResult, continue_reconcile, call_back_soon}
use cass_operator.Passing.{◌>>=◌, ◌>>◌, pure, fail}
use cass_operator.Strings.{codes, has_prefix, has_suffix}
use cass_operator.Datacenter.{
  ConditionStatus, status_true, status_false, scaling_down, ProgressState, progress_none,
  progress_updating, progress_ready,
}
use cass_operator.Conditions.{
  status_eq, set_condition, new_datacenter_condition, get_condition_status,
}
use cass_operator.Pods.{
  Pod, rack_of, node_state, is_mgmt_api_running, cass_node_state, state_decommissioning,
}
use cass_operator.Racks.{RackInformation, calculate_rack_info_for_decomm}
use cass_operator.Racks
use cass_operator.Startup.World.{Endpoint, get_rpc_address}
use cass_operator.Decommission.World.{
  StatefulSet, Settings, M, get, put, perform, attempt, patch_label, patch_status,
  patch_stateful_set, call_decommission, get_pvc, delete_pvc, sts_last_pod_suffix,
}
use cass_operator.Decommission.Capacity.{ensure_pods_can_absorb_decomm_data}

-- A condition set in memory, and patched if it changed
unfoldable pub update_condition : Settings → ConditionStatus → M (Unit {0})
update_condition cfg status = do
  s ← get
  let (updated, conditions) =
      set_condition cfg.now (new_datacenter_condition scaling_down status) s.conditions
  put (record s { conditions = conditions })
  if updated then perform cfg patch_status else pure tt

abbrev pub is_updating : ProgressState → Bool
is_updating progress_none = false
is_updating progress_updating = true
is_updating progress_ready = false

-- setOperatorProgressStatus with ProgressUpdating
unfoldable pub set_updating : Settings → M (Unit {0})
set_updating cfg = do
  s ← get
  put (record s { progress = progress_updating })
  if is_updating s.progress then pure tt else perform cfg patch_status

unfoldable pub is_last_of_rack : (rack : String) → (max_replicas : ℕ) → Pod → Bool
is_last_of_rack rack max_replicas p =
    rack_of p == rack && has_suffix (codes p.name) (sts_last_pod_suffix max_replicas)

-- DecommissionNodeOnRack, for the rest of the pods
unfoldable pub decommission_node_on_rack :
    Settings → (rack : String) → (max_replicas : ℕ) → List Pod → M (Unit {0})
decommission_node_on_rack cfg rack max_replicas [] = fail "could not find pod to decommission"
decommission_node_on_rack cfg rack max_replicas (p ∷ ps) =
    let rest = decommission_node_on_rack cfg rack max_replicas ps in
    if is_last_of_rack rack max_replicas p
    then (if is_mgmt_api_running cfg.now p
        then (do
          ensure_pods_can_absorb_decomm_data cfg p
          attempt cfg (call_decommission p)
          patch_label cfg p cass_node_state state_decommissioning)
        else fail "management API is not up")
    else rest

unfoldable pub scale_down_rack : Settings → RackInformation → StatefulSet → M ReconcileResult
scale_down_rack cfg info sts = do
  update_condition cfg status_true
  set_updating cfg
  s ← get
  decommission_node_on_rack cfg info.rack_name sts.replicas s.dc_pods
  pure (call_back_soon 10)

-- The loop over the racks: the first with more replicas than it should have is scaled down.
unfoldable pub scale_down_racks :
    Settings → List RackInformation → List StatefulSet → M ReconcileResult
scale_down_racks cfg [] sets = pure continue_reconcile
scale_down_racks cfg (info ∷ infos) [] = pure continue_reconcile
scale_down_racks cfg (info ∷ infos) (sts ∷ sets) =
    let rest = scale_down_racks cfg infos sets in
    if ltb info.node_count sts.replicas then scale_down_rack cfg info sts else rest

abbrev pub total_replicas : List StatefulSet → ℕ
total_replicas [] = 0
total_replicas (sts ∷ sets) = sts.replicas + total_replicas sets

unfoldable pub decommission_nodes : Settings → M ReconcileResult
decommission_nodes cfg = do
  s ← get
  if leb (total_replicas s.stateful_sets) cfg.dc.spec.size
      then pure continue_reconcile
      else elim (calculate_rack_info_for_decomm cfg.dc (total_replicas s.stateful_sets)) [
        | Racks.too_few_nodes ↦
            fail "the number of nodes cannot be smaller than the number of racks"
        | Racks.ok infos ↦ scale_down_racks cfg infos s.stateful_sets
      ]

-- The status of the first endpoint with the pod's address
unfoldable pub status_of : (ip : String) → List Endpoint → Option String
status_of ip [] = none
status_of ip (ep ∷ eps) = if get_rpc_address ep == ip then some ep.status else status_of ip eps

unfoldable pub has_started_decommissioning : Pod → List Endpoint → Bool
has_started_decommissioning p eps = elim (status_of p.pod_ip eps) [
  | none ↦ false
  | some status ↦ has_prefix (codes status) (codes "LEAVING")
]

-- A node without an endpoint has gone.
unfoldable pub is_done_decommissioning : Pod → List Endpoint → Bool
is_done_decommissioning p eps = elim (status_of p.pod_ip eps) [
  | none ↦ true
  | some status ↦ has_prefix (codes status) (codes "LEFT")
]

unfoldable pub stateful_set_of : (rack : String) → List StatefulSet → Option StatefulSet
stateful_set_of rack [] = none
stateful_set_of rack (sts ∷ sets) = if sts.rack == rack then some sts else stateful_set_of rack sets

-- The first set of the rack gets the replicas.
unfoldable pub set_replicas : (rack : String) → ℕ → List StatefulSet → List StatefulSet
set_replicas rack n [] = []
set_replicas rack n (sts ∷ sets) =
    let rest = set_replicas rack n sets in
    if sts.rack == rack then record sts { replicas = n } ∷ sets else sts ∷ rest

-- UpdateRackNodeCount
unfoldable pub update_rack_node_count : Settings → StatefulSet → ℕ → M (Unit {0})
update_rack_node_count cfg sts n = do
  set_updating cfg
  s ← get
  put (record s { stateful_sets = set_replicas sts.rack n s.stateful_sets })
  perform cfg (patch_stateful_set (record sts { replicas = n }))

unfoldable pub shrink_if_last : Settings → Pod → Option StatefulSet → M (Unit {0})
shrink_if_last cfg p none = fail "failed to find matching statefulSet"
shrink_if_last cfg p (some sts) =
    if has_suffix (codes p.name) (sts_last_pod_suffix sts.replicas)
    then update_rack_node_count cfg sts (sts.replicas - 1)
    else pure tt

unfoldable pub remove_decommissioned_pod_from_sts : Settings → Pod → M (Unit {0})
remove_decommissioned_pod_from_sts cfg p = do
  s ← get
  shrink_if_last cfg p (stateful_set_of (rack_of p) s.stateful_sets)

unfoldable pub delete_pod_pvcs : Settings → List String → M (Unit {0})
delete_pod_pvcs cfg [] = pure tt
delete_pod_pvcs cfg (claim ∷ claims) = do
  perform cfg (get_pvc claim)
  perform cfg (delete_pvc claim)
  delete_pod_pvcs cfg claims

unfoldable pub clean_up_after_decommissioned_pod : Settings → Pod → M (Unit {0})
clean_up_after_decommissioned_pod cfg p = do
  remove_decommissioned_pod_from_sts cfg p
  delete_pod_pvcs cfg (cfg.claims p)
  s ← get
  put (record s { node_statuses = erase p.name s.node_statuses })
  perform cfg patch_status

unfoldable pub tend_decommissioning : Settings → Pod → M (Unit {0})
tend_decommissioning cfg p =
    if is_done_decommissioning p cfg.endpoints
    then clean_up_after_decommissioned_pod cfg p
    else if has_started_decommissioning p cfg.endpoints
    then pure tt
    else attempt cfg (call_decommission p)

-- The loop over the pods ends at the first that is decommissioning.
unfoldable pub tend_first : Settings → List Pod → M ReconcileResult
tend_first cfg [] = do update_condition cfg status_false; pure continue_reconcile
tend_first cfg (p ∷ ps) =
    let rest = tend_first cfg ps in
    if node_state p == state_decommissioning
    then (tend_decommissioning cfg p >>= λ _. pure (call_back_soon 5))
    else rest

unfoldable pub check_decommissioning_nodes : Settings → M ReconcileResult
check_decommissioning_nodes cfg = do
  s ← get
  if get_condition_status scaling_down s.conditions == status_true
      then tend_first cfg s.dc_pods
      else pure continue_reconcile
