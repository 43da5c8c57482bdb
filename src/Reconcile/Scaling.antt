-- ===== src/Reconcile/Scaling.antt =====
-- Racks are stopped and scaled up: CheckRackStoppedState and CheckRackScale.
use cass_operator.Prelude.{
  ℕ, ◌+◌, Bool, true, false, ◌&&◌, ◌||◌, List, [], ◌∷◌, ◌==◌, ltb, if◌then◌else◌,
}
use cass_operator.Result.{ReconcileResult, continue_reconcile, done}
use cass_operator.Passing.{pure, ◌>>=◌, ◌>>◌}
use cass_operator.Templates.{StatefulSet}
use cass_operator.Datacenter.{ready, stopped, resuming, scaling_up, status_true, status_false}
use cass_operator.Conditions.{get_condition_status, status_eq}
use cass_operator.Pods.{Pod, is_mgmt_api_running}
use cass_operator.Pods.Filters.{filter_pod_list_by_labels}
use cass_operator.Racks.{RackInformation}
use cass_operator.Labels.{get_rack_labels}
use cass_operator.Reconcile.World.{Settings, M, get, attempt, stateful_set_at, drain}
use cass_operator.Reconcile.Progress.{set_dc_condition, patch_if, update_rack_node_count}

-- Stopped becomes true and Ready false, at the first rack that has replicas.
unfoldable pub announce_stop : Settings → (emitted : Bool) → M (Unit {0})
announce_stop cfg true = pure tt
announce_stop cfg false = do
  is_new ← set_dc_condition cfg stopped status_true
  was_ready ← set_dc_condition cfg ready status_false
  patch_if cfg (was_ready || is_new)

-- A drain that fails is logged.
unfoldable pub drain_each : Settings → List Pod → M (Unit {0})
drain_each cfg [] = pure tt
drain_each cfg (p ∷ ps) = do
  if is_mgmt_api_running cfg.now p then attempt cfg (drain p) else pure tt
  drain_each cfg ps

unfoldable pub stop_rack :
    Settings → ℕ → RackInformation → StatefulSet → (emitted : Bool) → M (Unit {0})
stop_rack cfg i info sts emitted = do
  announce_stop cfg emitted
  s ← get
  drain_each cfg (filter_pod_list_by_labels s.dc_pods (get_rack_labels s.dc info.rack_name))
  update_rack_node_count cfg i sts 0

-- `updated` tells whether a rack was stopped; the event is sent then too.
unfoldable pub stop_racks :
    Settings → (i : ℕ) → List RackInformation → (updated : Bool) → M ReconcileResult
stop_racks cfg i [] updated = pure (if updated then done else continue_reconcile)
stop_racks cfg i (info ∷ infos) updated = do
  sts ← stateful_set_at i
  s ← get
  let stop = s.dc.spec.stopped && ltb 0 sts.replicas
  if stop then stop_rack cfg i info sts updated else pure tt
  stop_racks cfg (i + 1) infos (stop || updated)

unfoldable pub check_rack_stopped_state : Settings → M ReconcileResult
check_rack_stopped_state cfg = stop_racks cfg 0 cfg.desired_rack_information false

-- The conditions of a rack that grows: resuming if the datacenter was stopped
unfoldable pub announce_scale : Settings → M Bool
announce_scale cfg = do
  s ← get
  if get_condition_status stopped s.dc.status.conditions == status_true
      then (do
        was_stopped ← set_dc_condition cfg stopped status_false
        is_new ← set_dc_condition cfg resuming status_true
        pure (is_new || was_stopped))
      else set_dc_condition cfg scaling_up status_true

unfoldable pub scale_rack : Settings → (i : ℕ) → RackInformation → M (Unit {0})
scale_rack cfg i info = do
  sts ← stateful_set_at i
  if ltb sts.replicas info.node_count
      then (do
        updated ← announce_scale cfg
        patch_if cfg updated
        update_rack_node_count cfg i sts info.node_count)
      else pure tt

unfoldable pub scale_racks : Settings → (i : ℕ) → List RackInformation → M ReconcileResult
scale_racks cfg i [] = pure continue_reconcile
scale_racks cfg i (info ∷ infos) = do scale_rack cfg i info; scale_racks cfg (i + 1) infos

unfoldable pub check_rack_scale : Settings → M ReconcileResult
check_rack_scale cfg = scale_racks cfg 0 cfg.desired_rack_information
