-- ===== src/Reconcile/Restart.antt =====
-- Rolling restarts and the disruption budget: CheckRollingRestart and CheckDcPodDisruptionBudget.
use cass_operator.Prelude.{
  ℕ, String, append, ◌-◌, false, List, [], ◌∷◌, ◌==◌, ltb, if◌then◌else◌, string_eq,
}
use cass_operator.Result.{ReconcileResult, continue_reconcile, done}
use cass_operator.Passing.{pure, fail, ◌>>=◌, ◌>>◌}
use cass_operator.Datacenter.{Datacenter, rolling_restart, status_true}
use cass_operator.Pods.{Pod}
use cass_operator.Labels.{Labels, get_datacenter_labels, add_managed_by_label}
use cass_operator.Reconcile.World.{
  Settings, M, Answer, found, not_found, failed, get, put, perform, attempt, set_owner, drain,
  delete_pod, patch_datacenter, create_budget, delete_budget,
}
use cass_operator.Reconcile.Progress.{change_status, set_dc_condition, patch_dc_status}

unfoldable pub clear_restart_request : Settings → M (Unit {0})
clear_restart_request cfg = do
  s ← get
  let dc = record s.dc { spec = record s.dc.spec { rolling_restart_requested = false } }
  put (record s { dc = dc })
  perform cfg (patch_datacenter dc)

-- The request goes from the specification to the status, with the time.
unfoldable pub record_restart : Settings → M (Unit {0})
record_restart cfg = do
  change_status (λ status. record status { last_rolling_restart = cfg.now })
  updated ← set_dc_condition cfg rolling_restart status_true
  patch_dc_status cfg
  clear_restart_request cfg

-- The first pod that is older than the request is drained and deleted.
unfoldable pub restart_first : Settings → (cutoff : ℕ) → List Pod → M ReconcileResult
restart_first cfg cutoff [] = pure continue_reconcile
restart_first cfg cutoff (p ∷ ps) =
    let rest = restart_first cfg cutoff ps in
    if ltb p.creation_timestamp cutoff
    then (do attempt cfg (drain p); perform cfg (delete_pod p); pure done)
    else rest

unfoldable pub check_rolling_restart : Settings → M ReconcileResult
check_rolling_restart cfg = do
  s ← get
  if s.dc.spec.rolling_restart_requested then record_restart cfg else pure tt
  s' ← get
  restart_first cfg s'.dc.status.last_rolling_restart s'.dc_pods

pub record PodDisruptionBudget : Type 0 where
  pub name : String
  pub namespace : String
  pub labels : Labels
  pub selector : Labels
  pub min_available : ℕ

-- The size is one at least.
unfoldable pub new_pod_disruption_budget_for_datacenter : Datacenter → PodDisruptionBudget
new_pod_disruption_budget_for_datacenter dc = record {
  name = append dc.name "-pdb";
  namespace = dc.namespace;
  labels = add_managed_by_label (get_datacenter_labels dc);
  selector = get_datacenter_labels dc;
  min_available = dc.spec.size - 1;
}

-- `hash` is deepHashString, and `current` reads the hash annotation of the budget that is there.
unfoldable pub check_dc_pod_disruption_budget :
    Settings → (hash : PodDisruptionBudget → String) → (current : Answer String) → M ReconcileResult
check_dc_pod_disruption_budget cfg hash current = do
  s ← get
  let desired = new_pod_disruption_budget_for_datacenter s.dc
  perform cfg (set_owner desired.name)
  elim current [
    | failed e ↦ fail e
    | not_found ↦ (do perform cfg (create_budget (hash desired)); pure continue_reconcile)
    | found h ↦ if h == hash desired then pure continue_reconcile else (do
      perform cfg (delete_budget h)
      perform cfg (create_budget (hash desired))
      pure continue_reconcile)
  ]
