-- ===== src/Reconcile/Upgrade.antt =====
-- Changed pod templates are rolled out: CheckRackPodTemplate and CheckRackForceUpgrade.
use cass_operator.Prelude.{
  ℕ, String, ◌+◌, ◌-◌, Bool, false, not, ◌&&◌, ◌||◌, List, [], ◌∷◌, some, ◌==◌, ltb, contains,
  if◌then◌else◌, string_eq, nat_eq,
}
use cass_operator.Result.{Outcome, ReconcileResult, continue_reconcile, done, call_back_soon}
use cass_operator.Passing.{pure, lift_outcome, ◌>>=◌, ◌>>◌}
use cass_operator.Templates.{StatefulSet}
use cass_operator.Datacenter.{Datacenter, updating, status_true, progress_updating}
use cass_operator.Pods.{value_at}
use cass_operator.Racks.{RackInformation}
use cass_operator.Labels.{Labels, merge_map}
use cass_operator.Construct.Config.{Surroundings}
use cass_operator.Construct.StatefulSets.{
  new_stateful_set, uses_defunct_pvc_managed_by_label, resource_hash_annotation_key,
}
use cass_operator.Reconcile.World.{
  Settings, M, get, put, perform, stateful_set_at, store_stateful_set, set_owner,
  update_stateful_set, patch_datacenter,
}
use cass_operator.Reconcile.Progress.{
  set_dc_condition, patch_if, patch_dc_status, set_operator_progress_status, enable_quiet_period,
}

-- ResourcesHaveSameHash. Nil annotations are never the same; those of a built set are not nil.
unfoldable pub resources_have_same_hash : (a1 a2 : Labels) → Bool
resources_have_same_hash [] a2 = false
resources_have_same_hash (a ∷ m) [] = false
resources_have_same_hash (a ∷ m) (b ∷ n) =
    value_at resource_hash_annotation_key (a ∷ m) == value_at resource_hash_annotation_key (b ∷ n)

-- Replicas, and the labels and annotations that others may have set, are kept.
unfoldable pub carry_over : (desired current : StatefulSet) → StatefulSet
carry_over desired current = record desired {
  replicas = current.replicas;
  labels = merge_map (merge_map [] current.labels) desired.labels;
  annotations = merge_map (merge_map [] current.annotations) desired.annotations;
}

-- The lowest ordinal of a pod that the rolling update reaches
unfoldable pub canary_partition : (count node_count : ℕ) → ℕ
canary_partition count node_count =
    if count == 0 || ltb node_count count then node_count else node_count - count

unfoldable pub with_canary : Datacenter → RackInformation → StatefulSet → StatefulSet
with_canary dc info sts =
    if dc.spec.canary_upgrade
    then record sts {
      partition = some (canary_partition dc.spec.canary_upgrade_count info.node_count);
    }
    else sts

-- The set of the index takes the new specification.
unfoldable pub roll_out : Settings → ℕ → StatefulSet → M ReconcileResult
roll_out cfg i sts = do
  store_stateful_set i sts
  updated ← set_dc_condition cfg updating status_true
  patch_if cfg updated
  set_operator_progress_status cfg progress_updating
  perform cfg (update_stateful_set sts)
  enable_quiet_period cfg 20
  pure done

-- Whether an upgrade is still under way
unfoldable pub is_rolling : StatefulSet → Bool
is_rolling sts =
    not (sts.generation == sts.status.observed_generation)
    || (not (sts.status.replicas == sts.status.ready_replicas)
        || (not (sts.status.replicas == sts.status.current_replicas)
            || not (sts.status.replicas == sts.status.updated_replicas)))

unfoldable pub desired_stateful_set :
    Surroundings → Datacenter → (rack_name : String) → (current : StatefulSet) → Outcome StatefulSet
desired_stateful_set around dc rack_name current =
    new_stateful_set around rack_name dc 0
      (uses_defunct_pvc_managed_by_label current.volume_claim_templates)

-- With a canary upgrade the racks after the first are skipped.
unfoldable pub upgrade_racks : Settings → (i : ℕ) → List RackInformation → M ReconcileResult
upgrade_racks cfg i [] = pure continue_reconcile
upgrade_racks cfg i (info ∷ infos) =
    let rest = upgrade_racks cfg (i + 1) infos in
    get >>= λ s. if s.dc.spec.canary_upgrade && ltb 0 i then pure continue_reconcile else (do
      sts ← stateful_set_at i
      desired ← lift_outcome (desired_stateful_set cfg.around s.dc info.rack_name sts)
      perform cfg (set_owner desired.name)
      if resources_have_same_hash sts.annotations desired.annotations
          then if is_rolling sts then pure (call_back_soon 10) else rest
          else roll_out cfg i (with_canary s.dc info (carry_over desired sts)))

unfoldable pub check_rack_pod_template : Settings → M ReconcileResult
check_rack_pod_template cfg = upgrade_racks cfg 0 cfg.desired_rack_information

unfoldable pub force_rack : Settings → ℕ → RackInformation → M (Unit {0})
force_rack cfg i info = do
  sts ← stateful_set_at i
  s ← get
  desired ← lift_outcome (new_stateful_set cfg.around info.rack_name s.dc 0 false)
  perform cfg (set_owner desired.name)
  store_stateful_set i (carry_over desired sts)
  updated ← set_dc_condition cfg updating status_true
  patch_dc_status cfg
  set_operator_progress_status cfg progress_updating
  perform cfg (update_stateful_set (carry_over desired sts))

unfoldable pub force_racks :
    Settings → (forced : List String) → (i : ℕ) → List RackInformation → M (Unit {0})
force_racks cfg forced i [] = pure tt
force_racks cfg forced i (info ∷ infos) = do
  if contains info.rack_name forced then force_rack cfg i info else pure tt
  force_racks cfg forced (i + 1) infos

-- The list in the specification is cleared at the end.
unfoldable pub clear_force_upgrade : Settings → M ReconcileResult
clear_force_upgrade cfg = do
  s ← get
  let dc = record s.dc { spec = record s.dc.spec { force_upgrade_racks = [] } }
  put (record s { dc = dc })
  perform cfg (patch_datacenter dc)
  pure done

unfoldable pub force_upgrade : Settings → (forced : List String) → M ReconcileResult
force_upgrade cfg [] = pure continue_reconcile
force_upgrade cfg (rack ∷ racks) = do
  force_racks cfg (rack ∷ racks) 0 cfg.desired_rack_information
  clear_force_upgrade cfg

unfoldable pub check_rack_force_upgrade : Settings → M ReconcileResult
check_rack_force_upgrade cfg = do s ← get; force_upgrade cfg s.dc.spec.force_upgrade_racks
