-- ===== src/Reconcile/Creation.antt =====
-- Stateful sets of racks are read or created, and labelled: CheckRackCreation and CheckRackLabels.
use cass_operator.Prelude.{ℕ, ◌+◌, Bool, true, false, List, [], ◌∷◌, if◌then◌else◌}
use cass_operator.Result.{ReconcileResult, continue_reconcile}
use cass_operator.Passing.{pure, fail, lift_outcome, ◌>>=◌, ◌>>◌}
use cass_operator.Templates.{StatefulSet}
use cass_operator.Datacenter.{progress_updating}
use cass_operator.Racks.{RackInformation}
use cass_operator.Labels.{should_update_labels_for_rack_resource}
use cass_operator.Construct.StatefulSets.{new_stateful_set, name_for_stateful_set}
use cass_operator.Reconcile.World.{
  Settings, M, found, not_found, failed, get, perform, stateful_set_at, store_stateful_set,
  set_owner, create_stateful_set, patch_stateful_set,
}
use cass_operator.Reconcile.Progress.{set_operator_progress_status}

-- The set of the rack, and whether it was there
unfoldable pub get_stateful_set_for_rack : Settings → RackInformation → M (StatefulSet × Bool)
get_stateful_set_for_rack cfg info = do
  s ← get
  elim (cfg.get_stateful_set s.trace (name_for_stateful_set s.dc info.rack_name)) [
    | found sts ↦ pure (sts, true)
    | failed e ↦ fail e
    | not_found ↦ (do
      sts ← lift_outcome (new_stateful_set cfg.around info.rack_name s.dc 0 false)
      perform cfg (set_owner sts.name)
      pure (sts, false))
  ]

unfoldable pub reconcile_next_rack : Settings → StatefulSet → M (Unit {0})
reconcile_next_rack cfg sts = do
  set_operator_progress_status cfg progress_updating
  perform cfg (create_stateful_set sts)

unfoldable pub create_racks : Settings → (i : ℕ) → List RackInformation → M ReconcileResult
create_racks cfg i [] = pure continue_reconcile
create_racks cfg i (info ∷ infos) = do
  answer ← get_stateful_set_for_rack cfg info
  if answer.1 then pure tt else reconcile_next_rack cfg answer.0
  store_stateful_set i answer.0
  create_racks cfg (i + 1) infos

unfoldable pub check_rack_creation : Settings → M ReconcileResult
check_rack_creation cfg = create_racks cfg 0 cfg.desired_rack_information

unfoldable pub label_racks : Settings → (i : ℕ) → List RackInformation → M ReconcileResult
label_racks cfg i [] = pure continue_reconcile
label_racks cfg i (info ∷ infos) = do
  sts ← stateful_set_at i
  s ← get
  let (update, labels) = should_update_labels_for_rack_resource sts.labels s.dc info.rack_name
  if update
      then (do
        store_stateful_set i (record sts { labels = labels })
        perform cfg (patch_stateful_set (record sts { labels = labels })))
      else pure tt
  label_racks cfg (i + 1) infos

unfoldable pub check_rack_labels : Settings → M ReconcileResult
check_rack_labels cfg = label_racks cfg 0 cfg.desired_rack_information
