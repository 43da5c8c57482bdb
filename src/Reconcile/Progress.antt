-- ===== src/Reconcile/Progress.antt =====
-- Changes of the datacenter's status that several stages make: setOperatorProgressStatus of constructor.go,
-- enableQuietPeriod, setCondition and UpdateRackNodeCount of reconcile_racks.go.
use cass_operator.Prelude.{ℕ, ◌+◌, Bool, true, false, if◌then◌else◌}
use cass_operator.Passing.{pure, ◌>>=◌, ◌>>◌}
use cass_operator.Templates.{StatefulSet}
use cass_operator.Datacenter.{
  Datacenter, Status, ProgressState, progress_none, progress_updating, progress_ready,
  ConditionType, ConditionStatus,
}
use cass_operator.Conditions.{set_condition, new_datacenter_condition}
use cass_operator.Reconcile.World.{
  Settings, M, get, put, perform, patch_status, patch_stateful_set, store_stateful_set,
}

abbrev same_progress : ProgressState → ProgressState → Bool
same_progress progress_none progress_none = true
same_progress progress_updating progress_updating = true
same_progress progress_ready progress_ready = true
same_progress progress_none progress_updating = false
same_progress progress_none progress_ready = false
same_progress progress_updating progress_none = false
same_progress progress_updating progress_ready = false
same_progress progress_ready progress_none = false
same_progress progress_ready progress_updating = false

abbrev is_ready : ProgressState → Bool
is_ready progress_none = false
is_ready progress_updating = false
is_ready progress_ready = true

abbrev pub with_status : Datacenter → Status → Datacenter
with_status dc status = record dc { status = status }

-- The status is changed in memory.
unfoldable pub change_status : (Status → Status) → M (Unit {0})
unfolding get put
change_status change = do s ← get; put (record s { dc = with_status s.dc (change s.dc.status) })

-- The status as it is in memory goes to the cluster.
unfoldable pub patch_dc_status : Settings → M (Unit {0})
unfolding get perform
patch_dc_status cfg = do s ← get; perform cfg (patch_status s.dc)

abbrev progress_to : Datacenter → ProgressState → Status → Status
progress_to dc new status = record status {
  cassandra_operator_progress = new;
  observed_generation = if is_ready new then dc.generation else status.observed_generation;
}

unfoldable pub set_operator_progress_status : Settings → ProgressState → M (Unit {0})
set_operator_progress_status cfg new = do
  s ← get
  if same_progress s.dc.status.cassandra_operator_progress new
      then pure tt
      else (do change_status (progress_to s.dc new); patch_dc_status cfg)

unfoldable pub enable_quiet_period : Settings → (seconds : ℕ) → M (Unit {0})
enable_quiet_period cfg seconds = do
  change_status (λ status. record status { quiet_period = cfg.now + seconds })
  patch_dc_status cfg

-- Whether the condition's status changed
unfoldable pub set_dc_condition : Settings → ConditionType → ConditionStatus → M Bool
unfolding get put
set_dc_condition cfg type status = do
  s ← get
  let (updated, conditions) =
      set_condition cfg.now (new_datacenter_condition type status) s.dc.status.conditions
  put (record s { dc = with_status s.dc (record s.dc.status { conditions = conditions }) })
  pure updated

unfoldable pub patch_if : Settings → Bool → M (Unit {0})
patch_if cfg true = patch_dc_status cfg
patch_if cfg false = pure tt

-- UpdateRackNodeCount on the set of the index
unfoldable pub update_rack_node_count : Settings → ℕ → StatefulSet → (count : ℕ) → M (Unit {0})
update_rack_node_count cfg i sts count = do
  set_operator_progress_status cfg progress_updating
  store_stateful_set i (record sts { replicas = count })
  perform cfg (patch_stateful_set (record sts { replicas = count }))
