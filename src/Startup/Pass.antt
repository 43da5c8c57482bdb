-- ===== src/Startup/Pass.antt =====
-- startOneNodePerRack, startAllNodes and CheckPodsReady.
use cass_operator.Prelude.{
  ℕ, String, Bool, true, false, not, ◌&&◌, List, [], ◌∷◌, Option, none, some, ◌==◌, ltb, leb,
  length, count_if, if◌then◌else◌, string_eq, nat_eq, insert, any,
}
use cass_operator.Result.{
  Outcome, ok, err, ReconcileResult, continue_reconcile, done, call_back_soon, error_out,
}
use cass_operator.Pods.{
  Pod, rack_of, is_server_ready, is_server_started, is_server_ready_to_start, is_mgmt_api_running,
  seed_node_label, state_started, count_ready_and_started,
}
use cass_operator.Pods.Filters.{filter_pod_list_by_cass_node_state}
use cass_operator.Passing.{fail, pure, ◌>>=◌, ◌>>◌}
use cass_operator.Startup.World.{
  Settings, State, M, is_answered, cluster_pods, dc_pods, patch_label, with_labels, probe,
}
use cass_operator.Startup.Ops.{
  first_pod, start_cassandra, find_started_not_ready_nodes, delete_stuck_nodes, refresh_seeds,
  find_starting_nodes,
}
use cass_operator.Startup.Seeds.{check_seed_labels}

-- rackReadyCount
unfoldable pub rack_ready_count : List Pod → (rack : String) → ℕ
rack_ready_count pods rack = count_if (λ p. is_server_ready p && rack_of p == rack) pods

unfoldable pub can_start_in : (now : ℕ) → (rack : String) → Pod → Bool
can_start_in now rack p =
    is_server_ready_to_start p && is_mgmt_api_running now p && rack_of p == rack

-- The first node of a cluster is made a seed before it starts. The five seconds' sleep leaves no trace.
unfoldable pub start_in_rack : Settings → (label_seed_before_start : Bool) → Pod → M (Unit {0})
start_in_rack cfg true p = do
  patch_label cfg p seed_node_label "true"
  start_cassandra cfg (with_labels (insert seed_node_label "true" p.labels) p)
start_in_rack cfg false p = start_cassandra cfg p

-- The loop over the racks; `waiting` is the last rack met without a ready node.
unfoldable pub start_in_racks :
    Settings
    → (label_seed_before_start : Bool) → List Pod
    → (waiting : String) → (racks : List String) → M String
start_in_racks cfg seed pods waiting [] = pure waiting
start_in_racks cfg seed pods waiting (rack ∷ racks) =
    let skip = start_in_racks cfg seed pods waiting racks in
    let next = start_in_racks cfg seed pods rack racks in
    if ltb 0 (rack_ready_count pods rack)
    then skip
    else elim (first_pod (can_start_in cfg.now rack) pods) [
      | none ↦ next
      | some p ↦ start_in_rack cfg seed p >>= λ _. pure rack
    ]

unfoldable pub start_one_node_per_rack : Settings → (ready_seeds : ℕ) → M String
start_one_node_per_rack cfg ready_seeds = do
  pods ← dc_pods
  let seed = ready_seeds == 0 && length cfg.additional_seeds == 0
  start_in_racks cfg seed pods "" cfg.rack_order

unfoldable pub is_down : (now : ℕ) → Pod → Bool
is_down now p = is_mgmt_api_running now p && not (is_server_ready p) && not (is_server_started p)

unfoldable pub start_or_wait : Settings → List Pod → Option Pod → M Bool
start_or_wait cfg pods (some p) = do start_cassandra cfg p; pure true
start_or_wait cfg pods none = pure (any (λ p. not (is_mgmt_api_running cfg.now p)) pods)

-- Whether a node is not running or not ready yet
unfoldable pub start_all_nodes : Settings → M Bool
start_all_nodes cfg = do pods ← dc_pods; start_or_wait cfg pods (first_pod (is_down cfg.now) pods)

unfoldable pub probe_each : Settings → List Pod → M Bool
probe_each cfg [] = pure true
probe_each cfg (p ∷ ps) = do
  answered ← is_answered cfg (probe p)
  if answered then probe_each cfg ps else pure false

unfoldable pub is_cluster_healthy : Settings → M Bool
is_cluster_healthy cfg = do
  pods ← cluster_pods
  probe_each cfg (filter_pod_list_by_cass_node_state pods state_started)

-- The last check: every replacement over, and enough pods ready and started.
unfoldable pub count_pods : Settings → M ReconcileResult
count_pods cfg = do
  pods ← dc_pods
  let counts = count_ready_and_started pods
  if ltb 0 (length cfg.node_replacements)
      then pure (call_back_soon 2)
      else if leb cfg.size counts.0 && leb cfg.size counts.1
      then pure continue_reconcile
      else fail "checks failed"

-- Step 3 on
unfoldable pub start_remaining : Settings → M ReconcileResult
start_remaining cfg = do
  healthy ← is_cluster_healthy cfg
  if healthy
      then (do
        needs_more_nodes ← start_all_nodes cfg
        if needs_more_nodes then pure (call_back_soon 2) else count_pods cfg)
      else pure (call_back_soon 2)

-- Steps 1 and 2, and then step 3
unfoldable pub start_nodes : Settings → (seed_count : ℕ) → M ReconcileResult
start_nodes cfg seed_count = do
  starting ← find_starting_nodes cfg
  if starting.0 then pure (call_back_soon 2) else (do
    rack_waiting ← start_one_node_per_rack cfg seed_count
    if rack_waiting == "" then start_remaining cfg else pure (call_back_soon 2))

-- The seeds, before any node is started
unfoldable pub label_and_start : Settings → M ReconcileResult
label_and_start cfg = do
  seed_count ← check_seed_labels cfg cfg.desired_rack_information
  refresh_seeds cfg
  start_nodes cfg seed_count

unfoldable pub tend_pods : Settings → M ReconcileResult
tend_pods cfg = do
  lost ← find_started_not_ready_nodes cfg
  if lost
      then pure (call_back_soon 2)
      else (do deleted ← delete_stuck_nodes cfg; if deleted then pure done else label_and_start cfg)

abbrev pub result_of : Outcome ReconcileResult → ReconcileResult
result_of (ok r) = r
result_of (err e) = error_out e

unfoldable pub check_pods_ready : Settings → State → ReconcileResult × State
check_pods_ready cfg s =
    if cfg.stopped
    then (continue_reconcile, s)
    else let (r, s') = tend_pods cfg s in (result_of r, s')
