-- ===== src/Startup/Ops.antt =====
-- The operations on pods: readiness regained or lost, stuck pods, starts.
use cass_operator.Prelude.{
  ℕ, String, Bool, true, false, not, ◌&&◌, ◌||◌, List, [], ◌∷◌, Option, none, some, ◌==◌, contains,
  if◌then◌else◌, string_eq, nat_eq,
}
use cass_operator.Result.{Outcome, ok, err}
use cass_operator.Pods.{
  Pod, value_at, is_server_ready, is_server_starting, is_server_started_not_ready,
  did_server_lose_readiness, is_node_stuck_after_terminating, is_node_stuck_after_losing_readiness,
  cass_node_state, state_started, state_started_not_ready, state_starting,
}
use cass_operator.Pods.Filters.{filter_pod_list_by_cass_node_state}
use cass_operator.Passing.{lift_outcome, pure, ◌>>=◌, ◌>>◌}
use cass_operator.Startup.World.{
  Endpoint, get_rpc_address, Settings, M, perform, cluster_pods, dc_pods, patch_label, start,
  start_replacing, patch_status, delete_pod, reload_seeds,
}

-- A loop that returns at the first pod that passes
unfoldable pub first_pod : (Pod → Bool) → List Pod → Option Pod
first_pod test [] = none
first_pod test (p ∷ ps) = if test p then some p else first_pod test ps

-- Whether the loop of findStartedNotReadyNodes stops at the pod
unfoldable pub changed_readiness : Pod → Bool
changed_readiness p =
    did_server_lose_readiness p || (is_server_started_not_ready p && is_server_ready p)

unfoldable pub relabel_readiness : Settings → Option Pod → M Bool
relabel_readiness cfg none = pure false
relabel_readiness cfg (some p) =
    if did_server_lose_readiness p
    then (do patch_label cfg p cass_node_state state_started_not_ready; pure true)
    else (do patch_label cfg p cass_node_state state_started; pure false)

-- Whether a pod lost its readiness
unfoldable pub find_started_not_ready_nodes : Settings → M Bool
find_started_not_ready_nodes cfg = do
  pods ← dc_pods
  relabel_readiness cfg (first_pod changed_readiness pods)

unfoldable pub is_stuck : (now : ℕ) → Pod → Bool
is_stuck now p = is_node_stuck_after_terminating now p || is_node_stuck_after_losing_readiness now p

unfoldable pub delete_found : Settings → Option Pod → M Bool
delete_found cfg none = pure false
delete_found cfg (some p) = do perform cfg (delete_pod p); pure true

unfoldable pub delete_stuck_nodes : Settings → M Bool
delete_stuck_nodes cfg = do pods ← dc_pods; delete_found cfg (first_pod (is_stuck cfg.now) pods)

unfoldable pub reload_each : Settings → List Pod → M (Unit {0})
reload_each cfg [] = pure tt
reload_each cfg (p ∷ ps) = do perform cfg (reload_seeds p); reload_each cfg ps

unfoldable pub refresh_seeds : Settings → M (Unit {0})
refresh_seeds cfg = do
  pods ← cluster_pods
  if cfg.stopped
      then pure tt
      else reload_each cfg (filter_pod_list_by_cass_node_state pods state_started)

-- Whether a pod is starting; and whether one has just started.
unfoldable pub settle_starting : Settings → Option Pod → M (Bool × Bool)
settle_starting cfg none = pure (false, false)
settle_starting cfg (some p) =
    if is_server_ready p
    then (do patch_label cfg p cass_node_state state_started; pure (false, true))
    else pure (true, false)

unfoldable pub find_starting_nodes : Settings → M (Bool × Bool)
find_starting_nodes cfg = do
  pods ← cluster_pods
  settle_starting cfg (first_pod is_server_starting pods)

find_ip : (host_id : String) → List Endpoint → String
find_ip host_id [] = ""
find_ip host_id (ep ∷ eps) =
    if ep.host_id == host_id && not (get_rpc_address ep == "")
    then get_rpc_address ep
    else find_ip host_id eps

unfoldable pub find_ip_for_host_id : List Endpoint → (host_id : String) → Outcome String
unfolding find_ip
find_ip_for_host_id [] host_id = err "no pods available to ask for the IP address"
find_ip_for_host_id (ep ∷ eps) host_id = ok (find_ip host_id (ep ∷ eps))

-- The address of the node that the pod is to replace; the empty one if it replaces none.
unfoldable pub replace_address : Settings → Pod → Outcome String
replace_address cfg p =
    let host_id = value_at p.name cfg.node_statuses in
    if contains p.name cfg.node_replacements && not (host_id == "")
    then find_ip_for_host_id cfg.endpoints host_id
    else ok ""

unfoldable pub stamp_start : Settings → M (Unit {0})
stamp_start cfg s = (ok tt, record s { last_server_node_started = cfg.now })

unfoldable pub label_server_pod_starting : Settings → Pod → M (Unit {0})
label_server_pod_starting cfg p = do
  patch_label cfg p cass_node_state state_starting
  stamp_start cfg
  perform cfg (patch_status cfg.now)

unfoldable pub start_cassandra : Settings → Pod → M (Unit {0})
start_cassandra cfg p = do
  address ← lift_outcome (replace_address cfg p)
  perform cfg (if address == "" then start p else start_replacing p address)
  label_server_pod_starting cfg p
