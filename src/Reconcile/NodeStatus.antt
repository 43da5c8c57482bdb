-- ===== src/Reconcile/NodeStatus.antt =====
-- The status of nodes and of their replacement: UpdateStatus and what it calls.
use cass_operator.Prelude.{
  ℕ, String, Bool, false, not, ◌&&◌, ◌||◌, List, [], ◌∷◌, Option, none, some, ◌==◌, leb, ltb,
  insert, contains, if◌then◌else◌, string_eq, nat_eq,
}
use cass_operator.Result.{ReconcileResult, continue_reconcile}
use cass_operator.Passing.{pure, ◌>>=◌, ◌>>◌}
use cass_operator.Datacenter.{Datacenter, Status, Condition, replacing_nodes, status_true}
use cass_operator.Conditions.{get_condition, set_condition, new_datacenter_condition, status_eq}
use cass_operator.Pods.{Pod, value_at, is_mgmt_api_running, has_been_x_minutes}
use cass_operator.Pods.Filters.{list_all_started_pods}
use cass_operator.Watches.Lists.{
  remove_value_from_string_array, append_values_to_string_array_if_not_present,
}
use cass_operator.Startup.World.{Endpoint, get_rpc_address}
use cass_operator.Reconcile.World.{Settings, M, get, put, perform, patch_datacenter, patch_status}
use cass_operator.Reconcile.Progress.{with_status}

unfoldable pub find_host_id_for_ip : List Endpoint → (ip : String) → String
find_host_id_for_ip [] ip = ""
find_host_id_for_ip (ep ∷ eps) ip =
    let rest = find_host_id_for_ip eps ip in if get_rpc_address ep == ip then ep.host_id else rest

-- The address under which a node is known: the host's if its ports are the host's
unfoldable pub get_pod_rpc_address : Datacenter → Pod → String
get_pod_rpc_address dc p = elim dc.spec.networking [
  | none ↦ p.pod_ip
  | some networking ↦ if networking.host_network then p.host_ip else elim networking.node_port [
    | none ↦ p.pod_ip
    | some ports ↦
        if ltb 0 ports.internode || ltb 0 ports.internode_ssl then p.host_ip else p.pod_ip
  ]
]

-- A host ID is looked for once, where the pod answers; `endpoints` is the pod's answer, if there is one.
unfoldable pub host_id_of :
    (now : ℕ)
    → (endpoints : Pod → Option (List Endpoint)) → Datacenter
    → Pod
    → (known : String) → String
host_id_of now endpoints dc p known =
    if not (p.pod_ip == "") && (is_mgmt_api_running now p && known == "")
    then elim (endpoints p) [
      | none ↦ known
      | some eps ↦ find_host_id_for_ip eps (get_pod_rpc_address dc p)
    ]
    else known

-- UpdateCassandraNodeStatus. The answers of the pods do not depend on one another.
unfoldable pub update_cassandra_node_status :
    (now : ℕ)
    → (endpoints : Pod → Option (List Endpoint)) → Datacenter
    → List Pod
    → List (String × String)
    → List (String × String)
update_cassandra_node_status now endpoints dc [] statuses = statuses
update_cassandra_node_status now endpoints dc (p ∷ ps) statuses =
    update_cassandra_node_status now endpoints dc ps
      (insert p.name (host_id_of now endpoints dc p (value_at p.name statuses)) statuses)

-- When the replacement of nodes began, if one is under way
unfoldable pub get_time_started_replacing_nodes : List Condition → Option ℕ
get_time_started_replacing_nodes conditions = elim (get_condition replacing_nodes conditions) [
  | none ↦ none
  | some c ↦ if c.status == status_true then some c.last_transition_time else none
]

-- A started pod is the new one if it was created since, or if half an hour has passed.
unfoldable pub is_replaced : (now : ℕ) → (started : Option ℕ) → Pod → Bool
is_replaced now none p = false
is_replaced now (some started) p =
    has_been_x_minutes 30 now started || leb started p.creation_timestamp

unfoldable pub clear_replaced :
    (now : ℕ) → (started : Option ℕ) → List Pod → List String → List String
clear_replaced now started [] replacements = replacements
clear_replaced now started (p ∷ ps) replacements = clear_replaced now started ps (
    if contains p.name replacements && is_replaced now started p
    then remove_value_from_string_array replacements p.name
    else replacements)

unfoldable pub update_current_replace_pods_progress :
    (now : ℕ) → List Condition → List Pod → List String → List String
update_current_replace_pods_progress now conditions pods replacements =
    clear_replaced now (get_time_started_replacing_nodes conditions) (list_all_started_pods pods)
      replacements

-- The pods of the specification go to the status, and the condition is set.
unfoldable pub start_replace_pods_if_specified :
    (now : ℕ) → (replace_nodes : List String) → Status → Status
start_replace_pods_if_specified now [] status = status
start_replace_pods_if_specified now (p ∷ ps) status = record status {
  conditions =
      (set_condition now (new_datacenter_condition replacing_nodes status_true)
        status.conditions).1;
  node_replacements =
      append_values_to_string_array_if_not_present status.node_replacements (p ∷ ps);
}

-- The new status
unfoldable pub next_status :
    (now : ℕ) → (endpoints : Pod → Option (List Endpoint)) → Datacenter → List Pod → Status
next_status now endpoints dc pods =
    start_replace_pods_if_specified now dc.spec.replace_nodes (record dc.status {
      node_statuses = update_cassandra_node_status now endpoints dc pods dc.status.node_statuses;
      node_replacements =
          update_current_replace_pods_progress now dc.status.conditions pods
            dc.status.node_replacements;
    })

abbrev without_replace_nodes : Datacenter → Datacenter
without_replace_nodes dc = record dc { spec = record dc.spec { replace_nodes = [] } }

-- The specification is patched first, if it changed; the old status stands in it until then.
unfoldable pub patch_spec : Settings → Datacenter → M (Unit {0})
patch_spec cfg dc = elim dc.spec.replace_nodes [
  | [] ↦ pure tt
  | p ∷ ps ↦ (do
    s ← get
    put (record s { dc = without_replace_nodes dc })
    perform cfg (patch_datacenter (without_replace_nodes dc)))
]

-- `same` is reflect.DeepEqual on statuses.
unfoldable pub patch_new_status :
    Settings → (same : Status → Status → Bool) → (old new : Status) → M (Unit {0})
patch_new_status cfg same old new = do
  s ← get
  let dc = with_status s.dc new
  if same new old then pure tt else (do put (record s { dc = dc }); perform cfg (patch_status dc))

unfoldable pub update_status :
    Settings
    → (same : Status → Status → Bool) → (endpoints : Pod → Option (List Endpoint))
    → M ReconcileResult
update_status cfg same endpoints = do
  s ← get
  patch_spec cfg s.dc
  patch_new_status cfg same s.dc.status (next_status cfg.now endpoints s.dc s.dc_pods)
  pure continue_reconcile
