-- ===== src/Handler.antt =====
-- The handler of a reconcile request: operator/pkg/reconciliation/handler.go, and the deletion of a datacenter:
-- operator/pkg/reconciliation/reconcile_datacenter.go.
pub mod Deletion
mod Examples
use cass_operator.Prelude.{
  ℕ, String, ◌+◌, ◌-◌, Bool, true, false, not, ◌&&◌, List, [], ◌∷◌, ◌++◌, Option, none, some, ◌==◌,
  ltb, contains, filter, map, lookup, insert, Eq, if◌then◌else◌, string_eq,
}
use cass_operator.Result.{Outcome, ok, err, ReconcileResult, continue_reconcile, done, Requeue}
use cass_operator.Passing.{pure, fail, ◌>>=◌, ◌>>◌}
use cass_operator.Datacenter.{Datacenter, Status, progress_updating}
use cass_operator.Pods.{Pod}
use cass_operator.Reconcile.World.{
  Settings, State, M, Answer, found, not_found, failed, Call, Claim, get, put, perform, attempt,
  remove_watcher, delete_claim, update_datacenter,
}
use cass_operator.Reconcile.Progress.{set_operator_progress_status}
use cass_operator.Reconcile.Secrets.{validate_superuser_secret, validate_cassandra_user_secrets}

-- A namespace and a name
abbrev pub DcName : Type 0
DcName = String × String

unfoldable pub same_dc : DcName → DcName → Bool
same_dc a b = a.0 == b.0 && a.1 == b.1

abbrev pub NodeMap : Type 0
NodeMap = List (String × List DcName)

unfoldable pub datacenters_for_node : (node_name : String) → NodeMap → List DcName
datacenters_for_node node_name nodes = elim (lookup node_name nodes) [ none ↦ [] | some dcs ↦ dcs ]

unfoldable pub remove_dc_from_node_to_dc_map : DcName → NodeMap → NodeMap
remove_dc_from_node_to_dc_map dc [] = []
remove_dc_from_node_to_dc_map dc ((node_name, dcs) ∷ nodes) =
    (node_name, filter (λ d. not (same_dc d dc)) dcs) ∷ remove_dc_from_node_to_dc_map dc nodes

has_dc : DcName → List DcName → Bool
has_dc dc [] = false
has_dc dc (d ∷ dcs) = let rest = has_dc dc dcs in if same_dc d dc then true else rest

unfoldable pub add_dc : DcName → (node_name : String) → NodeMap → NodeMap
unfolding has_dc
add_dc dc node_name nodes =
    let dcs = datacenters_for_node node_name nodes in
    if has_dc dc dcs then nodes else insert node_name (dcs ++ (dc ∷ [])) nodes

-- updateDcMaps, on the listed pods of the datacenter, whose namespace is `namespace`
unfoldable pub update_dc_maps : DcName → List Pod → NodeMap → NodeMap
update_dc_maps dc [] nodes = nodes
update_dc_maps dc (p ∷ ps) nodes = update_dc_maps dc ps (add_dc dc p.node_name nodes)

unfoldable pub delete_claims : Settings → List Claim → M (Unit {0})
delete_claims cfg [] = pure tt
delete_claims cfg (claim ∷ claims) = do perform cfg (delete_claim claim); delete_claims cfg claims

-- `list` is listPVCs: the claims that have the datacenter's label.
unfoldable pub delete_pvcs : Settings → (list : List Call → Answer (List Claim)) → M (Unit {0})
delete_pvcs cfg list = do
  s ← get
  elim (list s.trace) [
    | found claims ↦ delete_claims cfg claims
    | not_found ↦ pure tt
    | failed e ↦ fail e
  ]

-- With PSP the datacenter is taken off the map.
unfoldable pub forget_nodes : Settings → M (Unit {0})
forget_nodes cfg = do
  s ← get
  if cfg.around.psp_enabled
      then put (record s {
        node_to_dc = remove_dc_from_node_to_dc_map (s.dc.namespace, s.dc.name) s.node_to_dc;
      })
      else pure tt

unfoldable pub set_finalizers : Settings → List String → M (Unit {0})
set_finalizers cfg finalizers = do
  s ← get
  put (record s { dc = record s.dc { finalizers = finalizers } })
  perform cfg (update_datacenter (record s.dc { finalizers = finalizers }))

-- A failure to remove the watches is logged.
unfoldable pub delete_datacenter :
    Settings → (list : List Call → Answer (List Claim)) → M ReconcileResult
delete_datacenter cfg list = do
  set_operator_progress_status cfg progress_updating
  attempt cfg remove_watcher
  delete_pvcs cfg list
  forget_nodes cfg
  set_finalizers cfg []
  pure done

unfoldable pub process_deletion :
    Settings → (list : List Call → Answer (List Claim)) → M ReconcileResult
process_deletion cfg list = do
  s ← get
  if s.dc.is_deleted then delete_datacenter cfg list else pure continue_reconcile

unfoldable pub add_finalizer : Settings → M (Unit {0})
add_finalizer cfg = do
  s ← get
  elim s.dc.finalizers [
    | [] ↦
        if s.dc.is_deleted
        then pure tt
        else set_finalizers cfg ("finalizer.cassandra.datastax.com" ∷ [])
    | f ∷ fs ↦ pure tt
  ]

-- What the handler reads of a claim's own specification
pub record ClaimReader : Type 0 where
  pub storage_class_name : String → String  -- empty where there is none
  pub has_access_modes : String → Bool

check_claim : ClaimReader → Option String → Outcome (Unit {0})
check_claim reader none = err "storageConfig.cassandraDataVolumeClaimSpec is required"
check_claim reader (some claim) =
    if reader.storage_class_name claim == ""
    then err "storageConfig.cassandraDataVolumeClaimSpec.storageClassName is required"
    else if reader.has_access_modes claim
    then ok tt
    else err "storageConfig.cassandraDataVolumeClaimSpec.accessModes is required"

-- `management_errors` are those of ValidateManagementApiConfig.
unfoldable pub is_valid :
    (is_utf8 : String → Bool)
    → ClaimReader
    → Settings
    → (management_errors : List String) → State
    → Outcome (Unit {0})
unfolding check_claim
is_valid is_utf8 reader cfg management_errors s =
    elim (validate_superuser_secret is_utf8 cfg s
      ++ (validate_cassandra_user_secrets is_utf8 cfg s ++ management_errors)) [
        | [] ↦ check_claim reader s.dc.spec.storage_config.cassandra_data_volume_claim_spec
        | e ∷ es ↦ err e
      ]

-- For how long a reconciliation is put off: twenty seconds after the last start of a node, and in a quiet period.
unfoldable pub cooldown : (now : ℕ) → Status → Option ℕ
cooldown now status =
    if ltb now (status.last_server_node_started + 20)
    then some (1 + (status.last_server_node_started + 20 - now))
    else if ltb now status.quiet_period
    then some (1 + (status.quiet_period - now))
    else none

abbrev no_requeue : Requeue
no_requeue = record { requeue = false; requeue_after = 0 }

-- Reconcile: `context` is the outcome of CreateReconciliationContext, `actions` is calculateReconciliationActions.
unfoldable pub reconcile :
    (now : ℕ)
    → (context : Answer State) → (valid : State → Outcome (Unit {0}))
    → (actions : State → (Requeue × Option String) × State)
    → (Requeue × Option String) × Option State
reconcile now context valid actions = elim context [
  | not_found ↦ ((no_requeue, none), none)
  | failed e ↦ ((no_requeue, some e), none)
  | found s ↦ elim (valid s) [
    | err e ↦ ((no_requeue, some e), some s)
    | ok u ↦ elim (cooldown now s.dc.status) [
      | some secs ↦ ((record { requeue = true; requeue_after = secs }, none), some s)
      | none ↦ let (answer, s') = actions s in (answer, some s')
    ]
  ]
]
